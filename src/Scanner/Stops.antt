-- ===== src/Scanner/Stops.antt =====
-- Why a traversal stops, and what the caller's arguments rule out.
use usb_sentinel.Prelude.{◌≡◌, refl, ◌∙◌, inl, inr, true, false, ◌&&◌, Bool-cases, arith}
use usb_sentinel.Platform.{Visit}
use usb_sentinel.Scanner.Steps.{Step, counted, excluded, failed, stopped, Steps, done, step}
use usb_sentinel.Scanner.Traversal.{walk_dir-Run}
use usb_sentinel.Scanner.Walk.{
  Setup, TraverseState, classify_path_failure, count_file, is_excluded, is_stopped, walk_dir,
}

-- What a later state may differ in.
pub record Allowed (w : Setup) (st last : TraverseState) : Type 0 where
  pub one_reason : (last.cancelled && last.device_removed) ≡ false
  pub asked : w.has_cancel_check ≡ false → last.cancelled ≡ st.cancelled
  pub tuned : w.location_policy ≡ false → last.paths_excluded ≡ st.paths_excluded

Allowed-refl : {w : Setup} (st : TraverseState) → is_stopped st ≡ false → Allowed w st st
Allowed-refl st live = record {
  one_reason = ground (arith, live);
  asked = λ h. refl;
  tuned = λ h. refl;
}

Allowed-stuck :
    {w : Setup} {st mid last : TraverseState}
    → Steps w mid last
    → is_stopped mid ≡ true
    → Allowed w st mid
    → Allowed w st last
Allowed-stuck done halted a = a
Allowed-stuck (step live s rest) halted a = absurd (ground (arith, halted, live))

Allowed-trans :
    {w : Setup} {st mid last : TraverseState}
    → Allowed w st mid
    → Allowed w mid last
    → Allowed w st last
Allowed-trans a b = record {
  one_reason = b.one_reason;
  asked = λ h. b.asked h ∙ a.asked h;
  tuned = λ h. b.tuned h ∙ a.tuned h;
}

Step-Allowed :
    {w : Setup} {st mid : TraverseState} → is_stopped st ≡ false → Step w st mid → Allowed w st mid
unfolding count_file classify_path_failure is_excluded
Step-Allowed live (counted path entry seen) = record {
  one_reason = ground (arith, live);
  asked = λ h. refl;
  tuned = λ h. refl;
}
Step-Allowed live (excluded path e) = record {
  one_reason = ground (arith, live);
  asked = λ h. refl;
  tuned = λ h. absurd (ground (arith, h, e));
}
Step-Allowed live (failed true) = record {
  one_reason = ground (arith, live);
  asked = λ h. refl;
  tuned = λ h. refl;
}
Step-Allowed live (failed false) = record {
  one_reason = ground (arith, live);
  asked = λ h. refl;
  tuned = λ h. refl;
}
Step-Allowed live (stopped e) = record {
  one_reason = ground (arith, live);
  asked = λ h. absurd (ground (arith, h, e));
  tuned = λ h. refl;
}

Steps-Allowed :
    {w : Setup} {st last : TraverseState}
    → is_stopped st ≡ false
    → Steps w st last
    → Allowed w st last
Steps-Allowed live done = Allowed-refl _ live
Steps-Allowed {w} {st} {last} live (step {mid = mid} h s rest) =
    elim (Bool-cases (is_stopped mid)) [
      | inl halted ↦ Allowed-stuck rest halted (Step-Allowed live s)
      | inr more ↦ Allowed-trans (Step-Allowed live s) (Steps-Allowed more rest)
    ]

-- From a state that is not stopped, a walk of the root does not end both cancelled and removed;
-- without a cancel check it does not end cancelled, and without the location policy it excludes
-- nothing.
pub walk_dir-Allowed :
    (w : Setup) (visit : Visit) (st : TraverseState)
    → is_stopped st ≡ false
    → Allowed w st (walk_dir w w.root_path 0 visit st).1
walk_dir-Allowed w visit st live = elim (walk_dir-Run w visit st live) [
  | inl r ↦ Steps-Allowed live r.steps
  | inr (status, reachable, e, out) ↦ rw out (Allowed-refl st live)
]
