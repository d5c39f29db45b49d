-- ===== src/Scanner/Traversal.antt =====
-- The traversal makes the steps of the machine, and fails nowhere but at the root.
use usb_sentinel.Prelude.{
  ℕ, suc, ◌≤◌, ◌≡◌, refl, ◌∙◌, inl, inr, Bool, false, CString, ltb, ◌==◌, arith, Bool-cases, ◌⊎◌,
}
use usb_sentinel.Platform.{Visit, Listing, refuses, opens, ends, cancels, fails, lists}
use usb_sentinel.Scanner.Steps.{
  Reaches, root, failed, stopped, Steps, done, step, Steps-trans, Disposed, same, moved, entered,
  dispose-Disposed,
}
use usb_sentinel.Scanner.Walk.{
  scan_max_depth, Setup, TraverseState, Disposition, pass, descend, dispose, is_stopped,
  after_child, walk_dir, list_dir,
}
use usb_sentinel.Status.{Status, ok}

-- What a walk below the root answers.
pub record Run (w : Setup) (st : TraverseState) (out : Status × TraverseState) : Type 0 where
  pub steps : Steps w st out.1
  pub fine : out.0 ≡ ok

Run-idle : {w : Setup} (st : TraverseState) → Run w st (ok, st)
Run-idle st = record { steps = done; fine = refl }

Run-after :
    {w : Setup} {st mid : TraverseState} {out : Status × TraverseState}
    → Steps w st mid
    → Run w mid out
    → Run w st out
Run-after s r = record { steps = Steps-trans s r.steps; fine = r.fine }

after_child-Run :
    (w : Setup) (st : TraverseState) (out : Status × TraverseState)
    (rest : TraverseState → Status × TraverseState)
    → Run w st out
    → ((mid : TraverseState) → is_stopped mid ≡ false → Run w mid (rest mid))
    → Run w st (after_child out rest)
unfolding after_child
after_child-Run w st (status, mid) rest r more = elim (Bool-cases (is_stopped mid)) [
  | inl halted ↦ simp (r.fine, halted) (record { steps = r.steps; fine = refl })
  | inr live ↦ simp (r.fine, live) (Run-after r.steps (more mid live))
]

lists_loop :
    (w : Setup) (dir : CString) (depth : ℕ) (visit : Visit) (rest : Listing) (st : TraverseState)
    (d : Disposition)
    → Disposed w depth st d
    → is_stopped st ≡ false
    → ((path : CString)
        → Reaches w (suc depth) path
        → Run w st (walk_dir w path (suc depth) visit st))
    → ((mid : TraverseState) → is_stopped mid ≡ false → Run w mid (list_dir w dir depth rest mid))
    → Run w st (elim d [
      | pass st' ↦ list_dir w dir depth rest st'
      | descend child ↦
          after_child (walk_dir w child (suc depth) visit st) (λ st'. list_dir w dir depth rest st')
    ])
lists_loop w dir depth visit rest st (pass st') same live below more = more st' live
lists_loop w dir depth visit rest st (pass st') (moved s kept) live below more =
    Run-after (step live s done) (more st' (kept ∙ live))
lists_loop w dir depth visit rest st (descend path) (entered r) live below more =
    after_child-Run w st (walk_dir w path (suc depth) visit st)
      (λ st'. list_dir w dir depth rest st') (below path r) more

below_root : (depth : ℕ) → (suc depth == 0) ≡ false
below_root depth = ground arith

mutual
  unfolding walk_dir list_dir

  walk_below :
      (w : Setup) (dir : CString) (depth : ℕ) (visit : Visit) (st : TraverseState)
      → Reaches w (suc depth) dir
      → Run w st (walk_dir w dir (suc depth) visit st)
  walk_below w dir depth (refuses status reachable) st r = elim (Bool-cases (is_stopped st)) [
    | inl halted ↦ rw (halted, walk_dir) (Run-idle st)
    | inr live ↦ elim (Bool-cases (ltb scan_max_depth (suc depth))) [
      | inl deep ↦ rw (live, deep, walk_dir) (Run-idle st)
      | inr shallow ↦
          rw (live, shallow, below_root depth, walk_dir)
            (record { steps = step live (failed reachable) done; fine = refl })
    ]
  ]
  walk_below w dir depth (opens listing) st r = elim (Bool-cases (is_stopped st)) [
    | inl halted ↦ rw (halted, walk_dir) (Run-idle st)
    | inr live ↦ elim (Bool-cases (ltb scan_max_depth (suc depth))) [
      | inl deep ↦ rw (live, deep, walk_dir) (Run-idle st)
      | inr shallow ↦
          rw (live, shallow, walk_dir)
            (list_below w dir (suc depth) listing st r (ground arith) live)
    ]
  ]

  list_below :
      (w : Setup) (dir : CString) (depth : ℕ) (listing : Listing) (st : TraverseState)
      → Reaches w depth dir
      → depth ≤ scan_max_depth
      → is_stopped st ≡ false
      → Run w st (list_dir w dir depth listing st)
  list_below w dir depth ends st r shallow live = Run-idle st
  list_below w dir depth (cancels rest) st r shallow live = elim (Bool-cases w.has_cancel_check) [
    | inl asked ↦ simp (asked) (record { steps = step live (stopped asked) done; fine = refl })
    | inr unasked ↦ simp (unasked) (list_below w dir depth rest st r shallow live)
  ]
  list_below w dir depth (fails status reachable) st r shallow live = record {
    steps = step live (failed reachable) done;
    fine = refl;
  }
  list_below w dir depth (lists entry visit rest) st r shallow live =
      lists_loop w dir depth visit rest st (dispose w dir entry st)
        (dispose-Disposed w dir depth entry st r shallow) live
        (λ path r'. walk_below w path depth visit st r')
        (λ mid live'. list_below w dir depth rest mid r shallow live')

-- From a state that is not stopped, a walk of the root either answers OK and makes a run of steps
-- (a file counted, a directory excluded, a path failed, a cancellation), none of them after a
-- stop, or the root refuses to open, and then the walk answers the status of the refusal and
-- leaves the state alone.
pub walk_dir-Run :
    (w : Setup) (visit : Visit) (st : TraverseState)
    → is_stopped st ≡ false
    → Run w st (walk_dir w w.root_path 0 visit st)
      ⊎ ((status : Status) × (reachable : Bool) × (visit ≡ refuses status reachable)
          × (walk_dir w w.root_path 0 visit st ≡ (status, st)))
unfolding walk_dir
walk_dir-Run w (refuses status reachable) st live =
    inr (status, reachable, refl, rw (live, walk_dir) refl)
walk_dir-Run w (opens listing) st live =
    inl (rw (live, walk_dir) (list_below w w.root_path 0 listing st root (omega arith) live))
