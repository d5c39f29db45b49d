-- ===== src/Detectors/SuspiciousFilename/Reasons.antt =====
-- The reasons that the callback gathers, and the severity that they amount to.
use usb_sentinel.Prelude.{
  ℕ, ◌-◌, ◌<◌, ◌≤◌, ◌≡◌, ◌∙◌, refl, ap, inl, inr, Bool, true, false, [], ◌∷◌, ◌++◌, Option, none,
  some, CString, codes, clip, ltb, if◌then◌else◌, take, length, length-append, length-take-le,
  arith, Bool-cases, Option-cases,
}
use usb_sentinel.Core.Location.Rules.{LocationKind, kind_string}
use usb_sentinel.Core.Scan.{Severity, info, warning, high}
use usb_sentinel.Detectors.SuspiciousFilename.Extensions.{nth_extension_from_end}
use usb_sentinel.Detectors.SuspiciousFilename.OnFile.{
  Tally, fresh, append_reason, raise, report_weighed, high_rule, final_severity, message_max,
}
use usb_sentinel.Detectors.SuspiciousFilename.Rules.{
  Verdict, double_extension_reason, has_double_extension_disguise,
}

-- What a tally reports.
abbrev pub reported : Tally → Option Severity
reported t = if ltb 0 t.reasons_len then some (final_severity t) else none

pub append_reason_pos :
    (text : CString) (t : Tally)
    → 0 < length text
    → length text < message_max
    → 0 < (append_reason text t).reasons_len
unfolding append_reason
append_reason_pos text t h fit = elim (Bool-cases (ltb 0 t.reasons_len)) [
  | inl e ↦ ground (arith, length-append (codes "; ") text)
  | inr e ↦ ground arith
]

pub reported-append_reason :
    (text : CString) (t : Tally)
    → 0 < length text
    → length text < message_max
    → reported (append_reason text t) ≡ some (final_severity t)
reported-append_reason text t h fit =
    let some_text : ltb 0 (append_reason text t).reasons_len ≡ true =
      ground (arith, append_reason_pos text t h fit) in
    rw some_text (unfold append_reason in refl)

pub reported-high_rule :
    (found : Bool) (text : CString) (t : Tally)
    → 0 < length text
    → length text < message_max
    → reported (high_rule found text t) ≡ (if found then some high else reported t)
unfolding high_rule
reported-high_rule true text t h fit =
    reported-append_reason text (record t { any_high_rule = true }) h fit
reported-high_rule false text t h fit = refl

abbrev pub length_or_zero : Option CString → ℕ
length_or_zero none = 0
length_or_zero (some text) = length text

-- A reason behind two guards, cut to its buffer.
pub guarded_bound :
    (b c : Bool) (text reason : CString)
    → 0 < length (clip 128 text)
    → (if b then none else if c then none else some (clip 128 text)) ≡ some reason
    → (0 < length reason) × (length reason ≤ 127)
guarded_bound true c text reason h e = absurd (cc)
guarded_bound false true text reason h e = absurd (cc)
guarded_bound false false text reason h e =
    let same : length (clip 128 text) ≡ length reason = ap length_or_zero e in
    (omega arith, omega (arith, length-take-le 127 text))

pub double_extension_reason_bound :
    (last_ext second reason : CString)
    → double_extension_reason last_ext second ≡ some reason
    → (0 < length reason) × (length reason ≤ 127)
unfolding double_extension_reason
double_extension_reason_bound last_ext second reason e =
    guarded_bound _ _
      (codes "double extension disguise (."
        ++ (take (length second - length last_ext - 1) second
            ++ (codes "." ++ (last_ext ++ codes ")"))))
      reason (omega arith) e

pub disguise_bound :
    (name reason : CString)
    → has_double_extension_disguise name ≡ some reason
    → (0 < length reason) × (length reason ≤ 127)
unfolding has_double_extension_disguise
disguise_bound name reason e = elim (Option-cases (nth_extension_from_end name 1)) [
  | inl none_found ↦ absurd (ground arith)
  | inr (last_ext, found) ↦ elim (Option-cases (nth_extension_from_end name 2)) [
    | inl none_found ↦ absurd (ground arith)
    | inr (second, found_second) ↦
        double_extension_reason_bound last_ext second reason (ground arith)
  ]
]

-- The severity of a verdict.
abbrev pub of_verdict : Verdict → Option Severity
of_verdict (Verdict.report_default s) = some s
of_verdict (Verdict.report_lowered s) = some s
of_verdict Verdict.suppress = none

pub length-clip_pos : (text : CString) → 0 < length text → 0 < length (clip 192 text)
length-clip_pos [] h = h
length-clip_pos (c ∷ text) h = omega arith

pub raise-final_severity :
    (s : Severity) (low : Bool) → final_severity (raise s (record fresh { lowered = low })) ≡ s
unfolding raise fresh
raise-final_severity info low = refl
raise-final_severity warning low = refl
raise-final_severity high low = refl

pub reported-report_weighed :
    (kind : LocationKind) (reason : CString) (v : Verdict)
    → 0 < length reason
    → reported (report_weighed kind reason v fresh) ≡ of_verdict v
unfolding report_weighed fresh
reported-report_weighed kind reason Verdict.suppress h = refl
reported-report_weighed kind reason (Verdict.report_default s) h =
    reported-append_reason (clip 192 reason) (raise s fresh) (length-clip_pos reason h)
      (omega (arith, length-take-le 191 reason))
    ∙ ap some (raise-final_severity s false)
reported-report_weighed kind reason (Verdict.report_lowered s) h =
    let text = reason ++ (codes " [internal drive, " ++ (kind_string kind ++ codes "]")) in
    reported-append_reason (clip 192 text) (raise s (record fresh { lowered = true }))
      (length-clip_pos text (
        omega (
          arith,
          length-append reason (codes " [internal drive, " ++ (kind_string kind ++ codes "]")),
        )))
      (omega (arith, length-take-le 191 text))
    ∙ ap some (raise-final_severity s true)
