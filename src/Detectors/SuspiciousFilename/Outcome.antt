-- ===== src/Detectors/SuspiciousFilename/Outcome.antt =====
-- What one call of the detector leaves in the result of its check.
use usb_sentinel.Prelude.{
  ℕ, ◌≡◌, ◌∙◌, refl, sym, inl, inr, Bool, false, Option, none, some, CString, clip, ltb,
  if◌then◌else◌, arith, Bool-cases, Option-cases,
}
use usb_sentinel.Core.Location.Rules.{LocationKind, ordinary, classify, relative}
use usb_sentinel.Core.Scan.{Severity, high, Finding, CheckResult, finding_list_push}
use usb_sentinel.Detectors.Detector.{FileContext}
use usb_sentinel.Platform.{DirEntry}
use usb_sentinel.Detectors.SuspiciousFilename.OnFile.{
  Tally, tally, final_severity, conclude, volume_path_of, is_tuned, on_file, message_max,
}
use usb_sentinel.Detectors.SuspiciousFilename.Rules.{has_double_extension_disguise}
use usb_sentinel.Detectors.SuspiciousFilename.Reasons.{reported}
use usb_sentinel.Detectors.SuspiciousFilename.Severity.{
  expected_severity, double_severity, tally-expected_severity,
}
use usb_sentinel.Status.{ok}

-- A severity is one finding pushed, and none is no finding.
pub data Outcome (grants : ℕ → Bool) (path : CString) (before after : CheckResult)
    : Option Severity → Type 0 where
  pushed :
      (f : Finding)
      → f.path ≡ clip 1024 path
      → after.findings ≡ (finding_list_push grants before.findings f).1
      → after.policy_suppressed ≡ before.policy_suppressed
      → Outcome grants path before after (some f.severity)
  silent :
      after.findings ≡ before.findings
      → after.policy_lowered ≡ before.policy_lowered
      → Outcome grants path before after none

conclude-Outcome :
    (grants : ℕ → Bool) (path : CString) (t : Tally) (before : CheckResult)
    → Outcome grants path before (conclude grants path t before) (reported t)
unfolding conclude
conclude-Outcome grants path t before = elim (Bool-cases (ltb 0 t.reasons_len)) [
  | inl e ↦
      rw (e, conclude)
        (pushed
          (record {
            severity = final_severity t;
            message = clip message_max t.reasons;
            path = clip 1024 path;
          })
          refl refl refl)
  | inr e ↦ elim (Bool-cases t.suppressed) [
    | inl s ↦ rw (e, s, conclude) (silent refl refl)
    | inr s ↦ rw (e, s, conclude) (silent refl refl)
  ]
]

-- On a context, a path and an entry, the callback succeeds; where the rule table expects a
-- severity for the name, the device and the location, it calls the push of the finding list with
-- one finding of that severity and the relative path, cut to its field, and leaves the suppressed
-- count alone; where it expects none, it leaves the findings and the lowered count alone.
pub on_file-Outcome :
    (grants : ℕ → Bool) (ctx : FileContext) (full_path : CString) (entry : DirEntry)
    → let path = relative (volume_path_of ctx.detect_ctx) (some full_path) in
      let tuned = is_tuned ctx.detect_ctx in
      let kind = if tuned then classify (some path) else ordinary in
      (after : CheckResult) × (on_file grants (some ctx) (some full_path) (some entry)
        ≡ (ok, some after))
      × Outcome grants path ctx.result after (expected_severity tuned kind entry)
unfolding on_file
on_file-Outcome grants ctx full_path entry =
    let path = relative (volume_path_of ctx.detect_ctx) (some full_path) in
    let tuned = is_tuned ctx.detect_ctx in
    let kind = if tuned then classify (some path) else ordinary in
    (
      conclude grants path (tally tuned kind entry) ctx.result,
      refl,
      rw (sym (tally-expected_severity tuned kind entry))
          (conclude-Outcome grants path (tally tuned kind entry) ctx.result),
    )

expected_severity_untuned :
    (kind : LocationKind) (entry : DirEntry) (s : Severity)
    → expected_severity false kind entry ≡ some s
    → s ≡ high
unfolding expected_severity double_severity
expected_severity_untuned kind entry s e =
    elim (Option-cases (has_double_extension_disguise entry.name)) [
      | inl q ↦ ground arith
      | inr (reason, q) ↦ ground arith
    ]

-- Where the location policy does not apply, every severity that is reported is HIGH.
pub tally-untuned :
    (kind : LocationKind) (entry : DirEntry) (s : Severity)
    → reported (tally false kind entry) ≡ some s
    → s ≡ high
tally-untuned kind entry s e =
    expected_severity_untuned kind entry s (sym (tally-expected_severity false kind entry) ∙ e)
