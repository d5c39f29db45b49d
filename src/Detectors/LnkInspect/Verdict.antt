-- ===== src/Detectors/LnkInspect/Verdict.antt =====
-- Which shortcuts are reported.
use usb_sentinel.Prelude.{◌^◌, ◌%◌, ℕ, ◌+◌, ◌≡◌, Bool, true, false, is_some, CString, clip}
use usb_sentinel.Core.Scan.{Severity, warning, high, Finding, CheckResult, finding_list_push}
use usb_sentinel.Detectors.LnkInspect.Bytes.{Parsed, parsed}
use usb_sentinel.Detectors.LnkInspect.OnFile.{
  LnkPolicy, untuned, attack_shape, suppress_all, targets_interpreter, matched_marker,
}
use usb_sentinel.Detectors.LnkInspect.Parse.{LnkParsed}

-- What a shortcut deserves: a finding of a severity, a count of what is suppressed, or nothing.
pub data LnkVerdict : Type 0 where
  report : Severity → LnkVerdict
  suppress ignore : LnkVerdict

-- The rule table: without a policy either sign is reported, in the Start Menu both together, in the
-- component store none.
abbrev pub weigh : LnkPolicy → Bool → Bool → LnkVerdict
weigh policy false false = ignore
weigh untuned interp marked = report high
weigh attack_shape true true = report high
weigh attack_shape _ _ = suppress
weigh suppress_all _ _ = suppress

abbrev pub expected_verdict : LnkPolicy → Parsed LnkParsed → LnkVerdict
expected_verdict policy (parsed p) =
    weigh policy (targets_interpreter p) (is_some (matched_marker p))
expected_verdict untuned m = report warning
expected_verdict policy m = suppress

-- What each verdict leaves in the result.
pub data Outcome (grants : ℕ → Bool) (path : CString) (before after : CheckResult)
    : LnkVerdict → Type 0 where
  reported :
      (f : Finding)
      → f.path ≡ clip 1024 path
      → after.findings ≡ (finding_list_push grants before.findings f).1
      → after.policy_suppressed ≡ before.policy_suppressed
      → Outcome grants path before after (report f.severity)
  suppressed :
      after.findings ≡ before.findings
      → after.policy_suppressed ≡ (before.policy_suppressed + 1) % 2 ^ 64
      → Outcome grants path before after suppress
  ignored : after ≡ before → Outcome grants path before after ignore
