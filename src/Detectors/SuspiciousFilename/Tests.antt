-- ===== src/Detectors/SuspiciousFilename/Tests.antt =====
-- Runs of the rules, after tests/test_detectors.c, and the theorems at concrete inputs.
use usb_sentinel.Prelude.{◌≡◌, refl, true, false, none, some, CString, codes, lower_ascii, leb}
use usb_sentinel.Core.Location.Rules.{
  ordinary, recent_items, dependency_tree, relative, kind_string,
}
use usb_sentinel.Core.Scan.{info, CheckResult, check_result_init}
use usb_sentinel.Detectors.Detector.{FileContext}
use usb_sentinel.Platform.{DirEntry}
use usb_sentinel.Detectors.SuspiciousFilename.Extensions.{
  str_ieq, in_set, is_dot_at, extension_before, nth_extension_from_end, is_executable_extension,
}
use usb_sentinel.Detectors.SuspiciousFilename.OnFile.{
  tally, fresh, append_reason, raise, report_weighed, double_extension_rule, high_rule,
  volume_path_of, is_tuned, on_file,
}
use usb_sentinel.Detectors.SuspiciousFilename.Outcome.{Outcome, on_file-Outcome}
use usb_sentinel.Detectors.SuspiciousFilename.Rules.{
  double_extension_reason, has_double_extension_disguise, has_bidi_override, four_spaces,
  has_space_padding, weigh_double_extension,
}
use usb_sentinel.Detectors.SuspiciousFilename.Reasons.{reported}
use usb_sentinel.Detectors.SuspiciousFilename.Severity.{
  expected_severity, breaks_strict_rule, tally-expected_severity,
}
use usb_sentinel.Status.{ok}

running : Unit {0}
unfolding str_ieq in_set is_dot_at extension_before nth_extension_from_end is_executable_extension
    tally fresh append_reason raise report_weighed double_extension_rule high_rule
    double_extension_reason has_double_extension_disguise has_bidi_override four_spaces
    has_space_padding weigh_double_extension lower_ascii kind_string breaks_strict_rule
running = tt

abbrev entry_of : CString → DirEntry
entry_of name = record {
  name = name;
  is_directory = false;
  is_reparse_point = false;
  is_hidden = false;
  size_bytes = 0;
}

double_reason :
    has_double_extension_disguise (codes "invoice.PDF.exe")
    ≡ some (codes "double extension disguise (.PDF.exe)")
unfolding running
double_reason = refl

recent_suppressed : (tally true recent_items (entry_of (codes "a.pdf.lnk"))).suppressed ≡ true
unfolding running
recent_suppressed = refl

package_script : reported (tally true dependency_tree (entry_of (codes "a.zip.js"))) ≡ some info
unfolding running
package_script = refl

-- The dot in front counts as a separator.
dotfile : is_executable_extension (nth_extension_from_end (codes ".exe") 1) ≡ true
unfolding running
dotfile = refl

tally-expected_severity_example :
    reported (tally true recent_items (entry_of (codes "a.pdf.exe")))
    ≡ expected_severity true recent_items (entry_of (codes "a.pdf.exe"))
tally-expected_severity_example =
    tally-expected_severity true recent_items (entry_of (codes "a.pdf.exe"))

abbrev bare : FileContext
bare = record { detect_ctx = none; result = check_result_init (some (codes "suspicious_filename")) }

on_file-Outcome_example :
    (after : CheckResult) × (on_file
        (λ n. leb n 10000)
        (some bare)
        (some (codes "/m/a.pdf.exe"))
        (some (entry_of (codes "a.pdf.exe")))
      ≡ (ok, some after))
    × Outcome
        (λ n. leb n 10000)
        (codes "/m/a.pdf.exe")
        bare.result
        after
        (expected_severity false ordinary (entry_of (codes "a.pdf.exe")))
unfolding relative volume_path_of is_tuned
on_file-Outcome_example =
    on_file-Outcome (λ n. leb n 10000) bare (codes "/m/a.pdf.exe") (entry_of (codes "a.pdf.exe"))
