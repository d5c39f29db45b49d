-- ===== src/Report/Text.antt =====
-- The text report of src/reporting/report.c: what `usbs_report_render_text` writes to its stream. The
-- size of the device is printed from a `double`, so its text is a parameter.
pub mod Agreement
use usb_sentinel.Prelude.{
  ℕ, suc, Bool, true, false, not, ◌&&◌, ◌||◌, List, [], ◌∷◌, ◌++◌, Option, none, some, CString,
  codes, ltb, if◌then◌else◌,
}
use usb_sentinel.Core.Device.{Device, bus_type_string, is_given, device_identity}
use usb_sentinel.Core.Device.Identity.{identity_max}
use usb_sentinel.Core.Json.Decimal.{print_uint}
use usb_sentinel.Core.Scan.{
  CheckStatus, ran, skipped, failed, Finding, CheckResult, ScanResult, check_status_string,
  scan_status_string, severity_string,
}
use usb_sentinel.Status.{Status, is_ok}

abbrev pub line : List CString → CString
line [] = codes "\n"
line (s ∷ ss) = s ++ line ss

abbrev text_or_unknown : Status × Option CString → CString
text_or_unknown (status, none) = codes "(unknown)"
text_or_unknown (status, some text) = if is_ok status then text else codes "(unknown)"

unfoldable pub identity_or_unknown : Device → CString
identity_or_unknown device = text_or_unknown (device_identity (some device) identity_max)

abbrev pub availability : Bool → CString
availability can = if can then codes "available" else codes "unavailable (requires elevation)"

unfoldable pub outcome_line : CheckStatus → CString → CString → CString
outcome_line skipped reason message = line (codes "        reason: " ∷ reason ∷ [])
outcome_line failed reason message = line (codes "        error: " ∷ message ∷ [])
outcome_line ran reason message =
    if is_given message then line (codes "        " ∷ message ∷ []) else []

unfoldable pub finding_line : Finding → CString
finding_line f =
    if is_given f.path
    then line (
        codes "        finding ["
        ∷ severity_string f.severity
        ∷ codes "]: "
        ∷ f.path
        ∷ codes ": "
        ∷ f.message
        ∷ [])
    else line
        (codes "        finding [" ∷ severity_string f.severity ∷ codes "]: " ∷ f.message ∷ [])

unfoldable pub finding_lines : List Finding → CString
finding_lines [] = []
finding_lines (f ∷ fs) = finding_line f ++ finding_lines fs

-- `skipped_count` and `failed_count`
pub record Counts : Type 0 where
  pub skipped : ℕ
  pub failed : ℕ

unfoldable pub count_outcome : CheckStatus → Counts → Counts
count_outcome ran n = n
count_outcome CheckStatus.skipped n = record n { skipped = suc n.skipped }
count_outcome CheckStatus.failed n = record n { failed = suc n.failed }

-- The loop over the checks, with what it prints and the two counters behind it.
unfoldable pub check_lines : List CheckResult → Counts → CString × Counts
check_lines [] n = ([], n)
check_lines (check ∷ checks) n =
    let (rest, n') = check_lines checks (count_outcome check.status n) in
    (
      line (codes "    [" ∷ check_status_string check.status ∷ codes "] " ∷ check.id ∷ [])
          ++ (outcome_line check.status check.skip_reason check.message
              ++ (finding_lines check.findings.items ++ rest)),
      n',
    )

unfoldable pub summary_line : Counts → CString
summary_line n =
    if ltb 0 n.skipped || ltb 0 n.failed
    then line (
        codes "  "
        ∷ print_uint n.skipped
        ∷ codes " check(s) skipped, "
        ∷ print_uint n.failed
        ∷ codes " check(s) failed - see above."
        ∷ [])
    else line (codes "  All checks ran." ∷ [])

module _ (size_text : ℕ → CString) where
  unfoldable pub device_lines : Device → CString
  device_lines device =
      line (codes "  device       " ∷ identity_or_unknown device ∷ [])
      ++ (line (codes "  bus          " ∷ bus_type_string device.bus_type ∷ [])
          ++ ((if is_given device.vendor || is_given device.product
                then line
                    (codes "  hardware     " ∷ device.vendor ∷ codes " " ∷ device.product ∷ [])
                else [])
              ++ line (codes "  capacity     " ∷ size_text device.capacity_bytes ∷ [])))

  unfoldable pub title_lines : ScanResult → CString
  title_lines result =
      line (codes "USB Sentinel scan report" ∷ [])
      ++ (line (codes "  scan id      " ∷ result.scan_id ∷ [])
          ++ (line (codes "  started      " ∷ result.started_at ∷ [])
              ++ (line (codes "  finished     " ∷ result.finished_at ∷ [])
                  ++ (line (codes "  status       " ∷ scan_status_string result.status ∷ [])
                      ++ line []))))

  unfoldable pub capability_lines : ScanResult → CString
  capability_lines result =
      line (codes "  raw volume   " ∷ availability result.capabilities.can_read_raw_volume ∷ [])
      ++ line
          (codes "  raw disk     " ∷ availability result.capabilities.can_read_physical_disk ∷ [])

  -- `usbs_report_render_text`: what is written to the stream
  unfoldable pub render_text : ScanResult → CString
  render_text result =
      let (checks, n) = check_lines result.checks.items (record { skipped = 0; failed = 0 }) in
      title_lines result
      ++ (device_lines result.device
          ++ (line []
              ++ (capability_lines result
                  ++ (line []
                      ++ (line (codes "  checks:" ∷ [])
                          ++ (checks
                              ++ (line []
                                  ++ (summary_line n
                                      ++ (line []
                                          ++ line (
                                              codes
                                                "  Scanning is read-only: no file was opened for writing."
                                              ∷ []))))))))))
