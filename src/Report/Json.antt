-- ===== src/Report/Json.antt =====
-- The JSON report of src/reporting/report.c: the calls that it makes on a writer, in their order. The
-- version text comes from the build and is a parameter.
pub mod Report
pub mod Emitted
pub mod Build
use usb_sentinel.Prelude.{
  ℕ, suc, ◌+◌, Bool, true, false, not, ◌&&◌, List, [], ◌∷◌, ◌++◌, Option, none, some, CString,
  codes, clip, ◌==◌, if◌then◌else◌, length,
}
use usb_sentinel.Core.Device.{Device, bus_type_string, is_given}
use usb_sentinel.Core.Json.Calls.{
  Call, begin_object, end_object, begin_array, end_array, key, string, member_string, member_int,
  member_uint, member_bool, run,
}
use usb_sentinel.Core.Json.Decimal.{pos}
use usb_sentinel.Core.Json.Writer.{init, finish}
use usb_sentinel.Core.Scan.{
  CheckStatus, ran, skipped, failed, Finding, CheckResult, Capabilities, ScanResult,
  check_status_string, scan_status_string, severity_string,
}
use usb_sentinel.Report.Csv.{identity_or_empty}
use usb_sentinel.Status.{Status, ok, invalid_arg, no_memory, is_ok}

abbrev pub text_member : CString → CString → Call
text_member name value = member_string (some name) (some value)

-- `USBS_IDENTITY_MAX + USBS_VOLUME_PATH_MAX`
abbrev pub volume_identity_max : ℕ
volume_identity_max = 544 + 512

unfoldable pub volume_identity : Device → CString
volume_identity device =
    clip volume_identity_max (identity_or_empty device ++ (b'/' ∷ device.volume_path))

-- The loop over the mount points, and the end of their array.
unfoldable pub write_mount_points : List CString → List Call
write_mount_points [] = end_array ∷ []
write_mount_points (path ∷ paths) = string (some path) ∷ write_mount_points paths

unfoldable pub write_device : Device → List Call
write_device device =
    key (some (codes "device"))
    ∷ begin_object
    ∷ text_member (codes "identity") (identity_or_empty device)
    ∷ text_member (codes "volume_identity") (volume_identity device)
    ∷ text_member (codes "bus_type") (bus_type_string device.bus_type)
    ∷ text_member (codes "vendor") device.vendor
    ∷ text_member (codes "product") device.product
    ∷ text_member (codes "volume_path") device.volume_path
    ∷ key (some (codes "mount_points"))
    ∷ begin_array
    ∷ (write_mount_points device.mount_points
        ++ (text_member (codes "filesystem") device.filesystem
            ∷ member_bool (some (codes "media_present")) device.media_present
            ∷ member_uint (some (codes "capacity_bytes")) device.capacity_bytes
            ∷ member_uint (some (codes "free_bytes")) device.free_bytes
            ∷ end_object
            ∷ []))

unfoldable pub write_capabilities : Capabilities → List Call
write_capabilities caps =
    key (some (codes "capabilities"))
    ∷ begin_object
    ∷ member_bool (some (codes "can_read_raw_volume")) caps.can_read_raw_volume
    ∷ member_bool (some (codes "can_read_physical_disk")) caps.can_read_physical_disk
    ∷ end_object
    ∷ []

-- The four counters of `write_checks`.
pub record CheckTally : Type 0 where
  pub run : ℕ
  pub skipped : ℕ
  pub failed : ℕ
  pub findings : ℕ

unfoldable pub count_check : CheckStatus → CheckTally → CheckTally
count_check ran t = record t { run = suc t.run }
count_check CheckStatus.skipped t = record t { skipped = suc t.skipped }
count_check CheckStatus.failed t = record t { failed = suc t.failed }

-- What the `switch` and the `if` behind it write about the outcome of a check.
unfoldable pub write_outcome : CheckStatus → CString → CString → List Call
write_outcome ran reason message =
    if is_given message then text_member (codes "message") message ∷ [] else []
write_outcome CheckStatus.skipped reason message = text_member (codes "skip_reason") reason ∷ []
write_outcome CheckStatus.failed reason message = text_member (codes "message") message ∷ []

-- The loop over the findings, and the end of their array.
unfoldable pub write_findings : List Finding → ℕ → List Call × ℕ
write_findings [] n = (end_array ∷ [], n)
write_findings (f ∷ fs) n =
    let (rest, n') = write_findings fs (suc n) in
    (
      begin_object
          ∷ text_member (codes "severity") (severity_string f.severity)
          ∷ text_member (codes "path") f.path
          ∷ text_member (codes "message") f.message
          ∷ end_object
          ∷ rest,
      n',
    )

-- The loop over the checks, and the end of their array.
unfoldable pub write_check_loop : List CheckResult → CheckTally → List Call × CheckTally
write_check_loop [] t = (end_array ∷ [], t)
write_check_loop (check ∷ checks) t =
    let counted = count_check check.status t in
    let (found, n) = write_findings check.findings.items counted.findings in
    let (rest, t') = write_check_loop checks (record counted { findings = n }) in
    (
      begin_object
          ∷ text_member (codes "id") check.id
          ∷ text_member (codes "status") (check_status_string check.status)
          ∷ (write_outcome check.status check.skip_reason check.message
              ++ (key (some (codes "findings")) ∷ begin_array ∷ (found ++ (end_object ∷ rest)))),
      t',
    )

unfoldable pub write_checks : List CheckResult → List Call × CheckTally
write_checks checks =
    let (rest, t) =
      write_check_loop checks (record { run = 0; skipped = 0; failed = 0; findings = 0 }) in
    (key (some (codes "checks")) ∷ begin_array ∷ rest, t)

unfoldable pub write_summary : CheckTally → List Call
write_summary t =
    key (some (codes "summary"))
    ∷ begin_object
    ∷ member_uint (some (codes "checks_run")) t.run
    ∷ member_uint (some (codes "checks_skipped")) t.skipped
    ∷ member_uint (some (codes "checks_failed")) t.failed
    ∷ member_uint (some (codes "findings_count")) t.findings
    ∷ end_object
    ∷ []

module _ (version : CString) where
  -- The calls that `usbs_report_build_json` makes between init and finish.
  unfoldable pub report_calls : ScanResult → List Call
  report_calls result =
      let (checks, t) = write_checks result.checks.items in
      begin_object
      ∷ member_int (some (codes "schema_version")) (pos 1)
      ∷ key (some (codes "tool"))
      ∷ begin_object
      ∷ text_member (codes "name") (codes "USB Sentinel")
      ∷ text_member (codes "version") version
      ∷ end_object
      ∷ key (some (codes "scan"))
      ∷ begin_object
      ∷ text_member (codes "scan_id") result.scan_id
      ∷ text_member (codes "started_at") result.started_at
      ∷ text_member (codes "finished_at") result.finished_at
      ∷ text_member (codes "status") (scan_status_string result.status)
      ∷ end_object
      ∷ (write_device result.device
          ++ (write_capabilities result.capabilities
              ++ (checks ++ (write_summary t ++ (end_object ∷ [])))))

  -- The copy of the text; `copies` answers for its `malloc`.
  unfoldable pub copy_text : (ℕ → Bool) → Status × Option CString → Status × Option CString
  copy_text copies (status, none) = (status, none)
  copy_text copies (status, some text) =
      if not (is_ok status)
      then (status, none)
      else if copies (length text + 1)
      then (ok, some text)
      else (no_memory, none)

  -- `usbs_report_build_json`; `none` is a NULL result
  unfoldable pub build_json : (ℕ → Bool) → (ℕ → Bool) → Option ScanResult → Status × Option CString
  build_json grants copies none = (invalid_arg, none)
  build_json grants copies (some result) =
      copy_text copies (finish (run grants (report_calls result) init))
