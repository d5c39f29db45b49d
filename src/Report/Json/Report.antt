-- ===== src/Report/Json/Report.antt =====
-- The JSON report as a document.
use usb_sentinel.Prelude.{ℕ, ◌+◌, List, [], ◌∷◌, CString, codes, if◌then◌else◌, length}
use usb_sentinel.Core.Device.{Device, bus_type_string, is_given}
use usb_sentinel.Core.Json.Decimal.{pos}
use usb_sentinel.Core.Json.Document.{
  Document, boolean, int, uint, string, array, object, Items, no_items, item, Members, no_members,
  member,
}
use usb_sentinel.Core.Scan.{
  CheckStatus, ran, skipped, failed, Finding, CheckResult, Capabilities, ScanResult,
  check_status_string, scan_status_string, severity_string,
}
use usb_sentinel.Report.Csv.{identity_or_empty}
use usb_sentinel.Report.Json.{volume_identity}

abbrev pub text : CString → CString → Members → Members
text name value ms = member name (string value) ms

unfoldable pub mount_items : List CString → Items
mount_items [] = no_items
mount_items (path ∷ paths) = item (string path) (mount_items paths)

unfoldable pub device_members : Device → Members
device_members device = text (codes "identity") (identity_or_empty device) (
    text (codes "volume_identity") (volume_identity device) (
      text (codes "bus_type") (bus_type_string device.bus_type) (
        text (codes "vendor") device.vendor (
          text (codes "product") device.product (
            text (codes "volume_path") device.volume_path (
              member (codes "mount_points") (array (mount_items device.mount_points)) (
                text (codes "filesystem") device.filesystem (
                  member (codes "media_present") (boolean device.media_present) (
                    member (codes "capacity_bytes") (uint device.capacity_bytes)
                      (member (codes "free_bytes") (uint device.free_bytes) no_members))))))))))

unfoldable pub capability_members : Capabilities → Members
capability_members caps =
    member (codes "can_read_raw_volume") (boolean caps.can_read_raw_volume)
      (member (codes "can_read_physical_disk") (boolean caps.can_read_physical_disk) no_members)

unfoldable pub finding_items : List Finding → Items
finding_items [] = no_items
finding_items (f ∷ fs) =
    item
      (object (
        text (codes "severity") (severity_string f.severity)
          (text (codes "path") f.path (text (codes "message") f.message no_members))))
      (finding_items fs)

-- A check that was skipped has its reason, one that failed its message, and one that ran its message
-- where there is one.
unfoldable pub outcome_members : CheckStatus → CString → CString → Members → Members
outcome_members ran reason message ms =
    if is_given message then text (codes "message") message ms else ms
outcome_members skipped reason message ms = text (codes "skip_reason") reason ms
outcome_members failed reason message ms = text (codes "message") message ms

unfoldable pub check_items : List CheckResult → Items
check_items [] = no_items
check_items (check ∷ checks) =
    item
      (object (
        text (codes "id") check.id (
          text (codes "status") (check_status_string check.status) (
            outcome_members check.status check.skip_reason check.message (
              member (codes "findings") (array (finding_items check.findings.items)) no_members)))))
      (check_items checks)

abbrev pub counts : CheckStatus → CheckStatus → ℕ
counts ran ran = 1
counts skipped skipped = 1
counts failed failed = 1
counts _ _ = 0

-- How many checks have the status.
unfoldable pub with_status : CheckStatus → List CheckResult → ℕ
with_status s [] = 0
with_status s (check ∷ checks) = counts s check.status + with_status s checks

unfoldable pub findings_of : List CheckResult → ℕ
findings_of [] = 0
findings_of (check ∷ checks) = length check.findings.items + findings_of checks

unfoldable pub summary_members : List CheckResult → Members
summary_members checks = member (codes "checks_run") (uint (with_status ran checks)) (
    member (codes "checks_skipped") (uint (with_status skipped checks)) (
      member (codes "checks_failed") (uint (with_status failed checks))
        (member (codes "findings_count") (uint (findings_of checks)) no_members)))

unfoldable pub scan_members : ScanResult → Members
scan_members result = text (codes "scan_id") result.scan_id (
    text (codes "started_at") result.started_at (
      text (codes "finished_at") result.finished_at
        (text (codes "status") (scan_status_string result.status) no_members)))

unfoldable pub tool_members : CString → Members
tool_members version =
    text (codes "name") (codes "USB Sentinel") (text (codes "version") version no_members)

unfoldable pub report_document : CString → ScanResult → Document
report_document version result = object (
    member (codes "schema_version") (int (pos 1)) (
      member (codes "tool") (object (tool_members version)) (
        member (codes "scan") (object (scan_members result)) (
          member (codes "device") (object (device_members result.device)) (
            member (codes "capabilities") (object (capability_members result.capabilities)) (
              member (codes "checks") (array (check_items result.checks.items)) (
                member (codes "summary") (object (summary_members result.checks.items))
                  no_members)))))))
