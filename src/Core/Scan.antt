-- ===== src/Core/Scan.antt =====
-- include/usbsentinel/scan.h and src/core/scan.c: findings, the result of one check and
-- the result of a scan. `grants`
-- answers for a size whether `realloc` finds it.
pub mod Checks
use usb_sentinel.Prelude.{ℕ, Bool, false, [], Option, none, some, CString, codes, clip}
use usb_sentinel.Core.Device.{Device, device_init}
use usb_sentinel.Core.Vector
use usb_sentinel.Core.Vector.{Vector}
use usb_sentinel.Status.{Status}

pub data Severity : Type 0 where
  info warning high : Severity

pub data CheckStatus : Type 0 where
  ran skipped failed : CheckStatus

-- `usbs_severity_string`
unfoldable pub severity_string : Severity → CString
severity_string info = codes "info"
severity_string warning = codes "warning"
severity_string high = codes "high"

-- `usbs_check_status_string`
unfoldable pub check_status_string : CheckStatus → CString
check_status_string ran = codes "ran"
check_status_string skipped = codes "skipped"
check_status_string failed = codes "failed"

-- `usbs_finding_t`
pub record Finding : Type 0 where
  pub severity : Severity
  pub message : CString
  pub path : CString

-- `usbs_finding_list_t`
abbrev pub FindingList : Type 0
FindingList = Vector Finding

-- `usbs_check_result_t`
pub record CheckResult : Type 0 where
  pub id : CString
  pub status : CheckStatus
  pub skip_reason : CString
  pub message : CString
  pub findings : FindingList
  pub policy_suppressed : ℕ
  pub policy_lowered : ℕ

-- `usbs_finding_list_init`, and what `usbs_finding_list_free` leaves
unfoldable pub no_findings : FindingList
no_findings = Vector.empty

-- `sizeof(usbs_finding_t)`
abbrev pub finding_size : ℕ
finding_size = 1284

unfoldable pub finding_list_push : (ℕ → Bool) → FindingList → Finding → Status × FindingList
finding_list_push grants list finding = Vector.push grants 4 finding_size list finding

-- `usbs_check_result_init`; `none` is a NULL id.
unfoldable pub check_result_init : Option CString → CheckResult
check_result_init id = record {
  id = elim id [ none ↦ [] | some text ↦ clip 64 text ];
  status = ran;
  skip_reason = [];
  message = [];
  findings = no_findings;
  policy_suppressed = 0;
  policy_lowered = 0;
}

-- `usbs_check_result_set_skipped`
unfoldable pub set_skipped : CheckResult → Option CString → CheckResult
set_skipped result reason = record result {
  findings = no_findings;
  status = skipped;
  skip_reason = elim reason [ none ↦ [] | some text ↦ clip 128 text ];
}

-- `usbs_check_result_set_failed`
unfoldable pub set_failed : CheckResult → Option CString → CheckResult
set_failed result reason = record result {
  findings = no_findings;
  status = failed;
  message = elim reason [ none ↦ [] | some text ↦ clip 256 text ];
}

-- `usbs_scan_status_t`
pub data ScanStatus : Type 0 where
  completed aborted : ScanStatus

-- `usbs_scan_status_string`
unfoldable pub scan_status_string : ScanStatus → CString
scan_status_string completed = codes "completed"
scan_status_string aborted = codes "aborted"

-- `usbs_check_list_t`
abbrev pub CheckList : Type 0
CheckList = Vector CheckResult

-- `sizeof(usbs_check_result_t)`
abbrev pub check_result_size : ℕ
check_result_size = 496

-- `usbs_check_list_push`. The source is cleared where the push succeeds.
unfoldable pub check_list_push : (ℕ → Bool) → CheckList → CheckResult → Status × CheckList
check_list_push grants list result = Vector.push grants 4 check_result_size list result

-- `usbs_capabilities_t`
pub record Capabilities : Type 0 where
  pub can_read_raw_volume : Bool
  pub can_read_physical_disk : Bool

-- `usbs_scan_result_t`
pub record ScanResult : Type 0 where
  pub scan_id : CString
  pub started_at : CString
  pub finished_at : CString
  pub status : ScanStatus
  pub device : Device
  pub capabilities : Capabilities
  pub checks : CheckList
  pub paths_skipped : ℕ
  pub paths_excluded : ℕ

-- `usbs_scan_result_init`
unfoldable pub scan_result_init : ScanResult
scan_result_init = record {
  scan_id = [];
  started_at = [];
  finished_at = [];
  status = completed;
  device = device_init;
  capabilities = record { can_read_raw_volume = false; can_read_physical_disk = false };
  checks = Vector.empty;
  paths_skipped = 0;
  paths_excluded = 0;
}
