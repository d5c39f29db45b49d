-- ===== src/Detectors/Detector.antt =====
-- include/usbsentinel/detector.h: what the scanner knows of a detector. `none` is a NULL pointer.
use usb_sentinel.Prelude.{Option, CString}
use usb_sentinel.Core.Device.{Device}
use usb_sentinel.Core.Scan.{CheckResult, Capabilities}
use usb_sentinel.Platform.{DirEntry}
use usb_sentinel.Status.{Status}

-- `usbs_detect_context_t`
pub record DetectContext : Type 0 where
  pub device : Option Device
  pub volume_path : Option CString
  pub capabilities : Option Capabilities

-- `usbs_detector_file_ctx_t`
pub record FileContext : Type 0 where
  pub detect_ctx : Option DetectContext
  pub result : CheckResult

-- `usbs_detector_file_fn`, with the result that the context points to
abbrev pub FileFn : Type 0
FileFn = Option FileContext → Option CString → Option DirEntry → Status × Option CheckResult

-- `usbs_detector_fn`
abbrev pub DetectorFn : Type 0
DetectorFn = Option DetectContext → Option CheckResult → Status × Option CheckResult

-- `usbs_detector_t`, without its description
pub record Detector : Type 0 where
  pub id : CString
  pub run : Option DetectorFn
  pub on_file : Option FileFn
