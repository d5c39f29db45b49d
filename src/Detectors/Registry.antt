-- ===== src/Detectors/Registry.antt =====
-- src/detectors/registry.c: the detectors of the program, over one machine. A detector that reads files
-- asks the machine for the answers under the path.
use usb_sentinel.Prelude.{
  ℕ, Bool, List, [], ◌∷◌, Option, none, some, CString, codes, length, get_elem?,
}
use usb_sentinel.Core.Path.{Host}
use usb_sentinel.Detectors.Autorun.{detect_autorun}
use usb_sentinel.Detectors.Detector.{Detector}
use usb_sentinel.Detectors.HashMatch.{HashMatch, World}
use usb_sentinel.Detectors.HashMatch.OnFile.{hash_match_on_file}
use usb_sentinel.Detectors.LnkInspect.OnFile.{lnk_on_file}
use usb_sentinel.Detectors.SuspiciousFilename.OnFile
use usb_sentinel.Platform.{Visit, FileVisit, denied}
use usb_sentinel.Status.{io}

-- The answers of one machine. `hash_state` is the static state of the hash comparison, which a scan does not
-- change once the signatures are loaded.
pub record Machine : Type 0 where
  pub host : Host
  pub realloc : ℕ → Bool
  pub memory : Bool
  pub root : Visit
  pub autorun_file : FileVisit
  pub files : CString → FileVisit
  pub world : World
  pub hash_state : HashMatch

abbrev pub file_at : Machine → Option CString → FileVisit
file_at m none = denied io
file_at m (some path) = m.files path

-- `k_detectors`
unfoldable pub detectors : Machine → List Detector
detectors m =
    record {
      id = codes "autorun_inspection";
      run = some (detect_autorun m.host m.realloc m.root m.autorun_file);
      on_file = none;
    }
    ∷ record {
      id = codes "suspicious_filename";
      run = none;
      on_file = some (OnFile.on_file m.realloc);
    }
    ∷ record {
      id = codes "lnk_inspection";
      run = none;
      on_file = some (λ ctx path entry.
          lnk_on_file m.realloc m.memory m.memory (file_at m path) ctx path entry);
    }
    ∷ record {
      id = codes "hash_match_example";
      run = none;
      on_file = some (λ ctx path entry.
          let (status, state, result) =
            hash_match_on_file m.world m.hash_state m.memory (file_at m path) ctx path entry in
          (status, result));
    }
    ∷ []

-- `usbs_detector_count`
unfoldable pub detector_count : Machine → ℕ
detector_count m = length (detectors m)

-- `usbs_detector_at`; `none` is NULL.
unfoldable pub detector_at : Machine → ℕ → Option Detector
detector_at m index = get_elem? (detectors m) index
