-- ===== src/Detectors/Autorun/Tests.antt =====
-- The inspection at concrete volumes, after tests/test_detectors.c.
use usb_sentinel.Prelude.{◌≡◌, refl, true, false, none, some, codes, leb, lower_ascii, arith}
use usb_sentinel.Core.Path.{posix}
use usb_sentinel.Core.Scan.{CheckResult, check_result_init}
use usb_sentinel.Detectors.Autorun.{
  begins_ci, contains_from, contains_ci, equals_ci, find_in, find_autorun_name, autorun_name,
  detect_autorun,
}
use usb_sentinel.Detectors.Autorun.Outcome.{Reported, detect_autorun-Reported}
use usb_sentinel.Detectors.Detector.{DetectContext}
use usb_sentinel.Platform.{
  DirEntry, Visit, refuses, opens, ends, lists, finished, chunk, FileVisit, readable,
}
use usb_sentinel.Status.{ok, io}

abbrev shouting : DirEntry
shouting = record {
  name = codes "AUTORUN.INF";
  is_directory = false;
  is_reparse_point = false;
  is_hidden = true;
  size_bytes = 20;
}

abbrev root : Visit
root = opens (lists shouting (refuses io true) ends)

abbrev launching : FileVisit
launching = readable (chunk (codes "[autorun]") (chunk (codes "OPEN=x.exe") finished))

abbrev context : DetectContext
context = record { device = none; volume_path = some (codes "/m/"); capabilities = none }

real_spelling : autorun_name root ≡ codes "AUTORUN.INF"
unfolding autorun_name find_autorun_name find_in equals_ci lower_ascii
real_spelling = refl

found_across_chunks : contains_ci (codes "[autorun]OPEN=x.exe") (codes "open=") ≡ true
unfolding contains_ci contains_from begins_ci lower_ascii
found_across_chunks = refl

detect_autorun-Reported_example :
    (result : CheckResult) × (detect_autorun posix
        (λ n. leb n 10000)
        root
        launching
        (some context)
        (some (check_result_init none))
      ≡ (ok, some result))
    × Reported (autorun_name root) launching result
detect_autorun-Reported_example =
    detect_autorun-Reported posix (λ n. leb n 10000) root launching context (check_result_init none)
      (codes "/m/") refl (omega arith) refl
