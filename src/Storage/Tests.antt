-- ===== src/Storage/Tests.antt =====
-- Names, times and files of the store, after tests/test_storage.c, and the theorems at concrete inputs.
use usb_sentinel.Prelude.{
  ℕ, zero, suc, ◌≡◌, ◌⊎◌, refl, true, false, [], ◌∷◌, ◌++◌, none, some, arith, length, CString,
  codes,
}
use usb_sentinel.Core.Path.{posix}
use usb_sentinel.Platform.{DirEntry}
use usb_sentinel.Status.{ok, io}
use usb_sentinel.Core.Path.{path_join, print_bounded, ends_in_separator, is_separator}
use usb_sentinel.Storage.Stamp.{compact_timestamp, compact_from}
use usb_sentinel.Storage.{scans_root, device_dir}
use usb_sentinel.Storage.Files.{
  has_separator, final_path, Disk, failed, StoreAnswers, Report, report_name, write_report_file,
}
use usb_sentinel.Storage.Files.Atomic.{Outcome, IsTarget, write_report_file-Outcome}
use usb_sentinel.Storage.LastScan.{no_scan, Entries, ends, entry, opens, read_opened, read_name}
use usb_sentinel.Storage.LastScan.Naming.{read_name-report_name}
use usb_sentinel.Storage.LastScan.Newest.{Greatest, reports, read_opened-Greatest}
use usb_sentinel.Storage.SafeId.{
  is_safe, upper_digit, hex_escape, encode_byte, encode_from, safe_id,
}
use usb_sentinel.Storage.SafeId.Names.{safe_id-inj, safe_id_collides}
use usb_sentinel.Storage.Stamp.RoundTrip.{Stamp, IsStamp, iso_text, compact_text}

naming : Unit {0}
unfolding safe_id encode_from encode_byte hex_escape upper_digit is_safe
naming = tt

safe_name :
    safe_id (some (codes "usb:0781-5583:AA11")) 64 ≡ (ok, some (codes "usb_3A0781-5583_3AAA11"))
unfolding naming
safe_name = refl

safe_id-inj_example : ◌≡◌ {A = CString} (codes "usb:1") (codes "usb:1")
unfolding naming
safe_id-inj_example =
    safe_id-inj 64 (codes "usb:1") (codes "usb:1") (codes "usb_3A1") (omega arith) (omega arith)
      refl refl

safe_id_collides_example :
    safe_id (some (codes "a" ++ (hex_escape b'/' ++ codes "b"))) 64
    ≡ safe_id (some (codes "a" ++ (b'/' ∷ codes "b"))) 64
unfolding naming
safe_id_collides_example = safe_id_collides 64 b'/' (codes "a") (codes "b") (omega arith) refl

abbrev noon : Stamp
noon = record {
  year = codes "2026";
  month = codes "09";
  day = codes "11";
  hour = codes "14";
  minute = codes "02";
  second = codes "03";
}

noon-IsStamp : IsStamp noon
noon-IsStamp = record {
  year = record { size = refl; plain = (refl, (refl, (refl, (refl, tt)))) };
  month = record { size = refl; plain = (refl, (refl, tt)) };
  day = record { size = refl; plain = (refl, (refl, tt)) };
  hour = record { size = refl; plain = (refl, (refl, tt)) };
  minute = record { size = refl; plain = (refl, (refl, tt)) };
  second = record { size = refl; plain = (refl, (refl, tt)) };
}

read_name-report_name_example :
    read_name (report_name (compact_text noon) (codes "s1") (codes "json")) no_scan
    ≡ record no_scan { scanned_at = iso_text noon; scan_id = codes "s1"; found = true }
read_name-report_name_example =
    read_name-report_name noon (codes "s1") no_scan noon-IsStamp (omega arith)

abbrev file : CString → DirEntry
file name = record {
  name = name;
  is_directory = false;
  is_reparse_point = false;
  is_hidden = false;
  size_bytes = 10;
}

abbrev directory : Entries
directory = entry (file (codes "20260911T140203Z-s2.json")) (
    entry (file (codes "20260911T140203Z-s2.csv"))
      (entry (file (codes "20260910T140203Z-s1.json")) ends))

read_opened-Greatest_example :
    ((reports directory ≡ []) × (read_opened (opens directory) ≡ (ok, no_scan)))
    ⊎ ((best : CString) × Greatest best (reports directory)
        × (read_opened (opens directory)
            ≡ (ok, read_name best (record no_scan { report_count = length (reports directory) }))))
read_opened-Greatest_example = read_opened-Greatest directory (omega arith)

abbrev answers : StoreAnswers
answers = record { make_dirs = ok; write_file = failed io (some (codes "{")); replace_file = ok }

abbrev job : Report
job = record {
  identity = codes "usb:1";
  scan_id = codes "s1";
  timestamp = iso_text noon;
  extension = codes "json";
}

abbrev empty : Disk
empty p = none

write_report_file-Outcome_example :
    Outcome
      (IsTarget posix (codes "/var/lib/usb") job)
      empty
      (codes "{}")
      (write_report_file posix (codes "/var/lib/usb") answers job (codes "{}") empty)
write_report_file-Outcome_example =
    write_report_file-Outcome answers (codes "{}") empty refl posix (codes "/var/lib/usb") job

abbrev long : ℕ → CString → CString
long zero t = t
long (suc n) t = b'a' ∷ long n t

abbrev deep_root : CString
deep_root = b'/' ∷ long 471 []

abbrev deep_path : CString
deep_path = b'/' ∷ long 471 (codes "/scans/usb_3A1/20260911T140203Z-s1.json")

storing : Unit {0}
unfolding has_separator scans_root device_dir final_path report_name compact_timestamp compact_from
    path_join print_bounded ends_in_separator is_separator
storing = tt
