-- ===== src/Detectors/HashMatch/Tests.antt =====
-- The comparison at concrete files.
use usb_sentinel.Prelude.{
  ◌≡◌, ◌&&◌, ◌^◌, refl, if◌then◌else◌, true, false, not, ltb, none, some, CString, codes, arith,
  str_eq, lower_ascii,
}
use usb_sentinel.Core.Env.{xdg, getenv, value_for, user_data_dir}
use usb_sentinel.Core.Json.Strings.{before_nul}
use usb_sentinel.Core.Path.{posix, is_separator}
use usb_sentinel.Core.Scan.{CheckResult, check_result_init}
use usb_sentinel.Detectors.Detector.{FileContext}
use usb_sentinel.Detectors.HashMatch.{
  World, reset, resolve_signature_path, ensure_signatures_loaded,
}
use usb_sentinel.Detectors.HashMatch.Content.{content}
use usb_sentinel.Detectors.HashMatch.OnFile.{
  relative_path, path_filename, filename_from, hex_of, volume_of, hash_match_on_file,
}
use usb_sentinel.Detectors.HashMatch.Verdict.{Flagged, on_file-Flagged}
use usb_sentinel.Detectors.SignatureList.Instances.{decimal, sort, sort-Sorts, serve, serve-Serves}
use usb_sentinel.Detectors.SignatureList.FileRead.{opened}
use usb_sentinel.Detectors.SignatureList.Line.{
  skip_blanks, split_at, trim_end, normalize_hash, make_entry, parse_fields, parse_line,
}
use usb_sentinel.Detectors.SignatureList.Load.{lines, first_byte}
use usb_sentinel.Detectors.SignatureList.Loaded.{parsed, any_match}
use usb_sentinel.Platform.{DirEntry, Reads, finished, chunk, readable}
use usb_sentinel.Platform.Sha256.Digest.{sha256}
use usb_sentinel.Status.{ok}

-- The hash of the text abc
abbrev listed : CString
listed = codes "BA7816BF8F01CFEA414140DE5DAE2223B00361A396177A9CB410FF61F20015AD:3:abc\n"

abbrev world : World
world = record {
  system = xdg;
  environment = λ name.
      if str_eq name (codes "USBS_HASH_MATCH_SIGNATURES") then some (codes "/s.txt") else none;
  signature_file = λ path. opened (serve listed);
  realloc = λ n. true;
  strtoull = decimal;
  sort = sort;
}

abbrev abc : DirEntry
abc = record {
  name = codes "abc";
  is_directory = false;
  is_reparse_point = false;
  is_hidden = false;
  size_bytes = 3;
}

abbrev in_two : Reads
in_two = chunk (codes "a") (chunk (codes "bc") finished)

abbrev blank : FileContext
blank = record { detect_ctx = none; result = check_result_init (some (codes "hash_match_example")) }

last_component : path_filename posix (codes "/a/b/s.txt") ≡ codes "s.txt"
unfolding path_filename filename_from is_separator
last_component = refl

on_file-Flagged_example :
    (r : CheckResult) × (hash_match_on_file world reset true
        (readable in_two)
        (some blank)
        (some (codes "/m/abc"))
        (some abc)
      ≡ (ok, ensure_signatures_loaded world reset, some r))
    × Flagged world
        (relative_path (codes "/m/abc") (volume_of none))
        blank.result.findings
        r.findings
        (not (ltb (2 ^ 26) 3)
          && any_match (parsed decimal (lines listed)) 3 (hex_of (sha256 (content in_two))))
unfolding reset resolve_signature_path getenv value_for user_data_dir str_eq parsed lines first_byte
    skip_blanks split_at trim_end normalize_hash make_entry parse_fields parse_line before_nul
    lower_ascii
on_file-Flagged_example =
    on_file-Flagged world reset (codes "/s.txt") listed (serve listed) refl refl refl
      (serve-Serves listed) (λ n h. refl) sort-Sorts (omega arith) (omega arith) blank
      (codes "/m/abc") abc in_two
