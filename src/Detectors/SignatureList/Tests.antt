-- ===== src/Detectors/SignatureList/Tests.antt =====
-- Runs of the line parser, after tests/test_signature_list.c, and the theorems at concrete inputs.
use usb_sentinel.Prelude.{
  ◌≡◌, refl, true, [], ◌∷◌, ◌++◌, some, CString, codes, arith, lower_ascii, map,
}
use usb_sentinel.Detectors.SignatureList.{SignatureList}
use usb_sentinel.Detectors.SignatureList.Instances.{decimal, sort, sort-Sorts, serve, serve-Serves}
use usb_sentinel.Detectors.SignatureList.FileRead.{opened}
use usb_sentinel.Detectors.SignatureList.WholeFile.{IsFront}
use usb_sentinel.Detectors.SignatureList.Line.{
  skip_quiet, malformed, skip_blanks, split_at, trim_end, normalize_hash, make_entry, parse_fields,
  parse_line,
}
use usb_sentinel.Detectors.SignatureList.Line
use usb_sentinel.Detectors.SignatureList.Load.{empty_list, load}
use usb_sentinel.Detectors.SignatureList.Loaded.{Holds, load-Holds}
use usb_sentinel.Detectors.SignatureList.Lookup.{lookup}
use usb_sentinel.Detectors.SignatureList.Bounds.{IsSorted}
use usb_sentinel.Detectors.SignatureList.Search.{find_name, lookup-find_name}
use usb_sentinel.Core.Json.Strings.{before_nul}
use usb_sentinel.Status.{ok}

abbrev hash : CString
hash = codes "275A021BBFB6489E54D471899F7DB9D1663FC695EC2FE2A2C4538AABF651FD0F"

line_parsed :
    parse_line decimal (codes " " ++ (hash ++ codes ":68:Eicar test \r"))
    ≡ Line.ok (record { sha256_hex = map lower_ascii hash; size = 68; name = codes "Eicar test" })
unfolding skip_blanks split_at trim_end normalize_hash make_entry parse_fields parse_line before_nul
    lower_ascii
line_parsed = refl

line_bad_size : parse_line decimal (hash ++ codes ":6x:Eicar") ≡ malformed
unfolding skip_blanks split_at trim_end normalize_hash make_entry parse_fields parse_line before_nul
line_bad_size = refl

line_comment : parse_line decimal (codes "\t# sha256:size:name") ≡ skip_quiet
unfolding skip_blanks parse_line
line_comment = refl

abbrev file : CString
file = hash ++ codes ":68:Eicar\n# end\n"

load-Holds_example :
    (buf : CString) × (list : SignatureList) × IsFront file buf
    × (load (λ n. true) decimal sort (some empty_list) (opened (serve file)) ≡ (ok, some list))
    × Holds decimal buf list
load-Holds_example =
    load-Holds (λ n. true) (λ n h. refl) decimal sort file (serve file) sort-Sorts
      (serve-Serves file)

abbrev known : SignatureList
known = record {
  entries =
      record { sha256_hex = codes "aa"; size = 3; name = codes "first" }
      ∷ record { sha256_hex = codes "bb"; size = 7; name = codes "second" }
      ∷ record { sha256_hex = codes "cc"; size = 7; name = codes "third" }
      ∷ [];
  capacity = 64;
}

known-IsSorted : IsSorted known.entries
known-IsSorted = ground arith

lookup-find_name_example :
    lookup (some known) 7 (some (codes "cc")) ≡ find_name known.entries 7 (codes "cc")
lookup-find_name_example = lookup-find_name known 7 (codes "cc") known-IsSorted
