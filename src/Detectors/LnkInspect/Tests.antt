-- ===== src/Detectors/LnkInspect/Tests.antt =====
-- Shortcuts at concrete bytes.
use usb_sentinel.Prelude.{
  str_eq, ℕ, zero, suc, ◌≡◌, ◌<◌, refl, false, List, [], ◌∷◌, ◌++◌, none, some, codes, length,
  lower_ascii,
}
use usb_sentinel.Core.Scan.{CheckResult, check_result_init}
use usb_sentinel.Detectors.Autorun.{contains_ci, contains_from, begins_ci, c_string}
use usb_sentinel.Detectors.Detector.{DetectContext}
use usb_sentinel.Detectors.LnkInspect.Bytes.{
  malformed, parsed, and_then, byte_at, in_range, read_u16, read_u32, read_string_data, copy_chars,
  put_char,
}
use usb_sentinel.Detectors.LnkInspect.Hostile.{parse_lnk-Ensures}
use usb_sentinel.Detectors.LnkInspect.OnFile.{first_marker, matched_marker}
use usb_sentinel.Detectors.LnkInspect.Parse.{
  target_max, args_max, shell_link_clsid, parse_header, bytes_at, skip_id_list, parse_link_info,
  skip_string, parse_arguments, parse_lnk,
}
use usb_sentinel.Detectors.LnkInspect.Safety.{Ensures}
use usb_sentinel.Platform.{DirEntry}

abbrev nothing : ℕ → List ℕ
nothing zero = []
nothing (suc n) = 0 ∷ nothing n

-- A shortcut without a target, with arguments in one byte for each character
abbrev shortcut : List ℕ
shortcut =
    (76 ∷ 0 ∷ 0 ∷ 0 ∷ [])
    ++ (shell_link_clsid
        ++ ((0x20 ∷ 0 ∷ 0 ∷ 0 ∷ []) ++ (nothing 52 ++ ((7 ∷ 0 ∷ []) ++ codes "-NoP -c"))))

parses : parse_lnk shortcut ≡ parsed (record { target = []; arguments = codes "-NoP -c" })
unfolding parse_lnk parse_header bytes_at skip_id_list parse_link_info skip_string parse_arguments
    read_string_data copy_chars put_char read_u16 read_u32 byte_at in_range and_then c_string str_eq
parses = refl

cut_short : parse_lnk (76 ∷ 0 ∷ 0 ∷ 0 ∷ []) ≡ malformed
unfolding parse_lnk parse_header and_then
cut_short = refl

marker_found :
    matched_marker (record { target = []; arguments = codes "-NoP -c" }) ≡ some (codes "-nop")
unfolding matched_marker first_marker contains_ci contains_from begins_ci lower_ascii
marker_found = refl

parse_lnk-Ensures_example :
    Ensures
      (λ p. (length p.target < target_max) × (length p.arguments < args_max))
      (parse_lnk shortcut)
parse_lnk-Ensures_example = parse_lnk-Ensures shortcut

abbrev on_stick : DetectContext
on_stick = record { device = none; volume_path = some (codes "/m/"); capabilities = none }

abbrev entry : DirEntry
entry = record {
  name = codes "cv.pdf.LNK";
  is_directory = false;
  is_reparse_point = false;
  is_hidden = false;
  size_bytes = 85;
}

abbrev before : CheckResult
before = check_result_init (some (codes "lnk_inspection"))
