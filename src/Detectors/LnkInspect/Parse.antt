-- ===== src/Detectors/LnkInspect/Parse.antt =====
-- `parse_lnk`
use Prim.Native.Nat.{bit_and}
use usb_sentinel.Prelude.{
  ℕ, zero, suc, ◌+◌, Bool, not, ◌&&◌, List, [], ◌∷◌, none, some, CString, ltb, leb, ◌==◌,
  if◌then◌else◌, length, str_eq,
}
use usb_sentinel.Detectors.Autorun.{c_string}
use usb_sentinel.Detectors.LnkInspect.Bytes.{
  Parsed, parsed, and_then, check, byte_at, in_range, read_u16, read_u32, read_cstring_ansi,
  read_string_data,
}

-- `LNK_HEADER_SIZE`, `LNK_TARGET_MAX` and `LNK_ARGS_MAX`
abbrev pub header_size : ℕ
header_size = 76

abbrev pub target_max : ℕ
target_max = 520

abbrev pub args_max : ℕ
args_max = 1024

-- `k_shell_link_clsid`
abbrev pub shell_link_clsid : List ℕ
shell_link_clsid =
    0x01 ∷ 0x14 ∷ 0x02 ∷ 0x00 ∷ 0x00 ∷ 0x00 ∷ 0x00 ∷ 0x00 ∷ 0xC0 ∷ 0x00 ∷ 0x00 ∷ 0x00 ∷ 0x00 ∷ 0x00
    ∷ 0x00 ∷ 0x46 ∷ []

-- `lnk_parsed_t`; a text is not there where it is empty.
pub record LnkParsed : Type 0 where
  pub target : CString
  pub arguments : CString

abbrev pub has_flag : ℕ → ℕ → Bool
has_flag flags bit = not (bit_and flags bit == 0)

-- `count` bytes from an offset on, as `memcmp` reads them
unfoldable pub bytes_at : ℕ → List ℕ → ℕ → Parsed (List ℕ)
bytes_at zero buf i = parsed []
bytes_at (suc count) buf i =
    and_then (byte_at buf i) (λ b. and_then (bytes_at count buf (i + 1)) (λ bs. parsed (b ∷ bs)))

-- The header: the link flags
unfoldable pub parse_header : List ℕ → Parsed ℕ
parse_header buf = check (leb header_size (length buf)) (
    and_then (read_u32 buf 0) (λ size. check (size == header_size) (
      and_then (bytes_at 16 buf 4)
        (λ clsid. check (str_eq clsid shell_link_clsid) (read_u32 buf 20)))))

-- The LinkTargetIDList, which is skipped: the offset behind it
unfoldable pub skip_id_list : List ℕ → ℕ → ℕ → Parsed ℕ
skip_id_list buf flags offset =
    if not (has_flag flags 0x01)
    then parsed offset
    else and_then (read_u16 buf offset)
        (λ size. check (in_range (length buf) (offset + 2) size) (parsed (offset + (2 + size))))

-- The local base path of a LinkInfo of `size` bytes at `offset`
unfoldable pub parse_base_path : List ℕ → ℕ → ℕ → Parsed CString
parse_base_path buf offset size = and_then (read_u32 buf (offset + 16)) (λ path_offset.
    check (ltb path_offset size)
      (read_cstring_ansi buf (offset + size) (offset + path_offset) target_max))

-- The LinkInfo: the offset behind it, and the target
unfoldable pub parse_link_info : List ℕ → ℕ → ℕ → Parsed (ℕ × CString)
parse_link_info buf flags offset =
    if not (has_flag flags 0x02)
    then parsed (offset, [])
    else and_then (read_u32 buf offset) (λ size.
      check (in_range (length buf) offset size && leb 4 size) (
        and_then (read_u32 buf (offset + 4)) (λ info_header.
          and_then (read_u32 buf (offset + 8)) (λ info_flags.
            and_then
              (if leb 0x1C info_header && has_flag info_flags 0x01
                then parse_base_path buf offset size
                else parsed [])
              (λ target. parsed (offset + size, target))))))

-- A string that is skipped where its flag is set
unfoldable pub skip_string : List ℕ → ℕ → ℕ → Bool → ℕ → Parsed ℕ
skip_string buf flags bit is_unicode offset =
    if not (has_flag flags bit)
    then parsed offset
    else and_then (read_string_data buf offset is_unicode none) (λ block. parsed block.0)

unfoldable pub parse_arguments : List ℕ → ℕ → Bool → ℕ → Parsed CString
parse_arguments buf flags is_unicode offset =
    if not (has_flag flags 0x20)
    then parsed []
    else and_then (read_string_data buf offset is_unicode (some args_max))
        (λ block. parsed (c_string block.1))

unfoldable pub parse_lnk : List ℕ → Parsed LnkParsed
parse_lnk buf = and_then (parse_header buf) (λ flags.
    let is_unicode = has_flag flags 0x80 in
    and_then (skip_id_list buf flags header_size) (λ info.
      and_then (parse_link_info buf flags info) (λ linked.
        and_then (skip_string buf flags 0x04 is_unicode linked.0) (λ relative.
          and_then (skip_string buf flags 0x08 is_unicode relative) (λ working.
            and_then (skip_string buf flags 0x10 is_unicode working) (λ command.
              and_then (parse_arguments buf flags is_unicode command)
                (λ arguments. parsed (record { target = linked.1; arguments = arguments }))))))))
