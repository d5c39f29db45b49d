-- ===== src/Detectors/LnkInspect/Hostile.antt =====
-- `parse_lnk` on any bytes.
use usb_sentinel.Prelude.{
  ℕ, zero, suc, ◌+◌, ◌*◌, ◌≤◌, ◌<◌, ◌≡◌, inl, inr, Bool, true, false, ◌&&◌, List, [], ◌∷◌, none,
  some, ltb, leb, ◌==◌, if◌then◌else◌, length, arith, Bool-cases, str_eq,
}
use usb_sentinel.Detectors.Autorun.{c_string}
use usb_sentinel.Detectors.LnkInspect.Bytes.{Parsed, parsed, in_range, read_string_data}
use usb_sentinel.Detectors.LnkInspect.Parse.{
  header_size, target_max, args_max, bytes_at, parse_header, skip_id_list, parse_base_path,
  parse_link_info, skip_string, parse_arguments, parse_lnk, has_flag, shell_link_clsid,
}
use usb_sentinel.Detectors.LnkInspect.Safety.{
  Ensures, refused, given, NoFault, and_then-Ensures, check-Ensures, byte_at-NoFault, in_range-le,
  read_u16-NoFault, read_u32-NoFault, read_cstring_ansi-NoFault, copy_chars-NoFault,
}

read_string_data-NoFault :
    (buf : List ℕ) (offset : ℕ) (is_unicode : Bool)
    → NoFault (read_string_data buf offset is_unicode none)
unfolding read_string_data
read_string_data-NoFault buf offset is_unicode =
    and_then-Ensures (read_u16-NoFault buf offset) (λ count u.
      check-Ensures (in_range (length buf) (offset + 2) (count * (if is_unicode then 2 else 1)))
        (λ ok. given tt))

read_string_data-Ensures :
    (buf : List ℕ) (offset : ℕ) (is_unicode : Bool) (size : ℕ)
    → 0 < size
    → Ensures (λ block. length block.1 < size) (read_string_data buf offset is_unicode (some size))
unfolding read_string_data
read_string_data-Ensures buf offset is_unicode size h =
    let kept : (size == 0) ≡ false = ground arith in
    and_then-Ensures (read_u16-NoFault buf offset) (λ count u.
      check-Ensures (in_range (length buf) (offset + 2) (count * (if is_unicode then 2 else 1)))
        (λ ok.
          let fits =
            in_range-le (length buf) (offset + 2) (count * (if is_unicode then 2 else 1)) ok in
          and_then-Ensures {P = λ text. length text < size}
            (simp (kept) (copy_chars-NoFault count buf is_unicode (offset + 2) size [] fits h))
            (λ text room. given room)))

bytes_at-NoFault :
    (count : ℕ) (buf : List ℕ) (i : ℕ) → i + count ≤ length buf → NoFault (bytes_at count buf i)
unfolding bytes_at
bytes_at-NoFault zero buf i h = given tt
bytes_at-NoFault (suc count) buf i h =
    and_then-Ensures (byte_at-NoFault buf i (omega arith)) (λ b u.
      and_then-Ensures (bytes_at-NoFault count buf (i + 1) (omega arith)) (λ bs v. given tt))

weaken :
    {A : Type 0} {P Q : A → Type 0} {m : Parsed A}
    → ((a : A) → P a → Q a)
    → Ensures P m
    → Ensures Q m
weaken f refused = refused
weaken f (given p) = given (f _ p)

parse_header-NoFault : (buf : List ℕ) → NoFault (parse_header buf)
unfolding parse_header
parse_header-NoFault buf = check-Ensures (leb header_size (length buf)) (λ long.
    and_then-Ensures (read_u32-NoFault buf 0) (λ size u. check-Ensures (size == header_size) (λ e.
      and_then-Ensures (bytes_at-NoFault 16 buf 4 (ground (arith, long))) (λ clsid v.
        check-Ensures (str_eq clsid shell_link_clsid)
          (λ e'. weaken (λ a p. tt) (read_u32-NoFault buf 20))))))

skip_id_list-NoFault : (buf : List ℕ) (flags offset : ℕ) → NoFault (skip_id_list buf flags offset)
unfolding skip_id_list
skip_id_list-NoFault buf flags offset = elim (Bool-cases (has_flag flags 0x01)) [
  | inr e ↦ simp (e) (given tt)
  | inl e ↦ simp (e) (
      and_then-Ensures (read_u16-NoFault buf offset)
        (λ size u. check-Ensures (in_range (length buf) (offset + 2) size) (λ ok. given tt)))
]

parse_base_path-NoFault :
    (buf : List ℕ) (offset size : ℕ)
    → offset + size ≤ length buf
    → Ensures (λ target. length target < target_max) (parse_base_path buf offset size)
unfolding parse_base_path
parse_base_path-NoFault buf offset size fits =
    and_then-Ensures (read_u32-NoFault buf (offset + 16)) (λ path_offset u.
      check-Ensures (ltb path_offset size) (λ inside.
        read_cstring_ansi-NoFault buf (offset + size) (offset + path_offset) target_max fits))

path_if :
    (buf : List ℕ) (offset size : ℕ) (there : Bool)
    → offset + size ≤ length buf
    → Ensures
        (λ target. length target < target_max)
        (if there then parse_base_path buf offset size else parsed [])
path_if buf offset size true fits = parse_base_path-NoFault buf offset size fits
path_if buf offset size false fits = given (omega arith)

parse_link_info-NoFault :
    (buf : List ℕ) (flags offset : ℕ)
    → Ensures (λ linked. length linked.1 < target_max) (parse_link_info buf flags offset)
unfolding parse_link_info
parse_link_info-NoFault buf flags offset = elim (Bool-cases (has_flag flags 0x02)) [
  | inr e ↦ simp (e) (given (omega arith))
  | inl e ↦ simp (e) (
      and_then-Ensures (read_u32-NoFault buf offset) (λ size u.
        check-Ensures (in_range (length buf) offset size && leb 4 size) (λ ok.
          and_then-Ensures (read_u32-NoFault buf (offset + 4)) (λ info_header v.
            and_then-Ensures (read_u32-NoFault buf (offset + 8)) (λ info_flags v'.
              and_then-Ensures
                (path_if buf offset size (leb 0x1C info_header && has_flag info_flags 0x01)
                  (in_range-le (length buf) offset size (ground (arith, ok))))
                (λ target p. given p))))))
]

skip_string-NoFault :
    (buf : List ℕ) (flags bit : ℕ) (is_unicode : Bool) (offset : ℕ)
    → NoFault (skip_string buf flags bit is_unicode offset)
unfolding skip_string
skip_string-NoFault buf flags bit is_unicode offset = elim (Bool-cases (has_flag flags bit)) [
  | inr e ↦ simp (e) (given tt)
  | inl e ↦
      simp (e)
        (and_then-Ensures (read_string_data-NoFault buf offset is_unicode) (λ block u. given tt))
]

length-c_string : (text : List ℕ) → length (c_string text) ≤ length text
unfolding c_string
length-c_string [] = omega arith
length-c_string (c ∷ text) = ground (arith, length-c_string text)

parse_arguments-NoFault :
    (buf : List ℕ) (flags : ℕ) (is_unicode : Bool) (offset : ℕ)
    → Ensures (λ text. length text < args_max) (parse_arguments buf flags is_unicode offset)
unfolding parse_arguments
parse_arguments-NoFault buf flags is_unicode offset = elim (Bool-cases (has_flag flags 0x20)) [
  | inr e ↦ simp (e) (given (omega arith))
  | inl e ↦ simp (e) (
      and_then-Ensures (read_string_data-Ensures buf offset is_unicode args_max (omega arith))
        (λ block p. given (omega (arith, p, length-c_string block.1))))
]

-- On any bytes, the parser of shortcuts reads none behind them, and where it parses, the target
-- and the arguments fit their buffers of 520 and 1024 bytes with their NUL.
pub parse_lnk-Ensures :
    (buf : List ℕ)
    → Ensures
        (λ p. (length p.target < target_max) × (length p.arguments < args_max))
        (parse_lnk buf)
unfolding parse_lnk
parse_lnk-Ensures buf = and_then-Ensures (parse_header-NoFault buf) (λ flags u.
    let is_unicode = has_flag flags 0x80 in
    and_then-Ensures (skip_id_list-NoFault buf flags header_size) (λ info v.
      and_then-Ensures (parse_link_info-NoFault buf flags info) (λ linked p.
        and_then-Ensures (skip_string-NoFault buf flags 0x04 is_unicode linked.0) (λ relative r.
          and_then-Ensures (skip_string-NoFault buf flags 0x08 is_unicode relative) (λ working s.
            and_then-Ensures (skip_string-NoFault buf flags 0x10 is_unicode working) (λ command t.
              and_then-Ensures (parse_arguments-NoFault buf flags is_unicode command)
                (λ arguments q. given (p, q))))))))
