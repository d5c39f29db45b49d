-- ===== src/Detectors/LnkInspect/Bytes.antt =====
-- The readers of lnk_inspect.c, over the bytes that were read of a file. An access behind them is a `fault`
-- of the model; the code answers false where the model answers `malformed`. A size_t has 64 bits, and no
-- sum of an offset within the bytes and a number of the file reaches 2 ^ 64.
use Prim.Native.Nat.{bit_or}
use usb_sentinel.Prelude.{
  ℕ, zero, suc, ◌+◌, ◌-◌, ◌*◌, ◌^◌, Bool, false, not, ◌||◌, List, [], ◌∷◌, ◌++◌, Option, none, some,
  CString, get_elem?, ltb, leb, ◌==◌, if◌then◌else◌, length,
}

pub data Parsed (A : Type 0) : Type 0 where
  fault malformed : Parsed A
  parsed : A → Parsed A

unfoldable pub and_then : {A B : Type 0} → Parsed A → (A → Parsed B) → Parsed B
and_then fault f = fault
and_then malformed f = malformed
and_then (parsed a) f = f a

abbrev pub check : {A : Type 0} → Bool → Parsed A → Parsed A
check holds rest = if holds then rest else malformed

unfoldable pub byte_at : List ℕ → ℕ → Parsed ℕ
byte_at buf i = elim (get_elem? buf i) [ none ↦ fault | some b ↦ parsed b ]

unfoldable pub in_range : ℕ → ℕ → ℕ → Bool
in_range len offset count = if ltb len count then false else leb offset (len - count)

unfoldable pub read_u16 : List ℕ → ℕ → Parsed ℕ
read_u16 buf offset = check (in_range (length buf) offset 2) (
    and_then (byte_at buf offset)
      (λ b₀. and_then (byte_at buf (offset + 1)) (λ b₁. parsed (bit_or b₀ (b₁ * 2 ^ 8)))))

unfoldable pub read_u32 : List ℕ → ℕ → Parsed ℕ
read_u32 buf offset = check (in_range (length buf) offset 4) (
    and_then (byte_at buf offset) (λ b₀. and_then (byte_at buf (offset + 1)) (λ b₁.
      and_then (byte_at buf (offset + 2)) (λ b₂.
        and_then (byte_at buf (offset + 3))
          (λ b₃. parsed (bit_or (bit_or (bit_or b₀ (b₁ * 2 ^ 8)) (b₂ * 2 ^ 16)) (b₃ * 2 ^ 24)))))))

-- `out[o++] = c`, where there is room for it and the NUL
unfoldable pub put_char : ℕ → CString → ℕ → CString
put_char size out c = if ltb (length out + 1) size then out ++ (c ∷ []) else out

-- The loop of `read_cstring_ansi`, over the `left` bytes in front of the bound
unfoldable pub copy_cstring : ℕ → List ℕ → ℕ → ℕ → CString → Parsed CString
copy_cstring zero buf i size out = parsed out
copy_cstring (suc left) buf i size out =
    and_then (byte_at buf i)
      (λ b. if b == 0 then parsed out else copy_cstring left buf (i + 1) size (put_char size out b))

unfoldable pub read_cstring_ansi : List ℕ → ℕ → ℕ → ℕ → Parsed CString
read_cstring_ansi buf bound offset size =
    if ltb bound offset || size == 0
    then malformed
    else copy_cstring (bound - offset) buf offset size []

-- The loop of `read_string_data`, over `count` characters
unfoldable pub copy_chars : ℕ → List ℕ → Bool → ℕ → ℕ → CString → Parsed CString
copy_chars zero buf is_unicode i size out = parsed out
copy_chars (suc count) buf is_unicode i size out = and_then (byte_at buf i) (λ low.
    and_then (if is_unicode then byte_at buf (i + 1) else parsed 0) (λ high.
      copy_chars count buf is_unicode (if is_unicode then i + 2 else i + 1) size
        (put_char size out (if not (high == 0) || leb 0x80 low then b'?' else low))))

-- `read_string_data`: the new offset, and what `out` holds. `none` is a NULL `out`.
unfoldable pub read_string_data : List ℕ → ℕ → Bool → Option ℕ → Parsed (ℕ × CString)
read_string_data buf offset is_unicode out = and_then (read_u16 buf offset) (λ count.
    let byte_len = count * (if is_unicode then 2 else 1) in
    check (in_range (length buf) (offset + 2) byte_len) (elim out [
      | none ↦ parsed (offset + 2 + byte_len, [])
      | some size ↦
          and_then
            (if size == 0 then parsed [] else copy_chars count buf is_unicode (offset + 2) size [])
            (λ text. parsed (offset + 2 + byte_len, text))
    ]))
