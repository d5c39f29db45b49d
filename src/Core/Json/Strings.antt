-- ===== src/Core/Json/Strings.antt =====
-- The reader's leaves: white space, string literals and the extent of a number. The position in the
-- text is the list of the bytes still to be read. Allocations are taken to succeed.
use usb_sentinel.Prelude.{
  ℕ, zero, suc, ◌+◌, ◌-◌, ◌*◌, ◌/◌, ◌%◌, Bool, true, false, not, ◌||◌, [], ◌∷◌, ◌++◌, Option, none,
  some, CString, ltb, ◌==◌, within, if◌then◌else◌, length,
}
use usb_sentinel.Status.{Status, invalid_arg}

-- `out_of_fuel` has no counterpart in the program.
pub data Result {ℓ} (A : Type ℓ) : Type ℓ where
  ok : A → Result A
  failed : Status → Result A
  out_of_fuel : Result A

infixl 5 ◌>>=◌
abbrev pub ◌>>=◌ {ℓ κ} : {A : Type ℓ} {B : Type κ} → Result A → (A → Result B) → Result B
ok a >>= f = f a
failed e >>= f = failed e
out_of_fuel >>= f = out_of_fuel

-- `peek`: NUL at the end
abbrev pub peek : CString → ℕ
peek [] = 0
peek (c ∷ p) = c

-- `++p->pos`
abbrev pub advance : CString → CString
advance [] = []
advance (c ∷ p) = p

abbrev pub at_end : CString → Bool
at_end [] = true
at_end (c ∷ p) = false

abbrev pub is_ws : ℕ → Bool
is_ws c = c == b' ' || (c == b'\t' || (c == b'\n' || c == b'\r'))

unfoldable pub skip_ws : CString → CString
skip_ws [] = []
skip_ws (c ∷ p) = if is_ws c then skip_ws p else c ∷ p

-- What one round of the loop of `parse_string_literal` does.
pub data Round : Type 0 where
  closed : CString → Round
  put : CString → CString → Round
  bad : Round

abbrev pub hex_value : ℕ → Option ℕ
hex_value h =
    if within b'0' b'9' h
    then some (h - b'0')
    else if within b'a' b'f' h
    then some (h - b'a' + 10)
    else if within b'A' b'F' h
    then some (h - b'A' + 10)
    else none

-- UTF-8 of a code below 2 ^ 16. The bits that the source joins by `|` do not overlap.
abbrev pub utf8 : ℕ → CString
utf8 code =
    if ltb code 0x80
    then code ∷ []
    else if ltb code 0x800
    then (0xC0 + code / 64) ∷ (0x80 + code % 64) ∷ []
    else (0xE0 + code / 4096) ∷ (0x80 + code / 64 % 64) ∷ (0x80 + code % 64) ∷ []

-- The loop over the digits behind `\u`: `code <<= 4`, then `code |= digit`.
unfoldable pub hex_code : ℕ → ℕ → CString → Option (ℕ × CString)
hex_code zero code p = some (code, p)
hex_code (suc n) code [] = none
hex_code (suc n) code (h ∷ p) = elim (hex_value h) [
  | none ↦ none
  | some d ↦ hex_code n (code * 16 + d) p
]

unfoldable pub unicode_escape : CString → Round
unicode_escape p =
    if ltb (length p) 4
    then bad
    else elim (hex_code 4 0 p) [ none ↦ bad | some (code, rest) ↦ put (utf8 code) rest ]

-- Behind a backslash.
unfoldable pub escape : CString → Round
escape [] = bad
escape (e ∷ p) =
    if e == b'"'
    then put (b'"' ∷ []) p
    else if e == b'\\'
    then put (b'\\' ∷ []) p
    else if e == b'/'
    then put (b'/' ∷ []) p
    else if e == b'b'
    then put (8 ∷ []) p
    else if e == b'f'
    then put (12 ∷ []) p
    else if e == b'n'
    then put (b'\n' ∷ []) p
    else if e == b'r'
    then put (b'\r' ∷ []) p
    else if e == b't'
    then put (b'\t' ∷ []) p
    else if e == b'u'
    then unicode_escape p
    else bad

unfoldable pub next_char : CString → Round
next_char [] = bad
next_char (c ∷ p) = if c == b'"' then closed p else if c == b'\\' then escape p else put (c ∷ []) p

-- Every round reads a byte at least, so fuel above the length is enough.
unfoldable pub read_chars : ℕ → CString → Result (CString × CString)
read_chars zero p = out_of_fuel
read_chars (suc f) p = elim (next_char p) [
  | closed rest ↦ ok ([], rest)
  | put bytes rest ↦ read_chars f rest >>= λ (s, end). ok (bytes ++ s, end)
  | bad ↦ failed invalid_arg
]

-- What a reader of the C string sees of a buffer.
unfoldable pub before_nul : CString → CString
before_nul [] = []
before_nul (c ∷ s) = if c == 0 then [] else c ∷ before_nul s

unfoldable pub parse_string_literal : CString → Result (CString × CString)
parse_string_literal p =
    if not (peek p == b'"')
    then failed invalid_arg
    else (read_chars (suc (length (advance p))) (advance p) >>= λ (s, rest).
        ok (before_nul s, rest))

abbrev pub is_digit : ℕ → Bool
is_digit c = within b'0' b'9' c

-- The digits in front, and the rest.
unfoldable pub span_digits : CString → CString × CString
span_digits [] = ([], [])
span_digits (c ∷ p) =
    let (ds, rest) = span_digits p in if is_digit c then (c ∷ ds, rest) else ([], c ∷ p)

unfoldable pub scan_sign : CString → CString × CString
scan_sign p = if peek p == b'-' then (b'-' ∷ [], advance p) else ([], p)

unfoldable pub scan_fraction : CString → CString × CString
scan_fraction p =
    if peek p == b'.'
    then (let (ds, rest) = span_digits (advance p) in (b'.' ∷ ds, rest))
    else ([], p)

unfoldable pub scan_exponent : CString → CString × CString
scan_exponent [] = ([], [])
scan_exponent (c ∷ p) =
    if c == b'e' || c == b'E'
    then (let sign = if peek p == b'+' || peek p == b'-' then peek p ∷ [] else [] in
        let p' = if peek p == b'+' || peek p == b'-' then advance p else p in
        let (ds, rest) = span_digits p' in (c ∷ (sign ++ ds), rest))
    else ([], c ∷ p)

-- The bytes that `parse_number` passes over, and the rest.
unfoldable pub scan_number : CString → CString × CString
scan_number p =
    let (sign, p₁) = scan_sign p in
    let (whole, p₂) = span_digits p₁ in
    let (fraction, p₃) = scan_fraction p₂ in
    let (exponent, rest) = scan_exponent p₃ in (sign ++ (whole ++ (fraction ++ exponent)), rest)
