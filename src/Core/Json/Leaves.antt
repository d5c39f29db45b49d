-- ===== src/Core/Json/Leaves.antt =====
-- The reader's leaves read back what the writer's leaves print.
use usb_sentinel.Prelude.{
  ℕ, zero, suc, ◌+◌, ◌*◌, ◌/◌, ◌%◌, ◌≤◌, ◌<◌, ◌≡◌, refl, ap, ◌∙◌, true, false, ◌||◌, [], ◌∷◌, ◌++◌,
  append_assoc, some, arith, ltb, ◌==◌, length, length-append, CString, Bool-cases, List-cases,
  subst, append-nil, inl, inr, All,
}
use usb_sentinel.Core.Json.Digits.{length-digits_onto-le, length-print_uint_pos}
use usb_sentinel.Core.Json.Decimal.{
  ℤ, pos, negsuc, digits_onto, print_uint, print_int, hex_digit, print_hex4,
}
use usb_sentinel.Core.Json.Document.{escaped, quoted}
use usb_sentinel.Core.Json.Strings.{
  ok, put, hex_value, hex_code, unicode_escape, escape, next_char, read_chars, before_nul,
  parse_string_literal, is_digit, span_digits, scan_sign, scan_fraction, scan_exponent, scan_number,
}
use usb_sentinel.Core.Json.Writer.{escape_byte}

-- The bytes of a C string.
abbrev pub IsText : CString → Type 0
IsText s = All (λ c. 0 < c) s

hex_value-hex_digit : (d : ℕ) → d < 16 → hex_value (hex_digit d) ≡ some d
hex_value-hex_digit d h = ground arith

hex_code-step :
    (n code d : ℕ) (p : CString)
    → d < 16
    → hex_code (suc n) code (hex_digit d ∷ p) ≡ hex_code n (code * 16 + d) p
unfolding hex_code
hex_code-step n code d p h = rw (hex_value-hex_digit d h, hex_code)

unicode_escape-print_hex4 :
    (c : ℕ) (rest : CString) → c < 32 → unicode_escape (print_hex4 c ++ rest) ≡ put (c ∷ []) rest
unfolding unicode_escape
unicode_escape-print_hex4 c rest h =
    let read : hex_code 4 0 (print_hex4 c ++ rest) ≡ some (c, rest) =
      hex_code-step 3 0 (c / 4096) _ (omega arith)
      ∙ hex_code-step 2 _ (c / 256 % 16) _ (omega arith)
      ∙ hex_code-step 1 _ (c / 16 % 16) _ (omega arith)
      ∙ hex_code-step 0 _ (c % 16) _ (omega arith)
      ∙ (unfold hex_code in ground arith) in
    rw (read, unicode_escape) (ground arith)

next_char-escape_byte :
    (c : ℕ) (rest : CString) → 0 < c → next_char (escape_byte c ++ rest) ≡ put (c ∷ []) rest
unfolding next_char escape_byte escape
next_char-escape_byte c rest h = ground (arith, unicode_escape-print_hex4 c rest)

read_chars-escaped :
    (s : CString) (f : ℕ) (rest : CString)
    → IsText s
    → length s < f
    → read_chars f (escaped s ++ rest) ≡ ok (s, rest)
unfolding read_chars
read_chars-escaped s zero rest t h = absurd (omega arith)
read_chars-escaped [] (suc f) rest t h = unfold next_char in refl
read_chars-escaped (c ∷ s) (suc f) rest (pos_c, t) h =
    rw
      (
        append_assoc (escape_byte c) (escaped s) rest,
        next_char-escape_byte c (escaped s ++ rest) pos_c,
        read_chars,
      )
      (rw (read_chars-escaped s f rest t (omega arith)))

before_nul-IsText : (s : CString) → IsText s → before_nul s ≡ s
unfolding before_nul
before_nul-IsText [] t = refl
before_nul-IsText (c ∷ s) (h, t) = ground (arith, before_nul-IsText s t)

length-escape_byte_pos : (c : ℕ) → 0 < length (escape_byte c)
unfolding escape_byte
length-escape_byte_pos c = ground arith

length-escaped : (s : CString) → length s < length (escaped s)
length-escaped [] = omega arith
length-escaped (c ∷ s) =
    omega
      (arith, length-append (escape_byte c) (escaped s), length-escape_byte_pos c, length-escaped s)

-- The escaped form of a C string in quotes, with anything behind it, reads back as the string and
-- what stood behind it.
pub parse_string_literal-quoted :
    (s rest : CString) → IsText s → parse_string_literal (quoted s ++ rest) ≡ ok (s, rest)
unfolding parse_string_literal
parse_string_literal-quoted s rest t =
    let read =
      read_chars-escaped s (suc (length (escaped s ++ rest))) rest t
        (omega (arith, length-append (escaped s) rest, length-escaped s)) in
    rw (read, before_nul-IsText s t) refl

-- What ends a number.
abbrev pub Delimits : CString → Type 0
Delimits [] = Unit {0}
Delimits (c ∷ p) = (is_digit c ≡ false) × (c == b'.' ≡ false) × ((c == b'e' || c == b'E') ≡ false)

abbrev Digits : CString → Type 0
Digits ds = All (λ c. is_digit c ≡ true) ds

span_digits-Digits :
    (ds rest : CString) → Digits ds → Delimits rest → span_digits (ds ++ rest) ≡ (ds, rest)
unfolding span_digits
span_digits-Digits [] [] d h = refl
span_digits-Digits [] (c ∷ p) d h = rw h.0
span_digits-Digits (c ∷ ds) rest (x, d) h = rw (x, span_digits-Digits ds rest d h)

digits_onto-Digits : (f n : ℕ) (rest : CString) → Digits rest → Digits (digits_onto f n rest)
unfolding digits_onto
digits_onto-Digits zero n rest d = d
digits_onto-Digits (suc f) n rest d = elim (Bool-cases (ltb n 10)) [
  | inl e ↦ rw e (ground arith, d)
  | inr e ↦ rw e (digits_onto-Digits f (n / 10) ((b'0' + n % 10) ∷ rest) (ground arith, d))
]

print_uint-Digits : (n : ℕ) → Digits (print_uint n)
unfolding print_uint
print_uint-Digits n = digits_onto-Digits 20 n [] tt

scan_tail :
    (rest : CString)
    → Delimits rest
    → (scan_fraction rest ≡ ([], rest)) × (scan_exponent rest ≡ ([], rest))
unfolding scan_fraction scan_exponent
scan_tail [] h = (refl, refl)
scan_tail (c ∷ p) (d, dot, e) = (rw dot, rw e)

scan_sign-digit : (c : ℕ) (p : CString) → is_digit c ≡ true → scan_sign (c ∷ p) ≡ ([], c ∷ p)
unfolding scan_sign
scan_sign-digit c p d = ground arith

-- Digits in front of a delimiter are passed over whole.
scan_number-Digits :
    (sign ds rest : CString)
    → Digits ds
    → Delimits rest
    → (p : CString) → scan_sign p ≡ (sign, ds ++ rest)
    → scan_number p ≡ (sign ++ ds, rest)
unfolding scan_number
scan_number-Digits sign ds rest d h p e =
    let (fraction, exponent) = scan_tail rest h in
    rw (e, span_digits-Digits ds rest d h, fraction, exponent) (rw append-nil)

print_uint_head : (n : ℕ) → (c : ℕ) × (ds : CString) × (print_uint n ≡ c ∷ ds) × (is_digit c ≡ true)
print_uint_head n = elim (List-cases (print_uint n)) [
  | inl e ↦ absurd (omega (arith, ap length e, length-print_uint_pos n))
  | inr (c, ds, e) ↦ (c, ds, e, (subst Digits e (print_uint-Digits n)).0)
]

scan_number-print_uint :
    (n : ℕ) (rest : CString)
    → Delimits rest
    → scan_number (print_uint n ++ rest) ≡ (print_uint n, rest)
scan_number-print_uint n rest h =
    let (c, ds, e, d) = print_uint_head n in
    scan_number-Digits [] (print_uint n) rest (print_uint-Digits n) h (print_uint n ++ rest)
      (rw e (scan_sign-digit c (ds ++ rest) d))

-- The number scanner passes over a printed integer whole when the text behind it starts with no
-- digit, point or exponent letter.
pub scan_number-print_int :
    (z : ℤ) (rest : CString)
    → Delimits rest
    → scan_number (print_int z ++ rest) ≡ (print_int z, rest)
unfolding print_int
scan_number-print_int (pos n) rest h = scan_number-print_uint n rest h
scan_number-print_int (negsuc n) rest h =
    scan_number-Digits (b'-' ∷ []) (print_uint (n + 1)) rest (print_uint-Digits (n + 1)) h
      (b'-' ∷ (print_uint (n + 1) ++ rest)) (unfold scan_sign in refl)

-- The first byte of a printed integer: a minus sign or a digit.
pub print_int_head :
    (z : ℤ) → (c : ℕ) × (ds : CString) × (print_int z ≡ c ∷ ds) × ((c == b'-' || is_digit c) ≡ true)
unfolding print_int
print_int_head (pos n) = let (c, ds, e, d) = print_uint_head n in (c, ds, e, ground (arith, d))
print_int_head (negsuc n) = (b'-', print_uint (n + 1), refl, refl)

pub length-print_int-le : (z : ℤ) → length (print_int z) ≤ 21
unfolding print_int print_uint
length-print_int-le (pos n) = omega (arith, length-digits_onto-le 20 n [])
length-print_int-le (negsuc n) = omega (arith, length-digits_onto-le 20 (n + 1) [])
