-- ===== src/Core/Json/Decimal.antt =====
-- The numerals that `snprintf` prints for "%llu", "%lld" and "%04x".
use usb_sentinel.Prelude.{ℕ, zero, suc, ◌+◌, ◌-◌, ◌/◌, ◌%◌, [], ◌∷◌, CString, ltb, if◌then◌else◌}

-- `negsuc n` is -(n + 1).
pub data ℤ : Type 0 where
  pos : ℕ → ℤ
  negsuc : ℕ → ℤ

-- Decimal digits in front of `rest`; the fuel bounds their number.
unfoldable pub digits_onto : ℕ → ℕ → CString → CString
digits_onto zero n rest = rest
digits_onto (suc f) n rest =
    let more = digits_onto f (n / 10) ((b'0' + n % 10) ∷ rest) in
    if ltb n 10 then (b'0' + n) ∷ rest else more

-- "%llu": 20 digits are enough below 10 ^ 20, and so below 2 ^ 64.
unfoldable pub print_uint : ℕ → CString
unfolding digits_onto
print_uint n = digits_onto 20 n []

-- "%lld"
unfoldable pub print_int : ℤ → CString
unfolding print_uint
print_int (pos n) = print_uint n
print_int (negsuc n) = b'-' ∷ print_uint (n + 1)

abbrev pub hex_digit : ℕ → ℕ
hex_digit d = if ltb d 10 then b'0' + d else b'a' + (d - 10)

-- "%04x" below 2 ^ 16
abbrev pub print_hex4 : ℕ → CString
print_hex4 n =
    hex_digit (n / 4096)
    ∷ hex_digit (n / 256 % 16)
    ∷ hex_digit (n / 16 % 16)
    ∷ hex_digit (n % 16)
    ∷ []
