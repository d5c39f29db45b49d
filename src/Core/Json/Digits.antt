-- ===== src/Core/Json/Digits.antt =====
-- How many digits a printed number has.
use usb_sentinel.Prelude.{ℕ, zero, suc, ◌+◌, ◌/◌, ◌%◌, ◌≤◌, ◌<◌, ◌∷◌, [], arith, length, CString}
use usb_sentinel.Core.Json.Decimal.{ℤ, pos, negsuc, digits_onto, print_uint, print_int}

pub length-digits_onto-le :
    (f n : ℕ) (rest : CString) → length (digits_onto f n rest) ≤ f + length rest
unfolding digits_onto
length-digits_onto-le zero n rest = omega arith
length-digits_onto-le (suc f) n rest =
    ground (arith, length-digits_onto-le f (n / 10) ((b'0' + n % 10) ∷ rest))

digits_onto_pos : (f n : ℕ) (rest : CString) → 0 < length rest → 0 < length (digits_onto f n rest)
unfolding digits_onto
digits_onto_pos zero n rest h = h
digits_onto_pos (suc f) n rest h =
    ground (arith, digits_onto_pos f (n / 10) ((b'0' + n % 10) ∷ rest))

pub length-print_uint_pos : (n : ℕ) → 0 < length (print_uint n)
unfolding print_uint digits_onto
length-print_uint_pos n = ground (arith, digits_onto_pos 19 (n / 10) ((b'0' + n % 10) ∷ []))

pub length-print_int_pos : (z : ℤ) → 0 < length (print_int z)
unfolding print_int
length-print_int_pos (pos n) = length-print_uint_pos n
length-print_int_pos (negsuc n) = omega arith
