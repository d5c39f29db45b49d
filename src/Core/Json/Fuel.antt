-- ===== src/Core/Json/Fuel.antt =====
-- The reader's fuel is enough for every text, and each step that succeeds has read something.
use usb_sentinel.Prelude.{
  ℕ, zero, suc, ◌+◌, ◌*◌, ◌≤◌, ◌<◌, ◌≡◌, refl, inl, inr, Bool, true, false, not, [], ◌∷◌, ◌++◌,
  some, arith, ltb, ◌==◌, if◌then◌else◌, length, length-append, CString, Option-cases,
}
use usb_sentinel.Status.{invalid_arg}
use usb_sentinel.Core.Json.Strings.{
  Result, ok, failed, out_of_fuel, ◌>>=◌, Round, closed, put, bad, peek, advance, skip_ws, hex_code,
  unicode_escape, escape, next_char, read_chars, hex_value, parse_string_literal, span_digits,
  scan_sign, scan_fraction, scan_exponent, scan_number,
}

-- No fuel is missing, and fewer than `n` bytes are left.
abbrev pub Shrinks : {A : Type 0} → ℕ → Result (A × CString) → Type 0
Shrinks n (ok (a, rest)) = length rest < n
Shrinks n (failed e) = Unit {0}
Shrinks n out_of_fuel = ⊥

pub Shrinks-bind :
    {A B : Type 0} (n m : ℕ) (r : Result (A × CString)) (g : A × CString → Result (B × CString))
    → Shrinks n r
    → ((a : A) (rest : CString) → length rest < n → Shrinks m (g (a, rest)))
    → Shrinks m (r >>= g)
Shrinks-bind n m (ok (a, rest)) g h k = k a rest h
Shrinks-bind n m (failed e) g h k = tt
Shrinks-bind n m out_of_fuel g h k = h

pub Shrinks-if :
    {A : Type 0} (n : ℕ) (b : Bool) (x y : Result (A × CString))
    → (b ≡ true → Shrinks n x)
    → (b ≡ false → Shrinks n y)
    → Shrinks n (if b then x else y)
Shrinks-if n true x y h k = h refl
Shrinks-if n false x y h k = k refl

pub length-skip_ws-le : (p : CString) → length (skip_ws p) ≤ length p
unfolding skip_ws
length-skip_ws-le [] = omega arith
length-skip_ws-le (c ∷ p) = ground (arith, length-skip_ws-le p)

-- A byte that is there is passed over.
pub length-advance-lt :
    (p : CString) (c : ℕ) → (peek p == c) ≡ true → 0 < c → length (advance p) < length p
length-advance-lt [] c e h = absurd (ground arith)
length-advance-lt (x ∷ p) c e h = omega arith

length-hex_code-le :
    (n code : ℕ) (p : CString) (c : ℕ) (rest : CString)
    → hex_code n code p ≡ some (c, rest)
    → length rest ≤ length p
unfolding hex_code
length-hex_code-le zero code p c rest e = ground (arith, e)
length-hex_code-le (suc n) code [] c rest e = absurd (cc)
length-hex_code-le (suc n) code (h ∷ p) c rest e = elim (Option-cases (hex_value h)) [
  | inl q ↦ absurd (ground (arith, e, q))
  | inr (d, q) ↦ omega (arith, length-hex_code-le n (code * 16 + d) p c rest (ground (arith, e, q)))
]

-- What a round leaves.
abbrev Read : ℕ → Round → Type 0
Read n (closed rest) = length rest < n
Read n (put bytes rest) = length rest < n
Read n bad = Unit {0}

Read-if : (n : ℕ) (b : Bool) (x y : Round) → Read n x → Read n y → Read n (if b then x else y)
Read-if n true x y h k = h
Read-if n false x y h k = k

unicode_escape-Read : (n : ℕ) (p : CString) → length p < n → Read n (unicode_escape p)
unfolding unicode_escape
unicode_escape-Read n p h =
    Read-if n (ltb (length p) 4) bad _ tt (elim (Option-cases (hex_code 4 0 p)) [
      | inl q ↦ rw q tt
      | inr ((code, rest), q) ↦ rw q (omega (arith, length-hex_code-le 4 0 p code rest q))
    ])

escape-Read : (n : ℕ) (p : CString) → length p < n → Read n (escape p)
unfolding escape
escape-Read n [] h = tt
escape-Read n (e ∷ p) h =
    let less : length p < n = omega arith in
    Read-if n (e == b'"') _ _ less (
      Read-if n (e == b'\\') _ _ less (
        Read-if n (e == b'/') _ _ less (
          Read-if n (e == b'b') _ _ less (
            Read-if n (e == b'f') _ _ less (
              Read-if n (e == b'n') _ _ less (
                Read-if n (e == b'r') _ _ less (
                  Read-if n (e == b't') _ _ less
                    (Read-if n (e == b'u') _ _ (unicode_escape-Read n p less) tt))))))))

next_char-Read : (p : CString) → Read (length p) (next_char p)
unfolding next_char
next_char-Read [] = tt
next_char-Read (c ∷ p) = Read-if (suc (length p)) (c == b'"') _ _ (omega arith) (
    Read-if (suc (length p)) (c == b'\\') _ _ (escape-Read (suc (length p)) p (omega arith))
      (omega arith))

-- One round of the loop, where the rest of the loop shrinks.
after_round-Shrinks :
    (f n : ℕ) (r : Round)
    → Read n r
    → ((rest : CString) → length rest < n → Shrinks (suc (length rest)) (read_chars f rest))
    → Shrinks (suc n) (elim r [
      | closed rest ↦ ok ([], rest)
      | put bytes rest ↦ read_chars f rest >>= λ (s, end). ok (bytes ++ s, end)
      | bad ↦ failed invalid_arg
    ])
after_round-Shrinks f n (closed rest) k more = omega arith
after_round-Shrinks f n (put bytes rest) k more =
    Shrinks-bind (suc (length rest)) (suc n) (read_chars f rest) (λ (s, end). ok (bytes ++ s, end))
      (more rest k) (λ s end h. omega arith)
after_round-Shrinks f n bad k more = tt

read_chars-Shrinks :
    (f : ℕ) (p : CString) → length p < f → Shrinks (suc (length p)) (read_chars f p)
unfolding read_chars
read_chars-Shrinks zero p h = absurd (omega arith)
read_chars-Shrinks (suc f) p h =
    after_round-Shrinks f (length p) (next_char p) (next_char-Read p)
      (λ rest k. read_chars-Shrinks f rest (omega arith))

pub parse_string_literal-Shrinks : (p : CString) → Shrinks (length p) (parse_string_literal p)
unfolding parse_string_literal
parse_string_literal-Shrinks p =
    Shrinks-if (length p) (not (peek p == b'"')) _ _ (λ e. tt)
      (λ e.
        Shrinks-bind (suc (length (advance p))) (length p)
          (read_chars (suc (length (advance p))) (advance p)) _
          (read_chars-Shrinks (suc (length (advance p))) (advance p) (omega arith))
          (λ s rest h. omega (arith, length-advance-lt p b'"' (ground arith) (omega arith))))

length-span_digits-le :
    (p : CString) → length (span_digits p).0 + length (span_digits p).1 ≡ length p
unfolding span_digits
length-span_digits-le [] = refl
length-span_digits-le (c ∷ p) = ground (arith, length-span_digits-le p)

length-scan_sign : (p : CString) → length (scan_sign p).0 + length (scan_sign p).1 ≡ length p
unfolding scan_sign
length-scan_sign [] = refl
length-scan_sign (c ∷ p) = ground arith

length-scan_fraction :
    (p : CString) → length (scan_fraction p).0 + length (scan_fraction p).1 ≡ length p
unfolding scan_fraction
length-scan_fraction [] = refl
length-scan_fraction (c ∷ p) = ground (arith, length-span_digits-le p)

length-scan_exponent :
    (p : CString) → length (scan_exponent p).0 + length (scan_exponent p).1 ≡ length p
unfolding scan_exponent
length-scan_exponent [] = refl
length-scan_exponent (c ∷ []) = unfold span_digits in ground arith
length-scan_exponent (c ∷ d ∷ p) =
    ground (arith, length-span_digits-le p, length-span_digits-le (d ∷ p))

pub length-scan_number :
    (p : CString) → length (scan_number p).0 + length (scan_number p).1 ≡ length p
unfolding scan_number
length-scan_number p =
    let p₁ = (scan_sign p).1 in
    let p₂ = (span_digits p₁).1 in
    let p₃ = (scan_fraction p₂).1 in
    omega (
      arith,
      length-scan_sign p,
      length-span_digits-le p₁,
      length-scan_fraction p₂,
      length-scan_exponent p₃,
      length-append (scan_sign p).0
          ((span_digits p₁).0 ++ ((scan_fraction p₂).0 ++ (scan_exponent p₃).0)),
      length-append (span_digits p₁).0 ((scan_fraction p₂).0 ++ (scan_exponent p₃).0),
      length-append (scan_fraction p₂).0 (scan_exponent p₃).0,
    )
