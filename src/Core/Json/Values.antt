-- ===== src/Core/Json/Values.antt =====
-- The reader's values that no bracket opens, on printed text.
use usb_sentinel.Prelude.{
  ℕ, suc, ◌<◌, ◌≡◌, refl, Bool, true, false, ◌||◌, ◌++◌, arith, leb, ◌==◌, length, CString, codes,
  strip_prefix,
}
use usb_sentinel.Core.Json.Decimal.{ℤ, print_int}
use usb_sentinel.Core.Json.Digits.{length-print_int_pos}
use usb_sentinel.Core.Json.Document.{null, boolean, string, quoted, print}
use usb_sentinel.Core.Json.Leaves.{
  IsText, parse_string_literal-quoted, Delimits, scan_number-print_int, print_int_head,
  length-print_int-le,
}
use usb_sentinel.Core.Json.Meaning.{Begins, print-Begins, skip_ws-Begins}
use usb_sentinel.Core.Json.Reader.{
  Value, parse_max_depth, match_literal, parse_literal, parse_number, parse_scalar, parse_value,
}
use usb_sentinel.Core.Json.Strings.{ok, peek, at_end, is_digit}

module _ {D : Type 0} (strtod : CString → D × ℕ) where
  -- A value that no bracket opens.
  pub parse_value-scalar :
      (f depth : ℕ) (s rest : CString) (v : Value D)
      → Begins s
      → depth < parse_max_depth
      → (peek (s ++ rest) == b'{') ≡ false
      → (peek (s ++ rest) == b'[') ≡ false
      → parse_scalar strtod (s ++ rest) ≡ ok (v, rest)
      → parse_value strtod (suc f) depth (s ++ rest) ≡ ok (v, rest)
  unfolding parse_value
  parse_value-scalar f depth s rest v b room brace bracket read =
      let shallow : leb parse_max_depth depth ≡ false = ground arith in
      let inside : at_end (s ++ rest) ≡ false = rw b.splits refl in
      simp (skip_ws-Begins s rest b, shallow, inside, brace, bracket) read

  -- The values that no bracket opens, but for numbers.
  pub parse_value-string :
      (s : CString) (f depth : ℕ) (rest : CString)
      → IsText s
      → depth < parse_max_depth
      → parse_value strtod (suc f) depth (quoted s ++ rest) ≡ ok (Value.string s, rest)
  unfolding parse_scalar print
  parse_value-string s f depth rest t room =
      parse_value-scalar f depth (quoted s) rest (Value.string s) (print-Begins (string s)) room
        refl refl (rw (parse_string_literal-quoted s rest t) refl)

  pub parse_value-literal :
      (b : Bool) (f depth : ℕ) (rest : CString)
      → depth < parse_max_depth
      → parse_value strtod (suc f) depth (print (boolean b) ++ rest) ≡ ok (Value.boolean b, rest)
  unfolding parse_scalar parse_literal match_literal print strip_prefix
  parse_value-literal true f depth rest room =
      parse_value-scalar f depth (codes "true") rest (Value.boolean true)
        (print-Begins (boolean true)) room refl refl refl
  parse_value-literal false f depth rest room =
      parse_value-scalar f depth (codes "false") rest (Value.boolean false)
        (print-Begins (boolean false)) room refl refl refl

  pub parse_value-null :
      (f depth : ℕ) (rest : CString)
      → depth < parse_max_depth
      → parse_value strtod (suc f) depth (codes "null" ++ rest) ≡ ok (Value.null, rest)
  unfolding parse_scalar parse_literal match_literal print strip_prefix
  parse_value-null f depth rest room =
      parse_value-scalar f depth (codes "null") rest Value.null (print-Begins null) room refl refl
        refl

-- `strtod` takes the whole of a decimal integer.
abbrev pub TakesIntegers : {D : Type 0} → (CString → D × ℕ) → Type 0
TakesIntegers strtod = (z : ℤ) → (strtod (print_int z)).1 ≡ length (print_int z)

module _ {D : Type 0} (strtod : CString → D × ℕ) (takes : TakesIntegers strtod) where
  pub parse_number-print_int :
      (z : ℤ) (rest : CString)
      → Delimits rest
      → parse_number strtod (print_int z ++ rest) ≡ ok ((strtod (print_int z)).0, rest)
  unfolding parse_number
  parse_number-print_int z rest h =
      rw (scan_number-print_int z rest h)
        (ground (arith, takes z, length-print_int_pos z, length-print_int-le z))

  -- The number case of `parse_scalar`.
  pub parse_scalar-front :
      (q : CString) (c : ℕ) (x : D) (rest : CString)
      → peek q ≡ c
      → (c == b'-' || is_digit c) ≡ true
      → parse_number strtod q ≡ ok (x, rest)
      → parse_scalar strtod q ≡ ok (Value.number x, rest)
  unfolding parse_scalar
  parse_scalar-front q c x rest first front read =
      let quote : (c == b'"') ≡ false = ground arith in
      let t : (c == b't') ≡ false = ground arith in
      let f : (c == b'f') ≡ false = ground arith in
      let n : (c == b'n') ≡ false = ground arith in simp (first, quote, t, f, n, front, read)

  pub parse_scalar-number :
      (z : ℤ) (rest : CString)
      → Delimits rest
      → parse_scalar strtod (print_int z ++ rest) ≡ ok (Value.number (strtod (print_int z)).0, rest)
  parse_scalar-number z rest h =
      let (c, ds, e, front) = print_int_head z in
      parse_scalar-front (print_int z ++ rest) c (strtod (print_int z)).0 rest (rw e refl) front
        (parse_number-print_int z rest h)

  pub parse_value-number :
      (z : ℤ) (f depth : ℕ) (rest : CString)
      → Begins (print_int z)
      → depth < parse_max_depth
      → Delimits rest
      → parse_value strtod (suc f) depth (print_int z ++ rest)
        ≡ ok (Value.number (strtod (print_int z)).0, rest)
  parse_value-number z f depth rest b room h =
      let (c, ds, e, front) = print_int_head z in
      let brace : (peek (print_int z ++ rest) == b'{') ≡ false = rw e (ground (arith, front)) in
      let bracket : (peek (print_int z ++ rest) == b'[') ≡ false = rw e (ground (arith, front)) in
      parse_value-scalar strtod f depth (print_int z) rest (Value.number (strtod (print_int z)).0) b
        room brace bracket (parse_scalar-number z rest h)
