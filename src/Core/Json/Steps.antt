-- ===== src/Core/Json/Steps.antt =====
-- The reader's steps on printed text of a container: the brackets that open, and the rounds of the loops.
use usb_sentinel.Prelude.{ℕ, suc, ◌+◌, ◌<◌, ◌≡◌, refl, false, ◌∷◌, ◌++◌, arith, leb, ◌==◌, CString}
use usb_sentinel.Core.Json.Document.{quoted}
use usb_sentinel.Core.Json.Leaves.{IsText, parse_string_literal-quoted}
use usb_sentinel.Core.Json.Meaning.{Begins, skip_ws-Begins}
use usb_sentinel.Core.Json.Reader
use usb_sentinel.Core.Json.Reader.{
  Value, Elements, parse_max_depth, match_literal, parse_literal, parse_number, parse_scalar,
  parse_key, parse_value, parse_object, parse_members, parse_array, parse_elements, finish_parse,
  parse,
}
use usb_sentinel.Core.Json.Strings.{ok, peek, skip_ws}

pub parse_key-quoted :
    (k s rest : CString)
    → IsText k
    → Begins s
    → parse_key (quoted k ++ (b':' ∷ (s ++ rest))) ≡ ok (k, s ++ rest)
unfolding parse_key skip_ws
parse_key-quoted k s rest t b =
    rw (parse_string_literal-quoted k (b':' ∷ (s ++ rest)) t) (rw (skip_ws-Begins s rest b) refl)

module _ {D : Type 0} (strtod : CString → D × ℕ) where
  -- One round of each loop of the reader.
  pub parse_elements-last :
      (f depth : ℕ) (p rest : CString) (v : Value D)
      → parse_value strtod f depth (skip_ws p) ≡ ok (v, b']' ∷ rest)
      → parse_elements strtod (suc f) depth p ≡ ok (Elements.element v Elements.no_elements, rest)
  unfolding parse_elements skip_ws
  parse_elements-last f depth p rest v read = rw read refl

  pub parse_elements-more :
      (f depth : ℕ) (p p₂ rest : CString) (v : Value D) (xs : Elements D)
      → parse_value strtod f depth (skip_ws p) ≡ ok (v, b',' ∷ p₂)
      → parse_elements strtod f depth p₂ ≡ ok (xs, rest)
      → parse_elements strtod (suc f) depth p ≡ ok (Elements.element v xs, rest)
  unfolding parse_elements skip_ws
  parse_elements-more f depth p p₂ rest v xs read more = rw read (rw more refl)

  pub parse_members-last :
      (f depth : ℕ) (p p₁ rest k : CString) (v : Value D)
      → parse_key p ≡ ok (k, p₁)
      → parse_value strtod f depth p₁ ≡ ok (v, b'}' ∷ rest)
      → parse_members strtod (suc f) depth p
        ≡ ok (Reader.Members.member k v Reader.Members.no_members, rest)
  unfolding parse_members skip_ws
  parse_members-last f depth p p₁ rest k v name read = rw name (rw read refl)

  pub parse_members-more :
      (f depth : ℕ) (p p₁ p₂ rest k : CString) (v : Value D) (ms : Reader.Members D)
      → parse_key p ≡ ok (k, p₁)
      → parse_value strtod f depth p₁ ≡ ok (v, b',' ∷ p₂)
      → parse_members strtod f depth p₂ ≡ ok (ms, rest)
      → parse_members strtod (suc f) depth p ≡ ok (Reader.Members.member k v ms, rest)
  unfolding parse_members skip_ws
  parse_members-more f depth p p₁ p₂ rest k v ms name read more = rw name (rw read (rw more refl))

  -- A bracket that opens, and the first byte behind it.
  pub parse_value-array :
      (f depth : ℕ) (p rest : CString) (xs : Elements D)
      → depth < parse_max_depth
      → parse_array strtod f (depth + 1) p ≡ ok (xs, rest)
      → parse_value strtod (suc f) depth (b'[' ∷ p) ≡ ok (Value.array xs, rest)
  unfolding parse_value skip_ws
  parse_value-array f depth p rest xs room read =
      let shallow : leb parse_max_depth depth ≡ false = ground arith in rw shallow (rw read refl)

  pub parse_value-object :
      (f depth : ℕ) (p rest : CString) (ms : Reader.Members D)
      → depth < parse_max_depth
      → parse_object strtod f (depth + 1) p ≡ ok (ms, rest)
      → parse_value strtod (suc f) depth (b'{' ∷ p) ≡ ok (Value.object ms, rest)
  unfolding parse_value skip_ws
  parse_value-object f depth p rest ms room read =
      let shallow : leb parse_max_depth depth ≡ false = ground arith in rw shallow (rw read refl)

  pub parse_array-first :
      (f depth : ℕ) (s p rest : CString) (xs : Elements D)
      → Begins s
      → parse_elements strtod f depth (s ++ p) ≡ ok (xs, rest)
      → parse_array strtod (suc f) depth (s ++ p) ≡ ok (xs, rest)
  unfolding parse_array
  parse_array-first f depth s p rest xs b read =
      let closing : (peek (s ++ p) == b']') ≡ false = rw b.splits b.no_bracket in
      simp (skip_ws-Begins s p b, closing, read)

  pub parse_object-first :
      (f depth : ℕ) (p rest : CString) (ms : Reader.Members D)
      → parse_members strtod f depth (b'"' ∷ p) ≡ ok (ms, rest)
      → parse_object strtod (suc f) depth (b'"' ∷ p) ≡ ok (ms, rest)
  unfolding parse_object skip_ws
  parse_object-first f depth p rest ms read = read
