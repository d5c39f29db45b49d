-- ===== src/Core/Json/RoundTrip.antt =====
-- What the writer prints, the reader reads back.
use Prim.Native.Nat.{max}
use usb_sentinel.Prelude.{
  ℕ, zero, suc, ◌+◌, ◌*◌, ◌<◌, ◌≡◌, refl, sym, ap, ◌∙◌, false, [], ◌∷◌, ◌++◌, append_assoc,
  append-nil, arith, length, length-append, CString,
}
use usb_sentinel.Core.Json.Decimal.{pos, print_int}
use usb_sentinel.Core.Json.Document.{
  Document, Items, Members, null, boolean, int, uint, string, array, object, no_items, item,
  no_members, member, quoted, escaped, print, print_items, print_members, height, height_items,
  height_members,
}
use usb_sentinel.Core.Json.Leaves.{IsText, Delimits}
use usb_sentinel.Core.Json.Meaning.{
  value_of, elements_of, members_of, IsTextual, IsTextualItems, IsTextualMembers, print-Begins,
  skip_ws-Begins,
}
use usb_sentinel.Core.Json.Reader
use usb_sentinel.Core.Json.Reader.{
  Value, Elements, parse_max_depth, match_literal, parse_literal, parse_number, parse_scalar,
  parse_key, parse_value, parse_object, parse_members, parse_array, parse_elements, finish_parse,
  parse,
}
use usb_sentinel.Core.Json.Strings.{ok, skip_ws}
use usb_sentinel.Core.Json.Values.{
  TakesIntegers, parse_value-number, parse_value-string, parse_value-literal, parse_value-null,
}
use usb_sentinel.Core.Json.Steps.{
  parse_key-quoted, parse_elements-last, parse_elements-more, parse_members-last,
  parse_members-more, parse_value-array, parse_value-object, parse_array-first, parse_object-first,
}

member-append :
    (k s p rest : CString)
    → (quoted k ++ (b':' ∷ (s ++ p))) ++ rest ≡ quoted k ++ (b':' ∷ (s ++ (p ++ rest)))
member-append k s p rest =
    append_assoc (quoted k) (b':' ∷ (s ++ p)) rest
    ∙ ap (λ q. quoted k ++ (b':' ∷ q)) (append_assoc s p rest)

module _ {D : Type 0} (strtod : CString → D × ℕ) (takes : TakesIntegers strtod) where
  mutual
    unfolding print height value_of IsTextual print_int parse_array parse_object skip_ws

    parse_value-print :
        (d : Document) (f depth : ℕ) (rest : CString)
        → IsTextual d
        → 3 * length (print d) < f
        → depth + height d < parse_max_depth
        → Delimits rest
        → parse_value strtod f depth (print d ++ rest) ≡ ok (value_of strtod d, rest)
    parse_value-print d zero depth rest t fuel room h = absurd (omega arith)
    parse_value-print null (suc f) depth rest t fuel room h =
        parse_value-null strtod f depth rest (omega arith)
    parse_value-print (boolean b) (suc f) depth rest t fuel room h =
        parse_value-literal strtod b f depth rest (omega arith)
    parse_value-print (int z) (suc f) depth rest t fuel room h =
        parse_value-number strtod takes z f depth rest (print-Begins (int z)) (omega arith) h
    parse_value-print (uint n) (suc f) depth rest t fuel room h =
        parse_value-number strtod takes (pos n) f depth rest (print-Begins (uint n)) (omega arith) h
    parse_value-print (string s) (suc f) depth rest t fuel room h =
        parse_value-string strtod s f depth rest t (omega arith)
    parse_value-print (array no_items) (suc (suc f)) depth rest t fuel room h =
        parse_value-array strtod (suc f) depth (b']' ∷ rest) rest Elements.no_elements (omega arith)
          refl
    parse_value-print (array (item d xs)) (suc (suc f)) depth rest (t, ts) fuel room h =
        parse_value-array strtod (suc f) depth ((print d ++ print_items false xs) ++ rest) rest
          (elements_of strtod (item d xs)) (omega arith)
          (rw (append_assoc (print d) (print_items false xs) rest) (
            parse_array-first strtod f (depth + 1) (print d) (print_items false xs ++ rest) rest
              (elements_of strtod (item d xs)) (print-Begins d)
              (parse_elements-print d xs f (depth + 1) rest t ts (omega arith) (omega arith))))
    parse_value-print (array xs) (suc zero) depth rest t fuel room h = absurd (omega arith)
    parse_value-print (object no_members) (suc (suc f)) depth rest t fuel room h =
        parse_value-object strtod (suc f) depth (b'}' ∷ rest) rest Reader.Members.no_members
          (omega arith) refl
    parse_value-print (object (member k d ms)) (suc (suc f)) depth rest (tk, t, ts) fuel room h =
        parse_value-object strtod (suc f) depth
          ((quoted k ++ (b':' ∷ (print d ++ print_members false ms))) ++ rest) rest
          (members_of strtod (member k d ms)) (omega arith)
          (parse_object-first strtod f (depth + 1)
            ((escaped k ++ (b':' ∷ (print d ++ print_members false ms))) ++ rest) rest
            (members_of strtod (member k d ms))
            (rw (member-append k (print d) (print_members false ms) rest)
              (parse_members-print k d ms f (depth + 1) rest tk t ts (omega arith) (omega arith))))
    parse_value-print (object ms) (suc zero) depth rest t fuel room h = absurd (omega arith)

    parse_elements-print :
        (d : Document) (xs : Items) (f depth : ℕ) (rest : CString)
        → IsTextual d
        → IsTextualItems xs
        → 3 * length (print d ++ print_items false xs) + 1 < f
        → depth + max (height d) (height_items xs) < parse_max_depth
        → parse_elements strtod f depth (print d ++ (print_items false xs ++ rest))
          ≡ ok (elements_of strtod (item d xs), rest)
    parse_elements-print d xs zero depth rest t ts fuel room = absurd (omega arith)
    parse_elements-print d no_items (suc f) depth rest t ts fuel room =
        parse_elements-last strtod f depth (print d ++ (b']' ∷ rest)) rest (value_of strtod d) (
          rw (skip_ws-Begins (print d) (b']' ∷ rest) (print-Begins d)) (
            parse_value-print d f depth (b']' ∷ rest) t
              (omega (arith, length-append (print d) (print_items false no_items))) (omega arith)
              (refl, refl, refl)))
    parse_elements-print d (item e xs) (suc f) depth rest t (u, ts) fuel room =
        let p = (print e ++ print_items false xs) ++ rest in
        parse_elements-more strtod f depth (print d ++ (b',' ∷ p)) p rest (value_of strtod d)
          (elements_of strtod (item e xs))
          (rw (skip_ws-Begins (print d) (b',' ∷ p) (print-Begins d)) (
            parse_value-print d f depth (b',' ∷ p) t
              (omega (arith, length-append (print d) (print_items false (item e xs)))) (omega arith)
              (refl, refl, refl)))
          (rw (append_assoc (print e) (print_items false xs) rest) (
            parse_elements-print e xs f depth rest u ts
              (omega (arith, length-append (print d) (print_items false (item e xs))))
              (omega arith)))

    parse_members-print :
        (k : CString) (d : Document) (ms : Members) (f depth : ℕ) (rest : CString)
        → IsText k
        → IsTextual d
        → IsTextualMembers ms
        → 3 * length (quoted k ++ (b':' ∷ (print d ++ print_members false ms))) + 1 < f
        → depth + max (height d) (height_members ms) < parse_max_depth
        → parse_members strtod f depth
            (quoted k ++ (b':' ∷ (print d ++ (print_members false ms ++ rest))))
          ≡ ok (members_of strtod (member k d ms), rest)
    parse_members-print k d ms zero depth rest tk t ts fuel room = absurd (omega arith)
    parse_members-print k d no_members (suc f) depth rest tk t ts fuel room =
        let q = b'}' ∷ rest in
        parse_members-last strtod f depth (quoted k ++ (b':' ∷ (print d ++ q))) (print d ++ q) rest
          k (value_of strtod d) (parse_key-quoted k (print d) q tk (print-Begins d))
          (parse_value-print d f depth q t
            (omega (
              arith,
              length-append (escaped k) (b':' ∷ (print d ++ (b'}' ∷ []))),
              length-append (print d) (b'}' ∷ []),
            ))
            (omega arith) (refl, refl, refl))
    parse_members-print k d (member k₂ e ms) (suc f) depth rest tk t (tk₂, u, ts) fuel room =
        let p = (quoted k₂ ++ (b':' ∷ (print e ++ print_members false ms))) ++ rest in
        let size =
          length-append (escaped k) (b':' ∷ (print d ++ print_members false (member k₂ e ms))) in
        let size_d = length-append (print d) (print_members false (member k₂ e ms)) in
        parse_members-more strtod f depth (quoted k ++ (b':' ∷ (print d ++ (b',' ∷ p))))
          (print d ++ (b',' ∷ p)) p rest k (value_of strtod d) (members_of strtod (member k₂ e ms))
          (parse_key-quoted k (print d) (b',' ∷ p) tk (print-Begins d))
          (parse_value-print d f depth (b',' ∷ p) t (omega (arith, size, size_d)) (omega arith)
            (refl, refl, refl))
          (rw (member-append k₂ (print e) (print_members false ms) rest) (
            parse_members-print k₂ e ms f depth rest tk₂ u ts (omega (arith, size, size_d))
              (omega arith)))

  -- With a strtod that takes the whole of a decimal integer, the print of a document of fewer
  -- than 32 nested containers, whose keys and strings are C strings, parses to the value that the
  -- document stands for.
  pub parse-print :
      (d : Document)
      → IsTextual d
      → height d < parse_max_depth
      → parse strtod (print d) ≡ ok (value_of strtod d)
  unfolding parse finish_parse skip_ws
  parse-print d t h =
      let fuel = 3 * length (print d) + 3 in
      let read : parse_value strtod fuel 0 (print d) ≡ ok (value_of strtod d, []) =
        ap (parse_value strtod fuel 0) (sym (append-nil (print d)))
        ∙ parse_value-print d fuel 0 [] t (omega arith) (omega arith) tt in
      rw read refl
