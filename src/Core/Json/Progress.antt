-- ===== src/Core/Json/Progress.antt =====
-- The scalars and keys of the reader: each that succeeds has read something.
use usb_sentinel.Prelude.{
  ℕ, ◌<◌, ◌≡◌, refl, ap, true, false, not, ◌||◌, ◌∷◌, Option, some, none, arith, leb, ◌==◌, length,
  length-append, CString, codes, strip_prefix, strip_prefix-some,
}
use usb_sentinel.Core.Json.Reader.{
  Value, match_literal, parse_literal, parse_number, parse_scalar, parse_key,
}
use usb_sentinel.Status.{invalid_arg}
use usb_sentinel.Core.Json.Strings.{
  ok, failed, peek, advance, skip_ws, parse_string_literal, is_digit, scan_number,
}
use usb_sentinel.Core.Json.Fuel.{
  Shrinks, Shrinks-bind, Shrinks-if, length-skip_ws-le, length-advance-lt,
  parse_string_literal-Shrinks, length-scan_number,
}

parse_number-Shrinks :
    {D : Type 0} (strtod : CString → D × ℕ) (p : CString)
    → Shrinks (length p) (parse_number strtod p)
unfolding parse_number
parse_number-Shrinks strtod p =
    let text = (scan_number p).0 in
    Shrinks-if (length p) (length text == 0 || leb 64 (length text)) _ _ (λ e. tt)
      (λ e.
        Shrinks-if (length p) (not ((strtod text).1 == length text)) _ _ (λ q. tt)
          (λ q. ground (arith, length-scan_number p)))

rest-Shrinks :
    {A : Type 0} (n : ℕ) (v : A) (o : Option CString)
    → ((rest : CString) → o ≡ some rest → length rest < n)
    → Shrinks n (elim o [ none ↦ failed invalid_arg | some rest ↦ ok (v, rest) ])
rest-Shrinks n v none h = tt
rest-Shrinks n v (some rest) h = h rest refl

parse_literal-Shrinks :
    {D : Type 0} (c : ℕ) (literal : CString) (v : Value D) (p : CString)
    → Shrinks (length p) (parse_literal (c ∷ literal) v p)
unfolding parse_literal match_literal
parse_literal-Shrinks c literal v p =
    rest-Shrinks (length p) v (strip_prefix (c ∷ literal) p) (λ rest e. omega (
      arith,
      ap length (strip_prefix-some (c ∷ literal) p rest e),
      length-append (c ∷ literal) rest,
    ))

pub parse_scalar-Shrinks :
    {D : Type 0} (strtod : CString → D × ℕ) (p : CString)
    → Shrinks (length p) (parse_scalar strtod p)
unfolding parse_scalar
parse_scalar-Shrinks strtod p =
    let n = length p in
    Shrinks-if n (peek p == b'"') _ _
      (λ e.
        Shrinks-bind n n (parse_string_literal p) _ (parse_string_literal-Shrinks p)
          (λ s rest h. h))
      (λ e.
        Shrinks-if n (peek p == b't') _ _
          (λ e. parse_literal-Shrinks b't' (codes "rue") (Value.boolean true) p)
          (λ e.
            Shrinks-if n (peek p == b'f') _ _
              (λ e. parse_literal-Shrinks b'f' (codes "alse") (Value.boolean false) p)
              (λ e.
                Shrinks-if n (peek p == b'n') _ _
                  (λ e. parse_literal-Shrinks b'n' (codes "ull") Value.null p)
                  (λ e.
                    Shrinks-if n (peek p == b'-' || is_digit (peek p)) _ _
                      (λ e.
                        Shrinks-bind n n (parse_number strtod p) _ (parse_number-Shrinks strtod p)
                          (λ x rest h. h))
                      (λ e. tt)))))

pub parse_key-Shrinks : (p : CString) → Shrinks (length p) (parse_key p)
unfolding parse_key
parse_key-Shrinks p =
    Shrinks-bind (length (skip_ws p)) (length p) (parse_string_literal (skip_ws p)) _
      (parse_string_literal-Shrinks (skip_ws p))
      (λ k rest h.
        Shrinks-if (length p) (not (peek (skip_ws rest) == b':')) _ _ (λ e. tt)
          (λ e. omega (
            arith,
            length-skip_ws-le p,
            length-skip_ws-le rest,
            length-skip_ws-le (advance (skip_ws rest)),
            length-advance-lt (skip_ws rest) b':' (ground arith) (omega arith),
          )))
