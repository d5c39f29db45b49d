-- ===== src/Core/Json/Totality.antt =====
-- The reader answers for every text: its fuel never runs out.
use usb_sentinel.Prelude.{
  ℕ, zero, suc, ◌+◌, ◌*◌, ◌≤◌, ◌<◌, ◌≢◌, inl, inr, arith, leb, ◌==◌, length, CString, Bool-cases,
}
use usb_sentinel.Core.Json.Reader.{
  Value, parse_scalar, parse_key, parse_value, parse_object, parse_members, parse_array,
  parse_elements, finish_parse, parse,
}
use usb_sentinel.Core.Json.Strings.{
  Result, ok, failed, out_of_fuel, ◌>>=◌, peek, advance, at_end, skip_ws,
}
use usb_sentinel.Core.Json.Fuel.{
  Shrinks, Shrinks-bind, Shrinks-if, length-skip_ws-le, length-advance-lt,
}
use usb_sentinel.Core.Json.Progress.{parse_scalar-Shrinks, parse_key-Shrinks}

Shrinks-le : {A : Type 0} (m n : ℕ) (r : Result (A × CString)) → m ≤ n → Shrinks m r → Shrinks n r
Shrinks-le m n (ok (a, rest)) h k = omega arith
Shrinks-le m n (failed e) h k = tt
Shrinks-le m n out_of_fuel h k = k

bind-ne-out_of_fuel :
    {A B : Type 0} (n : ℕ) (r : Result (A × CString)) (g : A × CString → Result B)
    → Shrinks n r
    → ((a : A) (rest : CString) → g (a, rest) ≢ out_of_fuel)
    → (r >>= g) ≢ out_of_fuel
bind-ne-out_of_fuel n (ok (a, rest)) g h k = k a rest
bind-ne-out_of_fuel n (failed e) g h k = λ q. cc
bind-ne-out_of_fuel n out_of_fuel g h k = absurd h

finish_parse-ne-out_of_fuel :
    {D : Type 0} (strtod : CString → D × ℕ) (v : Value D) (rest : CString)
    → finish_parse strtod v rest ≢ out_of_fuel
unfolding finish_parse
finish_parse-ne-out_of_fuel strtod v rest = λ q. elim (Bool-cases (at_end (skip_ws rest))) [
  | inl e ↦ ground (arith, q)
  | inr e ↦ ground (arith, q)
]

module _ {D : Type 0} (strtod : CString → D × ℕ) where
  mutual
    unfolding parse_value parse_object parse_members parse_array parse_elements

    parse_value-Shrinks :
        (f depth : ℕ) (p : CString)
        → 3 * length p < f
        → Shrinks (length p) (parse_value strtod f depth p)
    parse_value-Shrinks zero depth p h = absurd (omega arith)
    parse_value-Shrinks (suc f) depth p h =
        let n = length p in
        let q = skip_ws p in
        let small = length-skip_ws-le p in
        Shrinks-if n (leb 32 depth) _ _ (λ e. tt)
          (λ e.
            Shrinks-if n (at_end q) _ _ (λ e. tt)
              (λ e.
                Shrinks-if n (peek q == b'{') _ _
                  (λ e.
                    let less = length-advance-lt q b'{' e (omega arith) in
                    Shrinks-bind (length (advance q)) n
                      (parse_object strtod f (depth + 1) (advance q)) _
                      (parse_object-Shrinks f (depth + 1) (advance q) (omega arith))
                      (λ v rest k. omega arith))
                  (λ e.
                    Shrinks-if n (peek q == b'[') _ _
                      (λ e.
                        let less = length-advance-lt q b'[' e (omega arith) in
                        Shrinks-bind (length (advance q)) n
                          (parse_array strtod f (depth + 1) (advance q)) _
                          (parse_array-Shrinks f (depth + 1) (advance q) (omega arith))
                          (λ v rest k. omega arith))
                      (λ e.
                        Shrinks-le (length q) n (parse_scalar strtod q) small
                          (parse_scalar-Shrinks strtod q)))))

    parse_array-Shrinks :
        (f depth : ℕ) (p : CString)
        → 3 * length p + 2 < f
        → Shrinks (length p) (parse_array strtod f depth p)
    parse_array-Shrinks zero depth p h = absurd (omega arith)
    parse_array-Shrinks (suc f) depth p h =
        let small = length-skip_ws-le p in
        Shrinks-if (length p) (peek (skip_ws p) == b']') _ _
          (λ e. omega (arith, length-advance-lt (skip_ws p) b']' e (omega arith)))
          (λ e.
            Shrinks-le (length (skip_ws p)) (length p) (parse_elements strtod f depth (skip_ws p))
              small (parse_elements-Shrinks f depth (skip_ws p) (omega arith)))

    parse_elements-Shrinks :
        (f depth : ℕ) (p : CString)
        → 3 * length p + 1 < f
        → Shrinks (length p) (parse_elements strtod f depth p)
    parse_elements-Shrinks zero depth p h = absurd (omega arith)
    parse_elements-Shrinks (suc f) depth p h =
        let n = length p in
        let small = length-skip_ws-le p in
        Shrinks-bind (length (skip_ws p)) n (parse_value strtod f depth (skip_ws p)) _
          (parse_value-Shrinks f depth (skip_ws p) (omega arith))
          (λ v p₂ k.
            let r = advance (skip_ws p₂) in
            let small₂ = length-skip_ws-le p₂ in
            Shrinks-if n (peek (skip_ws p₂) == b',') _ _
              (λ e.
                let less = length-advance-lt (skip_ws p₂) b',' e (omega arith) in
                Shrinks-bind (length r) n (parse_elements strtod f depth r) _
                  (parse_elements-Shrinks f depth r (omega arith)) (λ xs rest m. omega arith))
              (λ e.
                Shrinks-if n (peek (skip_ws p₂) == b']') _ _
                  (λ e. omega (arith, length-advance-lt (skip_ws p₂) b']' e (omega arith)))
                  (λ e. tt)))

    parse_object-Shrinks :
        (f depth : ℕ) (p : CString)
        → 3 * length p + 2 < f
        → Shrinks (length p) (parse_object strtod f depth p)
    parse_object-Shrinks zero depth p h = absurd (omega arith)
    parse_object-Shrinks (suc f) depth p h =
        let small = length-skip_ws-le p in
        Shrinks-if (length p) (peek (skip_ws p) == b'}') _ _
          (λ e. omega (arith, length-advance-lt (skip_ws p) b'}' e (omega arith)))
          (λ e.
            Shrinks-le (length (skip_ws p)) (length p) (parse_members strtod f depth (skip_ws p))
              small (parse_members-Shrinks f depth (skip_ws p) (omega arith)))

    parse_members-Shrinks :
        (f depth : ℕ) (p : CString)
        → 3 * length p + 1 < f
        → Shrinks (length p) (parse_members strtod f depth p)
    parse_members-Shrinks zero depth p h = absurd (omega arith)
    parse_members-Shrinks (suc f) depth p h =
        let n = length p in
        Shrinks-bind n n (parse_key p) _ (parse_key-Shrinks p) (λ key p₁ k₁.
          Shrinks-bind (length p₁) n (parse_value strtod f depth p₁) _
            (parse_value-Shrinks f depth p₁ (omega arith))
            (λ v p₂ k.
              let r = advance (skip_ws p₂) in
              let small₂ = length-skip_ws-le p₂ in
              Shrinks-if n (peek (skip_ws p₂) == b',') _ _
                (λ e.
                  let less = length-advance-lt (skip_ws p₂) b',' e (omega arith) in
                  Shrinks-bind (length r) n (parse_members strtod f depth r) _
                    (parse_members-Shrinks f depth r (omega arith)) (λ ms rest m. omega arith))
                (λ e.
                  Shrinks-if n (peek (skip_ws p₂) == b'}') _ _
                    (λ e. omega (arith, length-advance-lt (skip_ws p₂) b'}' e (omega arith)))
                    (λ e. tt))))

  -- For every text and every strtod, the reader answers: three calls for each byte and three more
  -- are enough fuel for it.
  pub parse-ne-out_of_fuel : (text : CString) → parse strtod text ≢ out_of_fuel
  unfolding parse
  parse-ne-out_of_fuel text =
      bind-ne-out_of_fuel (length text) (parse_value strtod (3 * length text + 3) 0 text) _
        (parse_value-Shrinks (3 * length text + 3) 0 text (omega arith))
        (λ v rest. finish_parse-ne-out_of_fuel strtod v rest)
