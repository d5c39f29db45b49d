-- ===== src/Core/Json/Room.antt =====
-- What keeps the text and its NUL within the writer's buffer, and the writes that respect it:
-- `writer_ensure`, `writer_raw` and `writer_escape_string`.
use usb_sentinel.Prelude.{
  ℕ, ◌+◌, ◌-◌, ◌^◌, ◌≤◌, ◌<◌, ◌≡◌, refl, Bool, true, false, [], ◌∷◌, arith, leb, if◌then◌else◌,
  length, length-append, CString, Bool-cases, inl, inr, ap, ◌∙◌,
}
use usb_sentinel.Status.{is_ok}
use usb_sentinel.Core.Json.Writer.{
  Writer, Growth, grown, too_large, out_of_fuel, double_until, double_fuel, needed_for, first_cap,
  grow_to, writer_ensure, writer_raw, escape_byte, escape_bytes, writer_escape_string, max_depth,
}
use usb_sentinel.Core.Json.Growth.{double_until-grown}

-- No object is larger than PTRDIFF_MAX.
abbrev pub Bounded : (ℕ → Bool) → Type 0
Bounded grants = (n : ℕ) → grants n ≡ true → n ≤ 2 ^ 63

pub record IsSafe (w : Writer) : Type 0 where
  -- `buf[len]`, where the NUL stands, is in the buffer; with no buffer there is no text.
  pub fits : length w.text ≤ w.capacity - 1
  pub bounded : w.capacity ≤ 2 ^ 63
  pub level : w.depth ≤ max_depth

-- What a call that makes room leaves: a safe writer with the same text, and the room if it could.
pub record Ensured (w : Writer) (n : ℕ) (w' : Writer) : Type 0 where
  pub same_text : w'.text ≡ w.text
  pub same_depth : w'.depth ≡ w.depth
  pub safe : IsSafe w'
  pub room : is_ok w'.error ≡ true → length w.text + n + 1 ≤ w'.capacity

-- A write keeps the writer safe and at its level.
pub record Kept (w w' : Writer) : Type 0 where
  pub safe : IsSafe w'
  pub same_depth : w'.depth ≡ w.depth

pub Kept-refl : {w : Writer} → IsSafe w → Kept w w
Kept-refl s = record { safe = s; same_depth = refl }

pub Kept-trans : {u v w : Writer} → Kept u v → Kept v w → Kept u w
Kept-trans a b = record { safe = b.safe; same_depth = b.same_depth ∙ a.same_depth }

pub Kept-if : (b : Bool) {u v w : Writer} → Kept u v → Kept u w → Kept u (if b then v else w)
Kept-if true k l = k
Kept-if false k l = l

-- Safety does not depend on the flags and the error.
pub IsSafe-flags :
    {v w : Writer}
    → IsSafe v
    → w.text ≡ v.text
    → w.capacity ≡ v.capacity
    → w.depth ≤ max_depth
    → IsSafe w
IsSafe-flags s e f d = record {
  fits = omega (arith, ap length e, f, s.fits);
  bounded = omega (arith, f, s.bounded);
  level = d;
}

pub Kept-flags :
    {u v w : Writer}
    → Kept u v
    → w.text ≡ v.text
    → w.capacity ≡ v.capacity
    → w.depth ≡ v.depth
    → Kept u w
Kept-flags k e f d = record {
  safe = IsSafe-flags k.safe e f (omega (arith, d, k.safe.level));
  same_depth = d ∙ k.same_depth;
}

pub length-escape_byte : (c : ℕ) → length (escape_byte c) < 2 ^ 63
unfolding escape_byte
length-escape_byte c = ground arith

module _ (grants : ℕ → Bool) (bound : Bounded grants) where
  pub grow_to-Ensured :
      (w : Writer) (n : ℕ) (g : Growth)
      → IsSafe w
      → ((m : ℕ) → g ≡ grown m → (length w.text + n + 1 ≤ m) × (w.capacity ≤ m))
      → Ensured w n (grow_to grants w g)
  unfolding grow_to
  grow_to-Ensured w n (grown m) s big = elim (Bool-cases (grants m)) [
    | inl e ↦ rw e (record {
      same_text = refl;
      same_depth = refl;
      safe = record {
        fits = omega (arith, s.fits, big m refl);
        bounded = bound m e;
        level = s.level;
      };
      room = λ _. (big m refl).0;
    })
    | inr e ↦ rw e (record {
      same_text = refl;
      same_depth = refl;
      safe = record { fits = s.fits; bounded = s.bounded; level = s.level };
      room = λ h. absurd (cc);
    })
  ]
  grow_to-Ensured w n too_large s big = record {
    same_text = refl;
    same_depth = refl;
    safe = record { fits = s.fits; bounded = s.bounded; level = s.level };
    room = λ h. absurd (cc);
  }
  grow_to-Ensured w n out_of_fuel s big = record {
    same_text = refl;
    same_depth = refl;
    safe = record { fits = s.fits; bounded = s.bounded; level = s.level };
    room = λ h. absurd (cc);
  }

  pub needed_for-eq :
      (w : Writer) (n : ℕ) → IsSafe w → n < 2 ^ 63 → needed_for w n ≡ length w.text + n + 1
  needed_for-eq w n s h = omega arith

  pub writer_ensure-Ensured :
      (w : Writer) (n : ℕ) → IsSafe w → n < 2 ^ 63 → Ensured w n (writer_ensure grants w n)
  unfolding writer_ensure
  writer_ensure-Ensured w n s h = elim (Bool-cases (is_ok w.error)) [
    | inr e ↦
        rw e (record { same_text = refl; same_depth = refl; safe = s; room = λ k. absurd (cc) })
    | inl e ↦ elim (Bool-cases (leb (needed_for w n) w.capacity)) [
      | inl f ↦
          rw (e, f)
            (record {
              same_text = refl;
              same_depth = refl;
              safe = s;
              room = λ _. ground (arith, needed_for-eq w n s h);
            })
      | inr f ↦
          rw (e, f)
            (grow_to-Ensured w n (double_until double_fuel (needed_for w n) (first_cap w.capacity))
              s
              (λ m q. ground (
                arith,
                needed_for-eq w n s h,
                double_until-grown double_fuel (needed_for w n) (first_cap w.capacity) m q,
              )))
    ]
  ]

  pub writer_raw-Kept :
      (w : Writer) (s : CString) → IsSafe w → length s < 2 ^ 63 → Kept w (writer_raw grants w s)
  unfolding writer_raw
  writer_raw-Kept w s h short =
      let en = writer_ensure-Ensured w (length s) h short in
      elim (Bool-cases (is_ok (writer_ensure grants w (length s)).error)) [
        | inr e ↦ rw e (record { safe = en.safe; same_depth = en.same_depth })
        | inl e ↦ rw e (record {
          safe = record {
            fits = omega (
              arith,
              length-append (writer_ensure grants w (length s)).text s,
              ap length en.same_text,
              en.room e,
            );
            bounded = en.safe.bounded;
            level = en.safe.level;
          };
          same_depth = en.same_depth;
        })
      ]

  pub escape_bytes-Kept :
      (value : CString) (w : Writer) → IsSafe w → Kept w (escape_bytes grants w value)
  unfolding escape_bytes
  escape_bytes-Kept [] w h = writer_raw-Kept w (b'"' ∷ []) h (omega arith)
  escape_bytes-Kept (c ∷ value) w h =
      let first = writer_raw-Kept w (escape_byte c) h (length-escape_byte c) in
      elim (Bool-cases (is_ok (writer_raw grants w (escape_byte c)).error)) [
        | inr e ↦ rw e first
        | inl e ↦ rw e (Kept-trans first (escape_bytes-Kept value _ first.safe))
      ]

  pub writer_escape_string-Kept :
      (value : CString) (w : Writer) → IsSafe w → Kept w (writer_escape_string grants w value)
  unfolding writer_escape_string
  writer_escape_string-Kept value w h =
      let quote = writer_raw-Kept w (b'"' ∷ []) h (omega arith) in
      Kept-trans quote (escape_bytes-Kept value _ quote.safe)
