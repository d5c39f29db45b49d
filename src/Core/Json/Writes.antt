-- ===== src/Core/Json/Writes.antt =====
-- With memory at hand every write of the writer appends its text and changes nothing else.
use usb_sentinel.Prelude.{
  ℕ, ◌+◌, ◌^◌, ◌≤◌, ◌≡◌, refl, sym, ap, ◌∙◌, Bool, true, [], ◌∷◌, ◌++◌, append_assoc, append-nil,
  arith, leb, length, length-append, CString, Bool-cases, inl, inr,
}
use usb_sentinel.Status.{ok}
use usb_sentinel.Core.Json.Document.{escaped, quoted}
use usb_sentinel.Core.Json.Growth.{double_until_small}
use usb_sentinel.Core.Json.Room.{Bounded, IsSafe, writer_raw-Kept, needed_for-eq}
use usb_sentinel.Core.Json.Writer.{
  Writer, double_fuel, needed_for, first_cap, grow_to, writer_ensure, writer_raw, escape_byte,
  escape_bytes, writer_escape_string,
}

-- An allocator that refuses nothing up to 2 ^ 62 bytes, and hands out no more than PTRDIFF_MAX.
pub record Plenty (grants : ℕ → Bool) : Type 0 where
  pub bound : Bounded grants
  pub gives : (n : ℕ) → n ≤ 2 ^ 62 → grants n ≡ true

-- The text that the writer may hold at most.
abbrev pub text_max : ℕ
text_max = 2 ^ 60

-- `w'` is `w` with `s` behind its text.
pub record Wrote (w : Writer) (s : CString) (w' : Writer) : Type 0 where
  pub text : w'.text ≡ w.text ++ s
  pub running : w'.error ≡ ok
  pub safe : IsSafe w'
  pub depth : w'.depth ≡ w.depth
  pub is_object : w'.is_object ≡ w.is_object
  pub need_comma : w'.need_comma ≡ w.need_comma
  pub want_key : w'.want_key ≡ w.want_key

pub Wrote-nil : {w : Writer} → IsSafe w → w.error ≡ ok → Wrote w [] w
Wrote-nil {w} s e = record {
  text = sym (append-nil w.text);
  running = e;
  safe = s;
  depth = refl;
  is_object = refl;
  need_comma = refl;
  want_key = refl;
}

pub Wrote-trans : {u v w : Writer} (s t : CString) → Wrote u s v → Wrote v t w → Wrote u (s ++ t) w
Wrote-trans {u} s t a b = record {
  text = b.text ∙ ap (λ x. x ++ t) a.text ∙ append_assoc u.text s t;
  running = b.running;
  safe = b.safe;
  depth = b.depth ∙ a.depth;
  is_object = b.is_object ∙ a.is_object;
  need_comma = b.need_comma ∙ a.need_comma;
  want_key = b.want_key ∙ a.want_key;
}

pub length-Wrote :
    {w w' : Writer} (s : CString) → Wrote w s w' → length w'.text ≡ length w.text + length s
length-Wrote {w} s a = ap length a.text ∙ length-append w.text s

module _ (grants : ℕ → Bool) (mem : Plenty grants) where
  writer_ensure_plenty :
      (w : Writer) (n : ℕ)
      → IsSafe w
      → w.error ≡ ok
      → length w.text + n ≤ text_max
      → (m : ℕ) × (writer_ensure grants w n ≡ record w { capacity = m })
  unfolding writer_ensure grow_to
  writer_ensure_plenty w n s e short = elim (Bool-cases (leb (needed_for w n) w.capacity)) [
    | inl f ↦ (w.capacity, ground arith)
    | inr f ↦
        let exact = needed_for-eq grants mem.bound w n s (omega arith) in
        let (m, q, le) =
          double_until_small double_fuel (needed_for w n) (first_cap w.capacity) (omega arith)
            (ground arith) (ground arith) in
        (m, ground (arith, q, mem.gives m le))
  ]

  pub writer_raw-Wrote :
      (w : Writer) (s : CString)
      → IsSafe w
      → w.error ≡ ok
      → length w.text + length s ≤ text_max
      → Wrote w s (writer_raw grants w s)
  unfolding writer_raw
  writer_raw-Wrote w s h e short =
      let k = writer_raw-Kept grants mem.bound w s h (omega arith) in
      let (m, q) = writer_ensure_plenty w (length s) h e short in
      let r : writer_raw grants w s ≡ record w { capacity = m; text = w.text ++ s } =
        rw (q, writer_raw) (ground arith) in
      record {
        text = ap (λ v. v.text) r;
        running = ap (λ v. v.error) r ∙ e;
        safe = k.safe;
        depth = ap (λ v. v.depth) r;
        is_object = ap (λ v. v.is_object) r;
        need_comma = ap (λ v. v.need_comma) r;
        want_key = ap (λ v. v.want_key) r;
      }

  -- The next write, when the one before it left room.
  pub writer_raw-Wrote_next :
      {w w' : Writer} (s t : CString)
      → Wrote w s w'
      → length w.text + length (s ++ t) ≤ text_max
      → Wrote w (s ++ t) (writer_raw grants w' t)
  writer_raw-Wrote_next {w} {w'} s t a short =
      Wrote-trans s t a (
        writer_raw-Wrote w' t a.safe a.running (omega (arith, length-Wrote s a, length-append s t)))

  escape_bytes-Wrote :
      (value : CString) (w : Writer)
      → IsSafe w
      → w.error ≡ ok
      → length w.text + length (escaped value) ≤ text_max
      → Wrote w (escaped value) (escape_bytes grants w value)
  unfolding escape_bytes
  escape_bytes-Wrote [] w h e short = writer_raw-Wrote w (b'"' ∷ []) h e short
  escape_bytes-Wrote (c ∷ value) w h e short =
      let fits = length-append (escape_byte c) (escaped value) in
      let a = writer_raw-Wrote w (escape_byte c) h e (omega (arith, fits)) in
      simp a.running (
        Wrote-trans (escape_byte c) (escaped value) a (
          escape_bytes-Wrote value (writer_raw grants w (escape_byte c)) a.safe a.running
            (omega (arith, fits, length-Wrote (escape_byte c) a))))

  pub writer_escape_string-Wrote :
      (value : CString) (w : Writer)
      → IsSafe w
      → w.error ≡ ok
      → length w.text + length (quoted value) ≤ text_max
      → Wrote w (quoted value) (writer_escape_string grants w value)
  unfolding writer_escape_string
  writer_escape_string-Wrote value w h e short =
      let a = writer_raw-Wrote w (b'"' ∷ []) h e (omega arith) in
      Wrote-trans (b'"' ∷ []) (escaped value) a (
        escape_bytes-Wrote value (writer_raw grants w (b'"' ∷ [])) a.safe a.running
          (omega (arith, length-Wrote (b'"' ∷ []) a)))
