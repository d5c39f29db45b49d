-- ===== src/Core/Json/Placing.antt =====
-- The writer calls where a value or a bracket is placed: what they write and what they note.
use usb_sentinel.Prelude.{
  ℕ, suc, ◌+◌, ◌-◌, ◌≤◌, ◌<◌, ◌≡◌, refl, ap, ap₂, ◌∙◌, Bool, true, false, not, [], ◌∷◌, ◌++◌, arith,
  leb, ◌==◌, if◌then◌else◌, length, length-append, CString, Bool-cases, inl, inr, some,
}
use usb_sentinel.Status.{ok, is_ok}
use usb_sentinel.Core.Json.Document.{comma, quoted}
use usb_sentinel.Core.Json.Room.{IsSafe, IsSafe-flags}
use usb_sentinel.Core.Json.Writer.{
  Writer, update, writer_raw, writer_before_value, writer_escape_string, open_container,
  begin_container, end_object, end_array, key, scalar, max_depth,
}
use usb_sentinel.Core.Json.Writes.{
  Plenty, text_max, Wrote, Wrote-nil, Wrote-trans, writer_raw-Wrote, writer_escape_string-Wrote,
  length-Wrote,
}
use usb_sentinel.Core.Json.Slots.{
  accepts, lead, noted, IsRunning, Emits, Wrote-Emits, noted-depth, alive,
}

module _ (grants : ℕ → Bool) (mem : Plenty grants) where
  pub writer_before_value-Wrote :
      (w : Writer)
      → IsRunning w
      → accepts w ≡ true
      → length w.text + length (lead w) ≤ text_max
      → Wrote (noted w) (lead w) (writer_before_value grants w)
  unfolding writer_before_value
  writer_before_value-Wrote w r a short = elim (Bool-cases (w.depth == 0)) [
    | inl top ↦ simp (top, alive r) (Wrote-nil r.safe r.running)
    | inr deep ↦ elim (Bool-cases (w.is_object (w.depth - 1))) [
      | inl o ↦
          let value : w.want_key (w.depth - 1) ≡ false = ground arith in
          simp (deep, o, value, alive r)
            (Wrote-nil (IsSafe-flags r.safe refl refl r.safe.level) r.running)
      | inr arr ↦ elim (Bool-cases (w.need_comma (w.depth - 1))) [
        | inr first ↦
            simp (deep, arr, first, alive r)
              (Wrote-nil (IsSafe-flags r.safe refl refl r.safe.level) r.running)
        | inl later ↦
            let c = writer_raw-Wrote grants mem w (b',' ∷ []) r.safe r.running (ground arith) in
            simp (deep, arr, later, alive r)
              (record {
                text = c.text;
                running = c.running;
                safe = IsSafe-flags c.safe refl refl c.safe.level;
                depth = c.depth;
                is_object = c.is_object;
                need_comma = ap₂ (λ f d. update f (d - 1) true) c.need_comma c.depth;
                want_key = c.want_key;
              })
      ]
    ]
  ]

  -- A scalar: the comma, and what the scalar writes.
  pub scalar-Wrote :
      (write : Writer → Writer) (s : CString) (w : Writer)
      → IsRunning w
      → accepts w ≡ true
      → length w.text + length (lead w ++ s) ≤ text_max
      → ((v : Writer)
          → IsSafe v
          → v.error ≡ ok
          → length v.text + length s ≤ text_max
          → Wrote v s (write v))
      → Wrote (noted w) (lead w ++ s) (scalar grants write w)
  unfolding scalar
  scalar-Wrote write s w r a short writes =
      let fits = length-append (lead w) s in
      let b = writer_before_value-Wrote w r a (omega (arith, fits)) in
      simp (alive r, ap is_ok b.running)
        (Wrote-trans (lead w) s b (
          writes (writer_before_value grants w) b.safe b.running
            (ground (arith, fits, length-Wrote (lead w) b))))

  -- An opened container: its bracket, and the flags of its level.
  pub begin_container-Emits :
      (object : Bool) (bracket : CString) (w : Writer)
      → IsRunning w
      → accepts w ≡ true
      → w.depth < max_depth
      → length w.text + length (lead w ++ bracket) ≤ text_max
      → let w' = begin_container grants object bracket w in
        Emits (suc w.depth) w.depth (noted w) (lead w ++ bracket) w'
        × (w'.is_object w.depth ≡ object)
        × (w'.need_comma w.depth ≡ false)
        × (object ≡ true → w'.want_key w.depth ≡ true)
  unfolding begin_container open_container
  begin_container-Emits object bracket w r a room short =
      let fits = length-append (lead w) bracket in
      let b = writer_before_value-Wrote w r a (omega (arith, fits)) in
      let before = writer_before_value grants w in
      let notfull : leb max_depth before.depth ≡ false = ground (arith, b.depth, noted-depth w) in
      let c = Wrote-trans (lead w) bracket b (
        writer_raw-Wrote grants mem before bracket b.safe b.running
          (ground (arith, fits, length-Wrote (lead w) b))) in
      let level = c.depth ∙ noted-depth w in
      let e = Wrote-Emits w.depth w.depth (lead w ++ bracket) (noted-depth w) c in
      simp (alive r, ap is_ok b.running, notfull)
        (
          record {
            text = e.text;
            live = record {
              safe = IsSafe-flags c.safe refl refl (omega (arith, level));
              running = c.running;
            };
            depth = omega (arith, level);
            is_object = λ j h. ground (arith, level, e.is_object j h);
            need_comma = λ j h. ground (arith, level, e.need_comma j h);
            want_key = λ j h. ground (arith, level, e.want_key j h);
          },
          ground (arith, level),
          ground (arith, level),
          λ o. ground (arith, level),
        )

  -- A key: the comma behind an earlier member, the quoted name and the colon.
  pub key-Emits :
      (name : CString) (w : Writer)
      → IsRunning w
      → (w.depth == 0) ≡ false
      → w.is_object (w.depth - 1) ≡ true
      → w.want_key (w.depth - 1) ≡ true
      → length w.text
          + length (comma (not (w.need_comma (w.depth - 1))) ++ (quoted name ++ (b':' ∷ [])))
        ≤ text_max
      → let w' = key grants (some name) w in
        Emits w.depth
          (w.depth - 1)
          w
          (comma (not (w.need_comma (w.depth - 1))) ++ (quoted name ++ (b':' ∷ [])))
          w'
        × (w'.is_object (w.depth - 1) ≡ true)
        × (w'.want_key (w.depth - 1) ≡ false)
        × (w'.need_comma (w.depth - 1) ≡ true)
  unfolding key
  key-Emits name w r deep o want short =
      let c = comma (not (w.need_comma (w.depth - 1))) in
      let commaed = if w.need_comma (w.depth - 1) then writer_raw grants w (b',' ∷ []) else w in
      let fits = length-append c (quoted name ++ (b':' ∷ [])) in
      let fits' = length-append (quoted name) (b':' ∷ []) in
      let a : Wrote w c commaed = elim (Bool-cases (w.need_comma (w.depth - 1))) [
        | inl e ↦
            simp e
              (writer_raw-Wrote grants mem w (b',' ∷ []) r.safe r.running (ground (arith, fits)))
        | inr e ↦ simp e (Wrote-nil r.safe r.running)
      ] in
      let b =
        writer_escape_string-Wrote grants mem name commaed a.safe a.running
          (omega (arith, fits, fits', length-Wrote c a)) in
      let named = writer_escape_string grants commaed name in
      let d =
        writer_raw-Wrote grants mem named (b':' ∷ []) b.safe b.running
          (omega (arith, fits, fits', length-Wrote c a, length-Wrote (quoted name) b)) in
      let all =
        Wrote-trans c (quoted name ++ (b':' ∷ [])) a (Wrote-trans (quoted name) (b':' ∷ []) b d) in
      let level = all.depth in
      let e = Wrote-Emits w.depth (w.depth - 1) _ refl all in
      simp (alive r, deep, o, want)
        (
          record {
            text = all.text;
            live = record {
              safe = IsSafe-flags all.safe refl refl all.safe.level;
              running = all.running;
            };
            depth = level;
            is_object = e.is_object;
            need_comma = λ j h. ground (arith, level, e.need_comma j h);
            want_key = λ j h. ground (arith, level, e.want_key j h);
          },
          ap (λ f. f (w.depth - 1)) all.is_object ∙ o,
          ground (arith, level),
          ground (arith, level),
        )

  close-Emits :
      (w : Writer) (bracket : CString) (k : ℕ)
      → IsRunning w
      → w.depth ≡ suc k
      → length w.text + length bracket ≤ text_max
      → Emits k k w bracket (writer_raw grants (record w { depth = w.depth - 1 }) bracket)
  close-Emits w bracket k r d short =
      let down = record w { depth = w.depth - 1 } in
      let a =
        writer_raw-Wrote grants mem down bracket
          (IsSafe-flags r.safe refl refl (omega (arith, r.safe.level))) r.running short in
      let e = Wrote-Emits (w.depth - 1) (w.depth - 1) bracket refl a in
      record {
        text = e.text;
        live = e.live;
        depth = omega (arith, a.depth);
        is_object = λ j h. e.is_object j (omega arith);
        need_comma = λ j h. e.need_comma j (omega arith);
        want_key = λ j h. e.want_key j (omega arith);
      }

  pub end_object-Emits :
      (w : Writer) (k : ℕ)
      → IsRunning w
      → w.depth ≡ suc k
      → w.is_object k ≡ true
      → length w.text + 1 ≤ text_max
      → Emits k k w (b'}' ∷ []) (end_object grants w)
  unfolding end_object
  end_object-Emits w k r d o short =
      let deep : (w.depth == 0) ≡ false = ground arith in
      let o' : w.is_object (w.depth - 1) ≡ true = ap w.is_object (omega arith) ∙ o in
      simp (alive r, deep, o') (close-Emits w (b'}' ∷ []) k r d short)

  pub end_array-Emits :
      (w : Writer) (k : ℕ)
      → IsRunning w
      → w.depth ≡ suc k
      → w.is_object k ≡ false
      → length w.text + 1 ≤ text_max
      → Emits k k w (b']' ∷ []) (end_array grants w)
  unfolding end_array
  end_array-Emits w k r d o short =
      let deep : (w.depth == 0) ≡ false = ground arith in
      let o' : w.is_object (w.depth - 1) ≡ false = ap w.is_object (omega arith) ∙ o in
      simp (alive r, deep, o') (close-Emits w (b']' ∷ []) k r d short)
