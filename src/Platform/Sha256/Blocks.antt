-- ===== src/Platform/Sha256/Blocks.antt =====
-- Bytes taken one by one, against the blocks of the code.
use usb_sentinel.Prelude.{
  ℕ, zero, suc, ◌+◌, ◌≤◌, ◌<◌, ◌≡◌, refl, sym, ◌∙◌, ap, inl, inr, true, false, List, [], ◌∷◌, ◌++◌,
  append_assoc, append-nil, take, drop, leb, ◌==◌, if◌then◌else◌, length, length-append,
  length-drop, arith, Bool-cases,
}
use usb_sentinel.Platform.Sha256.{whole_blocks}
use usb_sentinel.Platform.Sha256.Compress.{compress}

-- One byte more in the buffer, which is compressed when it is full
unfoldable pub add_byte : List ℕ × List ℕ → ℕ → List ℕ × List ℕ
add_byte (state, buffer) byte =
    let filled = buffer ++ (byte ∷ []) in
    if length filled == 64 then (compress state filled, []) else (state, filled)

unfoldable pub absorb : List ℕ × List ℕ → List ℕ → List ℕ × List ℕ
absorb held [] = held
absorb held (byte ∷ bytes) = absorb (add_byte held byte) bytes

pub absorb-append :
    (held : List ℕ × List ℕ) (a b : List ℕ) → absorb held (a ++ b) ≡ absorb (absorb held a) b
unfolding absorb
absorb-append held [] b = refl
absorb-append held (byte ∷ a) b = absorb-append (add_byte held byte) a b

pub take-drop : (n : ℕ) (bytes : List ℕ) → take n bytes ++ drop n bytes ≡ bytes
take-drop zero bytes = refl
take-drop (suc n) [] = refl
take-drop (suc n) (x ∷ bytes) = ap (◌∷◌ x) (take-drop n bytes)

pub length-take : (n : ℕ) (bytes : List ℕ) → n ≤ length bytes → length (take n bytes) ≡ n
length-take zero bytes h = refl
length-take (suc n) [] h = absurd (omega arith)
length-take (suc n) (x ∷ bytes) h = omega (arith, length-take n bytes)

-- Fewer bytes than a block stay in the buffer.
pub absorb_short :
    (state buffer bytes : List ℕ)
    → length buffer + length bytes < 64
    → absorb (state, buffer) bytes ≡ (state, buffer ++ bytes)
unfolding absorb add_byte
absorb_short state buffer [] h = ap (λ b. (state, b)) (sym (append-nil buffer))
absorb_short state buffer (byte ∷ bytes) h =
    let longer = length-append buffer (byte ∷ []) in
    let open_end : (length (buffer ++ (byte ∷ [])) == 64) ≡ false = ground (arith, longer) in
    simp (open_end) (
      absorb_short state (buffer ++ (byte ∷ [])) bytes (omega (arith, longer))
      ∙ ap (λ b. (state, b)) (append_assoc buffer (byte ∷ []) bytes))

-- Bytes that fill the buffer are compressed with it.
pub absorb_full :
    (state buffer bytes : List ℕ)
    → length buffer + length bytes ≡ 64
    → 0 < length bytes
    → absorb (state, buffer) bytes ≡ (compress state (buffer ++ bytes), [])
unfolding absorb add_byte
absorb_full state buffer [] h some_byte = absurd (omega arith)
absorb_full state buffer (byte ∷ []) h some_byte =
    let full : (length (buffer ++ (byte ∷ [])) == 64) ≡ true =
      ground (arith, length-append buffer (byte ∷ [])) in
    simp (full) refl
absorb_full state buffer (byte ∷ next ∷ bytes) h some_byte =
    let longer = length-append buffer (byte ∷ []) in
    let open_end : (length (buffer ++ (byte ∷ [])) == 64) ≡ false = ground (arith, longer) in
    simp (open_end) (
      absorb_full state (buffer ++ (byte ∷ [])) (next ∷ bytes) (omega (arith, longer)) (omega arith)
      ∙ ap (λ b. (compress state b, [])) (append_assoc buffer (byte ∷ []) (next ∷ bytes)))

-- The loop over whole blocks, on enough fuel
pub absorb-whole_blocks :
    (f : ℕ) (state bytes : List ℕ)
    → length bytes ≤ f
    → (absorb (state, []) bytes ≡ whole_blocks f state bytes)
      × (length (whole_blocks f state bytes).1 < 64)
unfolding whole_blocks
absorb-whole_blocks zero state [] h = (unfold absorb in refl, omega arith)
absorb-whole_blocks zero state (b ∷ bytes) h = absurd (omega arith)
absorb-whole_blocks (suc f) state bytes h = elim (Bool-cases (leb 64 (length bytes))) [
  | inr few ↦ simp (few) (absorb_short state [] bytes (ground (arith, few)), ground (arith, few))
  | inl many ↦
      let enough : 64 ≤ length bytes = ground (arith, many) in
      let block = length-take 64 bytes enough in
      let (same, short) =
        absorb-whole_blocks f (compress state (take 64 bytes)) (drop 64 bytes)
          (omega (arith, length-drop 64 bytes)) in
      simp (many) (
        ap (absorb (state, [])) (sym (take-drop 64 bytes))
            ∙ absorb-append (state, []) (take 64 bytes) (drop 64 bytes)
            ∙ ap (λ s. absorb s (drop 64 bytes))
                (absorb_full state [] (take 64 bytes) (omega (arith, block)) (omega (arith, block)))
            ∙ same,
        short,
      )
]
