-- ===== src/Platform/Sha256/Digest.antt =====
-- The digest of a message that comes in pieces, against the padded message of FIPS 180-4 hashed at once.
use usb_sentinel.Prelude.{
  ℕ, zero, suc, ◌+◌, ◌-◌, ◌*◌, ◌%◌, ◌^◌, ◌<◌, ◌≡◌, refl, sym, ◌∙◌, ap, inl, inr, List, [], ◌∷◌,
  ◌++◌, append_assoc, ltb, length, length-append, arith, Bool-cases,
}
use usb_sentinel.Platform.Sha256.{
  Sha256, init, whole_blocks, update, zeros, be64, word_bytes, last_state, final,
}
use usb_sentinel.Platform.Sha256.Blocks.{
  add_byte, absorb, absorb-append, absorb_full, absorb-whole_blocks,
}
use usb_sentinel.Platform.Sha256.Compress.{compress}
use usb_sentinel.Platform.Sha256.Streaming.{held, update-absorb}

-- What stands behind a message of `n` bytes: the mark, the zeros up to eight bytes in front of the end of a
-- block, and the number of bits.
unfoldable pub padding : ℕ → List ℕ
padding n = 0x80 ∷ (zeros ((119 - n % 64) % 64) ++ be64 (n * 8 % 2 ^ 64))

-- The hash of a whole message: its blocks with the padding, from the initial state on
unfoldable pub sha256 : List ℕ → List ℕ
sha256 message =
    let padded = message ++ padding (length message) in
    word_bytes (whole_blocks (length padded) init.state padded).0

unfoldable pub update_all : Sha256 → List (List ℕ) → Sha256
update_all ctx [] = ctx
update_all ctx (piece ∷ pieces) = update_all (update ctx piece) pieces

unfoldable pub concat : List (List ℕ) → List ℕ
concat [] = []
concat (piece ∷ pieces) = piece ++ concat pieces

length-zeros : (n : ℕ) → length (zeros n) ≡ n
unfolding zeros
length-zeros zero = refl
length-zeros (suc n) = omega (arith, length-zeros n)

zeros-append : (m n : ℕ) → zeros (m + n) ≡ zeros m ++ zeros n
unfolding zeros
zeros-append zero n = ap zeros (omega arith)
zeros-append (suc m) n =
    let next : suc m + n ≡ suc (m + n) = omega arith in
    ap zeros next ∙ ap (◌∷◌ 0) (zeros-append m n)

length-add_byte :
    (state buffer : List ℕ) (byte : ℕ)
    → length buffer < 64
    → length (add_byte (state, buffer) byte).1 ≡ (length buffer + 1) % 64
unfolding add_byte
length-add_byte state buffer byte h = ground (arith, length-append buffer (byte ∷ []))

-- How many bytes are held behind a message
length-absorb :
    (state buffer bytes : List ℕ)
    → length buffer < 64
    → length (absorb (state, buffer) bytes).1 ≡ (length buffer + length bytes) % 64
unfolding absorb
length-absorb state buffer [] h = omega arith
length-absorb state buffer (byte ∷ bytes) h =
    let one = length-add_byte state buffer byte h in
    let (state', buffer') = add_byte (state, buffer) byte in
    omega (arith, one, length-absorb state' buffer' bytes (omega (arith, one)))

bit_count_update :
    (ctx : Sha256) (bytes : List ℕ)
    → (update ctx bytes).bit_count ≡ (ctx.bit_count + length bytes * 8) % 2 ^ 64
unfolding update
bit_count_update ctx bytes = refl

bit_count_bound : (ctx : Sha256) (bytes : List ℕ) → (update ctx bytes).bit_count < 2 ^ 64
bit_count_bound ctx bytes = omega (arith, bit_count_update ctx bytes)

update_all-absorb :
    (ctx : Sha256) (pieces : List (List ℕ))
    → length ctx.buffer < 64
    → ctx.bit_count < 2 ^ 64
    → (held (update_all ctx pieces) ≡ absorb (held ctx) (concat pieces))
      × ((update_all ctx pieces).bit_count ≡ (ctx.bit_count + length (concat pieces) * 8) % 2 ^ 64)
unfolding update_all concat absorb
update_all-absorb ctx [] h small = (refl, omega arith)
update_all-absorb ctx (piece ∷ pieces) h small =
    let (same, short) = update-absorb ctx piece h in
    let (all_same, bits) =
      update_all-absorb (update ctx piece) pieces short (bit_count_bound ctx piece) in
    (
      all_same
          ∙ ap (λ s. absorb s (concat pieces)) same
          ∙ sym (absorb-append (held ctx) piece (concat pieces)),
      omega (arith, bits, bit_count_update ctx piece, length-append piece (concat pieces)),
    )

last_state-absorb :
    (ctx : Sha256)
    → length ctx.buffer < 64
    → last_state ctx
      ≡ (absorb
          (held ctx)
          (0x80 ∷ (zeros ((119 - length ctx.buffer) % 64) ++ be64 ctx.bit_count))).0
unfolding last_state
last_state-absorb ctx h =
    let n = length ctx.buffer in
    let marked = ctx.buffer ++ (0x80 ∷ []) in
    let size = length-append ctx.buffer (0x80 ∷ []) in
    let bits = be64 ctx.bit_count in
    let eight : length bits ≡ 8 = unfold be64 in refl in
    elim (Bool-cases (ltb 56 (length marked))) [
      | inr fits ↦
          let count : (119 - n) % 64 ≡ 56 - length marked = ground (arith, fits, size) in
          let tail = 0x80 ∷ (zeros (56 - length marked) ++ bits) in
          let long : length tail ≡ 64 - n = ground (
            arith,
            length-append (zeros (56 - length marked)) bits,
            length-zeros (56 - length marked),
            eight,
            fits,
            size,
          ) in
          simp (fits, count)
            (ap (λ l. compress ctx.state l)
                (append_assoc marked (zeros (56 - length marked)) bits
                  ∙ append_assoc ctx.buffer (0x80 ∷ []) (zeros (56 - length marked) ++ bits))
              ∙ ap (λ p. p.0)
                  (sym
                    (absorb_full ctx.state ctx.buffer tail (omega (arith, long, h)) (omega arith))))
      | inl over ↦
          let count : (119 - n) % 64 ≡ (64 - length marked) + 56 = ground (arith, over, size, h) in
          let head = 0x80 ∷ zeros (64 - length marked) in
          let tail = zeros 56 ++ bits in
          let filled : n + length head ≡ 64 =
            ground (arith, length-zeros (64 - length marked), size, over, h) in
          let long : length tail ≡ 64 =
            omega (arith, length-append (zeros 56) bits, length-zeros 56, eight) in
          let split : 0x80 ∷ (zeros ((64 - length marked) + 56) ++ bits) ≡ head ++ tail =
            ap (λ z. 0x80 ∷ (z ++ bits)) (zeros-append (64 - length marked) 56)
            ∙ ap (◌∷◌ 0x80) (append_assoc (zeros (64 - length marked)) (zeros 56) bits) in
          simp (over, count, split)
            (ap (λ l. compress (compress ctx.state l) tail)
                (append_assoc ctx.buffer (0x80 ∷ []) (zeros (64 - length marked)))
              ∙ ap (λ p. p.0)
                  (sym (
                    absorb-append (held ctx) head tail
                    ∙ ap (λ s. absorb s tail)
                        (absorb_full ctx.state ctx.buffer head filled (omega arith))
                    ∙ absorb_full (compress ctx.state (ctx.buffer ++ head)) [] tail
                        (omega (arith, long)) (omega (arith, long)))))
    ]

init_buffer : init.buffer ≡ []
unfolding init
init_buffer = refl

init_bit_count : init.bit_count ≡ 0
unfolding init
init_bit_count = refl

-- For a message in any pieces, the digest after an update for each is that of the whole message:
-- its blocks, with the mark, the zeros and the bit count of FIPS 180-4 behind it, compressed in
-- order from the initial state.
pub final-sha256 :
    (pieces : List (List ℕ)) → final (update_all init pieces) ≡ sha256 (concat pieces)
unfolding final sha256 padding
final-sha256 pieces =
    let ctx = update_all init pieces in
    let message = concat pieces in
    let empty = ap length init_buffer in
    let (same, bits) =
      update_all-absorb init pieces (omega (arith, empty)) (omega (arith, init_bit_count)) in
    let count : length ctx.buffer ≡ length message % 64 = omega (
      arith,
      ap (λ p. length p.1) same,
      length-absorb init.state init.buffer message (omega (arith, empty)),
      empty,
    ) in
    let bit_count : ctx.bit_count ≡ length message * 8 % 2 ^ 64 =
      omega (arith, bits, init_bit_count) in
    let padded = message ++ padding (length message) in
    ap word_bytes (
      last_state-absorb ctx (omega (arith, count))
      ∙ ap (λ c. (absorb (held ctx) (0x80 ∷ (zeros ((119 - c) % 64) ++ be64 ctx.bit_count))).0)
          count
      ∙ ap
          (λ b. (absorb (held ctx) (0x80 ∷ (zeros ((119 - length message % 64) % 64) ++ be64 b))).0)
          bit_count
      ∙ ap (λ s. (absorb s (padding (length message))).0) same
      ∙ ap (λ p. p.0) (sym (absorb-append (held init) message (padding (length message))))
      ∙ ap (λ b. (absorb (init.state, b) padded).0) init_buffer
      ∙ ap (λ p. p.0) (absorb-whole_blocks (length padded) init.state padded (omega arith)).0)
