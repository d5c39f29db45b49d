-- ===== src/Platform/Sha256/Streaming.antt =====
-- Hashing in pieces, against the padded message of FIPS 180-4 hashed at once.
use usb_sentinel.Prelude.{
  ℕ, zero, suc, ◌-◌, ◌≤◌, ◌<◌, ◌≡◌, refl, sym, ◌∙◌, ap, inl, inr, true, false, List, [], ◌∷◌, ◌++◌,
  take, drop, ltb, leb, ◌==◌, if◌then◌else◌, length, length-append, take-eq_self, arith, Bool-cases,
}
use usb_sentinel.Platform.Sha256.{Sha256, whole_blocks, run_blocks, top_up, update}
use usb_sentinel.Platform.Sha256.Blocks.{
  absorb, absorb-append, take-drop, length-take, absorb_short, absorb_full, absorb-whole_blocks,
}
use usb_sentinel.Platform.Sha256.Compress.{compress}

-- The state and the buffer
abbrev pub held : Sha256 → List ℕ × List ℕ
held ctx = (ctx.state, ctx.buffer)

if_some : (rest : List ℕ) → (if ltb 0 (length rest) then rest else []) ≡ rest
if_some [] = refl
if_some (x ∷ rest) = ground arith

run_blocks-absorb :
    (state bytes : List ℕ)
    → (run_blocks state [] bytes ≡ absorb (state, []) bytes)
      × (length (run_blocks state [] bytes).1 < 64)
unfolding run_blocks
run_blocks-absorb state bytes =
    let (same, short) = absorb-whole_blocks (length bytes) state bytes (omega arith) in
    let kept = if_some (whole_blocks (length bytes) state bytes).1 in
    (
      ap (λ rest. ((whole_blocks (length bytes) state bytes).0, rest)) kept ∙ sym same,
      omega (arith, ap length kept, short),
    )

run_blocks-nil : (state buffer : List ℕ) → run_blocks state buffer [] ≡ (state, buffer)
unfolding run_blocks whole_blocks
run_blocks-nil state buffer = refl

drop_all : (n : ℕ) (bytes : List ℕ) → length bytes ≤ n → drop n bytes ≡ []
drop_all zero [] h = refl
drop_all zero (x ∷ bytes) h = absurd (omega arith)
drop_all (suc n) [] h = refl
drop_all (suc n) (x ∷ bytes) h = drop_all n bytes (omega arith)

empty_of : (bytes : List ℕ) → length bytes ≡ 0 → bytes ≡ []
empty_of [] h = refl
empty_of (x ∷ bytes) h = absurd (omega arith)

pub update-absorb :
    (ctx : Sha256) (bytes : List ℕ)
    → length ctx.buffer < 64
    → (held (update ctx bytes) ≡ absorb (held ctx) bytes) × (length (update ctx bytes).buffer < 64)
unfolding update top_up
update-absorb ctx bytes h = elim (Bool-cases (ltb 0 (length ctx.buffer))) [
  | inr none_held ↦
      let nothing = empty_of ctx.buffer (ground (arith, none_held)) in
      simp (nothing) (run_blocks-absorb ctx.state bytes)
  | inl some_held ↦
      let need = 64 - length ctx.buffer in
      let grown = length-append ctx.buffer (take need bytes) in
      elim (Bool-cases (leb need (length bytes))) [
        | inr few ↦
            let whole = take-eq_self need bytes (ground (arith, few)) in
            let nothing = drop_all need bytes (ground (arith, few)) in
            let open_end : (length (ctx.buffer ++ take need bytes) == 64) ≡ false =
              ground (arith, grown, ap length whole, few) in
            simp (some_held, open_end, nothing, run_blocks-nil)
              (
                ap (λ t. (ctx.state, ctx.buffer ++ t)) whole
                    ∙ sym (absorb_short ctx.state ctx.buffer bytes (ground (arith, few))),
                ground (arith, grown, ap length whole, few),
              )
        | inl many ↦
            let filled = length-take need bytes (ground (arith, many)) in
            let full : (length (ctx.buffer ++ take need bytes) == 64) ≡ true =
              ground (arith, grown, filled) in
            let (same, short) =
              run_blocks-absorb (compress ctx.state (ctx.buffer ++ take need bytes))
                (drop need bytes) in
            simp (some_held, full)
              (
                same
                    ∙ ap (λ s. absorb s (drop need bytes))
                        (sym (
                          absorb_full ctx.state ctx.buffer (take need bytes) (omega (arith, filled))
                            (omega (arith, filled))))
                    ∙ sym (absorb-append (held ctx) (take need bytes) (drop need bytes))
                    ∙ ap (absorb (held ctx)) (take-drop need bytes),
                short,
              )
      ]
]
