-- ===== src/Storage/SafeId/Encoding.antt =====
-- What the name of a directory says about the identity.
use usb_sentinel.Prelude.{
  ℕ, ◌+◌, ◌/◌, ◌%◌, ◌<◌, ◌≡◌, ◌≢◌, refl, ap, ◌∙◌, inl, inr, true, false, [], ◌∷◌, ◌++◌, none, some,
  append-nil, append_assoc, CString, arith, leb, if◌then◌else◌, All, length, length-append,
  Bool-cases,
}
use usb_sentinel.Status.{ok, no_memory}
use usb_sentinel.Storage.SafeId.{is_safe, upper_digit, hex_escape, encode_byte, encode_from}

abbrev pub encoded : CString → CString
encoded [] = []
encoded (c ∷ s) = encode_byte c ++ encoded s

length-encode_byte : (c : ℕ) → length (encode_byte c) ≡ (if is_safe c then 1 else 3)
unfolding encode_byte hex_escape
length-encode_byte c = elim (Bool-cases (is_safe c)) [ inl e ↦ rw e refl | inr e ↦ rw e refl ]

pub encode_from-encoded :
    (size : ℕ) (out s : CString)
    → length out < size
    → 0 < length (out ++ encoded s)
    → encode_from size out s ≡ (
        if leb size (length (out ++ encoded s))
        then (no_memory, none)
        else (ok, some (out ++ encoded s)))
unfolding encode_from
encode_from-encoded size out [] small some_text = ground (arith, append-nil out)
encode_from-encoded size out (c ∷ s) small some_text =
    let piece = length-encode_byte c in
    let tail = length-append (encode_byte c) (encoded s) in
    let all = length-append out (encode_byte c ++ encoded s) in
    let next = length-append out (encode_byte c) in
    let shift = append_assoc out (encode_byte c) (encoded s) in
    elim (Bool-cases (leb size (length out + (if is_safe c then 1 else 3)))) [
      | inl e ↦ ground (arith, e, piece, tail, all)
      | inr e ↦ rw e (
          encode_from-encoded size (out ++ encode_byte c) s (ground (arith, e, piece, next))
            (ground (arith, piece, next, length-append (out ++ encode_byte c) (encoded s)))
          ∙ rw shift refl)
    ]

pub length-encoded_pos : (c : ℕ) (s : CString) → 0 < length (encoded (c ∷ s))
length-encoded_pos c s =
    ground (arith, length-encode_byte c, length-append (encode_byte c) (encoded s))

-- An identity of bytes without an underscore.
abbrev pub IsPlain : CString → Type 0
IsPlain s = All (λ (c : ℕ). (c ≢ b'_') × (c < 256)) s

upper_digit-inj : (a b : ℕ) → a < 16 → b < 16 → upper_digit a ≡ upper_digit b → a ≡ b
unfolding upper_digit
upper_digit-inj a b h k e = ground arith

pub encode_byte-safe : (c : ℕ) → is_safe c ≡ true → encode_byte c ≡ c ∷ []
unfolding encode_byte
encode_byte-safe c e = rw e refl

pub encode_byte-unsafe : (c : ℕ) → is_safe c ≡ false → encode_byte c ≡ hex_escape c
unfolding encode_byte
encode_byte-unsafe c e = rw e refl

-- The first byte of two names that are equal, and the rest of them.
encode_byte-inj :
    (c d : ℕ) (s t : CString)
    → (c ≢ b'_') × (c < 256)
    → (d ≢ b'_') × (d < 256)
    → encode_byte c ++ s ≡ encode_byte d ++ t
    → (c ≡ d) × (s ≡ t)
unfolding hex_escape
encode_byte-inj c d s t hc hd e = elim (Bool-cases (is_safe c)) [
  | inl p ↦ elim (Bool-cases (is_safe d)) [
    | inl q ↦
        let e' : c ∷ s ≡ d ∷ t = simp (encode_byte-safe c p, encode_byte-safe d q) at e in
        (cc e', cc e')
    | inr q ↦
        let e' : c ∷ s ≡ hex_escape d ++ t =
          simp (encode_byte-safe c p, encode_byte-unsafe d q) at e in
        absurd (hc.0 (cc e'))
  ]
  | inr p ↦ elim (Bool-cases (is_safe d)) [
    | inl q ↦
        let e' : hex_escape c ++ s ≡ d ∷ t =
          simp (encode_byte-unsafe c p, encode_byte-safe d q) at e in
        absurd (hd.0 (cc e'))
    | inr q ↦
        let e' : hex_escape c ++ s ≡ hex_escape d ++ t =
          simp (encode_byte-unsafe c p, encode_byte-unsafe d q) at e in
        let high : c / 16 ≡ d / 16 =
          upper_digit-inj (c / 16) (d / 16) (omega (arith, hc)) (omega (arith, hd)) (cc e') in
        let low : c % 16 ≡ d % 16 =
          upper_digit-inj (c % 16) (d % 16) (omega arith) (omega arith) (cc e') in
        (omega (arith, high, low), cc e')
  ]
]

pub encoded-inj : (a b : CString) → IsPlain a → IsPlain b → encoded a ≡ encoded b → a ≡ b
encoded-inj [] [] ha hb e = refl
encoded-inj [] (d ∷ t) ha hb e = absurd (omega (arith, ap length e, length-encoded_pos d t))
encoded-inj (c ∷ s) [] ha hb e = absurd (omega (arith, ap length e, length-encoded_pos c s))
encoded-inj (c ∷ s) (d ∷ t) ha hb e =
    let (first, rest) = encode_byte-inj c d (encoded s) (encoded t) ha.0 hb.0 e in
    let same = encoded-inj s t ha.1 hb.1 rest in cc (first, same)
