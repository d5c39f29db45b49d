-- ===== src/Storage/SafeId/Names.antt =====
-- Which identities get which names.
use usb_sentinel.Prelude.{
  ℕ, zero, suc, ◌/◌, ◌%◌, ◌<◌, ◌≡◌, refl, sym, ap, ◌∙◌, inl, inr, true, false, [], ◌∷◌, ◌++◌, none,
  some, append_assoc, CString, arith, leb, ◌==◌, if◌then◌else◌, All, length, length-append,
  Bool-cases,
}
use usb_sentinel.Status.{ok, no_memory}
use usb_sentinel.Storage.SafeId.{
  is_safe, upper_digit, hex_escape, encode_byte, encode_from, safe_id,
}
use usb_sentinel.Storage.SafeId.Encoding.{
  encoded, encode_from-encoded, length-encoded_pos, encode_byte-safe, encode_byte-unsafe, IsPlain,
  encoded-inj,
}

safe_id-encoded :
    (size c : ℕ) (s : CString)
    → 0 < size
    → safe_id (some (c ∷ s)) size ≡ (
        if leb size (length (encoded (c ∷ s)))
        then (no_memory, none)
        else (ok, some (encoded (c ∷ s))))
unfolding safe_id
safe_id-encoded size c s h =
    ground (arith, encode_from-encoded size [] (c ∷ s) h (length-encoded_pos c s))

safe_id-ok :
    (size : ℕ) (s name : CString) → safe_id (some s) size ≡ (ok, some name) → name ≡ encoded s
unfolding safe_id
safe_id-ok size [] name e = unfold encode_from in ground arith
safe_id-ok size (c ∷ s) name e = elim (Bool-cases (size == 0)) [
  | inl z ↦ cc (simp (z) at e)
  | inr z ↦
      ground
        (arith, e, encode_from-encoded size [] (c ∷ s) (ground (arith, z)) (length-encoded_pos c s))
]

-- Two identities of bytes without an underscore that get the same directory name are equal.
pub safe_id-inj :
    (size : ℕ) (a b name : CString)
    → IsPlain a
    → IsPlain b
    → safe_id (some a) size ≡ (ok, some name)
    → safe_id (some b) size ≡ (ok, some name)
    → a ≡ b
safe_id-inj size a b name ha hb ea eb =
    encoded-inj a b ha hb (sym (safe_id-ok size a name ea) ∙ safe_id-ok size b name eb)

upper_digit-safe : (d : ℕ) → d < 16 → is_safe (upper_digit d) ≡ true
unfolding upper_digit is_safe
upper_digit-safe d h = ground arith

encoded-append : (s t : CString) → encoded (s ++ t) ≡ encoded s ++ encoded t
encoded-append [] t = refl
encoded-append (c ∷ s) t = rw (encoded-append s t) (sym (append_assoc (encode_byte c) _ _))

encoded-hex_escape : (c : ℕ) → c < 256 → encoded (hex_escape c) ≡ hex_escape c
unfolding hex_escape
encoded-hex_escape c h =
    rw
      (
        encode_byte-safe b'_' (unfold is_safe in refl),
        encode_byte-safe (upper_digit (c / 16)) (upper_digit-safe (c / 16) (omega arith)),
        encode_byte-safe (upper_digit (c % 16)) (upper_digit-safe (c % 16) (omega arith)),
      )
      refl

safe_id-cong :
    (size : ℕ) (a b : CString)
    → 0 < length a
    → 0 < length b
    → encoded a ≡ encoded b
    → safe_id (some a) size ≡ safe_id (some b) size
safe_id-cong size [] b ha hb e = absurd (omega (arith, ha))
safe_id-cong size (c ∷ s) [] ha hb e = absurd (omega (arith, hb))
safe_id-cong zero (c ∷ s) (d ∷ t) ha hb e = unfold safe_id in refl
safe_id-cong (suc n) (c ∷ s) (d ∷ t) ha hb e =
    safe_id-encoded (suc n) c s (omega arith)
    ∙ ap (λ x. if leb (suc n) (length x) then (no_memory, none) else (ok, some x)) e
    ∙ sym (safe_id-encoded (suc n) d t (omega arith))

-- An identity with a byte that is not safe, and the one with the escape of that byte written out
-- in its place, get the same directory name, or both none.
pub safe_id_collides :
    (size c : ℕ) (s t : CString)
    → c < 256
    → is_safe c ≡ false
    → safe_id (some (s ++ (hex_escape c ++ t))) size ≡ safe_id (some (s ++ (c ∷ t))) size
safe_id_collides size c s t small unsafe =
    let e : encoded (hex_escape c ++ t) ≡ encoded (c ∷ t) =
      encoded-append (hex_escape c) t
      ∙ rw (encoded-hex_escape c small, encode_byte-unsafe c unsafe) refl in
    safe_id-cong size (s ++ (hex_escape c ++ t)) (s ++ (c ∷ t))
      (unfold hex_escape in omega (arith, length-append s (hex_escape c ++ t)))
      (omega (arith, length-append s (c ∷ t)))
      (encoded-append s (hex_escape c ++ t) ∙ rw (e, encoded-append s (c ∷ t)) refl)

abbrev pub AllSafe : CString → Type 0
AllSafe s = All (λ (c : ℕ). is_safe c ≡ true) s

AllSafe-append : (s t : CString) → AllSafe s → AllSafe t → AllSafe (s ++ t)
AllSafe-append [] t hs ht = ht
AllSafe-append (c ∷ s) t (h, hs) ht = (h, AllSafe-append s t hs ht)

encode_byte-AllSafe : (c : ℕ) → c < 256 → AllSafe (encode_byte c)
unfolding hex_escape
encode_byte-AllSafe c small = elim (Bool-cases (is_safe c)) [
  | inl e ↦ rw (encode_byte-safe c e) (e, tt)
  | inr e ↦ rw (encode_byte-unsafe c e) (
    unfold is_safe in refl,
    (upper_digit-safe (c / 16) (omega arith), (upper_digit-safe (c % 16) (omega arith), tt)),
  )
]

encoded-AllSafe : (s : CString) → All (λ (c : ℕ). c < 256) s → AllSafe (encoded s)
encoded-AllSafe [] h = tt
encoded-AllSafe (c ∷ s) (h, hs) =
    AllSafe-append (encode_byte c) (encoded s) (encode_byte-AllSafe c h) (encoded-AllSafe s hs)

-- A directory name that an identity of bytes gets consists of letters, digits, points, hyphens
-- and underscores, is not empty and fits its buffer.
pub safe_id-AllSafe :
    (size : ℕ) (s name : CString)
    → All (λ (c : ℕ). c < 256) s
    → safe_id (some s) size ≡ (ok, some name)
    → AllSafe name × (0 < length name) × (length name < size)
unfolding safe_id
safe_id-AllSafe size [] name bytes e = unfold encode_from in ground arith
safe_id-AllSafe size (c ∷ s) name bytes e = elim (Bool-cases (size == 0)) [
  | inl z ↦ cc (simp (z) at e)
  | inr z ↦
      let whole : name ≡ encoded (c ∷ s) = safe_id-ok size (c ∷ s) name (unfold safe_id in e) in
      (
        rw whole (encoded-AllSafe (c ∷ s) bytes),
        rw whole (length-encoded_pos c s),
        ground (
          arith,
          e,
          whole,
          encode_from-encoded size [] (c ∷ s) (ground (arith, z)) (length-encoded_pos c s),
        ),
      )
]
