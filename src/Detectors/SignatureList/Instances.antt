-- ===== src/Detectors/SignatureList/Instances.antt =====
-- A strtoull, a qsort and a file as the theorems rely on them, for the tests.
use mathlib.Core.List.{Permᴰ}
use mathlib.Core.List.Permᴰ
use usb_sentinel.Prelude.{
  ℕ, suc, ◌+◌, ◌*◌, ◌-◌, ◌≤◌, refl, inl, inr, List, [], ◌∷◌, CString, All, arith, leb, Bool-cases,
  within, if◌then◌else◌, zero, ◌<◌, ◌≡◌, ◌∙◌, ap, ◌++◌, length, length-take-le, take, drop,
  drop-append,
}
use usb_sentinel.Detectors.SignatureList.{Signature}
use usb_sentinel.Detectors.SignatureList.Loaded.{Sorts}
use usb_sentinel.Detectors.SignatureList.Bounds.{IsSorted}
use usb_sentinel.Detectors.SignatureList.WholeFile.{Serves}
use usb_sentinel.Status.{Status, ok}

-- A `strtoull` for digits alone.
abbrev read_digits : ℕ → ℕ → CString → ℕ × ℕ
read_digits value taken [] = (value, taken)
read_digits value taken (c ∷ p) =
    let more = read_digits (value * 10 + (c - b'0')) (suc taken) p in
    if within b'0' b'9' c then more else (value, taken)

abbrev pub decimal : CString → ℕ × ℕ
decimal p = read_digits 0 0 p

-- A sort by size.
unfoldable pub insert : Signature → List Signature → List Signature
insert e [] = e ∷ []
insert e (x ∷ es) = let rest = insert e es in if leb e.size x.size then e ∷ x ∷ es else x ∷ rest

unfoldable pub sort : List Signature → List Signature
sort [] = []
sort (e ∷ es) = insert e (sort es)

insert-All :
    (n : ℕ) (e : Signature) (es : List Signature)
    → n ≤ e.size
    → All (λ x. n ≤ x.size) es
    → All (λ x. n ≤ x.size) (insert e es)
unfolding insert
insert-All n e [] h a = (h, tt)
insert-All n e (x ∷ es) h (le, a) = elim (Bool-cases (leb e.size x.size)) [
  | inl t ↦ rw t (h, (le, a))
  | inr f ↦ rw f (le, insert-All n e es h a)
]

All-le :
    (m n : ℕ) (es : List Signature) → m ≤ n → All (λ x. n ≤ x.size) es → All (λ x. m ≤ x.size) es
All-le m n [] h a = tt
All-le m n (x ∷ es) h (le, a) = (omega arith, All-le m n es h a)

insert-IsSorted : (e : Signature) (es : List Signature) → IsSorted es → IsSorted (insert e es)
unfolding insert
insert-IsSorted e [] s = (tt, tt)
insert-IsSorted e (x ∷ es) (le, s) = elim (Bool-cases (leb e.size x.size)) [
  | inl t ↦ rw t ((ground arith, All-le e.size x.size es (ground arith) le), (le, s))
  | inr f ↦ rw f (insert-All x.size e es (ground arith) le, insert-IsSorted e es s)
]

insert-Permᴰ : (e : Signature) (es : List Signature) → Permᴰ (insert e es) (e ∷ es)
unfolding insert
insert-Permᴰ e [] = Permᴰ.refl _
insert-Permᴰ e (x ∷ es) = elim (Bool-cases (leb e.size x.size)) [
  | inl t ↦ rw t (Permᴰ.refl _)
  | inr f ↦ rw f (Permᴰ.trans (Permᴰ.cons refl (insert-Permᴰ e es)) (Permᴰ.swap refl refl))
]

sort-IsSorted : (es : List Signature) → IsSorted (sort es)
unfolding sort
sort-IsSorted [] = tt
sort-IsSorted (e ∷ es) = insert-IsSorted e (sort es) (sort-IsSorted es)

sort-Permᴰ : (es : List Signature) → Permᴰ (sort es) es
unfolding sort
sort-Permᴰ [] = Permᴰ.nil
sort-Permᴰ (e ∷ es) = Permᴰ.trans (insert-Permᴰ e (sort es)) (Permᴰ.cons refl (sort-Permᴰ es))

pub sort-Sorts : Sorts sort
sort-Sorts = record { orders = sort-IsSorted; keeps = λ es. ∣ sort-Permᴰ es ∣₁ }

-- A file whose reads give all that is asked for.
abbrev pub serve : CString → ℕ → ℕ → Status × List ℕ
serve content len asked = (ok, take asked (drop len content))

take-drop : (n : ℕ) (xs : CString) → xs ≡ take n xs ++ drop n xs
take-drop zero xs = refl
take-drop (suc n) [] = refl
take-drop (suc n) (x ∷ xs) = ap (◌∷◌ x) (take-drop n xs)

take_empty : (n : ℕ) (xs : CString) → 0 < n → length (take n xs) ≡ 0 → xs ≡ []
take_empty zero xs h e = absurd (omega arith)
take_empty (suc n) [] h e = refl
take_empty (suc n) (x ∷ xs) h e = absurd (omega (arith, e))

pub serve-Serves : (content : CString) → Serves content (serve content)
serve-Serves content front rest n split h = (
  take n rest,
  drop n rest,
  take-drop n rest,
  length-take-le n rest,
  take_empty n rest h,
  ap (λ xs. (ok, take n xs)) (ap (drop (length front)) split ∙ drop-append front rest),
)
