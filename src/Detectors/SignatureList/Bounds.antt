-- ===== src/Detectors/SignatureList/Bounds.antt =====
-- The binary search on a list that is sorted by size: it ends, stays in bounds, and parts the entries.
use usb_sentinel.Prelude.{
  ℕ, zero, suc, ◌+◌, ◌-◌, ◌/◌, ◌≤◌, ◌<◌, ◌≡◌, refl, ap, inl, inr, List, [], ◌∷◌, Option, none, some,
  ltb, length, get_elem?, All, arith, Bool-cases,
}
use usb_sentinel.Detectors.SignatureList.{Signature}
use usb_sentinel.Detectors.SignatureList.Lookup.{lower_bound_from, lower_bound_by_size}

-- In the order of `compare_by_size`.
abbrev pub IsSorted : List Signature → Type 0
IsSorted [] = Unit {0}
IsSorted (e ∷ es) = All (λ x. e.size ≤ x.size) es × IsSorted es

-- The entries in front of `lo` are smaller.
abbrev pub Below : List Signature → ℕ → ℕ → Type 0
Below es size_bytes lo =
    (i : ℕ) (e : Signature) → get_elem? es i ≡ some e → i < lo → e.size < size_bytes

-- The entries from `hi` on are no smaller.
abbrev pub Above : List Signature → ℕ → ℕ → Type 0
Above es size_bytes hi =
    (i : ℕ) (e : Signature) → get_elem? es i ≡ some e → hi ≤ i → size_bytes ≤ e.size

pub get_elem?-lt :
    (es : List Signature) (i : ℕ) → i < length es → (e : Signature) × (get_elem? es i ≡ some e)
get_elem?-lt [] i h = absurd (omega arith)
get_elem?-lt (e ∷ es) zero h = (e, refl)
get_elem?-lt (e ∷ es) (suc i) h = get_elem?-lt es i (omega arith)

pub get_elem?-bound :
    (es : List Signature) (i : ℕ) (e : Signature) → get_elem? es i ≡ some e → i < length es
get_elem?-bound [] i e h = cc
get_elem?-bound (x ∷ es) zero e h = omega arith
get_elem?-bound (x ∷ es) (suc i) e h = omega (arith, get_elem?-bound es i e h)

abbrev pub size_of : Option Signature → ℕ
size_of none = 0
size_of (some e) = e.size

pub get_elem?-All :
    (n : ℕ) (es : List Signature) (i : ℕ) (e : Signature)
    → All (λ x. n ≤ x.size) es
    → get_elem? es i ≡ some e
    → n ≤ e.size
get_elem?-All n [] i e a h = absurd (cc)
get_elem?-All n (x ∷ es) zero e a h = omega (arith, ap size_of h, a.0)
get_elem?-All n (x ∷ es) (suc i) e a h = get_elem?-All n es i e a.1 h

pub IsSorted-get_elem? :
    (es : List Signature) (i j : ℕ) (a b : Signature)
    → IsSorted es
    → get_elem? es i ≡ some a
    → get_elem? es j ≡ some b
    → i ≤ j
    → a.size ≤ b.size
IsSorted-get_elem? [] i j a b s p q h = absurd (cc)
IsSorted-get_elem? (x ∷ es) zero zero a b s p q h = omega (arith, ap size_of p, ap size_of q)
IsSorted-get_elem? (x ∷ es) zero (suc j) a b s p q h =
    omega (arith, ap size_of p, get_elem?-All x.size es j b s.0 q)
IsSorted-get_elem? (x ∷ es) (suc i) zero a b s p q h = absurd (omega arith)
IsSorted-get_elem? (x ∷ es) (suc i) (suc j) a b s p q h =
    IsSorted-get_elem? es i j a b s.1 p q (omega arith)

pub lower_bound_from_lem :
    (f : ℕ) (es : List Signature) (size_bytes lo hi : ℕ)
    → IsSorted es
    → lo ≤ hi
    → hi ≤ length es
    → hi - lo < f
    → Below es size_bytes lo
    → Above es size_bytes hi
    → (m : ℕ) × (lower_bound_from f es size_bytes lo hi ≡ some m)
      × Below es size_bytes m
      × Above es size_bytes m
unfolding lower_bound_from
lower_bound_from_lem zero es size_bytes lo hi s le fits fuel below above = absurd (omega arith)
lower_bound_from_lem (suc f) es size_bytes lo hi s le fits fuel below above =
    elim (Bool-cases (ltb lo hi)) [
      | inr e ↦ (lo, rw e refl, below, λ i x p h. above i x p (ground arith))
      | inl e ↦
          let mid = lo + (hi - lo) / 2 in
          let in_range : mid < hi = ground arith in
          let (x, here) = get_elem?-lt es mid (omega arith) in
          elim (Bool-cases (ltb x.size size_bytes)) [
            | inl small ↦
                let (m, q, b, a) =
                  lower_bound_from_lem f es size_bytes (mid + 1) hi s (omega arith) fits
                    (omega arith)
                    (λ i y p h. ground (arith, IsSorted-get_elem? es i mid y x s p here)) above in
                (m, rw e (rw here (rw small q)), b, a)
            | inr large ↦
                let (m, q, b, a) =
                  lower_bound_from_lem f es size_bytes lo mid s (omega arith) (omega arith)
                    (omega arith) below
                    (λ i y p h. ground (arith, IsSorted-get_elem? es mid i x y s here p)) in
                (m, rw e (rw here (rw large q)), b, a)
          ]
    ]

-- The search ends, stays in bounds, and parts the smaller entries from the others.
pub lower_bound_by_size_lem :
    (es : List Signature) (size_bytes : ℕ)
    → IsSorted es
    → (m : ℕ) × (lower_bound_by_size es size_bytes ≡ some m)
      × Below es size_bytes m
      × Above es size_bytes m
unfolding lower_bound_by_size
lower_bound_by_size_lem es size_bytes s =
    lower_bound_from_lem (suc (length es)) es size_bytes 0 (length es) s (omega arith) (omega arith)
      (omega arith) (λ i e p h. absurd (omega arith))
      (λ i e p h. absurd (omega (arith, get_elem?-bound es i e p)))
