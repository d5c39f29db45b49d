-- ===== src/Core/Json/Growth.antt =====
-- The doubling loop of `writer_ensure` ends, and what it finds is large enough.
use native.Mathlib.Nat.{pow-suc}
use usb_sentinel.Prelude.{
  ℕ, zero, suc, ◌*◌, ◌^◌, ◌≤◌, ◌<◌, ◌≡◌, ◌≢◌, ap, inl, inr, Bool-cases, arith, ltb,
}
use usb_sentinel.Core.Json.Writer.{grown, out_of_fuel, double_until}

pub double_until-grown :
    (f needed c n : ℕ) → double_until f needed c ≡ grown n → (needed ≤ n) × (c ≤ n)
unfolding double_until
double_until-grown zero needed c n e = cc
double_until-grown (suc f) needed c n e = ground (arith, double_until-grown f needed (c * 2) n)

double_pow : (c f : ℕ) → c * 2 ^ suc f ≡ c * 2 * 2 ^ f
double_pow c f = omega (arith, ap (λ (t : ℕ). c * t) (pow-suc 2 f))

-- The doubling loop of the writer ends: from a capacity below 2 ^ 64 that the fuel doubles to 2 ^
-- 64 or more, it never runs out of fuel.
pub double_until-ne-out_of_fuel :
    (f needed c : ℕ) → c < 2 ^ 64 → 2 ^ 64 ≤ c * 2 ^ f → double_until f needed c ≢ out_of_fuel
unfolding double_until
double_until-ne-out_of_fuel zero needed c small h = absurd (omega arith)
double_until-ne-out_of_fuel (suc f) needed c small h =
    ground (arith, double_until-ne-out_of_fuel f needed (c * 2), double_pow c f)

-- Below 2 ^ 61 the loop finds a capacity, and one that is no larger than 2 ^ 62.
pub double_until_small :
    (f needed c : ℕ)
    → needed ≤ 2 ^ 61
    → c ≤ 2 ^ 62
    → 2 ^ 64 ≤ c * 2 ^ f
    → (m : ℕ) × (double_until f needed c ≡ grown m) × (m ≤ 2 ^ 62)
unfolding double_until
double_until_small zero needed c n small h = absurd (omega arith)
double_until_small (suc f) needed c n small h = elim (Bool-cases (ltb c needed)) [
  | inr e ↦ (c, rw e, small)
  | inl e ↦
      let (m, q, le) =
        double_until_small f needed (c * 2) n (ground arith) (omega (arith, double_pow c f)) in
      (m, ground (arith, q), le)
]
