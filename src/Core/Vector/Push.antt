-- ===== src/Core/Vector/Push.antt =====
-- What a push leaves in the array.
use usb_sentinel.Prelude.{
  ℕ, ◌+◌, ◌*◌, ◌/◌, ◌^◌, ◌≤◌, ◌<◌, ◌≡◌, refl, inl, inr, Bool, [], ◌∷◌, ◌++◌, arith, ltb, ◌==◌,
  length, length-append, Bool-cases, ◌⊎◌,
}
use usb_sentinel.Core.Json.Writer.{size_max}
use usb_sentinel.Core.Vector.{Vector, next_capacity, push}
use usb_sentinel.Status.{ok, no_memory}

-- The items lie in the buffer, which is not much larger than they need.
pub record Fits {A : Type 0} (first : ℕ) (v : Vector A) : Type 0 where
  pub room : length v.items ≤ v.capacity
  pub near : v.capacity ≤ 2 * length v.items + first

module _ {A : Type 0} (grants : ℕ → Bool) (first item_size : ℕ) (v : Vector A) (x : A) where
  -- A push fails with NO_MEMORY and leaves the array, or succeeds and puts the item behind the others.
  pub push-cases :
      (push grants first item_size v x ≡ (no_memory, v))
      ⊎ ((v' : Vector A) × (push grants first item_size v x ≡ (ok, v'))
          × (v'.items ≡ v.items ++ (x ∷ [])))
  unfolding push
  push-cases = elim (Bool-cases (length v.items == v.capacity)) [
    | inr e ↦ inr (record v { items = v.items ++ (x ∷ []) }, rw e refl, refl)
    | inl e ↦ elim (Bool-cases (ltb (size_max / item_size) (next_capacity first v.capacity))) [
      | inl large ↦ inl (rw e (rw large refl))
      | inr small ↦ elim (Bool-cases (grants (next_capacity first v.capacity * item_size))) [
        | inl granted ↦ inr (
          record v { items = v.items ++ (x ∷ []); capacity = next_capacity first v.capacity },
          rw e (rw small (rw granted refl)),
          refl,
        )
        | inr refused ↦ inl (rw e (rw small (rw refused refl)))
      ]
    ]
  ]

  -- A push onto a list whose items lie in its buffer, with a first capacity that is not zero and
  -- while twice the items and the first capacity are below 2 ^ 64, leaves them in the buffer,
  -- whose capacity is at most twice their number and the first capacity, whether memory is
  -- granted or not.
  pub push-Fits :
      Fits first v
      → 0 < first
      → 2 * length v.items + first < 2 ^ 64
      → Fits first (push grants first item_size v x).1
  unfolding push
  push-Fits h start small =
      let more = length-append v.items (x ∷ []) in
      elim (Bool-cases (length v.items == v.capacity)) [
        | inr e ↦
            rw e
              (record { room = ground (arith, more, h.room); near = omega (arith, more, h.near) })
        | inl e ↦
            let next : (length v.items + 1 ≤ next_capacity first v.capacity)
                × (next_capacity first v.capacity ≤ 2 * length v.items + first) =
              (ground (arith, h.near), ground (arith, h.near)) in
            elim (Bool-cases (ltb (size_max / item_size) (next_capacity first v.capacity))) [
              | inl large ↦ rw e (rw large h)
              | inr few ↦ elim (Bool-cases (grants (next_capacity first v.capacity * item_size))) [
                | inr refused ↦ rw e (rw few (rw refused h))
                | inl granted ↦ rw e (
                    rw few (
                      rw granted (record {
                        room = omega (arith, more, next);
                        near = omega (arith, more, next);
                      })))
              ]
            ]
      ]
