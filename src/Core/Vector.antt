-- ===== src/Core/Vector.antt =====
-- The growing arrays of src/core: `usbs_finding_list_t`, `usbs_check_list_t` and `usbs_device_list_t`, with
-- `items[0..count)` and the capacity. Their pushes are written out three times and differ in the first
-- capacity and in the size of an item.
pub mod Push
mod Tests
use usb_sentinel.Prelude.{
  ℕ, ◌+◌, ◌*◌, ◌/◌, ◌%◌, ◌^◌, not, Bool, List, [], ◌∷◌, ◌++◌, ltb, ◌==◌, if◌then◌else◌, length,
}
use usb_sentinel.Core.Json.Writer.{size_max}
use usb_sentinel.Status.{Status, ok, no_memory}

pub record Vector (A : Type 0) : Type 0 where
  pub items : List A
  pub capacity : ℕ

abbrev pub next_capacity : ℕ → ℕ → ℕ
next_capacity first capacity = if capacity == 0 then first else (capacity * 2) % 2 ^ 64

module _ {A : Type 0} where
  unfoldable pub empty : Vector A
  empty = record { items = []; capacity = 0 }

  -- `grants` answers for a size whether `realloc` finds it.
  unfoldable pub push : (ℕ → Bool) → ℕ → ℕ → Vector A → A → Status × Vector A
  push grants first item_size v x =
      if not (length v.items == v.capacity)
      then (ok, record v { items = v.items ++ (x ∷ []) })
      else if ltb (size_max / item_size) (next_capacity first v.capacity)
      then (no_memory, v)
      else if grants (next_capacity first v.capacity * item_size)
      then (ok, record v { items = v.items ++ (x ∷ []); capacity = next_capacity first v.capacity })
      else (no_memory, v)
