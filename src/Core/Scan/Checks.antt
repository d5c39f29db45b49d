-- ===== src/Core/Scan/Checks.antt =====
-- Pushes onto a list of checks where memory is at hand.
use usb_sentinel.Prelude.{
  ℕ, ◌+◌, ◌*◌, ◌/◌, ◌^◌, ◌≤◌, ◌<◌, ◌≡◌, refl, sym, ◌∙◌, ap, inl, inr, Bool, true, false, List, [],
  ◌∷◌, ◌++◌, append_assoc, append-nil, arith, ltb, ◌==◌, length, length-append, Bool-cases,
}
use usb_sentinel.Core.Json.Writer.{size_max}
use usb_sentinel.Core.Scan.{CheckResult, CheckList, check_list_push, check_result_size}
use usb_sentinel.Core.Vector
use usb_sentinel.Core.Vector.{Vector, next_capacity}
use usb_sentinel.Core.Vector.Push.{Fits, push-Fits}

-- `realloc` finds 2 ^ 40 bytes.
abbrev pub Ample : (ℕ → Bool) → Type 0
Ample grants = (n : ℕ) → n ≤ 2 ^ 40 → grants n ≡ true

-- Every check pushed in turn.
unfoldable pub push_all : (ℕ → Bool) → List CheckResult → CheckList → CheckList
push_all grants [] list = list
push_all grants (c ∷ checks) list = push_all grants checks (check_list_push grants list c).1

push-items :
    (grants : ℕ → Bool) (list : CheckList) (c : CheckResult)
    → Ample grants
    → Fits 4 list
    → length list.items < 2 ^ 20
    → (check_list_push grants list c).1.items ≡ list.items ++ (c ∷ [])
unfolding check_list_push Vector.push
push-items grants list c ample fits small = elim (Bool-cases (length list.items == list.capacity)) [
  | inr e ↦ simp (e) refl
  | inl e ↦
      let few : next_capacity 4 list.capacity ≤ 2 ^ 22 = ground (arith, fits.near) in
      let room : ltb (size_max / check_result_size) (next_capacity 4 list.capacity) ≡ false =
        ground arith in
      let granted =
        ample (next_capacity 4 list.capacity * check_result_size) (omega (arith, few)) in
      simp (e, room, granted) refl
]

pub push_all-items :
    (grants : ℕ → Bool) (checks : List CheckResult) (list : CheckList)
    → Ample grants
    → Fits 4 list
    → length list.items + length checks ≤ 2 ^ 20
    → (push_all grants checks list).items ≡ list.items ++ checks
unfolding push_all check_list_push
push_all-items grants [] list ample fits small = sym (append-nil list.items)
push_all-items grants (c ∷ checks) list ample fits small =
    let pushed = push-items grants list c ample fits (omega arith) in
    let longer = ap length pushed ∙ length-append list.items (c ∷ []) in
    push_all-items grants checks (check_list_push grants list c).1 ample
      (push-Fits grants 4 check_result_size list c fits (omega arith) (omega arith))
      (omega (arith, longer))
    ∙ ap (λ l. l ++ checks) pushed
    ∙ append_assoc list.items (c ∷ []) checks
