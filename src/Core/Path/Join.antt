-- ===== src/Core/Path/Join.antt =====
-- What `usbs_path_join` writes.
use usb_sentinel.Prelude.{
  ℕ, ap, ◌-◌, ◌<◌, ◌≤◌, ◌≡◌, inl, inr, true, false, ◌∷◌, ◌++◌, some, arith, length, CString,
  take-eq_self, length-take-le, Bool-cases,
}
use usb_sentinel.Core.Path.{Host, path_sep, ends_in_separator, int_max, print_bounded, path_join}
use usb_sentinel.Status.{ok}

-- `path` is `base` and `leaf` with one separator between them: the one that ends `base`, or a new
-- one where `base` ends in none.
pub data Joins (h : Host) (base leaf : CString) : CString → Type 0 where
  closed : ends_in_separator h base ≡ true → Joins h base leaf (base ++ leaf)
  opened : ends_in_separator h base ≡ false → Joins h base leaf (base ++ (path_sep h ∷ leaf))

print_bounded-ok :
    (size : ℕ) (text out : CString)
    → print_bounded size text ≡ (ok, some out)
    → (out ≡ text) × (length text < size)
unfolding print_bounded
print_bounded-ok size text h = ground (arith, take-eq_self (size - 1) text)

pub print_bounded-fits :
    (size : ℕ) (text : CString)
    → length text < size
    → length text ≤ int_max
    → print_bounded size text ≡ (ok, some text)
unfolding print_bounded
print_bounded-fits size text h k = ground (arith, take-eq_self (size - 1) text)

print_bounded_bound :
    (size : ℕ) (text out : CString)
    → 0 < size
    → (print_bounded size text).1 ≡ some out
    → length out < size
unfolding print_bounded
print_bounded_bound size text h e = ground (arith, length-take-le (size - 1) text)

pub path_join-Joins :
    (h : Host) (size : ℕ) (base leaf : CString) {out : CString}
    → path_join h size (some base) (some leaf) ≡ (ok, some out)
    → Joins h base leaf out × (length out < size)
unfolding path_join
path_join-Joins h size base leaf {out} e = elim (Bool-cases (ends_in_separator h base)) [
  | inl t ↦
      let (q, fit) = print_bounded-ok size (base ++ leaf) out (ground (arith, e)) in
      (rw q (closed t), omega (arith, ap length q))
  | inr f ↦
      let (q, fit) = print_bounded-ok size (base ++ (path_sep h ∷ leaf)) out (ground (arith, e)) in
      (rw q (opened f), omega (arith, ap length q))
]

-- A join succeeds and is exact whenever its path is shorter than the buffer and its length fits
-- an int.
pub path_join-fits :
    (h : Host) (size : ℕ) (base leaf : CString) {path : CString}
    → Joins h base leaf path
    → length path < size
    → length path ≤ int_max
    → path_join h size (some base) (some leaf) ≡ (ok, some path)
unfolding path_join
path_join-fits h size base leaf (closed e) fit small =
    rw e (ground (arith, print_bounded-fits size (base ++ leaf) fit small))
path_join-fits h size base leaf (opened e) fit small =
    rw e (ground (arith, print_bounded-fits size (base ++ (path_sep h ∷ leaf)) fit small))

-- Whatever a join writes, cut or whole, leaves room for the NUL.
pub path_join_bound :
    (h : Host) (size : ℕ) (base leaf : CString) {out : CString}
    → (path_join h size (some base) (some leaf)).1 ≡ some out
    → length out < size
unfolding path_join
path_join_bound h size base leaf {out} e = ground (
  arith,
  print_bounded_bound size (base ++ leaf) out,
  print_bounded_bound size (base ++ (path_sep h ∷ leaf)) out,
)
