-- ===== src/Prelude/Text.antt =====
-- C strings: the bytes before the terminating NUL, as a list of numbers.
use Prim.Native.Char.{code}
use Prim.Native.Nat.{ℕ, ◌+◌, ◌-◌}
use Prim.Native.String.{String}
use mathlib.Core.Bool.{Bool, true, false, ◌&&◌}
use mathlib.Core.List.{List, [], ◌∷◌, ◌++◌}
use mathlib.Core.Logic.{◌↔◌}
use mathlib.Core.Path.{◌≡◌, refl}
use mathlib.Core.Option.{Option, none, some}
use native.Mathlib.Omega.{arith}
use usb_sentinel.Prelude.Tests.{◌==◌, within, if◌then◌else◌}
use usb_sentinel.Prelude.Lists.{take}

abbrev pub CString : Type 0
CString = List ℕ

-- The bytes of a literal; every literal of the sources is ASCII but for comments.
abbrev pub codes : String → CString
codes String.[] = []
codes (String.◌∷◌ c s) = code c ∷ codes s

-- `strcmp(a, b) == 0`
unfoldable pub str_eq : CString → CString → Bool
str_eq [] [] = true
str_eq (x ∷ a) (y ∷ b) = x == y && str_eq a b
str_eq _ _ = false

pub str_eq_iff : (a b : CString) → (str_eq a b ≡ true) ↔ (a ≡ b)
unfolding str_eq
str_eq_iff (x ∷ a) (y ∷ b) = ground (arith, str_eq_iff a b)
str_eq_iff _ _ = ground arith

-- The C idiom `(c >= 'A' && c <= 'Z') ? c - 'A' + 'a' : c`, of `lower_ascii` and of the folds
-- written in place.
unfoldable pub lower_ascii : ℕ → ℕ
lower_ascii c = if within b'A' b'Z' c then c - b'A' + b'a' else c

pub lower_ascii_idem : (c : ℕ) → lower_ascii (lower_ascii c) ≡ lower_ascii c
unfolding lower_ascii
lower_ascii_idem c = ground arith

-- What `snprintf(buf, cap, "%s", text)` leaves in `buf`: as much as fits beside the NUL.
abbrev pub clip : ℕ → CString → CString
clip cap text = take (cap - 1) text

-- `strncmp(full, prefix, strlen(prefix)) == 0`, or the same by `memcmp`, with what stands behind the prefix.
unfoldable pub strip_prefix : CString → CString → Option CString
strip_prefix [] full = some full
strip_prefix (x ∷ prefix) [] = none
strip_prefix (x ∷ prefix) (y ∷ full) = if x == y then strip_prefix prefix full else none

pub strip_prefix-append : (v rest : CString) → strip_prefix v (v ++ rest) ≡ some rest
unfolding strip_prefix
strip_prefix-append [] rest = refl
strip_prefix-append (x ∷ v) rest = ground (arith, strip_prefix-append v rest)

pub strip_prefix-some : (v full rest : CString) → strip_prefix v full ≡ some rest → full ≡ v ++ rest
unfolding strip_prefix
strip_prefix-some [] full rest e = cc
strip_prefix-some (x ∷ v) [] rest e = cc
strip_prefix-some (x ∷ v) (y ∷ full) rest e = ground (arith, strip_prefix-some v full rest)
