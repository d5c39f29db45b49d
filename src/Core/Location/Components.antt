-- ===== src/Core/Location/Components.antt =====
-- Splitting a path into components, and comparing a component with a literal.
use usb_sentinel.Prelude.{
  ℕ, zero, suc, Bool, true, false, ◌&&◌, ◌||◌, not, List, [], ◌∷◌, none, some, ltb, ◌==◌,
  if◌then◌else◌, length, get_elem?, CString, lower_ascii,
}

-- `LOCATION_MAX_COMPONENTS`
abbrev pub max_components : ℕ
max_components = 96

unfoldable pub is_sep : ℕ → Bool
is_sep c = c == b'\\' || c == b'/'

-- The first loop of `split_components`: over the separators in front.
unfoldable pub skip_seps : CString → CString
skip_seps [] = []
skip_seps (c ∷ p) = if is_sep c then skip_seps p else c ∷ p

-- The second loop: up to the next separator or the end, and what is left there.
unfoldable pub read_component : CString → CString × CString
read_component [] = ([], [])
read_component (c ∷ p) =
    let (word, rest) = read_component p in if is_sep c then ([], c ∷ p) else (c ∷ word, rest)

-- `split_components`, where the first argument is the room left in `out`.
unfoldable pub split_components : ℕ → CString → List CString
split_components zero path = []
split_components (suc room) path = elim (skip_seps path) [
  | [] ↦ []
  | c ∷ p ↦ let (word, rest) = read_component (c ∷ p) in word ∷ split_components room rest
]

-- The loop that `comp_is` and `comp_starts_with` share, over the bytes of the literal.
unfoldable pub lower_prefix : CString → CString → Bool
lower_prefix c [] = true
lower_prefix [] (l ∷ literal) = false
lower_prefix (x ∷ c) (l ∷ literal) = lower_ascii x == lower_ascii l && lower_prefix c literal

unfoldable pub comp_is : CString → CString → Bool
comp_is c literal = if not (length c == length literal) then false else lower_prefix c literal

unfoldable pub comp_starts_with : CString → CString → Bool
comp_starts_with c prefix = if ltb (length c) (length prefix) then false else lower_prefix c prefix

-- `i < count && comp_is(&comps[i], literal)`
unfoldable pub comp_at_is : List CString → ℕ → CString → Bool
comp_at_is comps i literal = elim (get_elem? comps i) [ none ↦ false | some c ↦ comp_is c literal ]

unfoldable pub seq_at : List CString → ℕ → List CString → Bool
seq_at comps at [] = true
seq_at comps at (literal ∷ seq) = comp_at_is comps at literal && seq_at comps (suc at) seq
