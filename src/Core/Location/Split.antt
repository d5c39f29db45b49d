-- ===== src/Core/Location/Split.antt =====
-- What `split_components` and `comp_is` compute, for every path.
use usb_sentinel.Prelude.{
  ℕ, zero, suc, ◌≤◌, ◌≡◌, refl, ap, sym, ◌∙◌, ◌≢◌, ◌↔◌, inl, inr, true, false, [], ◌∷◌, ◌++◌, map,
  some, arith, length, All, CString, lower_ascii, ◌==◌, if◌then◌else◌, Bool-cases, List-cases,
}
use usb_sentinel.Core.Location.Components.{
  max_components, is_sep, skip_seps, read_component, split_components, lower_prefix, comp_is,
}
use usb_sentinel.Core.Location.Rules.{classify}

-- A component: not empty, and free of separators.
abbrev pub IsClean : CString → Type 0
IsClean c = (c ≢ []) × All (λ b. is_sep b ≡ false) c

-- What follows a component: nothing, or a separator.
abbrev pub Stops : CString → Type 0
Stops [] = Unit {0}
Stops (c ∷ p) = is_sep c ≡ true

read_component-free : (p : CString) → All (λ b. is_sep b ≡ false) (read_component p).0
unfolding read_component
read_component-free [] = tt
read_component-free (c ∷ p) = elim (Bool-cases (is_sep c)) [
  | inl e ↦ rw e tt
  | inr e ↦ rw e (e, read_component-free p)
]

skip_seps_head : (p : CString) (c : ℕ) (q : CString) → skip_seps p ≡ c ∷ q → is_sep c ≡ false
unfolding skip_seps
skip_seps_head [] c q e = cc
skip_seps_head (x ∷ p) c q e = ground (arith, skip_seps_head p c q)

read_component-IsClean :
    (c : ℕ) (p : CString) → is_sep c ≡ false → IsClean (read_component (c ∷ p)).0
read_component-IsClean c p e = (unfold read_component in rw e (cc), read_component-free (c ∷ p))

-- One round of the outer loop.
pub split_components-stop :
    (room : ℕ) (p : CString) → skip_seps p ≡ [] → split_components (suc room) p ≡ []
unfolding split_components
split_components-stop room p e = rw (e, split_components)

pub split_components-step :
    (room : ℕ) (p : CString) (c : ℕ) (q : CString)
    → skip_seps p ≡ c ∷ q
    → let (word, rest) = read_component (c ∷ q) in
      split_components (suc room) p ≡ word ∷ split_components room rest
unfolding split_components
split_components-step room p c q e = rw (e, split_components)

-- Every component of a path is a name that is not empty and holds no separator.
pub split_components-IsClean : (room : ℕ) (p : CString) → All IsClean (split_components room p)
split_components-IsClean zero p = unfold split_components in tt
split_components-IsClean (suc room) p = elim (List-cases (skip_seps p)) [
  | inl e ↦ rw (split_components-stop room p e) tt
  | inr (c, q, e) ↦ rw (split_components-step room p c q e) (
    read_component-IsClean c q (skip_seps_head p c q e),
    split_components-IsClean room (read_component (c ∷ q)).1,
  )
]

-- Never more components than the array holds.
pub length-split_components-le : (room : ℕ) (p : CString) → length (split_components room p) ≤ room
length-split_components-le zero p = unfold split_components in omega arith
length-split_components-le (suc room) p = elim (List-cases (skip_seps p)) [
  | inl e ↦ rw (split_components-stop room p e) (omega arith)
  | inr (c, q, e) ↦
      rw (split_components-step room p c q e)
        (omega (arith, length-split_components-le room (read_component (c ∷ q)).1))
]

read_component-append :
    (w rest : CString)
    → All (λ b. is_sep b ≡ false) w
    → Stops rest
    → read_component (w ++ rest) ≡ (w, rest)
unfolding read_component
read_component-append [] [] h s = refl
read_component-append [] (x ∷ rest) h s = rw s
read_component-append (c ∷ w) rest h s = rw (h.0, read_component-append w rest h.1 s)

-- A clean name in front of a separator, or of the end, is the next component.
pub split_components-cons :
    (room : ℕ) (w rest : CString)
    → IsClean w
    → Stops rest
    → split_components (suc room) (w ++ rest) ≡ w ∷ split_components room rest
split_components-cons room [] rest (ne, free) s = absurd (ne refl)
split_components-cons room (c ∷ w) rest (ne, free) s =
    split_components-step room (c ∷ (w ++ rest)) c (w ++ rest) (unfold skip_seps in rw free.0)
    ∙ rw (read_component-append (c ∷ w) rest free s)

-- A separator in front changes nothing.
pub split_components-sep :
    (room : ℕ) (c : ℕ) (p : CString)
    → is_sep c ≡ true
    → split_components room (c ∷ p) ≡ split_components room p
unfolding split_components skip_seps
split_components-sep zero c p e = refl
split_components-sep (suc room) c p e = rw (e, split_components, skip_seps)

-- Backslashes turned into slashes.
abbrev pub to_slash : ℕ → ℕ
to_slash c = if c == b'\\' then b'/' else c

is_sep-to_slash : (c : ℕ) → is_sep (to_slash c) ≡ is_sep c
unfolding is_sep
is_sep-to_slash c = ground arith

to_slash-eq_self : (c : ℕ) → is_sep c ≡ false → to_slash c ≡ c
unfolding is_sep
to_slash-eq_self c e = ground arith

skip_seps-map : (p : CString) → skip_seps (map to_slash p) ≡ map to_slash (skip_seps p)
unfolding skip_seps
skip_seps-map [] = refl
skip_seps-map (c ∷ p) = ground (arith, is_sep-to_slash c, skip_seps-map p)

read_component-map :
    (p : CString)
    → read_component (map to_slash p) ≡ ((read_component p).0, map to_slash (read_component p).1)
unfolding read_component
read_component-map [] = refl
read_component-map (c ∷ p) =
    ground (arith, is_sep-to_slash c, to_slash-eq_self c, read_component-map p)

split_components-map :
    (room : ℕ) (p : CString) → split_components room (map to_slash p) ≡ split_components room p
split_components-map zero p = unfold split_components in refl
split_components-map (suc room) p = elim (List-cases (skip_seps p)) [
  | inl e ↦
      split_components-stop room (map to_slash p) (skip_seps-map p ∙ ap (map to_slash) e)
      ∙ sym (split_components-stop room p e)
  | inr (c, q, e) ↦
      split_components-step room (map to_slash p) (to_slash c) (map to_slash q)
        (skip_seps-map p ∙ ap (map to_slash) e)
      ∙ rw (read_component-map (c ∷ q)) (
          rw (split_components-map room (read_component (c ∷ q)).1)
            (sym (split_components-step room p c q e)))
]

-- A path and the same path with every backslash turned into a slash are classified alike.
pub classify-map-to_slash : (p : CString) → classify (some (map to_slash p)) ≡ classify (some p)
unfolding classify
classify-map-to_slash p = rw (split_components-map max_components p)

lower_prefix_iff :
    (c literal : CString)
    → length c ≡ length literal
    → (lower_prefix c literal ≡ true) ↔ (map lower_ascii c ≡ map lower_ascii literal)
unfolding lower_prefix
lower_prefix_iff [] [] h = ground arith
lower_prefix_iff [] (l ∷ literal) h = absurd (omega arith)
lower_prefix_iff (x ∷ c) [] h = absurd (omega arith)
lower_prefix_iff (x ∷ c) (l ∷ literal) h = ground (arith, lower_prefix_iff c literal (omega arith))

length-map_lower : (c : CString) → length (map lower_ascii c) ≡ length c
length-map_lower [] = refl
length-map_lower (x ∷ c) = ap suc (length-map_lower c)

-- A component is a literal exactly if the two are equal byte for byte with ASCII letters folded
-- to lower case.
pub comp_is_iff :
    (c literal : CString)
    → (comp_is c literal ≡ true) ↔ (map lower_ascii c ≡ map lower_ascii literal)
unfolding comp_is
comp_is_iff c literal = (
  (λ h. (lower_prefix_iff c literal (ground arith)).0 (ground arith)),
  (λ e.
      let same : length c ≡ length literal =
        omega (arith, length-map_lower c, length-map_lower literal, ap length e) in
      ground (arith, (lower_prefix_iff c literal same).1 e)),
)
