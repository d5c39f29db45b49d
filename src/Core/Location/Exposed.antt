-- ===== src/Core/Location/Exposed.antt =====
-- The places a user meets a file first keep full severity whatever else the path matches.
use usb_sentinel.Prelude.{
  ◌≡◌, refl, ◌∙◌, ◌⊎◌, inl, inr, true, ◌||◌, List, ◌∷◌, ◌++◌, map, some, arith, CString, codes,
  lower_ascii, Bool-cases,
}
use usb_sentinel.Core.Location.Components.{is_sep, split_components, comp_is, comp_at_is}
use usb_sentinel.Core.Location.Exclusion.{Fixture, matches_self_test_fixtures_iff}
use usb_sentinel.Core.Location.Rules.{
  user_exposed, matches_user_exposed, classify_components, classify,
}
use usb_sentinel.Core.Location.Scratch.{matches_self_test_fixtures}
use usb_sentinel.Core.Location.Split.{
  IsClean, Stops, split_components-cons, split_components-sep, comp_is_iff,
}

-- `Desktop` or `Downloads`, in any case.
abbrev pub IsLanding : CString → Type 0
IsLanding folder =
    (map lower_ascii folder ≡ map lower_ascii (codes "Desktop"))
    ⊎ (map lower_ascii folder ≡ map lower_ascii (codes "Downloads"))

matches_user_exposed-landing :
    (users u folder : CString) (comps : List CString)
    → comp_is users (codes "Users") ≡ true
    → (comp_is folder (codes "Desktop") || comp_is folder (codes "Downloads")) ≡ true
    → matches_user_exposed (users ∷ u ∷ folder ∷ comps) ≡ true
matches_user_exposed-landing users u folder comps e f =
    unfold matches_user_exposed comp_at_is in ground arith

IsLanding-comp_is :
    (folder : CString)
    → IsLanding folder
    → (comp_is folder (codes "Desktop") || comp_is folder (codes "Downloads")) ≡ true
IsLanding-comp_is folder (inl e) = rw ((comp_is_iff folder (codes "Desktop")).1 e)
IsLanding-comp_is folder (inr e) = elim (Bool-cases (comp_is folder (codes "Desktop"))) [
  | inl t ↦ rw t
  | inr f ↦ rw (f, (comp_is_iff folder (codes "Downloads")).1 e)
]

-- Whatever lies in the folder Desktop or Downloads of a user, in any case of letters, is
-- classified as user-exposed, unless its components hold a self-test fixture.
pub classify-landing :
    (users u folder rest : CString)
    → IsClean users
    → IsClean u
    → IsClean folder
    → Stops rest
    → map lower_ascii users ≡ map lower_ascii (codes "Users")
    → IsLanding folder
    → (classify (some (users ++ (b'\\' ∷ (u ++ (b'\\' ∷ (folder ++ rest)))))) ≡ user_exposed)
      ⊎ Fixture (users ∷ u ∷ folder ∷ split_components 93 rest)
classify-landing users u folder rest cu c cf stops e landing =
    elim (Bool-cases (matches_self_test_fixtures comps)) [
      | inl t ↦ inr ((matches_self_test_fixtures_iff comps).0 t)
      | inr f ↦ inl (
          unfold classify in
          rw split (
            unfold classify_components in
            rw (
              f,
              matches_user_exposed-landing users u folder _
                  ((comp_is_iff users (codes "Users")).1 e) (IsLanding-comp_is folder landing),
            )))
    ]
  where
    comps : List CString
    comps = users ∷ u ∷ folder ∷ split_components 93 rest

    back : is_sep b'\\' ≡ true
    back = unfold is_sep in refl

    split : split_components 96 (users ++ (b'\\' ∷ (u ++ (b'\\' ∷ (folder ++ rest))))) ≡ comps
    split =
        split_components-cons 95 users (b'\\' ∷ (u ++ (b'\\' ∷ (folder ++ rest)))) cu back
        ∙ rw (split_components-sep 95 b'\\' (u ++ (b'\\' ∷ (folder ++ rest))) back) (
            rw (split_components-cons 94 u (b'\\' ∷ (folder ++ rest)) c back) (
              rw (split_components-sep 94 b'\\' (folder ++ rest) back)
                (rw (split_components-cons 93 folder rest cf stops))))
