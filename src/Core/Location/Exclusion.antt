-- ===== src/Core/Location/Exclusion.antt =====
-- Which paths the location policy excludes from a scan: exactly those below a directory
-- `tests` with a `build` somewhere in front of it and a scratch name behind.
use usb_sentinel.Prelude.{
  ◌≡◌, refl, ap, ◌∙◌, ◌↔◌, inl, inr, Bool, true, false, ◌&&◌, ◌||◌, List, [], ◌∷◌, ◌++◌, Option,
  none, some, append_assoc, arith, CString, codes, Bool-cases,
}
use mathlib.Core.Path.{subst}
use usb_sentinel.Core.Location.Components.{comp_is}
use usb_sentinel.Core.Location.Scratch.{
  is_self_test_scratch_name, previous_is, fixtures_from, matches_self_test_fixtures,
}

-- Some component is `build`.
pub record HasBuild (comps : List CString) : Type 0 where
  pub above : List CString
  pub build : CString
  pub below : List CString
  pub splits : comps ≡ above ++ (build ∷ below)
  pub is_build : comp_is build (codes "build") ≡ true

-- Where a scratch directory of the test suite stands among the components.
pub record Fixture (comps : List CString) : Type 0 where
  pub above : List CString
  pub tests : CString
  pub scratch : CString
  pub below : List CString
  pub splits : comps ≡ above ++ (tests ∷ scratch ∷ below)
  pub built : HasBuild (above ++ (tests ∷ scratch ∷ []))
  pub is_tests : comp_is tests (codes "tests") ≡ true
  pub is_scratch : is_self_test_scratch_name scratch ≡ true

-- The last component read, where there is one.
abbrev last_of : List CString → Option CString
last_of [] = none
last_of (c ∷ []) = some c
last_of (c ∷ d ∷ cs) = last_of (d ∷ cs)

last_of-concat : (cs : List CString) (c : CString) → last_of (cs ++ (c ∷ [])) ≡ some c
last_of-concat [] c = refl
last_of-concat (x ∷ []) c = refl
last_of-concat (x ∷ y ∷ cs) c = last_of-concat (y ∷ cs) c

last_of-some :
    (cs : List CString) (c : CString)
    → last_of cs ≡ some c
    → (before : List CString) × (cs ≡ before ++ (c ∷ []))
last_of-some [] c e = cc
last_of-some (x ∷ []) c e = ([], cc)
last_of-some (x ∷ y ∷ cs) c e =
    let (before, q) = last_of-some (y ∷ cs) c e in (x ∷ before, ap (◌∷◌ x) q)

HasBuild-here :
    (cs : List CString) (c : CString) → comp_is c (codes "build") ≡ true → HasBuild (cs ++ (c ∷ []))
HasBuild-here cs c e = record { above = cs; build = c; below = []; splits = refl; is_build = e }

HasBuild-append : {cs : List CString} (more : List CString) → HasBuild cs → HasBuild (cs ++ more)
HasBuild-append more b = record {
  above = b.above;
  build = b.build;
  below = b.below ++ more;
  splits = ap (λ l. l ++ more) b.splits ∙ append_assoc b.above (b.build ∷ b.below) more;
  is_build = b.is_build;
}

HasBuild-grow :
    (read : List CString) (seen : Bool) (c : CString)
    → (seen ≡ true → HasBuild read)
    → (seen || comp_is c (codes "build")) ≡ true
    → HasBuild (read ++ (c ∷ []))
HasBuild-grow read true c has e = HasBuild-append (c ∷ []) (has refl)
HasBuild-grow read false c has e = HasBuild-here read c e

previous_is-some :
    (previous : Option CString) (literal : CString)
    → previous_is previous literal ≡ true
    → (c : CString) × (previous ≡ some c) × (comp_is c literal ≡ true)
unfolding previous_is
previous_is-some none literal e = cc
previous_is-some (some c) literal e = (c, refl, e)

Fixture-here :
    (read : List CString) (c : CString) (comps : List CString)
    → HasBuild (read ++ (c ∷ []))
    → previous_is (last_of read) (codes "tests") ≡ true
    → is_self_test_scratch_name c ≡ true
    → Fixture (read ++ (c ∷ comps))
Fixture-here read c comps built tests scratch =
    let (t, q, is_tests) = previous_is-some (last_of read) (codes "tests") tests in
    let (before, r) = last_of-some read t q in
    record {
      above = before;
      tests = t;
      scratch = c;
      below = comps;
      splits = ap (λ l. l ++ (c ∷ comps)) r ∙ append_assoc before (t ∷ []) (c ∷ comps);
      built =
          subst HasBuild (ap (λ l. l ++ (c ∷ [])) r ∙ append_assoc before (t ∷ []) (c ∷ [])) built;
      is_tests = is_tests;
      is_scratch = scratch;
    }

-- One step of the loop, with the components that were read in front of it.
fixtures_from-Fixture :
    (read : List CString) (seen : Bool) (comps : List CString)
    → (seen ≡ true → HasBuild read)
    → fixtures_from seen (last_of read) comps ≡ true
    → Fixture (read ++ comps)
fixtures_from-Fixture read seen [] has e = absurd (unfold fixtures_from in cc)
fixtures_from-Fixture read seen (c ∷ comps) has e =
    let now = seen || comp_is c (codes "build") in
    let grown = HasBuild-grow read seen c has in
    elim (Bool-cases
      (now && (previous_is (last_of read) (codes "tests") && is_self_test_scratch_name c))) [
        | inl hit ↦ Fixture-here read c comps (grown (ground arith)) (ground arith) (ground arith)
        | inr miss ↦ rw (← append_assoc read (c ∷ []) comps) (
            fixtures_from-Fixture (read ++ (c ∷ [])) now comps grown
              (rw (last_of-concat read c) (unfold fixtures_from in ground arith)))
      ]

abbrev any_build : List CString → Bool
any_build [] = false
any_build (c ∷ comps) = comp_is c (codes "build") || any_build comps

any_build-append :
    (above : List CString) (build : CString) (below : List CString)
    → comp_is build (codes "build") ≡ true
    → any_build (above ++ (build ∷ below)) ≡ true
any_build-append [] build below e = rw e
any_build-append (c ∷ above) build below e = ground (arith, any_build-append above build below e)

fixtures_from_complete :
    (above : List CString) (tests scratch : CString) (below : List CString) (seen : Bool)
    (previous : Option CString)
    → comp_is tests (codes "tests") ≡ true
    → is_self_test_scratch_name scratch ≡ true
    → (seen || any_build (above ++ (tests ∷ scratch ∷ []))) ≡ true
    → fixtures_from seen previous (above ++ (tests ∷ scratch ∷ below)) ≡ true
unfolding fixtures_from
fixtures_from_complete [] tests scratch below seen previous t s b =
    unfold previous_is in ground arith
fixtures_from_complete (c ∷ above) tests scratch below seen previous t s b = ground (
  arith,
  fixtures_from_complete above tests scratch below (seen || comp_is c (codes "build")) (some c),
)

-- The exclusion holds of exactly the component lists with a directory tests, a scratch name
-- directly behind it, and a component build at or in front of the scratch name.
pub matches_self_test_fixtures_iff :
    (comps : List CString) → (matches_self_test_fixtures comps ≡ true) ↔ Fixture comps
unfolding matches_self_test_fixtures
matches_self_test_fixtures_iff comps = (
  fixtures_from-Fixture [] false comps (λ e. absurd (cc)),
  (λ f. rw f.splits (
      fixtures_from_complete f.above f.tests f.scratch f.below false none f.is_tests f.is_scratch (
        rw f.built.splits
          (any_build-append f.built.above f.built.build f.built.below f.built.is_build)))),
)
