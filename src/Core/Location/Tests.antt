-- ===== src/Core/Location/Tests.antt =====
-- Runs of the location rules, after tests/test_location.c, and the theorems at concrete inputs.
use usb_sentinel.Prelude.{
  ◌⊎◌, inl, ◌↔◌, true, [], ◌∷◌, arith, ◌≡◌, refl, some, codes, str_eq, lower_ascii, strip_prefix,
}
use usb_sentinel.Core.Location.Exposed.{classify-landing}
use usb_sentinel.Core.Location.Exclusion.{Fixture, matches_self_test_fixtures_iff}
use usb_sentinel.Core.Location.Split.{classify-map-to_slash}
use usb_sentinel.Core.Location.Relative.{relative-path_join}
use usb_sentinel.Core.Path.{windows, is_separator, ends_in_separator, print_bounded, path_join}
use usb_sentinel.Core.Location.Components.{
  is_sep, skip_seps, read_component, split_components, lower_prefix, comp_is, comp_starts_with,
  comp_at_is, seq_at,
}
use usb_sentinel.Core.Location.Scratch.{
  all_hex, all_name_bytes, is_self_test_scratch_name, previous_is, fixtures_from,
  matches_self_test_fixtures,
}
use usb_sentinel.Core.Location.Rules.{
  user_exposed, recent_items, self_test_fixtures, is_one_drive, matches_user_exposed,
  dependency_from, matches_dependency_tree, recent_before_last, matches_recent_items,
  matches_os_shortcuts, classify_components, classify, relative,
}

rules : Unit {0}
unfolding is_sep skip_seps read_component split_components lower_prefix comp_is comp_starts_with
    comp_at_is seq_at all_hex all_name_bytes is_self_test_scratch_name previous_is fixtures_from
    matches_self_test_fixtures is_one_drive matches_user_exposed dependency_from
    matches_dependency_tree recent_before_last matches_recent_items matches_os_shortcuts
    classify_components classify strip_prefix relative str_eq lower_ascii
rules = tt

classify_downloads : classify (some (codes "Users\\bob\\Downloads\\a.pdf.exe")) ≡ user_exposed
unfolding rules
classify_downloads = refl

classify_startup :
    classify (some (codes "ProgramData/Microsoft\\Windows\\Start Menu\\Programs\\Startup\\x.lnk"))
    ≡ user_exposed
unfolding rules
classify_startup = refl

classify_fixtures :
    classify (some (codes "dev\\build\\x\\tests\\test_env_scratch_0A1b2c3D\\a.exe"))
    ≡ self_test_fixtures
unfolding rules
classify_fixtures = refl

classify_recent :
    classify (some (codes "Users\\bob\\AppData\\Roaming\\Microsoft\\Windows\\Recent\\a.pdf.lnk"))
    ≡ recent_items
unfolding rules
classify_recent = refl

classify-landing_example :
    (classify (some (codes "users\\eve\\DESKTOP\\x.exe")) ≡ user_exposed)
    ⊎ Fixture
        (codes "users" ∷ codes "eve" ∷ codes "DESKTOP" ∷ split_components 93 (codes "\\x.exe"))
unfolding rules
classify-landing_example =
    classify-landing (codes "users") (codes "eve") (codes "DESKTOP") (codes "\\x.exe")
      (λ e. cc, ground arith) (λ e. cc, ground arith) (λ e. cc, ground arith) refl refl (inl refl)

matches_self_test_fixtures_iff_example :
    (matches_self_test_fixtures (codes "build" ∷ codes "tests" ∷ codes "x" ∷ []) ≡ true)
    ↔ Fixture (codes "build" ∷ codes "tests" ∷ codes "x" ∷ [])
matches_self_test_fixtures_iff_example =
    matches_self_test_fixtures_iff (codes "build" ∷ codes "tests" ∷ codes "x" ∷ [])

classify-map-to_slash_example :
    classify (some (codes "Users/bob/Desktop/a")) ≡ classify (some (codes "Users\\bob\\Desktop\\a"))
classify-map-to_slash_example = classify-map-to_slash (codes "Users\\bob\\Desktop\\a")

relative-path_join_example : relative (some (codes "E:\\")) (some (codes "E:\\a")) ≡ codes "a"
unfolding is_separator ends_in_separator print_bounded path_join
relative-path_join_example = relative-path_join windows 64 (codes "E:\\") (codes "a") refl refl
