-- ===== src/Core/Location/Scratch.antt =====
-- `is_self_test_scratch_name` and `matches_self_test_fixtures`: the one exclusion from a scan.
use usb_sentinel.Prelude.{
  ◌+◌, ◌-◌, Bool, true, false, ◌&&◌, ◌||◌, not, List, [], ◌∷◌, Option, none, some, ltb, ◌==◌,
  within, if◌then◌else◌, length, take, drop, CString, codes, str_eq, lower_ascii,
}
use usb_sentinel.Core.Location.Components.{comp_is, comp_starts_with}

abbrev pub marker : CString
marker = codes "_scratch_"

-- The loop over the last eight bytes.
unfoldable pub all_hex : CString → Bool
all_hex [] = true
all_hex (c ∷ cs) =
    let ch = lower_ascii c in
    if not (within b'0' b'9' ch || within b'a' b'f' ch) then false else all_hex cs

-- The loop over the bytes between `test_` and the marker.
unfoldable pub all_name_bytes : CString → Bool
all_name_bytes [] = true
all_name_bytes (c ∷ cs) =
    let ch = lower_ascii c in
    if not (within b'a' b'z' ch || within b'0' b'9' ch || ch == b'_')
    then false
    else all_name_bytes cs

unfoldable pub is_self_test_scratch_name : CString → Bool
is_self_test_scratch_name c =
    let len = length c in
    let marker_len = length marker in
    if not (comp_starts_with c (codes "test_")) || ltb len (5 + 1 + marker_len + 8)
    then false
    else if not (all_hex (drop (len - 8) c))
    then false
    else if not (str_eq (take marker_len (drop (len - 8 - marker_len) c)) marker)
    then false
    else if not (all_name_bytes (take (len - 8 - marker_len - 5) (drop 5 c)))
    then false
    else ltb 5 (len - 8 - marker_len)

-- `i >= 1 && comp_is(&comps[i - 1], literal)`, on the component before.
unfoldable pub previous_is : Option CString → CString → Bool
previous_is none literal = false
previous_is (some c) literal = comp_is c literal

-- The loop of `matches_self_test_fixtures`, from the component behind `previous`.
unfoldable pub fixtures_from : Bool → Option CString → List CString → Bool
fixtures_from seen_build previous [] = false
fixtures_from seen_build previous (c ∷ comps) =
    let seen_build' = seen_build || comp_is c (codes "build") in
    if seen_build' && (previous_is previous (codes "tests") && is_self_test_scratch_name c)
    then true
    else fixtures_from seen_build' (some c) comps

unfoldable pub matches_self_test_fixtures : List CString → Bool
matches_self_test_fixtures comps = fixtures_from false none comps
