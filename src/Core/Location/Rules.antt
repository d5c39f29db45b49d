-- ===== src/Core/Location/Rules.antt =====
-- The location rules, `usbs_location_classify` and `usbs_location_relative`.
use usb_sentinel.Prelude.{
  Bool, true, false, ◌&&◌, ◌||◌, not, List, [], ◌∷◌, Option, none, some, ltb, leb, if◌then◌else◌,
  length, get_elem?, drop, CString, codes, strip_prefix,
}
use usb_sentinel.Core.Location.Components.{
  max_components, split_components, comp_is, comp_starts_with, comp_at_is, seq_at,
}
use usb_sentinel.Core.Location.Scratch.{previous_is, matches_self_test_fixtures}

pub data LocationKind : Type 0 where
  ordinary user_exposed os_shortcuts os_component_store : LocationKind
  recent_items dependency_tree self_test_fixtures : LocationKind

abbrev pub startup_all : List CString
startup_all =
    codes "ProgramData"
    ∷ codes "Microsoft"
    ∷ codes "Windows"
    ∷ codes "Start Menu"
    ∷ codes "Programs"
    ∷ codes "Startup"
    ∷ []

abbrev pub startup_user : List CString
startup_user =
    codes "AppData"
    ∷ codes "Roaming"
    ∷ codes "Microsoft"
    ∷ codes "Windows"
    ∷ codes "Start Menu"
    ∷ codes "Programs"
    ∷ codes "Startup"
    ∷ []

abbrev pub temp_user : List CString
temp_user = codes "AppData" ∷ codes "Local" ∷ codes "Temp" ∷ []

-- `comp_starts_with(&comps[2], "OneDrive")`
unfoldable pub is_one_drive : List CString → Bool
is_one_drive comps = elim (get_elem? comps 2) [
  | none ↦ false
  | some c ↦ comp_starts_with c (codes "OneDrive")
]

unfoldable pub matches_user_exposed : List CString → Bool
matches_user_exposed comps =
    if seq_at comps 0 startup_all
    then true
    else if ltb (length comps) 3 || not (comp_at_is comps 0 (codes "Users"))
    then false
    else if comp_at_is comps 2 (codes "Desktop") || comp_at_is comps 2 (codes "Downloads")
    then true
    else if leb 4 (length comps)
        && (is_one_drive comps
            && (comp_at_is comps 3 (codes "Desktop") || comp_at_is comps 3 (codes "Downloads")))
    then true
    else seq_at comps 2 startup_user || seq_at comps 2 temp_user

-- The loop of `matches_dependency_tree`, behind the components `before` and `previous`.
unfoldable pub dependency_from : Option CString → Option CString → List CString → Bool
dependency_from before previous [] = false
dependency_from before previous (c ∷ comps) =
    if comp_is c (codes "node_modules")
      || (comp_is c (codes "site-packages")
          || (comp_is c (codes ".gradle") || comp_is c (codes ".m2")))
    then true
    else if comp_is c (codes "intermediates")
        && (previous_is previous (codes "build") || previous_is before (codes "build"))
    then true
    else dependency_from previous (some c) comps

unfoldable pub matches_dependency_tree : List CString → Bool
matches_dependency_tree comps = dependency_from none none comps

-- The loop `i + 1 < count` of `matches_recent_items`: the last component is not looked at.
unfoldable pub recent_before_last : List CString → Bool
recent_before_last [] = false
recent_before_last (c ∷ []) = false
recent_before_last (c ∷ d ∷ comps) =
    if comp_is c (codes "Recent") then true else recent_before_last (d ∷ comps)

unfoldable pub matches_recent_items : List CString → Bool
matches_recent_items comps =
    if ltb (length comps) 5
      || (not (comp_at_is comps 0 (codes "Users"))
          || not (seq_at comps 2 (codes "AppData" ∷ codes "Roaming" ∷ [])))
    then false
    else recent_before_last (drop 4 comps)

abbrev pub all_users_menu : List CString
all_users_menu = codes "ProgramData" ∷ codes "Microsoft" ∷ codes "Windows" ∷ codes "Start Menu" ∷ []

abbrev pub per_user_menu : List CString
per_user_menu =
    codes "AppData"
    ∷ codes "Roaming"
    ∷ codes "Microsoft"
    ∷ codes "Windows"
    ∷ codes "Start Menu"
    ∷ []

unfoldable pub matches_os_shortcuts : List CString → Bool
matches_os_shortcuts comps =
    seq_at comps 0 all_users_menu
    || (leb 2 (length comps)
        && (comp_at_is comps 0 (codes "Users") && seq_at comps 2 per_user_menu))

-- The cascade of `usbs_location_classify` on the components.
unfoldable pub classify_components : List CString → LocationKind
classify_components comps =
    if matches_self_test_fixtures comps
    then self_test_fixtures
    else if matches_user_exposed comps
    then user_exposed
    else if matches_dependency_tree comps
    then dependency_tree
    else if matches_recent_items comps
    then recent_items
    else if seq_at comps 0 (codes "Windows" ∷ codes "WinSxS" ∷ [])
    then os_component_store
    else if matches_os_shortcuts comps
    then os_shortcuts
    else ordinary

-- `usbs_location_classify`; `none` is a NULL path.
unfoldable pub classify : Option CString → LocationKind
classify none = ordinary
classify (some path) = classify_components (split_components max_components path)

-- `usbs_location_kind_string`
unfoldable pub kind_string : LocationKind → CString
kind_string ordinary = codes "ordinary location"
kind_string user_exposed = codes "user-facing location"
kind_string os_shortcuts = codes "Start Menu"
kind_string os_component_store = codes "Windows component store"
kind_string recent_items = codes "Windows Recent Items"
kind_string dependency_tree = codes "package dependency tree"
kind_string self_test_fixtures = codes "USB Sentinel test fixtures"

-- `usbs_location_relative`; `none` is a NULL pointer.
unfoldable pub relative : Option CString → Option CString → CString
relative volume none = []
relative none (some full) = full
relative (some volume) (some full) =
    if ltb 0 (length volume)
    then elim (strip_prefix volume full) [ none ↦ full | some rest ↦ rest ]
    else full
