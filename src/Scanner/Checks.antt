-- ===== src/Scanner/Checks.antt =====
-- Which checks the report of a scan holds: `usbs_scanner_scan` from its walk to its list of checks.
use usb_sentinel.Prelude.{
  ℕ, ◌≡◌, refl, sym, ◌∙◌, ap, inl, inr, Bool, not, List, [], ◌∷◌, ◌++◌, map, none, some, CString,
  if◌then◌else◌, Option-cases, Bool-cases,
}
use usb_sentinel.Core.Scan.{CheckResult, CheckList, check_list_push}
use usb_sentinel.Core.Scan.Checks.{push_all}
use usb_sentinel.Detectors.Detector.{DetectContext, Detector}
use usb_sentinel.Scanner.Report.{traversal_check, describe_location_policy}
use usb_sentinel.Scanner.Scan.{
  ran_check, run_whole_check_detectors, skipped_check, skip_whole_check_detectors, push_described,
  push_skipped, is_incomplete, skip_reason_of, collect_checks,
}
use usb_sentinel.Scanner.Walk.{Slot, TraverseState}
use usb_sentinel.Status.{Status}

-- The ids of the detectors that inspect the volume as a whole, and of those that are called for each file
unfoldable pub whole_ids : List Detector → List CString
whole_ids [] = []
whole_ids (d ∷ ds) = elim d.run [ none ↦ whole_ids ds | some run ↦ d.id ∷ whole_ids ds ]

unfoldable pub file_ids : List Detector → List CString
file_ids [] = []
file_ids (d ∷ ds) = elim d.on_file [ none ↦ file_ids ds | some f ↦ d.id ∷ file_ids ds ]

-- What the former find.
unfoldable pub ran_checks : DetectContext → List Detector → List CheckResult
ran_checks ctx [] = []
ran_checks ctx (d ∷ ds) = elim d.run [
  | none ↦ ran_checks ctx ds
  | some run ↦ ran_check ctx d.id run ∷ ran_checks ctx ds
]

push_all-append :
    (grants : ℕ → Bool) (a b : List CheckResult) (list : CheckList)
    → push_all grants (a ++ b) list ≡ push_all grants b (push_all grants a list)
unfolding push_all
push_all-append grants [] b list = refl
push_all-append grants (c ∷ a) b list = push_all-append grants a b (check_list_push grants list c).1

run_whole-push_all :
    (grants : ℕ → Bool) (ctx : DetectContext) (ds : List Detector) (list : CheckList)
    → run_whole_check_detectors grants ctx ds list ≡ push_all grants (ran_checks ctx ds) list
unfolding run_whole_check_detectors push_all ran_checks
run_whole-push_all grants ctx [] list = refl
run_whole-push_all grants ctx (d ∷ ds) list = elim (Option-cases d.run) [
  | inl e ↦ simp (e) (run_whole-push_all grants ctx ds list)
  | inr (run, e) ↦
      simp (e)
        (run_whole-push_all grants ctx ds (check_list_push grants list (ran_check ctx d.id run)).1)
]

skip_whole-push_all :
    (grants : ℕ → Bool) (reason : CString) (ds : List Detector) (list : CheckList)
    → skip_whole_check_detectors grants reason ds list
      ≡ push_all grants (map (skipped_check reason) (whole_ids ds)) list
unfolding skip_whole_check_detectors push_all whole_ids
skip_whole-push_all grants reason [] list = refl
skip_whole-push_all grants reason (d ∷ ds) list = elim (Option-cases d.run) [
  | inl e ↦ simp (e) (skip_whole-push_all grants reason ds list)
  | inr (run, e) ↦ simp (e) (
      skip_whole-push_all grants reason ds
        (check_list_push grants list (skipped_check reason d.id)).1)
]

push_described-push_all :
    (grants : ℕ → Bool) (slots : List Slot) (list : CheckList)
    → push_described grants slots list
      ≡ push_all grants (map (λ s. describe_location_policy s.result) slots) list
unfolding push_described push_all
push_described-push_all grants [] list = refl
push_described-push_all grants (s ∷ slots) list =
    push_described-push_all grants slots
      (check_list_push grants list (describe_location_policy s.result)).1

push_skipped-push_all :
    (grants : ℕ → Bool) (reason : CString) (slots : List Slot) (list : CheckList)
    → push_skipped grants reason slots list
      ≡ push_all grants (map (skipped_check reason) (map (λ s. s.id) slots)) list
unfolding push_skipped push_all
push_skipped-push_all grants reason [] list = refl
push_skipped-push_all grants reason (s ∷ slots) list =
    push_skipped-push_all grants reason slots
      (check_list_push grants list (skipped_check reason s.id)).1

-- The checks of a walk, before they are pushed
unfoldable pub expected_checks :
    DetectContext → List Detector → Status × TraverseState → List CheckResult
expected_checks ctx detectors (walk_status, st) =
    traversal_check walk_status st
    ∷ (if not (is_incomplete walk_status st)
        then ran_checks ctx detectors ++ map (λ s. describe_location_policy s.result) st.slots
        else map (skipped_check (skip_reason_of walk_status st)) (whole_ids detectors)
          ++ map (skipped_check (skip_reason_of walk_status st)) (map (λ s. s.id) st.slots))

pub collect-push_all :
    (grants : ℕ → Bool) (ctx : DetectContext) (detectors : List Detector)
    (walked : Status × TraverseState) (checks : CheckList)
    → collect_checks grants ctx detectors walked checks
      ≡ push_all grants (expected_checks ctx detectors walked) checks
unfolding collect_checks expected_checks push_all
collect-push_all grants ctx detectors (walk_status, st) checks =
    let pushed = (check_list_push grants checks (traversal_check walk_status st)).1 in
    let reason = skip_reason_of walk_status st in
    elim (Bool-cases (is_incomplete walk_status st)) [
      | inl e ↦ simp (e) (
          push_skipped-push_all grants reason st.slots
            (skip_whole_check_detectors grants reason detectors pushed)
          ∙ ap (push_all grants (map (skipped_check reason) (map (λ s. s.id) st.slots)))
              (skip_whole-push_all grants reason detectors pushed)
          ∙ sym (
              push_all-append grants (map (skipped_check reason) (whole_ids detectors))
                (map (skipped_check reason) (map (λ s. s.id) st.slots)) pushed))
      | inr e ↦ simp (e) (
          push_described-push_all grants st.slots
            (run_whole_check_detectors grants ctx detectors pushed)
          ∙ ap (push_all grants (map (λ s. describe_location_policy s.result) st.slots))
              (run_whole-push_all grants ctx detectors pushed)
          ∙ sym (
              push_all-append grants (ran_checks ctx detectors)
                (map (λ s. describe_location_policy s.result) st.slots) pushed))
    ]
