-- ===== src/Scanner/Outcome.antt =====
-- What a scan reports, from its arguments to its result.
use usb_sentinel.Prelude.{
  suc, ◌+◌, ◌*◌, ◌^◌, ◌≤◌, ◌<◌, ◌≡◌, refl, ◌∙◌, ap, inl, inr, Bool, true, false, List, [], ◌∷◌,
  ◌++◌, map, some, CString, if◌then◌else◌, arith, length, length-append, Option-cases, Bool-cases,
}
use usb_sentinel.Core.Device.{Device}
use usb_sentinel.Core.Scan.{ScanResult, completed, aborted, scan_result_init}
use usb_sentinel.Core.Scan.Checks.{Ample, push_all-items}
use usb_sentinel.Core.Vector
use usb_sentinel.Detectors.Detector.{DetectContext, Detector}
use usb_sentinel.Platform.{DirEntry}
use usb_sentinel.Scanner.Checks.{whole_ids, file_ids, ran_checks, expected_checks, collect-push_all}
use usb_sentinel.Scanner.Files.{Counted, deliver, walk_dir-Counted}
use usb_sentinel.Scanner.Report.{traversal_check, describe_location_policy}
use usb_sentinel.Scanner.Scan.{
  Answers, skipped_check, slots_of, prepare_on_file_slots, is_incomplete, skip_reason_of,
  collect_checks, detect_context, setup_of, walk_of, scan, fresh_state,
}
use usb_sentinel.Scanner.Walk.{Slot, Setup, TraverseState, dispatch_slot}
use usb_sentinel.Status.{Status, ok}

prepared : (ds : List Detector) → (prepare_on_file_slots true ds).1 ≡ slots_of ds
unfolding prepare_on_file_slots slots_of
prepared [] = refl
prepared (d ∷ ds) = refl

map_id-slots_of : (ds : List Detector) → map (λ s. s.id) (slots_of ds) ≡ file_ids ds
unfolding slots_of file_ids
map_id-slots_of [] = refl
map_id-slots_of (d ∷ ds) = elim (Option-cases d.on_file) [
  | inl e ↦ simp (e) (map_id-slots_of ds)
  | inr (f, e) ↦ simp (e) (ap (◌∷◌ d.id) (map_id-slots_of ds))
]

deliver-id :
    (w : Setup) (files : List (CString × DirEntry)) (s : Slot) → (deliver w files s).id ≡ s.id
unfolding deliver dispatch_slot
deliver-id w [] s = refl
deliver-id w ((path, entry) ∷ files) s =
    deliver-id w files (dispatch_slot w.detect_ctx path entry s)

map_id-deliver :
    (w : Setup) (files : List (CString × DirEntry)) (slots : List Slot)
    → map (λ s. s.id) (map (deliver w files) slots) ≡ map (λ s. s.id) slots
map_id-deliver w files [] = refl
map_id-deliver w files (s ∷ slots) =
    ap (λ i. i ∷ map (λ s'. s'.id) (map (deliver w files) slots)) (deliver-id w files s)
    ∙ ap (◌∷◌ s.id) (map_id-deliver w files slots)

length-map : {A B : Type 0} (f : A → B) (xs : List A) → length (map f xs) ≡ length xs
length-map f [] = refl
length-map f (x ∷ xs) = ap suc (length-map f xs)

length-whole_ids : (ds : List Detector) → length (whole_ids ds) ≤ length ds
unfolding whole_ids
length-whole_ids [] = omega arith
length-whole_ids (d ∷ ds) = ground (arith, length-whole_ids ds)

length-file_ids : (ds : List Detector) → length (file_ids ds) ≤ length ds
unfolding file_ids
length-file_ids [] = omega arith
length-file_ids (d ∷ ds) = ground (arith, length-file_ids ds)

length-ran_checks :
    (ctx : DetectContext) (ds : List Detector) → length (ran_checks ctx ds) ≤ length ds
unfolding ran_checks
length-ran_checks ctx [] = omega arith
length-ran_checks ctx (d ∷ ds) = ground (arith, length-ran_checks ctx ds)

map-map :
    {A B C : Type 0} (f : A → B) (g : B → C) (xs : List A)
    → map g (map f xs) ≡ map (λ x. g (f x)) xs
map-map f g [] = refl
map-map f g (x ∷ xs) = ap (◌∷◌ (g (f x))) (map-map f g xs)

length-expected_checks :
    (ctx : DetectContext) (ds : List Detector) (status : Status) (st : TraverseState)
    → length st.slots ≤ length ds
    → length (expected_checks ctx ds (status, st)) ≤ 1 + 2 * length ds
unfolding expected_checks
length-expected_checks ctx ds status st few =
    let reason = skip_reason_of status st in
    let described = map (λ s. describe_location_policy s.result) st.slots in
    let ids = map (λ s. s.id) st.slots in
    elim (Bool-cases (is_incomplete status st)) [
      | inl e ↦ simp (e, length-append, length-map) (omega (arith, length-whole_ids ds))
      | inr e ↦ simp (e, length-append, length-map) (omega (arith, length-ran_checks ctx ds))
    ]

module _ (answers : Answers) (detectors : List Detector) (device : Device)
    (cancel progress : Bool) where
  abbrev setup : Setup
  setup = setup_of answers device cancel progress

  abbrev walked : Status × TraverseState
  walked = walk_of answers detectors device cancel progress

  -- What the slots are in the end: each has seen the same files.
  walk_of-slots :
      answers.calloc ≡ true
      → (files : List (CString × DirEntry)) × Counted setup
          (fresh_state (slots_of detectors))
          walked.1
          files
        × (walked.1.slots ≡ map (deliver setup files) (slots_of detectors))
  unfolding walk_of fresh_state setup_of
  walk_of-slots granted =
      let account = walk_dir-Counted setup answers.volume (fresh_state (slots_of detectors)) refl in
      simp (granted, prepared detectors) (account.files, account.counts, account.counts.slots)

  length-slots : answers.calloc ≡ true → length walked.1.slots ≤ length detectors
  length-slots granted =
      let (files, c, e) = walk_of-slots granted in
      omega (
        arith,
        ap length e,
        length-map (deliver setup files) (slots_of detectors),
        ap length (map_id-slots_of detectors),
        length-map (λ s. s.id) (slots_of detectors),
        length-file_ids detectors,
      )

  checks-items :
      Ample answers.realloc
      → answers.calloc ≡ true
      → length detectors < 2 ^ 19
      → (collect_checks answers.realloc
          (detect_context answers device)
          detectors
          walked
          scan_result_init.checks).items
        ≡ expected_checks (detect_context answers device) detectors walked
  unfolding scan_result_init Vector.empty
  checks-items ample granted few =
      ap (λ l. l.items)
        (collect-push_all answers.realloc (detect_context answers device) detectors walked
          scan_result_init.checks)
      ∙ push_all-items answers.realloc
          (expected_checks (detect_context answers device) detectors walked) scan_result_init.checks
          ample (record { room = omega arith; near = omega arith })
          (omega (
            arith,
            length-expected_checks (detect_context answers device) detectors walked.0 walked.1
                (length-slots granted),
          ))

  -- Where memory is at hand, a scan whose walk reads the root and is neither cancelled nor cut
  -- off by a removal answers OK, has the status COMPLETED, and its checks are the traversal, then
  -- the results of the detectors that inspect the volume as a whole, then for each callback its
  -- result after one call for each file of one and the same sequence of counted files, with the
  -- note on the location policy.
  pub scan_completed :
      (out : ScanResult)
      → Ample answers.realloc
      → answers.calloc ≡ true
      → length detectors < 2 ^ 19
      → is_incomplete walked.0 walked.1 ≡ false
      → (r : ScanResult) × (scan answers detectors (some device) true cancel progress (some out)
          ≡ (ok, some r))
        × (r.status ≡ completed)
        × ((files : List (CString × DirEntry)) × Counted setup
              (fresh_state (slots_of detectors))
              walked.1
              files
            × (r.checks.items
                ≡ traversal_check walked.0 walked.1
                  ∷ (ran_checks (detect_context answers device) detectors
                      ++ map
                          (λ s. describe_location_policy (deliver setup files s).result)
                          (slots_of detectors))))
  unfolding scan
  scan_completed out ample granted few whole =
      let (files, c, e) = walk_of-slots granted in
      (
        _,
        refl,
        ap (λ b. if b then aborted else completed) whole,
        (
          files,
          c,
          checks-items ample granted few
              ∙ (unfold expected_checks in simp (whole, e, map-map) refl),
        ),
      )

  -- Where memory is at hand, a scan whose walk fails at the root, is cancelled or is cut off by a
  -- removal answers OK, has the status ABORTED, and its checks are the traversal and then every
  -- detector as skipped with the reason and without findings, those that inspect the volume
  -- first.
  pub scan_aborted :
      (out : ScanResult)
      → Ample answers.realloc
      → answers.calloc ≡ true
      → length detectors < 2 ^ 19
      → is_incomplete walked.0 walked.1 ≡ true
      → (r : ScanResult) × (scan answers detectors (some device) true cancel progress (some out)
          ≡ (ok, some r))
        × (r.status ≡ aborted)
        × (r.checks.items
            ≡ traversal_check walked.0 walked.1
              ∷ (map (skipped_check (skip_reason_of walked.0 walked.1)) (whole_ids detectors)
                  ++ map (skipped_check (skip_reason_of walked.0 walked.1)) (file_ids detectors)))
  unfolding scan
  scan_aborted out ample granted few cut =
      let (files, c, e) = walk_of-slots granted in
      (
        _,
        refl,
        ap (λ b. if b then aborted else completed) cut,
        checks-items ample granted few
            ∙ (unfold expected_checks in
                simp
                  (
                    cut,
                    e,
                    map_id-deliver setup files (slots_of detectors),
                    map_id-slots_of detectors,
                  )
                  refl),
      )
