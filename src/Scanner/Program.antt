-- ===== src/Scanner/Program.antt =====
-- A scan with the detectors of the program.
use usb_sentinel.Prelude.{
  ◌≡◌, refl, ◌∙◌, ap, Bool, true, List, [], ◌∷◌, map, some, CString, codes, arith, inl, inr,
  Bool-cases,
}
use usb_sentinel.Core.Device.{Device}
use usb_sentinel.Core.Scan.{ScanResult, aborted, check_result_init, set_skipped, set_failed}
use usb_sentinel.Core.Scan.Checks.{Ample}
use usb_sentinel.Detectors.Registry.{Machine, detectors}
use usb_sentinel.Scanner.Checks.{whole_ids, file_ids}
use usb_sentinel.Scanner.Outcome.{scan_aborted}
use usb_sentinel.Scanner.Report.{traversal_check}
use usb_sentinel.Scanner.Scan.{Answers, scan, walk_of, is_incomplete, skipped_check}
use usb_sentinel.Scanner.Walk.{TraverseState}
use usb_sentinel.Status.{Status, ok, is_ok}

-- The checks of every report, in their order
abbrev pub check_ids : List CString
check_ids =
    codes "file_traversal"
    ∷ codes "autorun_inspection"
    ∷ codes "suspicious_filename"
    ∷ codes "lnk_inspection"
    ∷ codes "hash_match_example"
    ∷ []

traversal_check-id :
    (status : Status) (st : TraverseState) → (traversal_check status st).id ≡ codes "file_traversal"
unfolding traversal_check check_result_init set_failed
traversal_check-id status st = elim (Bool-cases (is_ok status)) [
  | inl e ↦ simp (e) refl
  | inr e ↦ simp (e) refl
]

-- With the detectors of the program and memory at hand, a scan that is cut off reports the status
-- ABORTED and the five checks of the program, each once and in their order.
pub scan-check_ids :
    (answers : Answers) (m : Machine) (device : Device) (cancel progress : Bool) (out : ScanResult)
    → Ample answers.realloc
    → answers.calloc ≡ true
    → is_incomplete
        (walk_of answers (detectors m) device cancel progress).0
        (walk_of answers (detectors m) device cancel progress).1
      ≡ true
    → (r : ScanResult) × (scan answers (detectors m) (some device) true cancel progress (some out)
        ≡ (ok, some r))
      × (r.status ≡ aborted)
      × (map (λ c. c.id) r.checks.items ≡ check_ids)
unfolding detectors whole_ids file_ids skipped_check set_skipped check_result_init
scan-check_ids answers m device cancel progress out ample granted cut =
    let walked = walk_of answers (detectors m) device cancel progress in
    let (r, answered, status, items) =
      scan_aborted answers (detectors m) device cancel progress out ample granted (omega arith)
        cut in
    (
      r,
      answered,
      status,
      ap (map (λ c. c.id)) items
          ∙ ap
              (λ i.
                i
                ∷ codes "autorun_inspection"
                ∷ codes "suspicious_filename"
                ∷ codes "lnk_inspection"
                ∷ codes "hash_match_example"
                ∷ [])
              (traversal_check-id walked.0 walked.1),
    )
