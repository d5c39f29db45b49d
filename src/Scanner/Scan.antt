-- ===== src/Scanner/Scan.antt =====
-- `usbs_scanner_scan`, and what it calls beside the walk. What the process, the clock and the allocator
-- answer are the fields of `Answers`. The look at the store's last scan writes to the log only.
use usb_sentinel.Prelude.{
  ℕ, ◌%◌, ◌^◌, Bool, false, not, ◌||◌, List, [], ◌∷◌, ◌++◌, Option, none, some, CString, codes,
  clip, if◌then◌else◌,
}
use usb_sentinel.Core.Device.{Device}
use usb_sentinel.Core.Json.Decimal.{print_hex4}
use usb_sentinel.Core.Location.Policy.{policy_applies}
use usb_sentinel.Core.Path.{Host}
use usb_sentinel.Core.Scan.{
  CheckResult, CheckList, check_list_push, check_result_init, set_skipped, Capabilities, ScanResult,
  completed, aborted, scan_result_init,
}
use usb_sentinel.Detectors.Detector.{DetectContext, Detector, DetectorFn}
use usb_sentinel.Platform.{Visit}
use usb_sentinel.Scanner.Report.{traversal_check, describe_location_policy}
use usb_sentinel.Scanner.Walk.{Slot, Setup, TraverseState, walk_dir, is_stopped}
use usb_sentinel.Status.{Status, ok, invalid_arg, no_memory, is_ok}

-- What the scan asks of the world.
pub record Answers : Type 0 where
  pub host : Host
  pub random : ℕ × ℕ × ℕ × ℕ
  pub started : Option CString
  pub finished : Option CString
  pub probe : Capabilities → Status × Capabilities
  pub calloc : Bool
  pub realloc : ℕ → Bool
  pub volume : Visit

-- `generate_scan_id`, from four answers of `rand`
unfoldable pub generate_scan_id : ℕ → ℕ × ℕ × ℕ × ℕ → CString
generate_scan_id size (r₁, r₂, r₃, r₄) = clip size (
    print_hex4 (r₁ % 2 ^ 16)
    ++ (print_hex4 (r₂ % 2 ^ 16) ++ (print_hex4 (r₃ % 2 ^ 16) ++ print_hex4 (r₄ % 2 ^ 16))))

-- `now_utc_iso8601`; `none` is a time that `gmtime` or `strftime` refuses.
unfoldable pub now_utc_iso8601 : ℕ → Option CString → CString
now_utc_iso8601 size none = clip size (codes "1970-01-01T00:00:00Z")
now_utc_iso8601 size (some text) = text

unfoldable pub ran_check : DetectContext → CString → DetectorFn → CheckResult
ran_check ctx id run =
    let fresh = check_result_init (some id) in
    elim (run (some ctx) (some fresh)).1 [ none ↦ fresh | some result ↦ result ]

-- The answers of the pushes are not read.
unfoldable pub run_whole_check_detectors :
    (ℕ → Bool) → DetectContext → List Detector → CheckList → CheckList
run_whole_check_detectors grants ctx [] checks = checks
run_whole_check_detectors grants ctx (d ∷ ds) checks =
    run_whole_check_detectors grants ctx ds (elim d.run [
      | none ↦ checks
      | some run ↦ (check_list_push grants checks (ran_check ctx d.id run)).1
    ])

unfoldable pub skipped_check : CString → CString → CheckResult
skipped_check reason id = set_skipped (check_result_init (some id)) (some reason)

unfoldable pub skip_whole_check_detectors :
    (ℕ → Bool) → CString → List Detector → CheckList → CheckList
skip_whole_check_detectors grants reason [] checks = checks
skip_whole_check_detectors grants reason (d ∷ ds) checks =
    skip_whole_check_detectors grants reason ds (elim d.run [
      | none ↦ checks
      | some run ↦ (check_list_push grants checks (skipped_check reason d.id)).1
    ])

unfoldable pub slots_of : List Detector → List Slot
slots_of [] = []
slots_of (d ∷ ds) = elim d.on_file [
  | none ↦ slots_of ds
  | some f ↦ record { id = d.id; on_file = f; result = check_result_init (some d.id) } ∷ slots_of ds
]

-- `prepare_on_file_slots`; the first argument is the answer of `calloc`.
unfoldable pub prepare_on_file_slots : Bool → List Detector → Status × List Slot
prepare_on_file_slots granted [] = (ok, [])
prepare_on_file_slots granted (d ∷ ds) =
    if not granted then (no_memory, []) else (ok, slots_of (d ∷ ds))

-- The two loops over the slots at the end.
unfoldable pub push_described : (ℕ → Bool) → List Slot → CheckList → CheckList
push_described grants [] checks = checks
push_described grants (s ∷ slots) checks =
    push_described grants slots
      (check_list_push grants checks (describe_location_policy s.result)).1

unfoldable pub push_skipped : (ℕ → Bool) → CString → List Slot → CheckList → CheckList
push_skipped grants reason [] checks = checks
push_skipped grants reason (s ∷ slots) checks =
    push_skipped grants reason slots (check_list_push grants checks (skipped_check reason s.id)).1

-- The state that is all zero but for the slots.
unfoldable pub fresh_state : List Slot → TraverseState
fresh_state slots = record {
  file_count = 0;
  byte_count = 0;
  paths_skipped = 0;
  paths_excluded = 0;
  cancelled = false;
  device_removed = false;
  slots = slots;
  progress = [];
}

abbrev pub is_incomplete : Status → TraverseState → Bool
is_incomplete walk_status st = not (is_ok walk_status) || is_stopped st

unfoldable pub skip_reason_of : Status → TraverseState → CString
skip_reason_of walk_status st =
    if not (is_ok walk_status)
    then codes "volume could not be read"
    else if st.cancelled
    then codes "scan cancelled before this check ran"
    else codes "device disconnected before this check ran"

-- The checks of a walk that is over.
unfoldable pub collect_checks :
    (ℕ → Bool) → DetectContext → List Detector → Status × TraverseState → CheckList → CheckList
collect_checks grants ctx detectors (walk_status, st) checks =
    let pushed = (check_list_push grants checks (traversal_check walk_status st)).1 in
    let reason = skip_reason_of walk_status st in
    if not (is_incomplete walk_status st)
    then push_described grants st.slots (run_whole_check_detectors grants ctx detectors pushed)
    else push_skipped grants reason st.slots
        (skip_whole_check_detectors grants reason detectors pushed)

unfoldable pub detect_context : Answers → Device → DetectContext
detect_context answers device = record {
  device = some device;
  volume_path = some device.volume_path;
  capabilities = some (answers.probe scan_result_init.capabilities).1;
}

unfoldable pub setup_of : Answers → Device → Bool → Bool → Setup
setup_of answers device has_cancel_check has_progress = record {
  host = answers.host;
  has_cancel_check = has_cancel_check;
  has_progress = has_progress;
  root_path = device.volume_path;
  location_policy = policy_applies (some device);
  detect_ctx = detect_context answers device;
}

-- The walk of a scan
unfoldable pub walk_of : Answers → List Detector → Device → Bool → Bool → Status × TraverseState
walk_of answers detectors device has_cancel_check has_progress =
    walk_dir (setup_of answers device has_cancel_check has_progress) device.volume_path 0
      answers.volume (fresh_state (prepare_on_file_slots answers.calloc detectors).1)

-- `usbs_scanner_scan`. The Booleans say whether a store, a cancel check and a progress function are given;
-- `none` is a NULL pointer.
unfoldable pub scan :
    Answers
    → List Detector
    → Option Device
    → Bool
    → Bool
    → Bool
    → Option ScanResult
    → Status × Option ScanResult
scan answers detectors none store cancel progress out = (invalid_arg, out)
scan answers detectors (some device) store cancel progress none = (invalid_arg, none)
scan answers detectors (some device) store cancel progress (some out) =
    let walked = walk_of answers detectors device cancel progress in
    if not store then (invalid_arg, some out) else (
      ok,
      some (record {
        scan_id = generate_scan_id 40 answers.random;
        started_at = now_utc_iso8601 32 answers.started;
        finished_at = now_utc_iso8601 32 answers.finished;
        status = if is_incomplete walked.0 walked.1 then aborted else completed;
        device = device;
        capabilities = (answers.probe scan_result_init.capabilities).1;
        checks =
            collect_checks answers.realloc (detect_context answers device) detectors walked
              scan_result_init.checks;
        paths_skipped = walked.1.paths_skipped;
        paths_excluded = walked.1.paths_excluded;
      }),
    )
