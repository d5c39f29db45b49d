-- ===== src/Scanner/Tests.antt =====
-- A scan of a small volume, and the theorems at it.
use usb_sentinel.Prelude.{
  ℕ, ◌≡◌, refl, Bool, true, false, List, [], ◌∷◌, ◌++◌, map, none, some, CString, codes, arith,
}
use usb_sentinel.Core.Device.{Device, device_init, BusType}
use usb_sentinel.Core.Location.Policy.{policy_applies}
use usb_sentinel.Core.Path.{posix, path_join, is_separator, ends_in_separator, print_bounded}
use usb_sentinel.Core.Scan.{ScanResult, scan_result_init, completed, aborted}
use usb_sentinel.Detectors.SignatureList.FileRead.{refused}
use usb_sentinel.Detectors.Detector.{Detector, FileFn, DetectorFn}
use usb_sentinel.Core.Env.{xdg}
use usb_sentinel.Detectors.HashMatch.{reset}
use usb_sentinel.Detectors.Registry.{Machine, detectors}
use usb_sentinel.Scanner.Program.{check_ids, scan-check_ids}
use usb_sentinel.Platform.{
  denied, DirEntry, Visit, Listing, refuses, opens, ends, cancels, fails, lists,
}
use usb_sentinel.Scanner.Checks.{ran_checks, whole_ids, file_ids}
use usb_sentinel.Scanner.Events.{Played, events_of, walk_dir-play}
use usb_sentinel.Scanner.Shown.{files_in}
use usb_sentinel.Scanner.Files.{deliver, Counted, Accounts, walk_dir-Counted}
use usb_sentinel.Scanner.Messages.{traversal_message-whole}
use usb_sentinel.Scanner.Outcome.{scan_completed, scan_aborted}
use usb_sentinel.Core.Json.Decimal.{print_uint}
use usb_sentinel.Scanner.Report.{
  traversal_message, count_text, outcome, skipped_text, traversal_check, describe_location_policy,
}
use usb_sentinel.Scanner.Scan.{
  skipped_check, skip_reason_of, Answers, setup_of, fresh_state, walk_of, slots_of,
  prepare_on_file_slots, detect_context, scan,
}
use usb_sentinel.Scanner.Stops.{Allowed, walk_dir-Allowed}
use usb_sentinel.Scanner.Walk.{
  Setup, TraverseState, walk_dir, dispose, count_file, dispatch, dispatch_slot, child_path,
  is_excluded, after_child, classify_path_failure,
}
use usb_sentinel.Status.{Status, ok, io, access_denied, not_found}

walking : Unit {0}
unfolding walk_dir dispose count_file dispatch dispatch_slot child_path is_excluded after_child
    classify_path_failure setup_of fresh_state walk_of slots_of prepare_on_file_slots detect_context
    path_join ends_in_separator is_separator print_bounded policy_applies
walking = tt

abbrev file : CString → ℕ → DirEntry
file name size = record {
  name = name;
  is_directory = false;
  is_reparse_point = false;
  is_hidden = false;
  size_bytes = size;
}

abbrev folder : CString → Bool → DirEntry
folder name link = record {
  name = name;
  is_directory = true;
  is_reparse_point = link;
  is_hidden = false;
  size_bytes = 0;
}

-- A file, a link, a folder that is refused and a folder with a file
abbrev stick : Listing → Visit
stick rest = opens (
    lists (file (codes "a") 5) (refuses io true) (
      lists (folder (codes "l") true) (refuses io true) (
        lists (folder (codes "s") false) (refuses access_denied true) (
          lists (folder (codes "d") false)
            (opens (lists (file (codes "b") 7) (refuses io true) ends)) rest))))

abbrev idle : FileFn
idle none path entry = (ok, none)
idle (some ctx) path entry = (ok, some ctx.result)

abbrev quiet : DetectorFn
quiet ctx result = (ok, result)

abbrev two : List Detector
two =
    record { id = codes "whole"; run = some quiet; on_file = none }
    ∷ record { id = codes "files"; run = none; on_file = some idle }
    ∷ []

abbrev volume : Device
volume = record device_init { volume_path = codes "/m/"; bus_type = BusType.usb }

abbrev answering : Visit → Answers
answering visit = record {
  host = posix;
  random = (1, 2, 3, 4);
  started = none;
  finished = none;
  probe = λ c. (ok, c);
  calloc = true;
  realloc = λ n. true;
  volume = visit;
}

abbrev set_up : Setup
set_up = setup_of (answering (stick ends)) volume true true

abbrev empty_state : TraverseState
empty_state = fresh_state []

counts :
    let st = (walk_of (answering (stick ends)) two volume true true).1 in
    (st.file_count ≡ 2) × (st.byte_count ≡ 12) × (st.paths_skipped ≡ 1)
unfolding walking
counts = (refl, refl, refl)

walk_dir-play_example : Played set_up empty_state (stick (cancels ends))
unfolding fresh_state
walk_dir-play_example = walk_dir-play set_up empty_state (stick (cancels ends)) refl

walk_dir-Counted_example :
    Accounts set_up empty_state
      (walk_dir set_up set_up.root_path 0 (stick ends) empty_state).1
      (files_in (events_of set_up set_up.root_path 0 (stick ends)))
unfolding fresh_state
walk_dir-Counted_example = walk_dir-Counted set_up (stick ends) empty_state refl

walk_dir-Allowed_example :
    Allowed set_up empty_state
      (walk_dir set_up set_up.root_path 0 (stick (fails io false)) empty_state).1
unfolding fresh_state
walk_dir-Allowed_example = walk_dir-Allowed set_up (stick (fails io false)) empty_state refl

traversal_message-whole_example :
    traversal_message (record empty_state { file_count = 2; byte_count = 12; paths_skipped = 1 })
    ≡ codes "completed: 2 file(s), 12 byte(s), 1 location(s) skipped (access denied or unavailable)"
unfolding fresh_state count_text outcome print_uint skipped_text
traversal_message-whole_example =
    traversal_message-whole
      (record empty_state { file_count = 2; byte_count = 12; paths_skipped = 1 })

abbrev whole_volume : Answers
whole_volume = answering (stick ends)

abbrev whole_walk : Status × TraverseState
whole_walk = walk_of whole_volume two volume true true

scan_completed_example :
    (r : ScanResult) × (scan whole_volume two (some volume) true true true (some scan_result_init)
      ≡ (ok, some r))
    × (r.status ≡ completed)
    × ((files : List (CString × DirEntry)) × Counted
          (setup_of whole_volume volume true true)
          (fresh_state (slots_of two))
          whole_walk.1
          files
        × (r.checks.items
            ≡ traversal_check whole_walk.0 whole_walk.1
              ∷ (ran_checks (detect_context whole_volume volume) two
                  ++ map
                      (λ s.
                        describe_location_policy
                          (deliver (setup_of whole_volume volume true true) files s).result)
                      (slots_of two))))
unfolding walking
scan_completed_example =
    scan_completed whole_volume two volume true true scan_result_init (λ n h. refl) refl
      (omega arith) refl

abbrev cancelled_volume : Answers
cancelled_volume = answering (stick (cancels ends))

abbrev cancelled_walk : Status × TraverseState
cancelled_walk = walk_of cancelled_volume two volume true true

scan_aborted_example :
    (r : ScanResult) × (scan cancelled_volume two
        (some volume)
        true
        true
        true
        (some scan_result_init)
      ≡ (ok, some r))
    × (r.status ≡ aborted)
    × (r.checks.items
        ≡ traversal_check cancelled_walk.0 cancelled_walk.1
          ∷ (map (skipped_check (skip_reason_of cancelled_walk.0 cancelled_walk.1)) (whole_ids two)
              ++ map
                  (skipped_check (skip_reason_of cancelled_walk.0 cancelled_walk.1))
                  (file_ids two)))
unfolding walking
scan_aborted_example =
    scan_aborted cancelled_volume two volume true true scan_result_init (λ n h. refl) refl
      (omega arith) refl

abbrev machine : Machine
machine = record {
  host = posix;
  realloc = λ n. true;
  memory = true;
  root = stick ends;
  autorun_file = denied not_found;
  files = λ path. denied io;
  world = record {
    system = xdg;
    environment = λ name. none;
    signature_file = λ path. refused not_found;
    realloc = λ n. true;
    strtoull = λ text. (0, 0);
    sort = λ entries. entries;
  };
  hash_state = reset;
}

scan-check_ids_example :
    (r : ScanResult) × (scan
        (answering (refuses io false))
        (detectors machine)
        (some volume)
        true
        true
        true
        (some scan_result_init)
      ≡ (ok, some r))
    × (r.status ≡ aborted)
    × (map (λ c. c.id) r.checks.items ≡ check_ids)
unfolding walking
scan-check_ids_example =
    scan-check_ids (answering (refuses io false)) machine volume true true scan_result_init
      (λ n h. refl) refl refl
