-- ===== src/Scanner/Walk.antt =====
-- The traversal: `walk_dir`, with what it calls for one entry. The detectors' callbacks are parameters.
use usb_sentinel.Prelude.{
  ℕ, suc, ◌+◌, ◌%◌, ◌^◌, Bool, true, false, not, ◌&&◌, ◌||◌, List, [], ◌∷◌, ◌++◌, map, Option, none,
  some, CString, ltb, ◌==◌, if◌then◌else◌,
}
use usb_sentinel.Core.Location.Rules.{LocationKind, self_test_fixtures, classify, relative}
use usb_sentinel.Core.Path.{Host, path_join}
use usb_sentinel.Core.Scan.{CheckResult}
use usb_sentinel.Detectors.Detector.{DetectContext, FileFn}
use usb_sentinel.Platform.{DirEntry, Visit, Listing, refuses, opens, ends, cancels, fails, lists}
use usb_sentinel.Status.{Status, ok, is_ok}

-- `USBS_SCAN_MAX_DEPTH`
abbrev pub scan_max_depth : ℕ
scan_max_depth = 64

-- `on_file_slot_t`: of its detector, the id and the callback.
pub record Slot : Type 0 where
  pub id : CString
  pub on_file : FileFn
  pub result : CheckResult

-- `usbs_scan_progress_t`
pub record Progress : Type 0 where
  pub files_scanned : ℕ
  pub bytes_scanned : ℕ
  pub paths_skipped : ℕ

-- The fields of `traverse_state_t` that the walk only reads, and the host.
pub record Setup : Type 0 where
  pub host : Host
  pub has_cancel_check : Bool
  pub has_progress : Bool
  pub root_path : CString
  pub location_policy : Bool
  pub detect_ctx : DetectContext

-- The fields of `traverse_state_t` that the walk changes. `progress` is what `on_progress` was called with.
pub record TraverseState : Type 0 where
  pub file_count : ℕ
  pub byte_count : ℕ
  pub paths_skipped : ℕ
  pub paths_excluded : ℕ
  pub cancelled : Bool
  pub device_removed : Bool
  pub slots : List Slot
  pub progress : List Progress

-- `++` and `+=` on a `usbs_u64`
abbrev pub add_u64 : ℕ → ℕ → ℕ
add_u64 a b = (a + b) % 2 ^ 64

-- `classify_path_failure`; `reachable` is the answer of `root_still_reachable`.
unfoldable pub classify_path_failure : Bool → TraverseState → TraverseState
classify_path_failure reachable st =
    if reachable
    then record st { paths_skipped = add_u64 st.paths_skipped 1 }
    else record st { device_removed = true }

-- The call of one slot's callback. Its status is not read.
unfoldable pub dispatch_slot : DetectContext → CString → DirEntry → Slot → Slot
dispatch_slot ctx path entry slot = record slot {
  result =
      elim (slot.on_file (some (record { detect_ctx = some ctx; result = slot.result })) (some path)
        (some entry)).1 [ none ↦ slot.result | some result ↦ result ];
}

unfoldable pub dispatch : DetectContext → CString → DirEntry → List Slot → List Slot
dispatch ctx path entry slots = map (dispatch_slot ctx path entry) slots

-- A file: it is counted, the progress is reported, and every slot's callback is called.
unfoldable pub count_file : Setup → CString → DirEntry → TraverseState → TraverseState
count_file w path entry st =
    let files = add_u64 st.file_count 1 in
    let bytes = add_u64 st.byte_count entry.size_bytes in
    record st {
      file_count = files;
      byte_count = bytes;
      progress =
          if w.has_progress
          then st.progress
            ++ (record {
              files_scanned = files;
              bytes_scanned = bytes;
              paths_skipped = st.paths_skipped;
            }
                ∷ [])
          else st.progress;
      slots = dispatch w.detect_ctx path entry st.slots;
    }

abbrev pub is_self_test_fixtures : LocationKind → Bool
is_self_test_fixtures self_test_fixtures = true
is_self_test_fixtures _ = false

unfoldable pub is_excluded : Setup → CString → Bool
is_excluded w child =
    w.location_policy
    && is_self_test_fixtures (classify (some (relative (some w.root_path) (some child))))

-- `usbs_path_join` into `child_path`
unfoldable pub child_path : Setup → CString → CString → Option CString
child_path w dir name =
    let (status, out) = path_join w.host 2048 (some dir) (some name) in
    if is_ok status then out else none

-- What the loop does with an entry: it goes on, or it descends into a directory.
pub data Disposition : Type 0 where
  pass : TraverseState → Disposition
  descend : CString → Disposition

unfoldable pub dispose : Setup → CString → DirEntry → TraverseState → Disposition
dispose w dir entry st =
    if entry.is_reparse_point then pass st else elim (child_path w dir entry.name) [
      | none ↦ pass st
      | some child ↦
          if not entry.is_directory
          then pass (count_file w child entry st)
          else if is_excluded w child
          then pass (record st { paths_excluded = add_u64 st.paths_excluded 1 })
          else descend child
    ]

abbrev pub is_stopped : TraverseState → Bool
is_stopped st = st.cancelled || st.device_removed

-- What follows the call for a subdirectory; `rest` is the rest of the loop.
unfoldable pub after_child :
    Status × TraverseState → (TraverseState → Status × TraverseState) → Status × TraverseState
after_child (status, st) rest =
    if not (is_ok status) then (status, st) else if is_stopped st then (ok, st) else rest st

unfoldable mutual
  pub walk_dir : Setup → CString → ℕ → Visit → TraverseState → Status × TraverseState
  walk_dir w dir depth (refuses status reachable) st =
      if is_stopped st
      then (ok, st)
      else if ltb scan_max_depth depth
      then (ok, st)
      else if depth == 0
      then (status, st)
      else (ok, classify_path_failure reachable st)
  walk_dir w dir depth (opens listing) st =
      let walked = list_dir w dir depth listing st in
      if is_stopped st then (ok, st) else if ltb scan_max_depth depth then (ok, st) else walked

  -- The loop over the entries of one directory
  pub list_dir : Setup → CString → ℕ → Listing → TraverseState → Status × TraverseState
  list_dir w dir depth ends st = (ok, st)
  list_dir w dir depth (cancels rest) st =
      let continued = list_dir w dir depth rest st in
      if w.has_cancel_check then (ok, record st { cancelled = true }) else continued
  list_dir w dir depth (fails status reachable) st = (ok, classify_path_failure reachable st)
  list_dir w dir depth (lists entry visit rest) st = elim (dispose w dir entry st) [
    | pass st' ↦ list_dir w dir depth rest st'
    | descend child ↦
        after_child (walk_dir w child (suc depth) visit st) (λ st'. list_dir w dir depth rest st')
  ]
