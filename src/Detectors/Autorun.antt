-- ===== src/Detectors/Autorun.antt =====
-- src/detectors/autorun.c: the inspection of autorun.inf at the volume root.
pub mod Folding
pub mod Naming
pub mod Findings
mod Reading
pub mod Outcome
mod Tests
use usb_sentinel.Prelude.{
  ℕ, ◌-◌, Bool, true, false, not, ◌&&◌, ◌||◌, List, [], ◌∷◌, ◌++◌, Option, none, some, CString,
  codes, clip, lower_ascii, take, ltb, leb, ◌==◌, if◌then◌else◌, length,
}
use usb_sentinel.Core.Json.Decimal.{print_uint}
use usb_sentinel.Core.Path.{Host, path_join}
use usb_sentinel.Core.Scan.{
  Severity, info, warning, Finding, CheckResult, finding_list_push, check_result_init, set_failed,
}
use usb_sentinel.Detectors.Detector.{DetectContext}
use usb_sentinel.Platform.{
  DirEntry, Visit, Listing, refuses, opens, ends, cancels, fails, lists, Reads, finished, breaks,
  chunk, FileVisit, denied, readable,
}
use usb_sentinel.Status.{Status, ok, invalid_arg, not_found, is_ok, status_string}

-- The inner loop of `contains_ci`: does `haystack` begin with `needle`?
unfoldable pub begins_ci : CString → CString → Bool
begins_ci haystack [] = true
begins_ci [] (b ∷ needle) = false
begins_ci (a ∷ haystack) (b ∷ needle) = lower_ascii a == lower_ascii b && begins_ci haystack needle

-- The outer loop, from one position on.
unfoldable pub contains_from : CString → CString → Bool
contains_from [] needle = begins_ci [] needle
contains_from (a ∷ haystack) needle =
    begins_ci (a ∷ haystack) needle || contains_from haystack needle

unfoldable pub contains_ci : CString → CString → Bool
contains_ci haystack needle =
    if length needle == 0 || ltb (length haystack) (length needle)
    then false
    else contains_from haystack needle

unfoldable pub equals_ci : CString → CString → Bool
equals_ci [] [] = true
equals_ci (x ∷ a) (y ∷ b) = lower_ascii x == lower_ascii y && equals_ci a b
equals_ci _ _ = false

abbrev pub autorun_filename : CString
autorun_filename = codes "autorun.inf"

-- The loop of `find_autorun_name`, over a listing in which no cancel check is asked.
unfoldable pub find_in : Listing → ℕ → Option CString
find_in ends size = none
find_in (cancels rest) size = find_in rest size
find_in (fails status reachable) size = none
find_in (lists entry visit rest) size =
    let others = find_in rest size in
    if entry.is_directory
    then others
    else if equals_ci entry.name autorun_filename
    then (if ltb 0 (length entry.name) && ltb (length entry.name) size
        then some entry.name
        else none)
    else others

-- `find_autorun_name`: the name, or `none` where it answers false.
unfoldable pub find_autorun_name : Visit → ℕ → Option CString
find_autorun_name (refuses status reachable) size = none
find_autorun_name (opens listing) size = find_in listing size

-- `AUTORUN_MAX_READ`
abbrev pub max_read : ℕ
max_read = 8192

-- The loop that fills `buf`.
unfoldable pub read_all : Reads → List ℕ → Status × List ℕ
read_all finished buf = (ok, buf)
read_all (breaks status) buf = if leb max_read (length buf) then (ok, buf) else (status, buf)
read_all (chunk bytes rest) buf =
    let got = take (max_read - length buf) bytes in
    let more = read_all rest (buf ++ got) in
    if leb max_read (length buf) then (ok, buf) else if length got == 0 then (ok, buf) else more

-- The C string at the front of `buf`.
unfoldable pub c_string : List ℕ → CString
c_string [] = []
c_string (c ∷ cs) = if c == 0 then [] else c ∷ c_string cs

unfoldable pub finding_of : CString → List ℕ → Finding
finding_of name buf =
    let has_open = contains_ci (c_string buf) (codes "open=") in
    let has_shellexec = contains_ci (c_string buf) (codes "shellexecute=") in
    if has_open || has_shellexec
    then record {
      severity = warning;
      message = clip 256 (
          codes "autorun.inf present and specifies a launch command ("
          ++ ((if has_open then codes "open=" else codes "shellexecute=") ++ codes ")"));
      path = clip 1024 name;
    }
    else record {
      severity = info;
      message = clip 256 (
          codes "autorun.inf present ("
          ++ (print_uint (length buf) ++ codes " bytes), no launch command found"));
      path = clip 1024 name;
    }

abbrev pub is_not_found : Status → Bool
is_not_found not_found = true
is_not_found _ = false

-- From the answer to the open on.
unfoldable pub inspect : (ℕ → Bool) → CString → FileVisit → CheckResult → CheckResult
inspect grants name (denied status) result =
    if is_not_found status then result else set_failed result (some (status_string status))
inspect grants name (readable reads) result =
    let (status, buf) = read_all reads [] in
    if not (is_ok status) then set_failed result (some (status_string status)) else record result {
      findings = (finding_list_push grants result.findings (finding_of name buf)).1;
    }

-- The name of the file that is opened.
unfoldable pub autorun_name : Visit → CString
autorun_name root = elim (find_autorun_name root 1024) [
  | none ↦ autorun_filename
  | some name ↦ name
]

-- `detect_autorun`, where the volume root answers `root` and the file `file`
unfoldable pub detect_autorun :
    Host
    → (ℕ → Bool)
    → Visit
    → FileVisit
    → Option DetectContext
    → Option CheckResult
    → Status × Option CheckResult
detect_autorun host grants root file none out = (invalid_arg, out)
detect_autorun host grants root file (some ctx) none = (invalid_arg, none)
detect_autorun host grants root file (some ctx) (some out) = elim ctx.volume_path [
  | none ↦ (invalid_arg, some out)
  | some volume_path ↦
      let result = check_result_init (some (codes "autorun_inspection")) in
      let name = autorun_name root in
      if not (is_ok (path_join host 1536 (some volume_path) (some name)).0)
      then (ok, some (set_failed result (some (codes "path too long"))))
      else (ok, some (inspect grants name file result))
]
