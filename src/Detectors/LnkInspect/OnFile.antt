-- ===== src/Detectors/LnkInspect/OnFile.antt =====
-- `lnk_on_file`, and the heuristics over the extracted text.
use usb_sentinel.Prelude.{
  ◌^◌, ◌%◌, ℕ, ◌+◌, ◌-◌, Bool, true, false, not, ◌&&◌, ◌||◌, List, [], ◌∷◌, ◌++◌, Option, none,
  some, is_some, CString, codes, clip, take, drop, ltb, leb, ◌==◌, if◌then◌else◌, length,
}
use usb_sentinel.Core.Json.Decimal.{print_uint}
use usb_sentinel.Core.Location.Policy.{policy_applies}
use usb_sentinel.Core.Location.Rules.{
  LocationKind, os_shortcuts, os_component_store, classify, relative,
}
use usb_sentinel.Core.Path.{windows}
use usb_sentinel.Core.Scan.{Severity, warning, high, CheckResult, finding_list_push}
use usb_sentinel.Detectors.Autorun.{contains_ci, equals_ci}
use usb_sentinel.Detectors.Detector.{DetectContext, FileContext}
use usb_sentinel.Detectors.HashMatch.OnFile.{filename_from, hex_of}
use usb_sentinel.Detectors.LnkInspect.Bytes.{Parsed, parsed}
use usb_sentinel.Detectors.LnkInspect.Parse.{LnkParsed, parse_lnk}
use usb_sentinel.Platform.{DirEntry, Reads, finished, breaks, chunk, FileVisit, denied, readable}
use usb_sentinel.Platform.Sha256.{Sha256, init, update, final}
use usb_sentinel.Status.{Status, ok, invalid_arg, no_memory}

-- `LNK_MAX_READ`
abbrev pub lnk_max_read : ℕ
lnk_max_read = 262144

-- `k_interpreter_basenames`
abbrev pub interpreter_basenames : List CString
interpreter_basenames =
    codes "cmd.exe"
    ∷ codes "powershell.exe"
    ∷ codes "pwsh.exe"
    ∷ codes "wscript.exe"
    ∷ codes "cscript.exe"
    ∷ codes "mshta.exe"
    ∷ codes "rundll32.exe"
    ∷ codes "regsvr32.exe"
    ∷ codes "certutil.exe"
    ∷ codes "bitsadmin.exe"
    ∷ []

-- `k_argument_markers`
abbrev pub argument_markers : List CString
argument_markers =
    codes "-enc"
    ∷ codes "-encodedcommand"
    ∷ codes "-nop"
    ∷ codes "-noprofile"
    ∷ codes "-w hidden"
    ∷ codes "-windowstyle hidden"
    ∷ codes "iex"
    ∷ codes "invoke-expression"
    ∷ codes "http://"
    ∷ codes "https://"
    ∷ codes "downloadstring"
    ∷ codes "frombase64string"
    ∷ []

-- `str_ci_eq` and `str_ci_contains` are the loops of autorun.c once more.
abbrev pub str_ci_eq : CString → CString → Bool
str_ci_eq = equals_ci

abbrev pub str_ci_contains : CString → CString → Bool
str_ci_contains = contains_ci

-- `basename_of`: both separators, on every host
abbrev pub basename_of : CString → CString
basename_of path = filename_from windows path path

unfoldable pub is_lnk_suffix : CString → Bool
is_lnk_suffix (dot ∷ l ∷ n ∷ k ∷ []) =
    dot == b'.'
    && ((l == b'l' || l == b'L') && ((n == b'n' || n == b'N') && (k == b'k' || k == b'K')))
is_lnk_suffix _ = false

unfoldable pub has_lnk_extension : CString → Bool
has_lnk_extension name =
    if ltb (length name) 4 then false else is_lnk_suffix (drop (length name - 4) name)

-- `lnk_policy_t`
pub data LnkPolicy : Type 0 where
  untuned attack_shape suppress_all : LnkPolicy

abbrev pub policy_of_kind : LocationKind → LnkPolicy
policy_of_kind os_shortcuts = attack_shape
policy_of_kind os_component_store = suppress_all
policy_of_kind _ = untuned

unfoldable pub lnk_policy_for : DetectContext → CString → LnkPolicy
lnk_policy_for ctx path =
    if not (policy_applies ctx.device) then untuned else policy_of_kind (classify (some path))

abbrev pub is_policy : LnkPolicy → Bool
is_policy untuned = false
is_policy _ = true

-- `push_finding`. The answer of the push is not read.
unfoldable pub push_finding : (ℕ → Bool) → CheckResult → Severity → CString → CString → CheckResult
push_finding grants result severity path message = record result {
  findings =
      (finding_list_push grants result.findings
        (record { severity = severity; message = clip 256 message; path = clip 1024 path })).1;
}

unfoldable pub suppress_one : CheckResult → CheckResult
suppress_one result = record result { policy_suppressed = (result.policy_suppressed + 1) % 2 ^ 64 }

unfoldable pub is_one_of : CString → List CString → Bool
is_one_of base [] = false
is_one_of base (name ∷ names) = str_ci_eq base name || is_one_of base names

unfoldable pub targets_interpreter : LnkParsed → Bool
targets_interpreter p =
    ltb 0 (length p.target) && is_one_of (basename_of p.target) interpreter_basenames

unfoldable pub first_marker : CString → List CString → Option CString
first_marker arguments [] = none
first_marker arguments (marker ∷ markers) =
    if str_ci_contains arguments marker then some marker else first_marker arguments markers

unfoldable pub matched_marker : LnkParsed → Option CString
matched_marker p =
    if ltb 0 (length p.arguments) then first_marker p.arguments argument_markers else none

-- The message of a suspicious shortcut; `hash` is `none` where there is no hash.
unfoldable pub suspicion_text : LnkParsed → Option CString → CString
suspicion_text p hash =
    let has_arguments = ltb 0 (length p.arguments) in
    clip 1672 (
      codes "target="
      ++ ((if ltb 0 (length p.target) then p.target else codes "(none)")
          ++ ((if has_arguments then codes " arguments=" else codes "")
              ++ (p.arguments
                  ++ ((if targets_interpreter p then codes " [interpreter target]" else codes "")
                      ++ ((elim (matched_marker p) [
                        | none ↦ []
                        | some marker ↦
                            clip 96 (codes " [suspicious argument: " ++ (marker ++ codes "]"))
                      ])
                          ++ (codes " sha256=" ++ (elim hash [
                            | none ↦ codes "(unavailable)"
                            | some hex ↦ hex
                          ]))))))))

-- Is a suspicious shortcut tuned out?
unfoldable pub is_tuned_out : LnkPolicy → Bool → Bool → Bool
is_tuned_out untuned interp marked = false
is_tuned_out attack_shape interp marked = not (interp && marked)
is_tuned_out suppress_all interp marked = true

unfoldable pub judge :
    (ℕ → Bool) → LnkPolicy → CString → Option CString → LnkParsed → CheckResult → CheckResult
judge grants policy path hash p result =
    let interp = targets_interpreter p in
    let marked = is_some (matched_marker p) in
    if (interp || marked) && is_tuned_out policy interp marked
    then suppress_one result
    else if interp || marked
    then push_finding grants result high path (suspicion_text p hash)
    else result

-- What follows the reads: the parse, and what is made of it. A fault is malformed as well.
unfoldable pub conclude_lnk :
    (ℕ → Bool) → LnkPolicy → CString → Option CString → Parsed LnkParsed → CheckResult → CheckResult
conclude_lnk grants policy path hash (parsed p) result = judge grants policy path hash p result
conclude_lnk grants policy path hash m result =
    if is_policy policy
    then suppress_one result
    else push_finding grants result warning path (
        clip 192 (
          codes "malformed or corrupt .lnk file (could not parse)"
          ++ (elim hash [ none ↦ [] | some hex ↦ codes ", sha256=" ++ hex ])))

-- The loop over the file, with the bytes and the hash of them. A read that fails ends it.
unfoldable pub read_lnk : Reads → List ℕ × Sha256 → List ℕ × Sha256
read_lnk finished held = held
read_lnk (breaks status) held = held
read_lnk (chunk bytes rest) (buf, ctx) =
    let got = take (lnk_max_read - length buf) bytes in
    let more = read_lnk rest (buf ++ got, update ctx got) in
    if leb lnk_max_read (length buf)
    then (buf, ctx)
    else if length got == 0
    then (buf, ctx)
    else more

-- From the answer to the open on; `hashes` says whether the hash context is allocated.
unfoldable pub inspect_lnk :
    (ℕ → Bool) → Bool → LnkPolicy → CString → FileVisit → CheckResult → CheckResult
inspect_lnk grants hashes policy path (denied status) result = result
inspect_lnk grants hashes policy path (readable reads) result =
    let (buf, ctx) = read_lnk reads ([], init) in
    let hash = if hashes then some (hex_of (final ctx)) else none in
    conclude_lnk grants policy path hash (parse_lnk buf) result

-- The size test, and the file
unfoldable pub lnk_file :
    (ℕ → Bool)
    → Bool
    → Bool
    → FileVisit
    → LnkPolicy
    → CString
    → ℕ
    → CheckResult
    → Status × CheckResult
lnk_file grants memory hashes file policy path size_bytes result =
    if ltb lnk_max_read size_bytes && is_policy policy
    then (ok, suppress_one result)
    else if ltb lnk_max_read size_bytes
    then (
      ok,
      push_finding grants result warning path (
          clip 160 (
            codes "oversized .lnk file ("
            ++ (print_uint size_bytes ++ codes " bytes), not parsed"))),
    )
    else if not memory
    then (no_memory, result)
    else (ok, inspect_lnk grants hashes policy path file result)

-- `lnk_on_file`, where the file answers `file`. `none` is a NULL argument; `memory` and `hashes` say
-- whether the buffer and the hash context are allocated.
unfoldable pub lnk_on_file :
    (ℕ → Bool)
    → Bool
    → Bool
    → FileVisit
    → Option FileContext
    → Option CString
    → Option DirEntry
    → Status × Option CheckResult
lnk_on_file grants memory hashes file none full_path entry = (invalid_arg, none)
lnk_on_file grants memory hashes file (some ctx) none entry = (invalid_arg, some ctx.result)
lnk_on_file grants memory hashes file (some ctx) (some full_path) none =
    (invalid_arg, some ctx.result)
lnk_on_file grants memory hashes file (some ctx) (some full_path) (some entry) =
    elim ctx.detect_ctx [
      | none ↦ (invalid_arg, some ctx.result)
      | some detect_ctx ↦
          let path = relative detect_ctx.volume_path (some full_path) in
          let (status, result) =
            lnk_file grants memory hashes file (lnk_policy_for detect_ctx path) path
              entry.size_bytes ctx.result in
          if not (has_lnk_extension entry.name)
          then (ok, some ctx.result)
          else (status, some result)
    ]
