-- ===== src/Detectors/HashMatch/OnFile.antt =====
-- `hash_match_on_file`, with the disclaimer, the loop over the file and the finding.
use usb_sentinel.Prelude.{
  ℕ, ◌/◌, ◌%◌, Bool, false, not, List, [], ◌∷◌, ◌++◌, Option, none, some, CString, codes, clip,
  take, ltb, ◌==◌, if◌then◌else◌, length, strip_prefix,
}
use usb_sentinel.Core.Env.{host_of}
use usb_sentinel.Core.Json.Decimal.{print_uint, hex_digit}
use usb_sentinel.Core.Path.{Host, is_separator}
use usb_sentinel.Core.Scan.{high, Finding, CheckResult, finding_list_push}
use usb_sentinel.Detectors.Detector.{DetectContext, FileContext}
use usb_sentinel.Detectors.HashMatch.{
  HashMatch, World, fallback_size, ensure_signatures_loaded, hash_match_lookup,
}
use usb_sentinel.Detectors.SignatureList.Lookup.{has_size}
use usb_sentinel.Platform.{DirEntry, Reads, finished, breaks, chunk, FileVisit, denied, readable}
use usb_sentinel.Platform.Sha256.{Sha256, init, update, final}
use usb_sentinel.Status.{Status, ok, invalid_arg}

unfoldable pub relative_path : CString → Option CString → CString
relative_path full none = full
relative_path full (some volume) = elim (strip_prefix volume full) [
  | none ↦ full
  | some rest ↦ rest
]

-- The last component: `last` is what stands behind the last separator so far.
unfoldable pub filename_from : Host → CString → CString → CString
filename_from h last [] = last
filename_from h last (c ∷ path) =
    let rest = if is_separator h c then path else last in filename_from h rest path

unfoldable pub path_filename : Host → CString → CString
path_filename h path = filename_from h path path

unfoldable pub disclaimer : World → HashMatch → CString
disclaimer w g =
    if g.loaded_from_file
    then codes "Matched against "
      ++ (print_uint (length g.signatures.entries)
          ++ (codes " signature(s) loaded from "
              ++ (path_filename (host_of w.system) g.loaded_path
                  ++ codes
                      " - USB Sentinel does not ship, vet, or vouch for this file's contents; verify its provenance yourself")))
    else codes
        "NON-PRODUCTION EXAMPLE: matched against 1 hardcoded test hash (EICAR only) - this is NOT a real malware signature database"

-- `set_disclaimer`
unfoldable pub set_disclaimer : World → HashMatch → CheckResult → HashMatch × CheckResult
set_disclaimer w g result =
    let g' = ensure_signatures_loaded w g in
    (g', record result { message = clip 256 (disclaimer w g') })

-- `HASH_MATCH_MAX_FILE_SIZE`
abbrev pub max_file_size : ℕ
max_file_size = 67108864

-- The tests in front of the open: can a file of this size match?
unfoldable pub may_match : HashMatch → ℕ → Bool
may_match g size_bytes =
    if ltb max_file_size size_bytes
    then false
    else if g.loaded_from_file
    then has_size (some g.signatures) size_bytes
    else size_bytes == fallback_size

-- `HASH_MATCH_READ_CHUNK`
abbrev pub read_chunk : ℕ
read_chunk = 65536

-- The loop over the file. A read that fails ends it as the end of the file does.
unfoldable pub hash_loop : Reads → Sha256 → Sha256
hash_loop finished ctx = ctx
hash_loop (breaks status) ctx = ctx
hash_loop (chunk bytes rest) ctx =
    let got = take read_chunk bytes in
    let more = hash_loop rest (update ctx got) in if length got == 0 then ctx else more

-- The hexadecimal digits of `usbs_platform_hash_finish`
unfoldable pub hex_of : List ℕ → CString
hex_of [] = []
hex_of (b ∷ digest) = hex_digit (b / 16 % 16) ∷ hex_digit (b % 16) ∷ hex_of digest

unfoldable pub volume_of : Option DetectContext → Option CString
volume_of none = none
volume_of (some d) = d.volume_path

unfoldable pub match_finding :
    HashMatch → Option DetectContext → CString → CString → CString → Finding
match_finding g ctx full_path label hex = record {
  severity = high;
  message = clip 256 (
      codes "matches signature list entry: "
      ++ (label
          ++ (codes " (sha256="
              ++ (hex
                  ++ (codes ")"
                      ++ (if g.loaded_from_file
                          then codes ""
                          else codes
                              " - demonstration match, not a real threat-intelligence source"))))));
  path = clip 1024 (relative_path full_path (volume_of ctx));
}

-- From the answer to the open on. `memory` says whether the hash context and the buffer are allocated.
unfoldable pub hash_file :
    World
    → HashMatch
    → Option DetectContext
    → CString
    → ℕ
    → Bool
    → FileVisit
    → CheckResult
    → CheckResult
hash_file w g ctx full_path size_bytes memory (denied status) result = result
hash_file w g ctx full_path size_bytes memory (readable reads) result =
    let hex = hex_of (final (hash_loop reads init)) in
    if not memory then result else (elim (hash_match_lookup w g size_bytes (some hex)).1 [
      | none ↦ result
      | some label ↦ record result {
        findings =
            (finding_list_push w.realloc result.findings
              (match_finding g ctx full_path label hex)).1;
      }
    ])

-- `hash_match_on_file`, where the file answers `file`. `none` is a NULL argument.
unfoldable pub hash_match_on_file :
    World
    → HashMatch
    → Bool
    → FileVisit
    → Option FileContext
    → Option CString
    → Option DirEntry
    → Status × HashMatch × Option CheckResult
hash_match_on_file w g memory file none full_path entry = (invalid_arg, g, none)
hash_match_on_file w g memory file (some ctx) none entry = (invalid_arg, g, some ctx.result)
hash_match_on_file w g memory file (some ctx) (some full_path) none =
    (invalid_arg, g, some ctx.result)
hash_match_on_file w g memory file (some ctx) (some full_path) (some entry) =
    let (g', result) = set_disclaimer w g ctx.result in
    if not (may_match g' entry.size_bytes) then (ok, g', some result) else (
      ok,
      g',
      some (hash_file w g' ctx.detect_ctx full_path entry.size_bytes memory file result),
    )
