-- ===== src/Detectors/HashMatch.antt =====
-- src/detectors/hash_match.c: the comparison of a file's SHA-256 with a list of signatures. The static
-- variables are a record that every call takes and answers; the hash is that of src/platform/sha256.c, by
-- way of src/platform/hash_posix.c without another backend.
pub mod OnFile
pub mod Content
pub mod Verdict
mod Tests
use usb_sentinel.Prelude.{
  ℕ, ◌≤◌, Bool, true, false, not, ◌&&◌, List, [], ◌∷◌, ◌++◌, Option, none, some, CString, codes,
  clip, ltb, ◌==◌, if◌then◌else◌, length, str_eq,
}
use usb_sentinel.Core.Env.{System, Environment, host_of, getenv, user_data_dir, text_of}
use usb_sentinel.Core.Path.{path_join}
use usb_sentinel.Detectors.SignatureList.{Signature, SignatureList}
use usb_sentinel.Detectors.SignatureList.FileRead.{Source}
use usb_sentinel.Detectors.SignatureList.Load.{empty_list, load}
use usb_sentinel.Detectors.SignatureList.Lookup.{lookup}
use usb_sentinel.Status.{Status, ok, is_ok}

-- `g_signatures`, `g_load_attempted`, `g_loaded_from_file` and `g_loaded_path`
pub record HashMatch : Type 0 where
  pub signatures : SignatureList
  pub load_attempted : Bool
  pub loaded_from_file : Bool
  pub loaded_path : CString

-- What the detector asks of the process and of the C library. `signature_file` is what opening a path
-- and reading from it answers.
pub record World : Type 0 where
  pub system : System
  pub environment : Environment
  pub signature_file : CString → Source
  pub realloc : ℕ → Bool
  pub strtoull : CString → ℕ × ℕ
  pub sort : List Signature → List Signature

-- The state before the first call, and what `usbs_hash_match_reset_for_testing` leaves
unfoldable pub reset : HashMatch
reset = record {
  signatures = empty_list;
  load_attempted = false;
  loaded_from_file = false;
  loaded_path = [];
}

abbrev pub fallback_hash : CString
fallback_hash = codes "275a021bbfb6489e54d471899f7db9d1663fc695ec2fe2a2c4538aabf651fd0f"

abbrev pub fallback_size : ℕ
fallback_size = 68

abbrev pub fallback_label : CString
fallback_label =
    codes "EICAR Standard Anti-Virus Test File (industry-standard test string, not malware)"

-- `resolve_signature_path`, into 512 bytes: the path, or `none` where it answers false
unfoldable pub resolve_signature_path : World → Option CString
resolve_signature_path w =
    let override = getenv w.environment (some (codes "USBS_HASH_MATCH_SIGNATURES")) 512 in
    let dir = user_data_dir w.system w.environment 400 in
    let path = path_join (host_of w.system) 512 dir.1 (some (codes "signatures.txt")) in
    if is_ok override.0 && ltb 0 (length (text_of override.1))
    then override.1
    else if is_ok dir.0 && is_ok path.0
    then path.1
    else none

-- What `ensure_signatures_loaded` does with the answer of the load.
unfoldable pub keep_loaded : HashMatch → CString → Status × Option SignatureList → HashMatch
keep_loaded g path (status, none) = g
keep_loaded g path (status, some list) =
    if not (is_ok status)
    then record g { signatures = list }
    else if length list.entries == 0
    then record g { signatures = list }
    else record g { signatures = list; loaded_from_file = true; loaded_path = clip 512 path }

-- `ensure_signatures_loaded`
unfoldable pub ensure_signatures_loaded : World → HashMatch → HashMatch
ensure_signatures_loaded w g = if g.load_attempted then g else (elim (resolve_signature_path w) [
  | none ↦ record g { load_attempted = true; signatures = empty_list }
  | some path ↦
      keep_loaded (record g { load_attempted = true; signatures = empty_list }) path
        (load w.realloc w.strtoull w.sort (some empty_list) (w.signature_file path))
])

-- The comparison of `usbs_hash_match_lookup`, when the signatures are loaded
unfoldable pub match_label : HashMatch → ℕ → CString → Option CString
match_label g size_bytes hex =
    if g.loaded_from_file
    then lookup (some g.signatures) size_bytes (some hex)
    else if size_bytes == fallback_size && str_eq hex fallback_hash
    then some fallback_label
    else none

-- `usbs_hash_match_lookup`; `none` is NULL.
unfoldable pub hash_match_lookup :
    World → HashMatch → ℕ → Option CString → HashMatch × Option CString
hash_match_lookup w g size_bytes hex =
    let g' = ensure_signatures_loaded w g in
    (g', elim hex [ none ↦ none | some text ↦ match_label g' size_bytes text ])
