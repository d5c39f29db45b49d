-- ===== src/Storage/LastScan.antt =====
-- `usbs_store_last_scan`: the newest report of a device, found by a listing of its directory.
pub mod Newest
pub mod Naming
use usb_sentinel.Prelude.{
  ℕ, suc, ◌+◌, ◌-◌, Bool, true, false, not, ◌&&◌, ◌||◌, List, [], ◌∷◌, Option, none, some, CString,
  codes, clip, ltb, leb, ◌==◌, if◌then◌else◌, str_eq, length, take, drop, get_elem?,
}
use usb_sentinel.Core.Path.{Host}
use usb_sentinel.Platform.{DirEntry}
use usb_sentinel.Status.{Status, ok, invalid_arg, not_found, is_ok}
use usb_sentinel.Storage.SafeId.{safe_id}
use usb_sentinel.Storage.Stamp.{expand_timestamp}
use usb_sentinel.Storage.{store_path_max, with_text, device_dir}

-- `usbs_store_last_scan_t`
pub record LastScan : Type 0 where
  pub scan_id : CString
  pub scanned_at : CString
  pub report_count : ℕ
  pub found : Bool

abbrev pub no_scan : LastScan
no_scan = record { scan_id = []; scanned_at = []; report_count = 0; found = false }

-- The answers of `usbs_platform_dir_next` on one listing. A failure has a status that is neither OK nor
-- NOT_FOUND.
pub data Entries : Type 0 where
  ends : Entries
  fails : Status → Entries
  entry : DirEntry → Entries → Entries

-- The answer of `usbs_platform_dir_open`. A refusal has a status that is not OK.
pub data Opening : Type 0 where
  refuses : Status → Opening
  opens : Entries → Opening

unfoldable pub ends_with : CString → CString → Bool
ends_with s suffix =
    if ltb (length s) (length suffix)
    then false
    else str_eq (drop (length s - length suffix) s) suffix

-- `strcmp(a, b) > 0`
unfoldable pub str_gt : CString → CString → Bool
str_gt [] b = false
str_gt (x ∷ a) [] = true
str_gt (x ∷ a) (y ∷ b) = if x == y then str_gt a b else ltb y x

-- `USBS_NAME_MAX`
abbrev pub entry_name_max : ℕ
entry_name_max = 1024

unfoldable pub is_report : DirEntry → Bool
is_report e = not e.is_directory && ends_with e.name (codes ".json")

unfoldable pub newer : Option CString → CString → Option CString
newer none name = some (clip entry_name_max name)
newer (some best) name = if str_gt name best then some (clip entry_name_max name) else some best

-- The loop, with the count and the greatest name so far.
unfoldable pub scan_entries : ℕ → Option CString → Entries → Status × ℕ × Option CString
scan_entries count best ends = (ok, count, best)
scan_entries count best (fails status) = (status, count, best)
scan_entries count best (entry e rest) =
    scan_entries (if is_report e then suc count else count)
      (if is_report e then newer best e.name else best) rest

abbrev text_or_blank : Status × Option CString → CString
text_or_blank (status, none) = []
text_or_blank (status, some text) = text

-- What the name of the greatest report says, where it is well formed.
unfoldable pub read_name : CString → LastScan → LastScan
read_name best info =
    let id_len = length best - 17 - 5 in
    if leb 22 (length best)
      && (str_eq (take 1 (drop 16 best)) (codes "-") && ends_with best (codes ".json"))
    then record info {
      scanned_at = text_or_blank (expand_timestamp (some (take 16 best)) 32);
      scan_id = if ltb id_len 64 then take id_len (drop 17 best) else info.scan_id;
      found = true;
    }
    else record info { found = true }

unfoldable pub conclude_lookup : Status × ℕ × Option CString → Status × LastScan
conclude_lookup (status, count, none) = (status, record no_scan { report_count = count })
conclude_lookup (status, count, some best) =
    if is_ok status
    then (ok, read_name best (record no_scan { report_count = count }))
    else (status, record no_scan { report_count = count })

unfoldable pub read_opened : Opening → Status × LastScan
read_opened (refuses not_found) = (ok, no_scan)
read_opened (refuses status) = (status, no_scan)
read_opened (opens entries) = conclude_lookup (scan_entries 0 none entries)

-- `usbs_store_last_scan` of the store with the root `root`: `dir_open` is what opening the listing of a
-- path answers, and `none` a NULL identity.
unfoldable pub last_scan :
    Host → (CString → Opening) → CString → Option CString → Status × Option LastScan
last_scan host dir_open root none = (invalid_arg, none)
last_scan host dir_open root (some identity) =
    with_text (safe_id (some identity) store_path_max) (λ status. (status, some no_scan))
      (λ id.
        with_text (device_dir host root id) (λ status. (status, some no_scan))
          (λ dir. let (status, info) = read_opened (dir_open dir) in (status, some info)))
