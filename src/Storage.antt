-- ===== src/Storage.antt =====
-- include/usbsentinel/storage.h and src/storage/storage.c: the store of scan reports.
pub mod SafeId
pub mod Stamp
pub mod LastScan
pub mod Files
mod Tests
use usb_sentinel.Prelude.{
  ltb, length, ℕ, Bool, not, List, [], ◌∷◌, Option, none, some, CString, codes, clip, if◌then◌else◌,
}
use usb_sentinel.Core.Env.{System, Environment, user_data_dir}
use usb_sentinel.Core.Path.{Host, int_max, path_join}
use usb_sentinel.Status.{Status, ok, invalid_arg, not_found, is_ok}

-- `USBS_STORE_PATH_MAX`
abbrev pub store_path_max : ℕ
store_path_max = 512

-- What stands behind `if (!usbs_ok(status)) return status;`, for a text that a call hands out.
abbrev pub with_text {ℓ} : {A : Type ℓ} → Status × Option CString → (Status → A) → (CString → A) → A
with_text (status, none) fail next = fail status
with_text (status, some text) fail next = if not (is_ok status) then fail status else next text

abbrev pub fails : Status → Status × Option CString
fails status = (status, none)

-- The functions below are about a store with the root `root`.
module _ (host : Host) where
  unfoldable pub scans_root : CString → Status × Option CString
  scans_root root = path_join host store_path_max (some root) (some (codes "scans"))

  unfoldable pub device_dir : CString → CString → Status × Option CString
  device_dir root safe_id =
      with_text (scans_root root) fails
        (λ scans. path_join host store_path_max (some scans) (some safe_id))

  unfoldable pub index_path : CString → Status × Option CString
  index_path root = path_join host store_path_max (some root) (some (codes "index.json"))

  -- `usbs_store_open_at`: the status, the root that the store has, and the directories that are made.
  -- `make_dirs` is what `usbs_platform_make_dirs` answers for a path; `none` is a NULL root.
  unfoldable pub open_at :
      (CString → Status) → Option CString → Status × Option CString × List CString
  open_at make_dirs none = (invalid_arg, none, [])
  open_at make_dirs (some given) =
      let root = clip store_path_max given in
      if ltb int_max (length given)
      then (invalid_arg, none, [])
      else if not (is_ok (make_dirs root))
      then (make_dirs root, some root, root ∷ [])
      else with_text (scans_root root) (λ status. (status, some root, root ∷ []))
          (λ scans. (make_dirs scans, some root, root ∷ scans ∷ []))

  -- `usbs_store_open`
  unfoldable pub open_store :
      System → Environment → (CString → Status) → Status × Option CString × List CString
  open_store system env make_dirs =
      with_text (user_data_dir system env store_path_max) (λ _. (not_found, none, []))
        (λ root. open_at make_dirs (some root))
