-- ===== src/Storage/Files.antt =====
-- `write_report_file`, `usbs_store_write_report` without its refresh of the index, and
-- `usbs_store_write_report_csv`. The files of the disk are a function of their paths.
mod Written
pub mod Atomic
use usb_sentinel.Prelude.{
  ℕ, ◌-◌, Bool, true, false, not, ◌||◌, List, [], ◌∷◌, ◌++◌, Option, none, some, CString, codes,
  clip, ltb, ◌==◌, if◌then◌else◌, str_eq, length,
}
use usb_sentinel.Core.Path.{Host, int_max, path_join}
use usb_sentinel.Status.{Status, ok, invalid_arg, internal, is_ok}
use usb_sentinel.Storage.SafeId.{safe_id}
use usb_sentinel.Storage.Stamp.{compact_timestamp}
use usb_sentinel.Storage.{store_path_max, with_text, device_dir}

abbrev pub Disk : Type 0
Disk = CString → Option CString

abbrev pub set_file : CString → Option CString → Disk → Disk
set_file path content disk p = if str_eq p path then content else disk p

-- The answer of `usbs_platform_write_file`: the whole content stands in the file, or the call fails with
-- a status that is not OK and leaves something in its place.
pub data Writing : Type 0 where
  wrote : Writing
  failed : Status → Option CString → Writing

-- What the platform answers during one call.
pub record StoreAnswers : Type 0 where
  pub make_dirs : Status
  pub write_file : Writing
  pub replace_file : Status

-- The disks between the steps of a call, its status and the path that it hands out, which the caller's
-- buffer may cut.
pub record WriteResult : Type 0 where
  pub disks : List Disk
  pub status : Status
  pub path : Option CString

abbrev pub stop : Status → WriteResult
stop status = record { disks = []; status = status; path = none }

unfoldable pub has_separator : CString → Bool
has_separator [] = false
has_separator (c ∷ s) = c == b'\\' || c == b'/' || has_separator s

-- `snprintf(buf, size, ...) < 0` fails a call, and what it cuts off does not.
abbrev pub print_clipped : ℕ → CString → Status × Option CString
print_clipped size text =
    if ltb int_max (length text) then (internal, none) else (ok, some (clip size text))

-- "%s-%s.%s"
unfoldable pub report_name : CString → CString → CString → CString
report_name compact scan_id extension = compact ++ (b'-' ∷ (scan_id ++ (b'.' ∷ extension)))

-- `usbs_platform_replace_file`: the temporary file takes the place of the final one, in one step, or
-- nothing changes.
unfoldable pub replaced : CString → CString → Disk → Disk
replaced final temp disk = set_file final (disk temp) (set_file temp none disk)

-- The replacement, and the deletion of the temporary file where it fails.
unfoldable pub finish_write : StoreAnswers → CString → CString → Disk → WriteResult
finish_write a final temp disk =
    if is_ok a.replace_file
    then record { disks = replaced final temp disk ∷ []; status = ok; path = some final }
    else record { disks = set_file temp none disk ∷ []; status = a.replace_file; path = none }

-- The two calls that change the report, and the deletions behind them.
unfoldable pub write_and_replace :
    StoreAnswers → Writing → CString → CString → CString → Disk → WriteResult
write_and_replace a wrote final temp content disk =
    let written = set_file temp (some content) disk in
    let rest = finish_write a final temp written in
    record { disks = written ∷ rest.disks; status = rest.status; path = rest.path }
write_and_replace a (failed status left) final temp content disk = record {
  disks = set_file temp left disk ∷ set_file temp none (set_file temp left disk) ∷ [];
  status = status;
  path = none;
}

-- The arguments of the call but for its content and its out parameter.
pub record Report : Type 0 where
  pub identity : CString
  pub scan_id : CString
  pub timestamp : CString
  pub extension : CString

module _ (host : Host) where
  -- The file that a report goes to, in the directory `dir`.
  unfoldable pub final_path : Report → CString → Status × Option CString
  final_path r dir =
      with_text (compact_timestamp (some r.timestamp) 17) (λ status. (status, none))
        (λ compact.
          with_text (print_clipped 300 (report_name compact r.scan_id r.extension))
            (λ status. (status, none))
            (λ filename. path_join host store_path_max (some dir) (some filename)))

  -- `write_report_file`, whose arguments are no NULL, for the store with the root `root`
  unfoldable pub write_report_file : CString → StoreAnswers → Report → CString → Disk → WriteResult
  write_report_file root a r content disk =
      if has_separator r.scan_id
      then stop invalid_arg
      else with_text (safe_id (some r.identity) store_path_max) stop (λ id.
        with_text (device_dir host root id) stop (λ dir.
          if not (is_ok a.make_dirs)
          then stop a.make_dirs
          else with_text (final_path r dir) stop (λ final.
            with_text (print_clipped store_path_max (final ++ codes ".tmp")) stop
              (λ temp. write_and_replace a a.write_file final temp content disk))))
