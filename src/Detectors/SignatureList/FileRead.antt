-- ===== src/Detectors/SignatureList/FileRead.antt =====
-- `read_whole_file_capped` of src/detectors/signature_list.c. Log output and the calls of `free` are left
-- out.
use usb_sentinel.Prelude.{
  ℕ, zero, suc, ◌+◌, ◌-◌, ◌*◌, Bool, true, not, [], ◌++◌, List, CString, ltb, leb, ◌==◌,
  if◌then◌else◌, length, take,
}
use usb_sentinel.Status.{Status, ok, no_memory, internal, is_ok}

-- The answer of `usbs_platform_file_open_read`, and then that of `usbs_platform_file_read` for the number
-- of bytes already read and the number of bytes asked for, which it does not exceed.
pub data Source : Type 0 where
  refused : Status → Source
  opened : (ℕ → ℕ → Status × List ℕ) → Source

-- `USBS_SIGNATURE_FILE_MAX_READ`
abbrev pub signature_file_max_read : ℕ
signature_file_max_read = 67108864

-- The size for the next `realloc`
abbrev pub grown_cap : ℕ → ℕ
grown_cap cap =
    let doubled = if cap == 0 then 65536 else cap * 2 in
    if ltb (signature_file_max_read + 65536) doubled
    then signature_file_max_read + 65536
    else doubled

module _ (grants : ℕ → Bool) where
  -- The loop, from `buf[0..len)` and `cap` on. Each turn but the last adds a byte.
  unfoldable pub read_loop : (ℕ → ℕ → Status × List ℕ) → ℕ → CString → ℕ → Status × CString
  read_loop read zero buf cap = (internal, [])
  read_loop read (suc fuel) buf cap =
      let grows = ltb cap (length buf + 65536) in
      let cap' = if grows then grown_cap cap else cap in
      let held = if grows then grants cap' else true in
      let (status, bytes) = read (length buf) (cap' - length buf) in
      let got = take (cap' - length buf) bytes in
      let more = read_loop read fuel (buf ++ got) cap' in
      if leb signature_file_max_read (length buf)
      then (ok, buf)
      else if not held
      then (no_memory, [])
      else if not (is_ok status)
      then (status, [])
      else if length got == 0
      then (ok, buf)
      else more

  -- The largest number of bytes that the loop reads, and one turn more
  abbrev pub read_fuel : ℕ
  read_fuel = signature_file_max_read + 65536 + 1

  unfoldable pub read_whole_file_capped : Source → Status × CString
  read_whole_file_capped (refused status) = (status, [])
  read_whole_file_capped (opened read) = read_loop read read_fuel [] 0
