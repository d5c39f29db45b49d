-- ===== src/Report/Csv.antt =====
-- The CSV report of src/reporting/report.c. A buffer is `data[0..len)` with its capacity, which is 0
-- where `data` is NULL; `grants` answers for a size whether `realloc` finds it. The buffer of a step
-- that fails is freed by the caller.
pub mod Rows
mod Writes
pub mod Reader
mod Fields
pub mod RoundTrip
pub mod Build
pub mod Readback
use usb_sentinel.Prelude.{
  ℕ, ◌+◌, ◌%◌, ◌^◌, Bool, true, false, not, ◌&&◌, ◌||◌, List, [], ◌∷◌, ◌++◌, Option, none, some,
  CString, codes, leb, ◌==◌, if◌then◌else◌, length,
}
use usb_sentinel.Core.Device.{Device, device_identity}
use usb_sentinel.Core.Device.Identity.{identity_max}
use usb_sentinel.Core.Json.Writer.{Growth, grown, too_large, out_of_fuel, double_until, double_fuel}
use usb_sentinel.Core.Scan.{
  CheckStatus, ran, skipped, failed, Finding, CheckResult, ScanResult, check_status_string,
  severity_string,
}
use usb_sentinel.Status.{Status, ok, invalid_arg, no_memory, internal, is_ok}

-- `csv_buf_t`
pub record Buffer : Type 0 where
  pub text : CString
  pub capacity : ℕ

abbrev pub Write : Type 0
Write = Buffer → Status × Buffer

-- `if (!usbs_ok(status)) return status;` between two steps
abbrev pub then_write : Write → Status × Buffer → Status × Buffer
then_write g (status, b) = if is_ok status then g b else (status, b)

infixl 5 ◌>>◌
abbrev pub ◌>>◌ : Write → Write → Write
(f >> g) b = then_write g (f b)

-- `value[0] == '=' || value[0] == '+' || value[0] == '-' || value[0] == '@'`
unfoldable pub is_trigger : ℕ → Bool
is_trigger c = c == b'=' || (c == b'+' || (c == b'-' || c == b'@'))

unfoldable pub needs_formula_prefix : CString → Bool
needs_formula_prefix [] = false
needs_formula_prefix (c ∷ value) = is_trigger c

unfoldable pub needs_quote : CString → Bool
needs_quote [] = false
needs_quote (c ∷ value) =
    c == b',' || (c == b'"' || (c == b'\n' || c == b'\r')) || needs_quote value

-- `usbs_device_identity` into a buffer of its own, which is emptied where that fails
abbrev pub text_or_empty : Status × Option CString → CString
text_or_empty (status, none) = []
text_or_empty (status, some text) = if is_ok status then text else []

unfoldable pub identity_or_empty : Device → CString
identity_or_empty device = text_or_empty (device_identity (some device) identity_max)

abbrev pub csv_header : CString
csv_header =
    codes "scan_id,device_identity,check_id,check_status,skip_reason,"
    ++ codes "check_message,severity,path,message\r\n"

abbrev pub reason_of : CheckStatus → CString → CString
reason_of skipped reason = reason
reason_of _ reason = []

module _ (grants : ℕ → Bool) where
  -- The doubling loop from 512 is that of the JSON writer.
  unfoldable pub grow : Growth → Write
  grow (grown n) b =
      if grants n then (ok, record { text = b.text; capacity = n }) else (no_memory, b)
  grow too_large b = (no_memory, b)
  grow out_of_fuel b = (no_memory, b)

  unfoldable pub csv_ensure : ℕ → Write
  csv_ensure extra b =
      let needed = (length b.text + extra + 1) % 2 ^ 64 in
      if leb needed b.capacity
      then (ok, b)
      else grow (double_until double_fuel needed (if b.capacity == 0 then 512 else b.capacity)) b

  -- `csv_append` and `csv_append_str`
  unfoldable pub csv_append : CString → Write
  csv_append text =
      csv_ensure (length text) >> λ b. (ok, record { text = b.text ++ text; capacity = b.capacity })

  -- The loop of `csv_write_field` and the closing quote behind it.
  unfoldable pub write_quoted : CString → Write
  write_quoted [] = csv_append (b'"' ∷ [])
  write_quoted (c ∷ value) =
      csv_append (if c == b'"' then codes "\"\"" else c ∷ []) >> write_quoted value

  unfoldable pub write_value : CString → Write
  write_value value =
      if not (needs_quote value) && not (needs_formula_prefix value)
      then csv_append value
      else if needs_formula_prefix value
      then (csv_append (b'"' ∷ []) >> csv_append (b'\'' ∷ [])) >> write_quoted value
      else csv_append (b'"' ∷ []) >> write_quoted value

  -- `csv_write_field`; `none` is a NULL value
  unfoldable pub csv_write_field : Option CString → Write
  csv_write_field none = write_value []
  csv_write_field (some value) = write_value value

  -- The loop of `csv_write_row` over its array of fields, and the line end behind it.
  unfoldable pub write_fields : Bool → List CString → Write
  write_fields first [] = csv_append (codes "\r\n")
  write_fields first (f ∷ fs) =
      if first
      then csv_write_field (some f) >> write_fields false fs
      else (csv_append (b',' ∷ []) >> csv_write_field (some f)) >> write_fields false fs

  unfoldable pub csv_write_row : List CString → Write
  csv_write_row fields = write_fields true fields

  module _ (scan_id identity : CString) where
    -- One row for a check: its own four fields, and the three of a finding.
    unfoldable pub write_check_row : CheckResult → CString → CString → CString → Write
    write_check_row check severity path message = csv_write_row (
        scan_id
        ∷ identity
        ∷ check.id
        ∷ check_status_string check.status
        ∷ reason_of check.status check.skip_reason
        ∷ check.message
        ∷ severity
        ∷ path
        ∷ message
        ∷ [])

    unfoldable pub write_findings : CheckResult → List Finding → Write
    write_findings check [] b = (ok, b)
    write_findings check (f ∷ fs) b =
        (write_check_row check (severity_string f.severity) f.path f.message
            >> write_findings check fs)
          b

    unfoldable pub write_check : CheckResult → List Finding → Write
    write_check check [] = write_check_row check [] [] []
    write_check check (f ∷ fs) = write_findings check (f ∷ fs)

    unfoldable pub write_checks : List CheckResult → Write
    write_checks [] b = (ok, b)
    write_checks (check ∷ checks) b =
        (write_check check check.findings.items >> write_checks checks) b

  -- The last part of `usbs_report_build_csv`; `copies` answers for the `malloc` of the result.
  unfoldable pub copy_out : (ℕ → Bool) → Status × Buffer → Status × Option CString
  copy_out copies (status, b) =
      if not (is_ok status)
      then (status, none)
      else if b.capacity == 0
      then (internal, none)
      else if copies (length b.text + 1)
      then (ok, some b.text)
      else (no_memory, none)

  -- `usbs_report_build_csv`; `none` is a NULL result
  unfoldable pub build_csv : (ℕ → Bool) → Option ScanResult → Status × Option CString
  build_csv copies none = (invalid_arg, none)
  build_csv copies (some result) = copy_out copies (
      (csv_append csv_header
          >> write_checks result.scan_id (identity_or_empty result.device) result.checks.items)
        (record { text = []; capacity = 0 }))
