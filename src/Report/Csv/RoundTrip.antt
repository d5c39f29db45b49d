-- ===== src/Report/Csv/RoundTrip.antt =====
-- The CSV report read back.
use usb_sentinel.Prelude.{
  ◌≡◌, ◌≢◌, All, refl, ap, ◌∙◌, true, false, List, [], ◌∷◌, ◌++◌, some, append-nil, append_assoc,
  CString, map,
}
use usb_sentinel.Core.Scan.{Finding, CheckResult, ScanResult, severity_string}
use usb_sentinel.Report.Csv.Reader.{row_start, run, complete, read}
use usb_sentinel.Report.Csv.Rows.{
  Row, guarded, field_text, fields_text, rows_text, row_of, check_rows, checks_rows, report_rows,
  header_row, csv_text,
}
use usb_sentinel.Report.Csv.{identity_or_empty}
use usb_sentinel.Report.Csv.Fields.{state, run-fields_text}

abbrev IsFilled : Row → Type 0
IsFilled r = r ≢ []

run-rows_text :
    (rs q : List Row)
    → All IsFilled rs
    → run (state row_start [] [] q) (rows_text rs) ≡ some (q ++ map (map guarded) rs)
unfolding rows_text fields_text
run-rows_text [] q h = unfold run complete in rw (append-nil q) refl
run-rows_text ([] ∷ rs) q h = absurd (h.0 refl)
run-rows_text ((f ∷ fs) ∷ rs) q h =
    ap (run (state row_start [] [] q))
      (append_assoc (field_text f) (fields_text false fs) (rows_text rs))
    ∙ run-fields_text true f fs [] q (rows_text rs)
    ∙ run-rows_text rs (q ++ (map guarded (f ∷ fs) ∷ [])) h.1
    ∙ ap some (append_assoc q (map guarded (f ∷ fs) ∷ []) (map (map guarded) rs))

All-append : (rs qs : List Row) → All IsFilled rs → All IsFilled qs → All IsFilled (rs ++ qs)
All-append [] qs h k = k
All-append (r ∷ rs) qs (h, t) k = (h, All-append rs qs t k)

findings_IsFilled :
    (scan_id identity : CString) (check : CheckResult) (fs : List Finding)
    → All IsFilled
        (map (λ g. row_of scan_id identity check (severity_string g.severity) g.path g.message) fs)
unfolding row_of
findings_IsFilled scan_id identity check [] = tt
findings_IsFilled scan_id identity check (f ∷ fs) =
    (λ e. cc e, findings_IsFilled scan_id identity check fs)

check_rows-IsFilled :
    (scan_id identity : CString) (check : CheckResult) (fs : List Finding)
    → All IsFilled (check_rows scan_id identity check fs)
unfolding check_rows
check_rows-IsFilled scan_id identity check [] = (λ e. unfold row_of in cc e, tt)
check_rows-IsFilled scan_id identity check (f ∷ fs) =
    findings_IsFilled scan_id identity check (f ∷ fs)

checks_rows-IsFilled :
    (scan_id identity : CString) (checks : List CheckResult)
    → All IsFilled (checks_rows scan_id identity checks)
unfolding checks_rows
checks_rows-IsFilled scan_id identity [] = tt
checks_rows-IsFilled scan_id identity (check ∷ checks) =
    All-append _ _ (check_rows-IsFilled scan_id identity check check.findings.items)
      (checks_rows-IsFilled scan_id identity checks)

-- A reader by RFC 4180 reads the text of a scan as its rows.
pub read-csv_text :
    (result : ScanResult)
    → read (csv_text result) ≡ some (header_row ∷ map (map guarded) (report_rows result))
unfolding read csv_text report_rows
read-csv_text result =
    let identity = identity_or_empty result.device in
    let rows = checks_rows result.scan_id identity result.checks.items in
    unfold run in
    run-rows_text rows (header_row ∷ [])
      (checks_rows-IsFilled result.scan_id identity result.checks.items)
