-- ===== src/Report/Csv/Rows.antt =====
-- What the CSV report says: its rows, and the text that stands for rows.
use usb_sentinel.Prelude.{
  Bool, true, false, not, ◌&&◌, List, [], ◌∷◌, ◌++◌, CString, codes, map, ◌==◌, if◌then◌else◌,
}
use usb_sentinel.Core.Scan.{Finding, CheckResult, ScanResult, check_status_string, severity_string}
use usb_sentinel.Report.Csv.{
  needs_quote, needs_formula_prefix, identity_or_empty, reason_of, csv_header,
}

abbrev pub Row : Type 0
Row = List CString

-- Each quote twice, and a quote behind all.
abbrev pub closed : CString → CString
closed [] = b'"' ∷ []
closed (c ∷ s) = (if c == b'"' then codes "\"\"" else c ∷ []) ++ closed s

-- A field that a spreadsheet would take for a formula stands behind an apostrophe.
unfoldable pub guarded : CString → CString
guarded s = if needs_formula_prefix s then b'\'' ∷ s else s

unfoldable pub field_text : CString → CString
field_text s =
    if not (needs_quote s) && not (needs_formula_prefix s) then s else b'"' ∷ closed (guarded s)

unfoldable pub fields_text : Bool → Row → CString
fields_text first [] = codes "\r\n"
fields_text first (f ∷ fs) =
    (if first then [] else b',' ∷ []) ++ (field_text f ++ fields_text false fs)

unfoldable pub rows_text : List Row → CString
rows_text [] = []
rows_text (r ∷ rs) = fields_text true r ++ rows_text rs

unfoldable pub row_of : CString → CString → CheckResult → CString → CString → CString → Row
row_of scan_id identity check severity path message =
    scan_id
    ∷ identity
    ∷ check.id
    ∷ check_status_string check.status
    ∷ reason_of check.status check.skip_reason
    ∷ check.message
    ∷ severity
    ∷ path
    ∷ message
    ∷ []

-- A check without findings has one row.
unfoldable pub check_rows : CString → CString → CheckResult → List Finding → List Row
check_rows scan_id identity check [] = row_of scan_id identity check [] [] [] ∷ []
check_rows scan_id identity check (f ∷ fs) =
    map (λ g. row_of scan_id identity check (severity_string g.severity) g.path g.message) (f ∷ fs)

unfoldable pub checks_rows : CString → CString → List CheckResult → List Row
checks_rows scan_id identity [] = []
checks_rows scan_id identity (check ∷ checks) =
    check_rows scan_id identity check check.findings.items ++ checks_rows scan_id identity checks

-- The rows of a scan, below the header.
unfoldable pub report_rows : ScanResult → List Row
report_rows result =
    checks_rows result.scan_id (identity_or_empty result.device) result.checks.items

abbrev pub header_row : Row
header_row =
    codes "scan_id"
    ∷ codes "device_identity"
    ∷ codes "check_id"
    ∷ codes "check_status"
    ∷ codes "skip_reason"
    ∷ codes "check_message"
    ∷ codes "severity"
    ∷ codes "path"
    ∷ codes "message"
    ∷ []

unfoldable pub csv_text : ScanResult → CString
csv_text result = csv_header ++ rows_text (report_rows result)
