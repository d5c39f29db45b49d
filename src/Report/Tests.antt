-- ===== src/Report/Tests.antt =====
-- The reports on one scan, and the theorems at it.
use usb_sentinel.Prelude.{
  ℕ, ◌+◌, ◌^◌, leb, Bool, ◌≡◌, ◌⊎◌, ◌↔◌, All, refl, true, List, [], ◌∷◌, ◌++◌, none, some, arith,
  length, CString, codes,
}
use usb_sentinel.Core.Device.{
  Device, device_init, usb, identity_text, device_identity, bus_type_string,
}
use usb_sentinel.Core.Path.{print_bounded}
use usb_sentinel.Core.Json.Writer.{escape_byte}
use usb_sentinel.Core.Json.Decimal.{digits_onto, print_uint, print_int}
use usb_sentinel.Core.Json.Document.{print, height}
use usb_sentinel.Core.Json.Meaning.{value_of, IsTextual}
use usb_sentinel.Core.Json.Reader.{parse}
use usb_sentinel.Core.Json.Strings
use usb_sentinel.Core.Json.Writes.{Plenty}
use usb_sentinel.Core.Scan.{
  ran, skipped, high, Finding, CheckResult, ScanResult, scan_result_init, check_status_string,
  severity_string, scan_status_string,
}
use usb_sentinel.Report.Csv.Build.{build_csv-Reports}
use usb_sentinel.Report.Csv.Reader.{read}
use usb_sentinel.Report.Csv.Readback.{IsDefused, Pairwise, read-build_csv}
use usb_sentinel.Report.Csv.Rows.{
  Row, guarded, header_row, report_rows, csv_text, rows_text, fields_text, field_text, checks_rows,
  check_rows, row_of,
}
use usb_sentinel.Report.Csv.{
  build_csv, identity_or_empty, needs_quote, needs_formula_prefix, is_trigger, csv_header,
}
use usb_sentinel.Report.Json.{write_checks, build_json, volume_identity}
use usb_sentinel.Report.Json.Build.{parse-build_json}
use usb_sentinel.Report.Json.Report.{
  report_document, tool_members, scan_members, device_members, capability_members, mount_items,
  check_items, finding_items, outcome_members, summary_members, with_status, findings_of,
}
use usb_sentinel.Report.Text.{check_lines, summary_line}
use usb_sentinel.Report.Text.Agreement.{start, all_ran, check_lines-agree}
use usb_sentinel.Status.{ok, no_memory}

-- An autorun check with a finding whose path is a formula, and one that was skipped.
abbrev stick : Device
stick = record device_init {
  volume_path = codes "E:";
  bus_type = usb;
  usb_vid = codes "0951";
  usb_pid = codes "1666";
}

abbrev formula : Finding
formula = record { severity = high; message = codes "runs \"a.exe\""; path = codes "=cmd,1" }

abbrev autorun : CheckResult
autorun = record {
  id = codes "autorun";
  status = ran;
  skip_reason = [];
  message = [];
  findings = record { items = formula ∷ []; capacity = 4 };
  policy_suppressed = 0;
  policy_lowered = 0;
}

abbrev lnk : CheckResult
lnk = record {
  id = codes "lnk";
  status = skipped;
  skip_reason = codes "off";
  message = [];
  findings = record { items = []; capacity = 0 };
  policy_suppressed = 0;
  policy_lowered = 0;
}

abbrev checks : List CheckResult
checks = autorun ∷ lnk ∷ []

abbrev sample : ScanResult
sample = record scan_result_init {
  scan_id = codes "s1";
  device = stick;
  checks = record { items = checks; capacity = 4 };
}

abbrev roomy : ℕ → Bool
roomy n = leb n (2 ^ 62)

abbrev always : ℕ → Bool
always n = true

roomy-Plenty : Plenty roomy
roomy-Plenty = record { bound = λ n e. ground arith; gives = λ n h. ground arith }

printing : Unit {0}
unfolding csv_text rows_text fields_text field_text report_rows checks_rows check_rows row_of
    guarded identity_or_empty device_identity print_bounded identity_text needs_quote
    needs_formula_prefix is_trigger check_status_string severity_string scan_result_init device_init
printing = tt

csv_lines :
    csv_text sample
    ≡ csv_header
      ++ (codes "s1,usb:0951-1666,autorun,ran,,,high,\"'=cmd,1\",\"runs \"\"a.exe\"\"\"\r\n"
          ++ codes "s1,usb:0951-1666,lnk,skipped,off,,,,\r\n")
unfolding printing
csv_lines = refl

build_csv-Reports_example :
    ((build_csv roomy always (some sample) ≡ (no_memory, none))
      × ¬ (Plenty roomy × (always (length (csv_text sample) + 1) ≡ true)))
    ⊎ (build_csv roomy always (some sample) ≡ (ok, some (csv_text sample)))
unfolding printing
build_csv-Reports_example = build_csv-Reports roomy always sample (omega arith)

read-build_csv_example :
    (text : CString) × (rows : List Row) × (build_csv roomy always (some sample) ≡ (ok, some text))
    × (read text ≡ some (header_row ∷ rows))
    × Pairwise (Pairwise IsDefused) (report_rows sample) rows
unfolding printing
read-build_csv_example = read-build_csv roomy always sample (omega arith) roomy-Plenty refl

-- A `strtod` that keeps the text it reads.
abbrev keep : CString → CString × ℕ
keep s = (s, length s)

documents : Unit {0}
unfolding printing report_document tool_members scan_members device_members capability_members
    mount_items check_items finding_items outcome_members summary_members with_status findings_of
    volume_identity bus_type_string scan_status_string print height IsTextual print_int print_uint
    digits_onto escape_byte
documents = tt

parse-build_json_example :
    (build_json (codes "1.0") roomy always (some sample)
      ≡ (ok, some (print (report_document (codes "1.0") sample))))
    × (parse keep (print (report_document (codes "1.0") sample))
        ≡ Strings.ok (value_of keep (report_document (codes "1.0") sample)))
unfolding documents
parse-build_json_example =
    parse-build_json roomy always roomy-Plenty (λ n. refl) keep (λ z. refl) (codes "1.0") sample
      (ground arith) (omega arith)

check_lines-agree_example :
    ((check_lines checks start).1.skipped ≡ (write_checks checks).1.skipped)
    × ((check_lines checks start).1.failed ≡ (write_checks checks).1.failed)
    × ((summary_line (check_lines checks start).1 ≡ all_ran)
        ↔ All (λ (check : CheckResult). check.status ≡ ran) checks)
check_lines-agree_example = check_lines-agree checks
