-- ===== src/Report/Csv/Build.antt =====
-- What `usbs_report_build_csv` hands out.
use usb_sentinel.Prelude.{
  ℕ, ◌+◌, ◌≤◌, ◌≡◌, refl, ◌⊎◌, inl, inr, Bool, true, false, [], ◌++◌, none, some, CString, arith,
  ◌==◌, length, Bool-cases,
}
use usb_sentinel.Core.Json.Writes.{Plenty, text_max}
use usb_sentinel.Core.Scan.{ScanResult}
use usb_sentinel.Report.Csv.Rows.{rows_text, report_rows, csv_text}
use usb_sentinel.Report.Csv.Writes.{Appends, Appends-then_write, csv_append-Appends, checks-Writes}
use usb_sentinel.Report.Csv.{
  Buffer, csv_header, identity_or_empty, csv_append, write_checks, copy_out, build_csv,
}
use usb_sentinel.Status.{Status, ok, no_memory}

module _ (grants copies : ℕ → Bool) where
  copy_out-cases :
      (text : CString) (b : Buffer) (r : Status × Buffer)
      → Appends grants text b r
      → b.text ≡ []
      → ((copy_out grants copies r ≡ (no_memory, none))
          × ¬ (Plenty grants × (copies (length text + 1) ≡ true)))
        ⊎ (copy_out grants copies r ≡ (ok, some text))
  unfolding copy_out
  copy_out-cases text b r (inl (e, n)) fresh = inl (rw e refl, λ p. n p.0)
  copy_out-cases text b r (inr (e, is, room)) fresh =
      let t : r.1.text ≡ text = ground (arith, is, fresh) in
      let held : (r.1.capacity == 0) ≡ false = ground (arith, room.within) in
      elim (Bool-cases (copies (length text + 1))) [
        | inl c ↦ inr (simp (e, held, t, c))
        | inr c ↦ inl (simp (e, held, t, c), λ p. cc (p.1, c))
      ]

  -- For a scan whose CSV text has at most 2 ^ 60 bytes, the build of the CSV report either hands
  -- out exactly that text, or fails with NO_MEMORY; with plenty of memory for the buffer and for
  -- the copy, it does not fail.
  pub build_csv-Reports :
      (result : ScanResult)
      → length (csv_text result) ≤ text_max
      → ((build_csv grants copies (some result) ≡ (no_memory, none))
          × ¬ (Plenty grants × (copies (length (csv_text result) + 1) ≡ true)))
        ⊎ (build_csv grants copies (some result) ≡ (ok, some (csv_text result)))
  unfolding build_csv csv_text report_rows
  build_csv-Reports result short =
      let fresh : Buffer = record { text = []; capacity = 0 } in
      let identity = identity_or_empty result.device in
      let rows = rows_text (report_rows result) in
      let head = csv_append-Appends grants csv_header fresh (omega arith) (omega arith) in
      let all =
        Appends-then_write grants csv_header rows fresh (csv_append grants csv_header fresh)
          (write_checks grants result.scan_id identity result.checks.items) head
          (checks-Writes grants result.scan_id identity result.checks.items)
          (omega (arith, short)) in
      copy_out-cases (csv_header ++ rows) fresh _ all refl
