-- ===== src/Report/Csv/Writes.antt =====
-- What the steps of the CSV report append to the buffer, and that only memory can make them fail.
use usb_sentinel.Prelude.{
  ℕ, ◌+◌, ◌*◌, ◌%◌, ◌^◌, ◌≤◌, ◌<◌, ◌≡◌, refl, sym, ap, ◌∙◌, ◌⊎◌, inl, inr, Bool, true, false, List,
  [], ◌∷◌, ◌++◌, append-nil, append_assoc, CString, codes, arith, leb, ◌==◌, if◌then◌else◌, length,
  length-append, map, Bool-cases,
}
use usb_sentinel.Core.Json.Growth.{double_until-grown, double_until_small}
use usb_sentinel.Core.Json.Writer.{double_fuel}
use usb_sentinel.Core.Json.Writes.{Plenty, text_max}
use usb_sentinel.Core.Scan.{Finding, CheckResult, severity_string}
use usb_sentinel.Report.Csv.Rows.{
  closed, guarded, field_text, fields_text, rows_text, row_of, check_rows, checks_rows,
}
use usb_sentinel.Report.Csv.{
  Buffer, Write, then_write, ◌>>◌, needs_formula_prefix, needs_quote, grow, csv_ensure, csv_append,
  write_quoted, write_value, csv_write_field, write_fields, csv_write_row, write_check_row,
  write_findings, write_check, write_checks,
}
use usb_sentinel.Status.{Status, ok, no_memory}

-- The text and its NUL lie in the memory of the buffer.
pub record Room (b : Buffer) : Type 0 where
  pub within : length b.text < b.capacity
  pub small : b.capacity ≤ 2 ^ 62

module _ (grants : ℕ → Bool) where
  -- The step appends `s`, or fails for want of memory, which is not plentiful then.
  abbrev pub Appends : CString → Buffer → Status × Buffer → Type 0
  Appends s b r =
      ((r.0 ≡ no_memory) × ¬ Plenty grants) ⊎ ((r.0 ≡ ok) × (r.1.text ≡ b.text ++ s) × Room r.1)

  abbrev pub Writes : CString → Write → Type 0
  Writes s f = (b : Buffer) → Room b → length b.text + length s ≤ text_max → Appends s b (f b)

  Appends-shift :
      (s t : CString) (b b' : Buffer) (r : Status × Buffer)
      → b'.text ≡ b.text ++ s
      → Appends t b' r
      → Appends (s ++ t) b r
  Appends-shift s t b b' r e (inl h) = inl h
  Appends-shift s t b b' r e (inr (k, text, room)) =
      inr (k, text ∙ ap (λ x. x ++ t) e ∙ append_assoc b.text s t, room)

  pub Appends-then_write :
      (s t : CString) (b : Buffer) (r : Status × Buffer) (g : Write)
      → Appends s b r
      → Writes t g
      → length b.text + length (s ++ t) ≤ text_max
      → Appends (s ++ t) b (then_write g r)
  Appends-then_write s t b r g (inl (e, n)) hg fits = inl (rw e refl, n)
  Appends-then_write s t b r g (inr (e, text, room)) hg fits =
      let short : length r.1.text + length t ≤ text_max =
        omega (arith, fits, ap length text, length-append b.text s, length-append s t) in
      rw e (Appends-shift s t b r.1 (g r.1) text (hg r.1 room short))

  pub >>-Writes : (s t : CString) (f g : Write) → Writes s f → Writes t g → Writes (s ++ t) (f >> g)
  >>-Writes s t f g hf hg b room fits =
      Appends-then_write s t b (f b) g (hf b room (omega (arith, fits, length-append s t))) hg fits

  no_text-Writes : Writes [] (λ b. (ok, b))
  no_text-Writes b room fits = inr (refl, sym (append-nil b.text), room)

  -- `csv_append` on any buffer, the one without memory included
  pub csv_append-Appends :
      (s : CString) (b : Buffer)
      → b.capacity ≤ 2 ^ 62
      → length b.text + length s ≤ text_max
      → Appends s b (csv_append grants s b)
  unfolding csv_append csv_ensure grow
  csv_append-Appends s b small fits =
      let needed : ℕ = (length b.text + length s + 1) % 2 ^ 64 in
      let first : ℕ = if b.capacity == 0 then 512 else b.capacity in
      let first_le : first ≤ 2 ^ 62 = ground (arith, small) in
      let grows : 2 ^ 64 ≤ first * 2 ^ double_fuel = ground arith in
      let len = length-append b.text s in
      elim (Bool-cases (leb needed b.capacity)) [
        | inl e ↦ rw e (inr (refl, refl, record { within = ground (arith, len); small = small }))
        | inr e ↦
            let (m, q, le) =
              double_until_small double_fuel needed first (omega arith) first_le grows in
            let large = double_until-grown double_fuel needed first m q in
            elim (Bool-cases (grants m)) [
              | inl g ↦
                  rw (e, q, g)
                    (inr (refl, refl, record { within = omega (arith, len, large); small = le }))
              | inr g ↦ rw (e, q, g) (inl (refl, λ p. cc (p.gives m le)))
            ]
      ]

  csv_append-Writes : (s : CString) → Writes s (csv_append grants s)
  csv_append-Writes s b room fits = csv_append-Appends s b room.small fits

  write_quoted-Writes : (s : CString) → Writes (closed s) (write_quoted grants s)
  unfolding write_quoted
  write_quoted-Writes [] = csv_append-Writes (b'"' ∷ [])
  write_quoted-Writes (c ∷ s) =
      let piece : CString = if c == b'"' then codes "\"\"" else c ∷ [] in
      >>-Writes piece (closed s) _ _ (csv_append-Writes piece) (write_quoted-Writes s)

  write_value-Writes : (s : CString) → Writes (field_text s) (write_value grants s)
  unfolding write_value field_text guarded
  write_value-Writes s = elim (Bool-cases (needs_formula_prefix s)) [
    | inl f ↦ elim (Bool-cases (needs_quote s)) [
      | inl q ↦
          rw (f, q)
            (>>-Writes (b'"' ∷ b'\'' ∷ []) (closed s) _ _
              (>>-Writes (b'"' ∷ []) (b'\'' ∷ []) _ _ (csv_append-Writes (b'"' ∷ []))
                (csv_append-Writes (b'\'' ∷ [])))
              (write_quoted-Writes s))
      | inr q ↦
          rw (f, q)
            (>>-Writes (b'"' ∷ b'\'' ∷ []) (closed s) _ _
              (>>-Writes (b'"' ∷ []) (b'\'' ∷ []) _ _ (csv_append-Writes (b'"' ∷ []))
                (csv_append-Writes (b'\'' ∷ [])))
              (write_quoted-Writes s))
    ]
    | inr f ↦ elim (Bool-cases (needs_quote s)) [
      | inl q ↦
          rw (f, q)
            (>>-Writes (b'"' ∷ []) (closed s) _ _ (csv_append-Writes (b'"' ∷ []))
              (write_quoted-Writes s))
      | inr q ↦ rw (f, q) (csv_append-Writes s)
    ]
  ]

  write_fields-Writes :
      (first : Bool) (fs : List CString)
      → Writes (fields_text first fs) (write_fields grants first fs)
  unfolding write_fields fields_text csv_write_field
  write_fields-Writes first [] = csv_append-Writes (codes "\r\n")
  write_fields-Writes true (f ∷ fs) =
      >>-Writes (field_text f) (fields_text false fs) _ _ (write_value-Writes f)
        (write_fields-Writes false fs)
  write_fields-Writes false (f ∷ fs) =
      >>-Writes (b',' ∷ field_text f) (fields_text false fs) _ _
        (>>-Writes (b',' ∷ []) (field_text f) _ _ (csv_append-Writes (b',' ∷ []))
          (write_value-Writes f))
        (write_fields-Writes false fs)

  rows_text-append :
      (rs qs : List (List CString)) → rows_text (rs ++ qs) ≡ rows_text rs ++ rows_text qs
  unfolding rows_text
  rows_text-append [] qs = refl
  rows_text-append (r ∷ rs) qs = simp (rows_text-append rs qs, append_assoc)

  module _ (scan_id identity : CString) where
    check_row-Writes :
        (check : CheckResult) (severity path message : CString)
        → Writes
            (fields_text true (row_of scan_id identity check severity path message))
            (write_check_row grants scan_id identity check severity path message)
    unfolding write_check_row csv_write_row row_of
    check_row-Writes check severity path message =
        write_fields-Writes true (row_of scan_id identity check severity path message)

    findings-Writes :
        (check : CheckResult) (fs : List Finding)
        → Writes
            (rows_text (
              map
                (λ g. row_of scan_id identity check (severity_string g.severity) g.path g.message)
                fs))
            (write_findings grants scan_id identity check fs)
    unfolding write_findings rows_text
    findings-Writes check [] = no_text-Writes
    findings-Writes check (f ∷ fs) =
        >>-Writes _ _ _ _ (check_row-Writes check (severity_string f.severity) f.path f.message)
          (findings-Writes check fs)

    check-Writes :
        (check : CheckResult) (fs : List Finding)
        → Writes
            (rows_text (check_rows scan_id identity check fs))
            (write_check grants scan_id identity check fs)
    unfolding write_check check_rows rows_text
    check-Writes check [] =
        rw (append-nil (fields_text true (row_of scan_id identity check [] [] [])))
          (check_row-Writes check [] [] [])
    check-Writes check (f ∷ fs) = findings-Writes check (f ∷ fs)

    pub checks-Writes :
        (checks : List CheckResult)
        → Writes
            (rows_text (checks_rows scan_id identity checks))
            (write_checks grants scan_id identity checks)
    unfolding write_checks checks_rows rows_text
    checks-Writes [] = no_text-Writes
    checks-Writes (check ∷ checks) =
        let rows = check_rows scan_id identity check check.findings.items in
        rw (rows_text-append rows (checks_rows scan_id identity checks)) (
          >>-Writes (rows_text rows) (rows_text (checks_rows scan_id identity checks)) _ _
            (check-Writes check check.findings.items) (checks-Writes checks))
