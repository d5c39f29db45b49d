-- ===== src/Report/Csv/Readback.antt =====
-- The file that `usbs_report_build_csv` hands out, as a reader of the file and a spreadsheet take it.
use usb_sentinel.Prelude.{
  ℕ, ◌+◌, ◌≤◌, ◌≡◌, refl, ◌⊎◌, inl, inr, Bool, true, false, List, [], ◌∷◌, some, CString, arith,
  map, length, Bool-cases,
}
use usb_sentinel.Core.Json.Writes.{Plenty, text_max}
use usb_sentinel.Core.Scan.{ScanResult}
use usb_sentinel.Report.Csv.Build.{build_csv-Reports}
use usb_sentinel.Report.Csv.Reader.{read}
use usb_sentinel.Report.Csv.RoundTrip.{read-csv_text}
use usb_sentinel.Report.Csv.Rows.{Row, guarded, report_rows, header_row, csv_text}
use usb_sentinel.Report.Csv.{is_trigger, needs_formula_prefix, build_csv}
use usb_sentinel.Status.{ok}

-- A spreadsheet takes a field for a formula that begins with one of four characters.
abbrev pub IsFormula : CString → Type 0
IsFormula [] = ⊥
IsFormula (c ∷ s) = (c ≡ b'=') ⊎ ((c ≡ b'+') ⊎ ((c ≡ b'-') ⊎ (c ≡ b'@')))

-- A field is read as it is, or behind an apostrophe where it would be a formula.
abbrev pub IsDefused : CString → CString → Type 0
IsDefused s t = (IsFormula s × (t ≡ b'\'' ∷ s)) ⊎ ((¬ IsFormula s) × (t ≡ s))

abbrev pub Pairwise {ℓ} : {A : Type ℓ} → (A → A → Type 0) → List A → List A → Type 0
Pairwise R [] [] = Unit
Pairwise R (x ∷ xs) (y ∷ ys) = R x y × Pairwise R xs ys
Pairwise R [] (y ∷ ys) = ⊥
Pairwise R (x ∷ xs) [] = ⊥

Pairwise-map {ℓ} :
    {A : Type ℓ} (R : A → A → Type 0) (f : A → A) (xs : List A)
    → ((x : A) → R x (f x))
    → Pairwise R xs (map f xs)
Pairwise-map R f [] h = tt
Pairwise-map R f (x ∷ xs) h = (h x, Pairwise-map R f xs h)

is_trigger_no :
    (c : ℕ) → is_trigger c ≡ false → ¬ ((c ≡ b'=') ⊎ ((c ≡ b'+') ⊎ ((c ≡ b'-') ⊎ (c ≡ b'@'))))
unfolding is_trigger
is_trigger_no c h e = ground (arith, h, e)

is_trigger_yes :
    (c : ℕ) → is_trigger c ≡ true → (c ≡ b'=') ⊎ ((c ≡ b'+') ⊎ ((c ≡ b'-') ⊎ (c ≡ b'@')))
unfolding is_trigger
is_trigger_yes c h = ground (arith, h)

guarded-IsDefused : (s : CString) → IsDefused s (guarded s)
unfolding guarded needs_formula_prefix
guarded-IsDefused [] = inr ((λ e. e), refl)
guarded-IsDefused (c ∷ s) = elim (Bool-cases (is_trigger c)) [
  | inl e ↦ rw e (inl (is_trigger_yes c e, refl))
  | inr e ↦ rw e (inr (is_trigger_no c e, refl))
]

-- For a scan whose CSV text has at most 2 ^ 60 bytes, with plenty of memory for the buffer and
-- memory for the copy, the build of the CSV report succeeds, and a reader by RFC 4180 reads the
-- text that it hands out as the header row and the rows of the report, where each field stands as
-- it is, or behind an apostrophe exactly if it begins with one of the characters = + - @.
pub read-build_csv :
    (grants copies : ℕ → Bool) (result : ScanResult)
    → length (csv_text result) ≤ text_max
    → Plenty grants
    → copies (length (csv_text result) + 1) ≡ true
    → (text : CString) × (rows : List Row) × (build_csv grants copies (some result)
        ≡ (ok, some text))
      × (read text ≡ some (header_row ∷ rows))
      × Pairwise (Pairwise IsDefused) (report_rows result) rows
read-build_csv grants copies result short plenty copied =
    elim (build_csv-Reports grants copies result short) [
      | inl (e, refused) ↦ absurd (refused (plenty, copied))
      | inr built ↦ (
        csv_text result,
        map (map guarded) (report_rows result),
        built,
        read-csv_text result,
        Pairwise-map (Pairwise IsDefused) (map guarded) (report_rows result)
            (λ row. Pairwise-map IsDefused guarded row guarded-IsDefused),
      )
    ]
