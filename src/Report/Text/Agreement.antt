-- ===== src/Report/Text/Agreement.antt =====
-- The counters of the text report and those of the JSON report.
use native.Mathlib.Nat.{zero-add}
use usb_sentinel.Prelude.{
  ℕ, zero, suc, ◌+◌, ◌/◌, ◌%◌, ◌≡◌, ◌≢◌, ◌↔◌, All, within, refl, ap, ◌∙◌, Bool, true, false, ◌||◌,
  List, [], ◌∷◌, ◌++◌, CString, codes, arith, ltb, drop, inl, inr, Bool-cases,
}
use usb_sentinel.Core.Scan.{CheckStatus, ran, skipped, failed, CheckResult}
use usb_sentinel.Report.Json.Report.{counts, with_status}
use usb_sentinel.Core.Json.Decimal.{digits_onto, print_uint}
use usb_sentinel.Report.Json.Emitted.{write_checks-tally}
use usb_sentinel.Report.Json.{write_checks}
use usb_sentinel.Report.Text.{Counts, count_outcome, check_lines, summary_line}

abbrev after : List CheckResult → Counts → Counts
after checks n = record {
  skipped = n.skipped + with_status skipped checks;
  failed = n.failed + with_status failed checks;
}

count_outcome-after :
    (s : CheckStatus) (n : Counts) (k f : ℕ)
    → ◌≡◌ {A = Counts}
        (record {
          skipped = (count_outcome s n).skipped + k;
          failed = (count_outcome s n).failed + f;
        })
        (record {
          skipped = n.skipped + (counts skipped s + k);
          failed = n.failed + (counts failed s + f);
        })
unfolding count_outcome
count_outcome-after ran n k f = ground arith
count_outcome-after skipped n k f = ground arith
count_outcome-after failed n k f = ground arith

after-nil : (n : Counts) → n ≡ after [] n
unfolding with_status
after-nil n = ground arith

pub check_lines-after :
    (checks : List CheckResult) (n : Counts) → (check_lines checks n).1 ≡ after checks n
unfolding check_lines with_status
check_lines-after [] n = after-nil n
check_lines-after (check ∷ checks) n =
    check_lines-after checks (count_outcome check.status n)
    ∙ count_outcome-after check.status n (with_status skipped checks) (with_status failed checks)

starts_with_digit : CString → Bool
starts_with_digit [] = false
starts_with_digit (c ∷ s) = within b'0' b'9' c

digits_onto-starts :
    (f n : ℕ) (rest : CString)
    → starts_with_digit rest ≡ true
    → starts_with_digit (digits_onto f n rest) ≡ true
unfolding digits_onto starts_with_digit
digits_onto-starts zero n rest h = h
digits_onto-starts (suc f) n rest h =
    ground (arith, digits_onto-starts f (n / 10) ((b'0' + n % 10) ∷ rest))

print_uint-starts : (n : ℕ) → starts_with_digit (print_uint n) ≡ true
unfolding print_uint digits_onto starts_with_digit
print_uint-starts n = ground (arith, digits_onto-starts 19 (n / 10) ((b'0' + n % 10) ∷ []))

no_letter : (s t u : CString) → starts_with_digit s ≡ true → s ++ t ≢ b'A' ∷ u
unfolding starts_with_digit
no_letter [] t u h e = cc
no_letter (c ∷ s) t u h e = ground arith

abbrev pub all_ran : CString
all_ran = codes "  All checks ran.\n"

summary_line-all_ran :
    (n : Counts) → (summary_line n ≡ all_ran) ↔ ((n.skipped ≡ 0) × (n.failed ≡ 0))
unfolding summary_line
summary_line-all_ran n = elim (Bool-cases (ltb 0 n.skipped || ltb 0 n.failed)) [
  | inl e ↦ (
    λ h. absurd (
        no_letter (print_uint n.skipped) _ _ (print_uint-starts n.skipped)
          (ap (drop 2) (simp (e) at h))),
    λ z. ground (arith, z.0, z.1),
  )
  | inr e ↦ (λ h. ground arith, λ z. rw e refl)
]

ran_iff :
    (s : CheckStatus) (k f : ℕ)
    → ((counts skipped s + k ≡ 0) × (counts failed s + f ≡ 0)) ↔ ((s ≡ ran) × (k ≡ 0) × (f ≡ 0))
ran_iff ran k f = ground arith
ran_iff skipped k f = ground arith
ran_iff failed k f = ground arith

with_status-ran :
    (checks : List CheckResult)
    → ((with_status skipped checks ≡ 0) × (with_status failed checks ≡ 0))
      ↔ All (λ (check : CheckResult). check.status ≡ ran) checks
unfolding with_status
with_status-ran [] = (λ _. tt, λ _. (refl, refl))
with_status-ran (check ∷ checks) =
    let one = ran_iff check.status (with_status skipped checks) (with_status failed checks) in
    let rest = with_status-ran checks in
    (
      λ h. let (r, k, f) = one.0 h in (r, rest.0 (k, f)),
      λ h. one.1 (h.0, (rest.1 h.1).0, (rest.1 h.1).1),
    )

abbrev pub start : Counts
start = record { skipped = 0; failed = 0 }

-- The text report and the JSON report count the same numbers of skipped and failed checks, and
-- the text report says that all checks ran exactly if every check has the status RAN.
pub check_lines-agree :
    (checks : List CheckResult)
    → ((check_lines checks start).1.skipped ≡ (write_checks checks).1.skipped)
      × ((check_lines checks start).1.failed ≡ (write_checks checks).1.failed)
      × ((summary_line (check_lines checks start).1 ≡ all_ran)
          ↔ All (λ (check : CheckResult). check.status ≡ ran) checks)
check_lines-agree checks =
    let n : (check_lines checks start).1
        ≡ record { skipped = with_status skipped checks; failed = with_status failed checks } =
      check_lines-after checks start ∙ simp (zero-add) refl in
    let t = write_checks-tally checks in
    let line = summary_line-all_ran (check_lines checks start).1 in
    let all = with_status-ran checks in
    (
      rw (n, t) refl,
      rw (n, t) refl,
      (
        λ h.
            all.0 (
              rw (← ap (λ (c : Counts). c.skipped) n, ← ap (λ (c : Counts). c.failed) n)
                (line.0 h)),
        λ h. line.1 (rw n (all.1 h)),
      ),
    )
