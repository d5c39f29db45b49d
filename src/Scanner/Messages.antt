-- ===== src/Scanner/Messages.antt =====
-- The message of the check "file_traversal" is never cut.
use usb_sentinel.Prelude.{
  ℕ, ◌+◌, ◌-◌, ◌≤◌, ◌<◌, ◌≡◌, refl, ◌∙◌, ap, ap₂, inl, inr, true, [], ◌++◌, append-nil, CString,
  clip, take, take-eq_self, ltb, if◌then◌else◌, arith, length, length-append, Bool-cases,
}
use usb_sentinel.Core.Json.Decimal.{print_uint}
use usb_sentinel.Core.Json.Digits.{length-digits_onto-le}
use usb_sentinel.Scanner.Report.{
  check_message_max, outcome, count_text, skipped_text, excluded_text, Printed, print_more,
  traversal_message,
}
use usb_sentinel.Scanner.Walk.{TraverseState}

-- The text for a count, where there is something to count
abbrev pub noted : ℕ → (ℕ → CString) → CString
noted n text = if ltb 0 n then text n else []

-- What is printed so far
record Whole (p : Printed) (text : CString) : Type 0 where
  exact : p.message ≡ text
  counted : p.written ≡ length text
  begun : 0 < length text

length-print_uint-le : (n : ℕ) → length (print_uint n) ≤ 20
unfolding print_uint
length-print_uint-le n = length-digits_onto-le 20 n []

length-outcome : (st : TraverseState) → length (outcome st) ≤ 19
unfolding outcome
length-outcome st = ground arith

length-count_text : (st : TraverseState) → length (count_text st) ≤ 79
unfolding count_text
length-count_text st = simp (length-append) (
    omega (
      arith,
      length-outcome st,
      length-print_uint-le st.file_count,
      length-print_uint-le st.byte_count,
    ))

length-count_text_pos : (st : TraverseState) → 0 < length (count_text st)
unfolding count_text outcome
length-count_text_pos st = ground arith

length-skipped_text : (n : ℕ) → length (skipped_text n) ≤ 74
unfolding skipped_text
length-skipped_text n = simp (length-append) (omega (arith, length-print_uint-le n))

length-excluded_text : (n : ℕ) → length (excluded_text n) ≤ 74
unfolding excluded_text
length-excluded_text n = simp (length-append) (omega (arith, length-print_uint-le n))

print_more-Whole :
    (count : ℕ) (text : ℕ → CString) (p : Printed) (so_far : CString)
    → Whole p so_far
    → length so_far + length (text count) < 256
    → Whole (print_more count (text count) p) (so_far ++ noted count text)
unfolding print_more
print_more-Whole count text p so_far whole fits = elim (Bool-cases (ltb 0 count)) [
  | inr none_counted ↦ simp (none_counted, append-nil) whole
  | inl e ↦
      let started : ltb 0 p.written ≡ true = ground (arith, whole.counted, whole.begun) in
      let roomy : ltb p.written check_message_max ≡ true = ground (arith, whole.counted) in
      let kept : take p.written p.message ≡ so_far =
        ap (take p.written) whole.exact
        ∙ take-eq_self p.written so_far (omega (arith, whole.counted)) in
      let added : take (256 - p.written - 1) (text count) ≡ text count =
        take-eq_self (256 - p.written - 1) (text count) (omega (arith, whole.counted)) in
      simp (e, started, roomy)
        (record {
          exact = ap₂ ◌++◌ kept added;
          counted = omega (arith, whole.counted, length-append so_far (text count));
          begun = omega (arith, whole.begun, length-append so_far (text count));
        })
]

length-noted : (n : ℕ) (text : ℕ → CString) → length (text n) ≤ 74 → length (noted n text) ≤ 74
length-noted n text h = ground (arith, h)

-- The message of the traversal check is never cut: it is the text of the two counts, with the
-- text of the skipped and of the excluded paths behind it where their count is not zero.
pub traversal_message-whole :
    (st : TraverseState)
    → traversal_message st
      ≡ (count_text st ++ noted st.paths_skipped skipped_text)
        ++ noted st.paths_excluded excluded_text
unfolding traversal_message
traversal_message-whole st =
    let first : Whole
        (record {
          written = length (count_text st);
          message = clip check_message_max (count_text st);
        })
        (count_text st) =
      record {
        exact = take-eq_self 255 (count_text st) (omega (arith, length-count_text st));
        counted = refl;
        begun = length-count_text_pos st;
      } in
    let skip = length-skipped_text st.paths_skipped in
    let second =
      print_more-Whole st.paths_skipped skipped_text _ _ first
        (omega (arith, length-count_text st, skip)) in
    (print_more-Whole st.paths_excluded excluded_text _ _ second (
      omega (
        arith,
        length-count_text st,
        length-noted st.paths_skipped skipped_text skip,
        length-append (count_text st) (noted st.paths_skipped skipped_text),
        length-excluded_text st.paths_excluded,
      ))).exact
