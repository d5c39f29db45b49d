-- ===== src/Storage/LastScan/Newest.antt =====
-- The report that the lookup finds.
use native.Mathlib.Nat.{zero-add, add-zero}
use usb_sentinel.Prelude.{
  ℕ, suc, ◌+◌, ◌-◌, ◌<◌, ◌≡◌, refl, ap, ◌∙◌, ◌⊎◌, inl, inr, true, false, List, [], ◌∷◌, ◌++◌,
  Option, none, some, append-nil, append_assoc, CString, arith, if◌then◌else◌, All, length,
  take-eq_self, Bool-cases,
}
use usb_sentinel.Status.{ok}
use usb_sentinel.Storage.LastScan.{
  no_scan, Entries, ends, fails, entry, opens, str_gt, entry_name_max, is_report, newer,
  scan_entries, read_name, conclude_lookup, read_opened,
}

-- The names of the reports in a listing.
unfoldable pub reports : Entries → List CString
reports ends = []
reports (fails status) = []
reports (entry e rest) = if is_report e then e.name ∷ reports rest else reports rest

-- The listing ends without a failure, and its names fit their buffers.
abbrev pub IsListed : Entries → Type 0
IsListed ends = Unit {0}
IsListed (fails status) = ⊥
IsListed (entry e rest) = (length e.name < entry_name_max) × IsListed rest

abbrev pub Has : CString → List CString → Type 0
Has x [] = ⊥
Has x (y ∷ ys) = (x ≡ y) ⊎ Has x ys

-- `best` is among the names, and none is behind it in the order of `strcmp`.
pub record Greatest (best : CString) (names : List CString) : Type 0 where
  pub listed : Has best names
  pub highest : All (λ (n : CString). str_gt n best ≡ false) names

str_gt_irrefl : (a : CString) → str_gt a a ≡ false
unfolding str_gt
str_gt_irrefl [] = refl
str_gt_irrefl (x ∷ a) = ground (arith, str_gt_irrefl a)

-- What is not behind `b` is not behind a name that is.
str_gt_trans : (a b c : CString) → str_gt a b ≡ false → str_gt c b ≡ true → str_gt a c ≡ false
unfolding str_gt
str_gt_trans [] b c h k = refl
str_gt_trans (x ∷ a) [] c h k = cc
str_gt_trans (x ∷ a) (y ∷ b) [] h k = cc
str_gt_trans (x ∷ a) (y ∷ b) (z ∷ c) h k = ground (arith, str_gt_trans a b c)

Has-here : (x : CString) (xs : List CString) → Has x (xs ++ (x ∷ []))
Has-here x [] = inl refl
Has-here x (y ∷ xs) = inr (Has-here x xs)

Has-append : (x : CString) (xs ys : List CString) → Has x xs → Has x (xs ++ ys)
Has-append x [] ys h = elim h [ ]
Has-append x (y ∷ xs) ys (inl e) = inl e
Has-append x (y ∷ xs) ys (inr h) = inr (Has-append x xs ys h)

module _ (name : CString) where
  highest-kept :
      (b : CString) (xs : List CString)
      → All (λ (n : CString). str_gt n b ≡ false) xs
      → str_gt name b ≡ false
      → All (λ (n : CString). str_gt n b ≡ false) (xs ++ (name ∷ []))
  highest-kept b [] h k = (k, tt)
  highest-kept b (x ∷ xs) (h, hs) k = (h, highest-kept b xs hs k)

  highest-raised :
      (b : CString) (xs : List CString)
      → All (λ (n : CString). str_gt n b ≡ false) xs
      → str_gt name b ≡ true
      → All (λ (n : CString). str_gt n name ≡ false) (xs ++ (name ∷ []))
  highest-raised b [] h k = (str_gt_irrefl name, tt)
  highest-raised b (x ∷ xs) (h, hs) k = (str_gt_trans x b name h k, highest-raised b xs hs k)

-- What the loop has found in the names that it has seen.
abbrev Best : Option CString → List CString → Type 0
Best none seen = seen ≡ []
Best (some best) seen = Greatest best seen

newer-Best :
    (o : Option CString) (seen : List CString) (name : CString)
    → Best o seen
    → length name < entry_name_max
    → Best (newer o name) (seen ++ (name ∷ []))
unfolding newer
newer-Best none seen name e fits =
    rw (e, take-eq_self (entry_name_max - 1) name (omega arith))
      (record { listed = inl refl; highest = (str_gt_irrefl name, tt) })
newer-Best (some b) seen name h fits = elim (Bool-cases (str_gt name b)) [
  | inl later ↦
      rw (later, take-eq_self (entry_name_max - 1) name (omega arith))
        (record {
          listed = Has-here name seen;
          highest = highest-raised name b seen h.highest later;
        })
  | inr early ↦ rw early (record {
    listed = Has-append b seen (name ∷ []) h.listed;
    highest = highest-kept name b seen h.highest early;
  })
]

scan_entries-Best :
    (l : Entries) (count : ℕ) (o : Option CString) (seen : List CString)
    → IsListed l
    → Best o seen
    → (o' : Option CString) × (scan_entries count o l ≡ (ok, count + length (reports l), o'))
      × Best o' (seen ++ reports l)
unfolding scan_entries reports
scan_entries-Best ends count o seen h b = (o, rw (add-zero count) refl, rw (append-nil seen) b)
scan_entries-Best (fails status) count o seen h b = absurd h
scan_entries-Best (entry e rest) count o seen (fits, h) b = elim (Bool-cases (is_report e)) [
  | inl r ↦
      let (o', run, best) =
        scan_entries-Best rest (suc count) (newer o e.name) (seen ++ (e.name ∷ [])) h
          (newer-Best o seen e.name b fits) in
      (
        o',
        rw r (run ∙ ap (λ n. (ok, n, o')) (omega arith)),
        rw r (rw (← append_assoc seen (e.name ∷ []) (reports rest)) best),
      )
  | inr r ↦ rw r (scan_entries-Best rest count o seen h b)
]

conclude_lookup-Best :
    (names : List CString) (o : Option CString)
    → Best o names
    → ((names ≡ []) × (conclude_lookup (ok, length names, o) ≡ (ok, no_scan)))
      ⊎ ((best : CString) × Greatest best names
          × (conclude_lookup (ok, length names, o)
              ≡ (ok, read_name best (record no_scan { report_count = length names }))))
unfolding conclude_lookup
conclude_lookup-Best names none b = inl (b, rw b refl)
conclude_lookup-Best names (some best) b = inr (best, b, refl)

-- On a listing that ends without a failure and whose names fit their buffers, the lookup of the
-- last scan answers that there is none if the listing has no report, and otherwise reads the name
-- of a report that no other is behind in the order of strcmp, and counts the reports.
pub read_opened-Greatest :
    (l : Entries)
    → IsListed l
    → ((reports l ≡ []) × (read_opened (opens l) ≡ (ok, no_scan)))
      ⊎ ((best : CString) × Greatest best (reports l)
          × (read_opened (opens l)
              ≡ (ok, read_name best (record no_scan { report_count = length (reports l) }))))
unfolding read_opened
read_opened-Greatest l h =
    let (o, run, best) = scan_entries-Best l 0 none [] h refl in
    rw run (rw (zero-add (length (reports l))) (conclude_lookup-Best (reports l) o best))
