-- ===== src/Detectors/Autorun/Naming.antt =====
-- Which file the inspection opens.
use usb_sentinel.Prelude.{
  ℕ, ◌≡◌, refl, sym, ap, ◌∙◌, inl, inr, Option, none, some, CString, arith, length, Bool-cases,
  lower_ascii,
}
use usb_sentinel.Detectors.Autorun.{
  equals_ci, find_in, find_autorun_name, autorun_name, autorun_filename,
}
use usb_sentinel.Detectors.Autorun.Folding.{fold, length-fold, equals_ci_iff}
use usb_sentinel.Platform.{Visit, Listing, refuses, opens, ends, cancels, fails, lists}

find_in-fold :
    (listing : Listing) (size : ℕ) (name : CString)
    → find_in listing size ≡ some name
    → fold name ≡ autorun_filename
unfolding find_in lower_ascii
find_in-fold ends size name e = cc
find_in-fold (cancels rest) size name e = find_in-fold rest size name e
find_in-fold (fails status reachable) size name e = cc
find_in-fold (lists entry visit rest) size name e = elim (Bool-cases entry.is_directory) [
  | inl folder ↦ find_in-fold rest size name (ground (arith, e, folder))
  | inr file ↦ elim (Bool-cases (equals_ci entry.name autorun_filename)) [
    | inl found ↦
        let same : entry.name ≡ name = ground (arith, e, file, found) in
        ap fold (sym same) ∙ (equals_ci_iff entry.name autorun_filename).0 found
    | inr other ↦ find_in-fold rest size name (ground (arith, e, file, other))
  ]
]

named :
    (found_name : Option CString)
    → ((name : CString) → found_name ≡ some name → fold name ≡ autorun_filename)
    → fold (elim found_name [ none ↦ autorun_filename | some name ↦ name ]) ≡ autorun_filename
unfolding lower_ascii
named none folds = refl
named (some name) folds = folds name refl

-- Whatever the volume root answers, the file that is opened has the name autorun.inf but for the
-- case of its letters.
pub autorun_name-fold : (root : Visit) → fold (autorun_name root) ≡ autorun_filename
unfolding autorun_name find_autorun_name lower_ascii
autorun_name-fold (refuses status reachable) = refl
autorun_name-fold (opens listing) =
    named (find_in listing 1024) (λ name e. find_in-fold listing 1024 name e)

pub length-autorun_name : (root : Visit) → length (autorun_name root) ≡ 11
length-autorun_name root =
    sym (length-fold (autorun_name root)) ∙ ap length (autorun_name-fold root)
