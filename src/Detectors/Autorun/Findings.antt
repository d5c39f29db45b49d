-- ===== src/Detectors/Autorun/Findings.antt =====
-- The finding for the text of the file.
use usb_sentinel.Prelude.{
  ℕ, ◌<◌, ◌≡◌, refl, ap₂, ◌↔◌, ◌⊎◌, inl, inr, Bool, true, ◌||◌, List, [], ◌∷◌, CString, codes,
  take-eq_self, arith, length, if◌then◌else◌, Bool-cases, lower_ascii,
}
use usb_sentinel.Core.Scan.{Severity, info, warning, Finding, finding_list_push, no_findings}
use usb_sentinel.Core.Vector
use usb_sentinel.Detectors.Autorun.{contains_ci, c_string, finding_of}
use usb_sentinel.Detectors.Autorun.Folding.{fold, Within, contains_ci_iff}

-- A launch directive stands in the text in front of the first NUL.
abbrev pub Launches : List ℕ → Type 0
Launches buf =
    Within (fold (c_string buf)) (codes "open=")
    ⊎ Within (fold (c_string buf)) (codes "shellexecute=")

pub Launches-iff :
    (buf : List ℕ)
    → ((contains_ci (c_string buf) (codes "open=")
          || contains_ci (c_string buf) (codes "shellexecute="))
        ≡ true)
      ↔ Launches buf
unfolding lower_ascii
Launches-iff buf =
    let opening = contains_ci_iff (c_string buf) (codes "open=") (omega arith) in
    let running = contains_ci_iff (c_string buf) (codes "shellexecute=") (omega arith) in
    elim (Bool-cases (contains_ci (c_string buf) (codes "open="))) [
      | inl opens_it ↦ (λ h. inl (opening.0 opens_it), λ l. ground (arith, opens_it))
      | inr opens_not ↦ (
        λ h. inr (running.0 (ground (arith, h, opens_not))),
        λ l. elim l [
          | inl w ↦ absurd (ground (arith, opening.1 w, opens_not))
          | inr w ↦ ground (arith, running.1 w)
        ],
      )
    ]

-- A record is its severity, its message and its path.
pub refinding :
    (f : Finding) {severity : Severity} {path : CString}
    → f.severity ≡ severity
    → f.path ≡ path
    → f ≡ record { severity = severity; message = f.message; path = path }
refinding f = ap₂ (λ s p. record { severity = s; message = f.message; path = p })

abbrev pub launch_found : List ℕ → Bool
launch_found buf =
    contains_ci (c_string buf) (codes "open=") || contains_ci (c_string buf) (codes "shellexecute=")

pub finding_of-severity :
    (name : CString) (buf : List ℕ)
    → (finding_of name buf).severity ≡ (if launch_found buf then warning else info)
unfolding finding_of
finding_of-severity name buf = elim (Bool-cases (launch_found buf)) [
  | inl e ↦ simp (e) refl
  | inr e ↦ simp (e) refl
]

pub finding_of-path :
    (name : CString) (buf : List ℕ) → length name < 1024 → (finding_of name buf).path ≡ name
unfolding finding_of
finding_of-path name buf short =
    let whole = take-eq_self 1023 name (omega arith) in
    elim (Bool-cases (launch_found buf)) [ inl e ↦ simp (e) whole | inr e ↦ simp (e) whole ]

pub first_finding :
    (grants : ℕ → Bool) (f : Finding)
    → grants 5136 ≡ true
    → (finding_list_push grants no_findings f).1.items ≡ f ∷ []
unfolding finding_list_push Vector.push no_findings Vector.empty
first_finding grants f granted = simp (granted) refl
