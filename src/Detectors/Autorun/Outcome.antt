-- ===== src/Detectors/Autorun/Outcome.antt =====
-- What the inspection of autorun.inf answers.
use usb_sentinel.Prelude.{
  ℕ, ◌<◌, ◌≡◌, refl, ap, ◌∙◌, ◌⊎◌, inl, inr, Bool, true, false, [], ◌∷◌, some, CString, codes,
  arith, length, length-append, if◌then◌else◌, not, take, Bool-cases,
}
use usb_sentinel.Core.Path.{Host, path_join, path_sep, ends_in_separator}
use usb_sentinel.Core.Path.Join.{closed, opened, path_join-fits}
use usb_sentinel.Core.Scan.{
  info, warning, ran, failed, CheckResult, check_result_init, set_failed, no_findings,
}
use usb_sentinel.Detectors.Autorun.{
  read_all, finding_of, is_not_found, inspect, autorun_name, detect_autorun,
}
use usb_sentinel.Detectors.Autorun.Naming.{length-autorun_name}
use usb_sentinel.Detectors.Autorun.Findings.{
  Launches, Launches-iff, refinding, launch_found, finding_of-severity, finding_of-path,
  first_finding,
}
use usb_sentinel.Detectors.Autorun.Reading.{given, fails_early, read_all-Reading}
use usb_sentinel.Detectors.Detector.{DetectContext}
use usb_sentinel.Platform.{Visit, Reads, FileVisit, denied, readable}
use usb_sentinel.Status.{Status, ok, not_found, is_ok}

-- What the check holds for each answer to the open.
pub data Reported (name : CString) : FileVisit → CheckResult → Type 0 where
  absent :
      {r : CheckResult}
      → r.status ≡ ran
      → r.findings ≡ no_findings
      → Reported name (denied not_found) r
  unopened :
      {status : Status} {r : CheckResult}
      → is_not_found status ≡ false
      → r.status ≡ failed
      → r.findings ≡ no_findings
      → Reported name (denied status) r
  broken :
      {reads : Reads} {r : CheckResult}
      → fails_early reads ≡ true
      → r.status ≡ failed
      → r.findings ≡ no_findings
      → Reported name (readable reads) r
  found :
      {reads : Reads} {r : CheckResult} (message : CString)
      → fails_early reads ≡ false
      → r.status ≡ ran
      → (Launches (take 8192 (given reads))
          × (r.findings.items ≡ record { severity = warning; message = message; path = name } ∷ []))
        ⊎ ((¬ Launches (take 8192 (given reads)))
            × (r.findings.items ≡ record { severity = info; message = message; path = name } ∷ []))
      → Reported name (readable reads) r

inspect-Reported :
    (grants : ℕ → Bool) (name : CString) (file : FileVisit)
    → grants 5136 ≡ true
    → length name < 1024
    → Reported name file
        (inspect grants name file (check_result_init (some (codes "autorun_inspection"))))
unfolding inspect check_result_init no_findings set_failed
inspect-Reported grants name (denied not_found) granted short = absent refl refl
inspect-Reported grants name (denied status) granted short = unopened refl refl refl
inspect-Reported grants name (readable reads) granted short =
    let buf = take 8192 (given reads) in
    let f = finding_of name buf in
    let pushed = first_finding grants f granted in
    let path = finding_of-path name buf short in
    let reading = read_all-Reading reads [] (omega arith) in
    elim (Bool-cases (fails_early reads)) [
      | inl e ↦
          let lost : is_ok (read_all reads []).0 ≡ false = reading.fine ∙ ap not e in
          simp (lost) (broken e refl refl)
      | inr e ↦
          let read : is_ok (read_all reads []).0 ≡ true = reading.fine ∙ ap not e in
          elim (Bool-cases (launch_found buf)) [
            | inl l ↦
                let severity : f.severity ≡ warning =
                  finding_of-severity name buf ∙ ap (λ b. if b then warning else info) l in
                simp (read, reading.text)
                  (found f.message e refl (
                    inl (
                      (Launches-iff buf).0 l,
                      pushed ∙ ap (λ g. g ∷ []) (refinding f severity path),
                    )))
            | inr n ↦
                let severity : f.severity ≡ info =
                  finding_of-severity name buf ∙ ap (λ b. if b then warning else info) n in
                simp (read, reading.text)
                  (found f.message e refl (
                    inr (
                      (λ l. absurd (ground (arith, (Launches-iff buf).1 l, n))),
                      pushed ∙ ap (λ g. g ∷ []) (refinding f severity path),
                    )))
          ]
    ]

joined :
    (host : Host) (volume name : CString)
    → length volume < 1024
    → length name < 500
    → is_ok (path_join host 1536 (some volume) (some name)).0 ≡ true
joined host volume name small short = elim (Bool-cases (ends_in_separator host volume)) [
  | inl e ↦
      ap (λ o. is_ok o.0)
        (path_join-fits host 1536 volume name (closed e) (omega (arith, length-append volume name))
          (omega (arith, length-append volume name)))
  | inr e ↦
      ap (λ o. is_ok o.0)
        (path_join-fits host 1536 volume name (opened e)
          (omega (arith, length-append volume (path_sep host ∷ name)))
          (omega (arith, length-append volume (path_sep host ∷ name))))
]

-- With a volume path of less than 1024 bytes and memory for the first findings, the inspection
-- answers OK; its check ran without findings where the file is not found, failed without findings
-- where it cannot be opened or a read fails in front of the 8192nd byte, and otherwise has one
-- finding under the name of the file, a WARNING exactly if, of the first 8192 bytes that the
-- reads give, the text in front of the first NUL holds open= or shellexecute= in any case of
-- letters, else an INFO.
pub detect_autorun-Reported :
    (host : Host) (grants : ℕ → Bool) (root : Visit) (file : FileVisit) (ctx : DetectContext)
    (out : CheckResult) (volume : CString)
    → ctx.volume_path ≡ some volume
    → length volume < 1024
    → grants 5136 ≡ true
    → (result : CheckResult) × (detect_autorun host grants root file (some ctx) (some out)
        ≡ (ok, some result))
      × Reported (autorun_name root) file result
unfolding detect_autorun
detect_autorun-Reported host grants root file ctx out volume given small granted = (
  inspect grants (autorun_name root) file (check_result_init (some (codes "autorun_inspection"))),
  (simp
      (
        given,
        joined host volume (autorun_name root) small (omega (arith, length-autorun_name root)),
      )
      refl),
  inspect-Reported grants (autorun_name root) file granted
      (omega (arith, length-autorun_name root)),
)
