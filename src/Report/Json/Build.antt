-- ===== src/Report/Json/Build.antt =====
-- What `usbs_report_build_json` hands out, and what a reader makes of it.
use usb_sentinel.Prelude.{
  ℕ, ◌+◌, ◌≤◌, ◌≡◌, refl, inl, inr, Bool, true, List, [], ◌∷◌, some, CString, codes, arith, length,
  Bool-cases,
}
use usb_sentinel.Core.Device.{is_given}
use usb_sentinel.Core.Json.Document.{
  print, height, height_items, height_members, Members, no_members, member, array,
}
use usb_sentinel.Core.Json.Emit.{finish-print}
use usb_sentinel.Core.Json.Meaning.{value_of, IsTextual}
use usb_sentinel.Core.Json.Reader.{parse}
use usb_sentinel.Core.Json.Values.{TakesIntegers}
use usb_sentinel.Core.Json.Writer.{init}
use usb_sentinel.Core.Json.RoundTrip.{parse-print}
use usb_sentinel.Core.Json.Strings
use usb_sentinel.Core.Json.Writes.{Plenty, text_max}
use usb_sentinel.Core.Scan.{CheckStatus, ran, skipped, failed, Finding, CheckResult, ScanResult}
use usb_sentinel.Report.Json.Emitted.{run-report_calls}
use usb_sentinel.Report.Json.Report.{
  mount_items, device_members, capability_members, finding_items, outcome_members, check_items,
  summary_members, scan_members, tool_members, report_document,
}
use usb_sentinel.Report.Json.{copy_text, build_json}
use usb_sentinel.Status.{ok}

height-mount_items : (paths : List CString) → height_items (mount_items paths) ≡ 0
unfolding mount_items height
height-mount_items [] = refl
height-mount_items (p ∷ paths) = omega (arith, height-mount_items paths)

height-finding_items : (fs : List Finding) → height_items (finding_items fs) ≤ 1
unfolding finding_items height
height-finding_items [] = omega arith
height-finding_items (f ∷ fs) = omega (arith, height-finding_items fs)

height-outcome_members :
    (s : CheckStatus) (reason message : CString) (ms : Members)
    → height_members (outcome_members s reason message ms) ≤ height_members ms
unfolding outcome_members height
height-outcome_members ran reason message ms = elim (Bool-cases (is_given message)) [
  | inl e ↦ rw e (omega arith)
  | inr e ↦ rw e (omega arith)
]
height-outcome_members skipped reason message ms = omega arith
height-outcome_members failed reason message ms = omega arith

height-check_items : (checks : List CheckResult) → height_items (check_items checks) ≤ 3
unfolding check_items height
height-check_items [] = omega arith
height-check_items (check ∷ checks) =
    let found = height-finding_items check.findings.items in
    let ms = member (codes "findings") (array (finding_items check.findings.items)) no_members in
    omega (
      arith,
      found,
      height-check_items checks,
      height-outcome_members check.status check.skip_reason check.message ms,
    )

height-report_document :
    (version : CString) (result : ScanResult) → height (report_document version result) ≤ 5
unfolding report_document height tool_members scan_members device_members capability_members
    summary_members
height-report_document version result =
    omega
      (arith, height-mount_items result.device.mount_points, height-check_items result.checks.items)

module _ (grants copies : ℕ → Bool) (mem : Plenty grants) (granted : (n : ℕ) → copies n ≡ true)
    {D : Type 0} (strtod : CString → D × ℕ) (takes : TakesIntegers strtod) where
  -- With memory at hand and a strtod that takes the whole of a decimal integer, the JSON report
  -- on a scan whose texts are C strings and whose print has at most 2 ^ 60 bytes is built; it is
  -- the print of the document of the scan, in which the summary counts the checks of each status
  -- and the findings, and it parses to the value of that document.
  pub parse-build_json :
      (version : CString) (result : ScanResult)
      → IsTextual (report_document version result)
      → length (print (report_document version result)) ≤ text_max
      → (build_json version grants copies (some result)
          ≡ (ok, some (print (report_document version result))))
        × (parse strtod (print (report_document version result))
            ≡ Strings.ok (value_of strtod (report_document version result)))
  unfolding build_json copy_text
  parse-build_json version result texts short =
      let d = report_document version result in
      let flat = height-report_document version result in
      (
        rw
            (
              run-report_calls grants version result init,
              finish-print grants mem d (omega (arith, flat)) short,
              granted (length (print d) + 1),
            )
            refl,
        parse-print strtod takes d texts (omega (arith, flat)),
      )
