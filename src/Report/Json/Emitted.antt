-- ===== src/Report/Json/Emitted.antt =====
-- The calls of the report are those of its document.
use native.Mathlib.Nat.{zero-add}
use usb_sentinel.Prelude.{
  ℕ, suc, ◌+◌, ◌≡◌, refl, sym, ap, ◌∙◌, inl, inr, Bool, List, [], ◌∷◌, ◌++◌, some, append_assoc,
  CString, codes, arith, length, Bool-cases,
}
use usb_sentinel.Core.Device.{Device, is_given}
use usb_sentinel.Core.Json.Calls.{
  Call, begin_object, end_object, begin_array, end_array, null, key, string, int, uint, bool_value,
  member_string, member_int, member_uint, member_bool, call, run,
}
use usb_sentinel.Core.Json.Document.{calls, calls_items, calls_members, Members}
use usb_sentinel.Core.Json.Writer.{Writer}
use usb_sentinel.Core.Json.Writer
use usb_sentinel.Core.Scan.{
  CheckStatus, ran, skipped, failed, Finding, CheckResult, Capabilities, ScanResult,
  check_status_string,
}
use usb_sentinel.Report.Json.Report.{
  mount_items, device_members, capability_members, finding_items, outcome_members, check_items,
  counts, with_status, findings_of, summary_members, scan_members, tool_members, report_document,
}
use usb_sentinel.Report.Json.{
  write_mount_points, write_device, write_capabilities, CheckTally, count_check, write_outcome,
  write_findings, write_check_loop, write_checks, write_summary, report_calls,
}

-- A call for a member is one for its key and one for its value.
spelled : List Call → List Call
spelled [] = []
spelled (member_string k v ∷ cs) = key k ∷ string v ∷ spelled cs
spelled (member_int k v ∷ cs) = key k ∷ int v ∷ spelled cs
spelled (member_uint k v ∷ cs) = key k ∷ uint v ∷ spelled cs
spelled (member_bool k v ∷ cs) = key k ∷ bool_value v ∷ spelled cs
spelled (begin_object ∷ cs) = begin_object ∷ spelled cs
spelled (end_object ∷ cs) = end_object ∷ spelled cs
spelled (begin_array ∷ cs) = begin_array ∷ spelled cs
spelled (end_array ∷ cs) = end_array ∷ spelled cs
spelled (null ∷ cs) = null ∷ spelled cs
spelled (key k ∷ cs) = key k ∷ spelled cs
spelled (string v ∷ cs) = string v ∷ spelled cs
spelled (int v ∷ cs) = int v ∷ spelled cs
spelled (uint v ∷ cs) = uint v ∷ spelled cs
spelled (bool_value v ∷ cs) = bool_value v ∷ spelled cs

run-spelled :
    (grants : ℕ → Bool) (cs : List Call) (w : Writer) → run grants (spelled cs) w ≡ run grants cs w
unfolding spelled run call Writer.member_string Writer.member_int Writer.member_uint
    Writer.member_bool
run-spelled grants [] w = refl
run-spelled grants (member_string k v ∷ cs) w = run-spelled grants cs _
run-spelled grants (c ∷ cs) w = run-spelled grants cs _

spelled-append : (cs ds : List Call) → spelled (cs ++ ds) ≡ spelled cs ++ spelled ds
unfolding spelled
spelled-append [] ds = refl
spelled-append (member_string k v ∷ cs) ds = rw (spelled-append cs ds) refl
spelled-append (c ∷ cs) ds = rw (spelled-append cs ds) refl

write_mount_points-Emits :
    (paths : List CString) → spelled (write_mount_points paths) ≡ calls_items (mount_items paths)
unfolding spelled write_mount_points calls_items mount_items
write_mount_points-Emits [] = refl
write_mount_points-Emits (p ∷ paths) = rw (write_mount_points-Emits paths) refl

write_device-Emits :
    (device : Device)
    → spelled (write_device device)
      ≡ key (some (codes "device")) ∷ begin_object ∷ calls_members (device_members device)
unfolding spelled write_device calls_items device_members
write_device-Emits device =
    rw
      (
        spelled-append (write_mount_points device.mount_points) _,
        write_mount_points-Emits device.mount_points,
      )
      refl

write_findings-Emits :
    (fs : List Finding) (n : ℕ)
    → (spelled (write_findings fs n).0 ≡ calls_items (finding_items fs))
      × ((write_findings fs n).1 ≡ n + length fs)
unfolding spelled write_findings calls_items finding_items
write_findings-Emits [] n = (refl, omega arith)
write_findings-Emits (f ∷ fs) n =
    let (e, m) = write_findings-Emits fs (suc n) in (rw e refl, omega (arith, m))

write_outcome-Emits :
    (status : CheckStatus) (reason message : CString) (rest tail : List Call) (ms : Members)
    → spelled rest ≡ calls_members ms ++ tail
    → spelled (write_outcome status reason message ++ rest)
      ≡ calls_members (outcome_members status reason message ms) ++ tail
unfolding spelled write_outcome calls_members outcome_members
write_outcome-Emits ran reason message rest tail ms e = elim (Bool-cases (is_given message)) [
  | inl given ↦ rw given (rw e refl)
  | inr blank ↦ rw blank e
]
write_outcome-Emits skipped reason message rest tail ms e = rw e refl
write_outcome-Emits failed reason message rest tail ms e = rw e refl

-- The counters after the checks.
abbrev added : List CheckResult → CheckTally → CheckTally
added checks t = record {
  run = t.run + with_status ran checks;
  skipped = t.skipped + with_status skipped checks;
  failed = t.failed + with_status failed checks;
  findings = t.findings + findings_of checks;
}

count_check-added :
    (s : CheckStatus) (t : CheckTally) (n r k f m g : ℕ)
    → n ≡ (count_check s t).findings + m
    → ◌≡◌ {A = CheckTally}
        (record {
          run = (count_check s t).run + r;
          skipped = (count_check s t).skipped + k;
          failed = (count_check s t).failed + f;
          findings = n + g;
        })
        (record {
          run = t.run + (counts ran s + r);
          skipped = t.skipped + (counts skipped s + k);
          failed = t.failed + (counts failed s + f);
          findings = t.findings + (m + g);
        })
unfolding count_check
count_check-added ran t n r k f m g e = ground arith
count_check-added skipped t n r k f m g e = ground arith
count_check-added failed t n r k f m g e = ground arith

added-nil : (t : CheckTally) → t ≡ added [] t
unfolding with_status findings_of
added-nil t = ground arith

write_check_loop-Emits :
    (checks : List CheckResult) (t : CheckTally)
    → (spelled (write_check_loop checks t).0 ≡ calls_items (check_items checks))
      × ((write_check_loop checks t).1 ≡ added checks t)
unfolding spelled write_check_loop calls_items check_items with_status findings_of
write_check_loop-Emits [] t = (refl, added-nil t)
write_check_loop-Emits (check ∷ checks) t =
    let counted = count_check check.status t in
    let (found, n) = write_findings-Emits check.findings.items counted.findings in
    let (rest, sum) =
      write_check_loop-Emits checks
        (record counted { findings = (write_findings check.findings.items counted.findings).1 }) in
    let listed = (write_findings check.findings.items counted.findings).0 in
    let tail =
      (write_check_loop checks (record counted {
        findings = (write_findings check.findings.items counted.findings).1;
      })).0 in
    let closing : spelled (listed ++ (end_object ∷ tail))
        ≡ (calls_items (finding_items check.findings.items) ++ (end_object ∷ []))
          ++ calls_items (check_items checks) =
      spelled-append listed (end_object ∷ tail)
      ∙ rw (found, rest)
          (sym (append_assoc (calls_items (finding_items check.findings.items)) _ _)) in
    (
      ap
          (λ x.
            begin_object
            ∷ key (some (codes "id"))
            ∷ string (some check.id)
            ∷ key (some (codes "status"))
            ∷ string (some (check_status_string check.status))
            ∷ x)
          (write_outcome-Emits check.status check.skip_reason check.message _
            (calls_items (check_items checks)) _
            (ap (λ x. key (some (codes "findings")) ∷ begin_array ∷ x) closing)),
      sum
          ∙ count_check-added check.status t _ (with_status ran checks) (with_status skipped checks)
              (with_status failed checks) (length check.findings.items) (findings_of checks) n,
    )

-- The numbers that the summary gets.
pub write_checks-tally :
    (checks : List CheckResult)
    → (write_checks checks).1 ≡ record {
      run = with_status ran checks;
      skipped = with_status skipped checks;
      failed = with_status failed checks;
      findings = findings_of checks;
    }
unfolding write_checks
write_checks-tally checks =
    (write_check_loop-Emits checks (record { run = 0; skipped = 0; failed = 0; findings = 0 })).1
    ∙ simp (zero-add) refl

write_checks-Emits :
    (checks : List CheckResult)
    → (spelled (write_checks checks).0
        ≡ key (some (codes "checks")) ∷ begin_array ∷ calls_items (check_items checks))
      × (spelled (write_summary (write_checks checks).1)
          ≡ key (some (codes "summary")) ∷ begin_object ∷ calls_members (summary_members checks))
unfolding spelled write_checks write_summary calls_items summary_members
write_checks-Emits checks =
    let (e, _) =
      write_check_loop-Emits checks (record { run = 0; skipped = 0; failed = 0; findings = 0 }) in
    (rw e refl, rw (write_checks-tally checks, write_checks) refl)

write_capabilities-Emits :
    (caps : Capabilities)
    → spelled (write_capabilities caps)
      ≡ key (some (codes "capabilities")) ∷ begin_object ∷ calls_members (capability_members caps)
unfolding spelled write_capabilities calls_members capability_members
write_capabilities-Emits caps = refl

report-Emits :
    (version : CString) (result : ScanResult)
    → spelled (report_calls version result) ≡ calls (report_document version result)
unfolding spelled report_calls calls report_document tool_members scan_members
report-Emits version result =
    let (checks, summary) = write_checks-Emits result.checks.items in
    rw
      (
        spelled-append (write_device result.device) _,
        write_device-Emits result.device,
        spelled-append (write_capabilities result.capabilities) _,
        write_capabilities-Emits result.capabilities,
        spelled-append (write_checks result.checks.items).0 _,
        checks,
        spelled-append (write_summary (write_checks result.checks.items).1) _,
        summary,
      )
      refl

-- The writer ends as with the calls for the report's document.
pub run-report_calls :
    (grants : ℕ → Bool) (version : CString) (result : ScanResult) (w : Writer)
    → run grants (report_calls version result) w
      ≡ run grants (calls (report_document version result)) w
run-report_calls grants version result w =
    sym (run-spelled grants (report_calls version result) w)
    ∙ ap (λ cs. run grants cs w) (report-Emits version result)
