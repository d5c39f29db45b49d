-- ===== src/Detectors/SuspiciousFilename/Severity.antt =====
-- The severity that a name is reported with, for every name, device and location.
use usb_sentinel.Prelude.{
  ◌<◌, ◌≡◌, ◌∙◌, refl, ap, inl, inr, Bool, true, false, not, ◌||◌, ◌&&◌, Option, none, some,
  CString, codes, if◌then◌else◌, length, arith, Option-cases,
}
use usb_sentinel.Core.Location.Rules.{LocationKind, user_exposed, recent_items, dependency_tree}
use usb_sentinel.Core.Scan.{Severity, info, warning, high}
use usb_sentinel.Detectors.SuspiciousFilename.Extensions.{
  native_binary_extensions, str_ieq, in_set, nth_extension_from_end, is_executable_extension,
}
use usb_sentinel.Platform.{DirEntry}
use usb_sentinel.Detectors.SuspiciousFilename.OnFile.{
  fresh, append_reason, report_weighed, double_extension_rule, tally, message_max,
}
use usb_sentinel.Detectors.SuspiciousFilename.Rules.{
  has_double_extension_disguise, has_bidi_override, has_space_padding, weigh_double_extension,
}
use usb_sentinel.Detectors.SuspiciousFilename.Reasons.{
  reported, reported-append_reason, reported-high_rule, disguise_bound, of_verdict,
  reported-report_weighed,
}

-- The rule table of an internal drive; `none` is a name that is not reported.
unfoldable pub table : LocationKind → CString → Option Severity
table user_exposed ext = some high
table recent_items ext = if str_ieq ext (codes "lnk") then none else some warning
table dependency_tree ext = some (if in_set ext native_binary_extensions then warning else info)
table _ ext = some warning

-- One of the three rules that have no benign producer.
unfoldable pub breaks_strict_rule : DirEntry → Bool
breaks_strict_rule entry =
    has_bidi_override entry.name
    || (has_space_padding entry.name
        || (entry.is_hidden && is_executable_extension (nth_extension_from_end entry.name 1)))

-- For a double extension: HIGH on a USB device, and by the table elsewhere.
unfoldable pub double_severity : Bool → LocationKind → CString → Option Severity
double_severity tuned kind name = elim (has_double_extension_disguise name) [
  | none ↦ none
  | some reason ↦
      if not tuned
      then some high
      else (elim (nth_extension_from_end name 1) [ none ↦ none | some ext ↦ table kind ext ])
]

unfoldable pub expected_severity : Bool → LocationKind → DirEntry → Option Severity
expected_severity tuned kind entry =
    if breaks_strict_rule entry then some high else double_severity tuned kind entry.name

table-weigh_double_extension :
    (kind : LocationKind) (ext : CString)
    → of_verdict (weigh_double_extension kind ext) ≡ table kind ext
unfolding weigh_double_extension table
table-weigh_double_extension user_exposed ext = refl
table-weigh_double_extension recent_items ext = ground arith
table-weigh_double_extension dependency_tree ext = refl
table-weigh_double_extension _ ext = refl

-- Once the rule has found its reason.
reported-reason :
    (tuned : Bool) (kind : LocationKind) (name reason : CString)
    → 0 < length reason
    → length reason < message_max
    → reported (
        if not tuned
        then append_reason reason (record fresh { any_high_rule = true })
        else (elim (nth_extension_from_end name 1) [
          | none ↦ fresh
          | some last_ext ↦ report_weighed kind reason (weigh_double_extension kind last_ext) fresh
        ]))
      ≡ (if not tuned
          then some high
          else (elim (nth_extension_from_end name 1) [ none ↦ none | some ext ↦ table kind ext ]))
unfolding fresh
reported-reason false kind name reason long short =
    reported-append_reason reason (record fresh { any_high_rule = true }) long short
reported-reason true kind name reason long short =
    elim (Option-cases (nth_extension_from_end name 1)) [
      | inl e ↦ rw e refl
      | inr (ext, e) ↦ rw e (
          reported-report_weighed kind reason (weigh_double_extension kind ext) long
          ∙ table-weigh_double_extension kind ext)
    ]

reported-double_extension_rule :
    (tuned : Bool) (kind : LocationKind) (name : CString)
    → reported (double_extension_rule tuned kind name fresh) ≡ double_severity tuned kind name
unfolding fresh double_extension_rule double_severity
reported-double_extension_rule tuned kind name =
    elim (Option-cases (has_double_extension_disguise name)) [
      | inl e ↦ rw (e, double_extension_rule, double_severity) refl
      | inr (reason, e) ↦
          let (long, short) = disguise_bound name reason e in
          rw (e, double_extension_rule, double_severity)
            (reported-reason tuned kind name reason long (omega arith))
    ]

-- The three strict rules in either order of reading.
three_rules :
    (a b c : Bool) (r : Option Severity)
    → (if c then some high else if b then some high else if a then some high else r)
      ≡ (if a || (b || c) then some high else r)
three_rules true true true r = refl
three_rules true true false r = refl
three_rules true false true r = refl
three_rules true false false r = refl
three_rules false true true r = refl
three_rules false true false r = refl
three_rules false false c r = refl

-- For every device, location and name, what the reasons and flags of the callback amount to is
-- the severity of the rule table: HIGH where one of the three strict rules is broken, else for a
-- double extension HIGH without tuning and the entry of the table with it, else nothing.
pub tally-expected_severity :
    (tuned : Bool) (kind : LocationKind) (entry : DirEntry)
    → reported (tally tuned kind entry) ≡ expected_severity tuned kind entry
unfolding tally expected_severity breaks_strict_rule
tally-expected_severity tuned kind entry =
    let a = has_bidi_override entry.name in
    let b = has_space_padding entry.name in
    let c = entry.is_hidden && is_executable_extension (nth_extension_from_end entry.name 1) in
    reported-high_rule c (codes "hidden/system-attributed executable") _ (omega arith) (omega arith)
    ∙ ap (λ (r : Option Severity). if c then some high else r)
        (reported-high_rule b (codes "long space padding hides the real extension") _ (omega arith)
            (omega arith)
          ∙ ap (λ (r : Option Severity). if b then some high else r)
              (reported-high_rule a (codes "filename contains a Unicode bidi-override character") _
                  (omega arith) (omega arith)
                ∙ ap (λ (r : Option Severity). if a then some high else r)
                    (reported-double_extension_rule tuned kind entry.name)))
    ∙ three_rules a b c (double_severity tuned kind entry.name)
