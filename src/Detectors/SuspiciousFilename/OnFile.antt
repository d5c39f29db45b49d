-- ===== src/Detectors/SuspiciousFilename/OnFile.antt =====
-- `suspicious_filename_on_file`. `grants` answers for a size whether `realloc` finds it.
use usb_sentinel.Prelude.{
  ◌^◌, ◌%◌, ℕ, ◌-◌, ◌+◌, Bool, true, false, not, ◌&&◌, [], ◌++◌, Option, none, some, CString, codes,
  clip, ltb, if◌then◌else◌, take, length,
}
use usb_sentinel.Core.Location.Policy.{policy_applies}
use usb_sentinel.Core.Location.Rules.{LocationKind, ordinary, classify, kind_string, relative}
use usb_sentinel.Core.Scan.{Severity, info, warning, high, CheckResult, finding_list_push}
use usb_sentinel.Detectors.Detector.{DetectContext, FileContext}
use usb_sentinel.Platform.{DirEntry}
use usb_sentinel.Detectors.SuspiciousFilename.Extensions.{
  nth_extension_from_end, is_executable_extension,
}
use usb_sentinel.Detectors.SuspiciousFilename.Rules.{
  Verdict, report_default, report_lowered, suppress, has_double_extension_disguise,
  has_bidi_override, has_space_padding, weigh_double_extension,
}
use usb_sentinel.Status.{Status, ok, invalid_arg}

-- The local variables: `reasons` is the C string in the buffer.
pub record Tally : Type 0 where
  pub reasons : CString
  pub reasons_len : ℕ
  pub severity : Severity
  pub any_high_rule : Bool
  pub lowered : Bool
  pub suppressed : Bool

unfoldable pub fresh : Tally
fresh = record {
  reasons = [];
  reasons_len = 0;
  severity = info;
  any_high_rule = false;
  lowered = false;
  suppressed = false;
}

-- `USBS_FINDING_MESSAGE_MAX`
abbrev pub message_max : ℕ
message_max = 256

-- `APPEND_REASON`: what does not fit is cut, and written over by the next.
unfoldable pub append_reason : CString → Tally → Tally
append_reason text t =
    let more = if ltb 0 t.reasons_len then codes "; " ++ text else text in
    let room = message_max - t.reasons_len in
    record t {
      reasons = take t.reasons_len t.reasons ++ clip room more;
      reasons_len =
          if ltb 0 (length more) && ltb (length more) room
          then t.reasons_len + length more
          else t.reasons_len;
    }

abbrev pub rank : Severity → ℕ
rank info = 0
rank warning = 1
rank high = 2

-- What a weighed double extension does to the severities.
unfoldable pub raise : Severity → Tally → Tally
raise high t = record t { any_high_rule = true }
raise weighed t =
    if ltb (rank t.severity) (rank weighed) then record t { severity = weighed } else t

unfoldable pub report_weighed : LocationKind → CString → Verdict → Tally → Tally
report_weighed kind reason suppress t = record t { suppressed = true }
report_weighed kind reason (report_default weighed) t =
    append_reason (clip 192 reason) (raise weighed t)
report_weighed kind reason (report_lowered weighed) t =
    append_reason
      (clip 192 (reason ++ (codes " [internal drive, " ++ (kind_string kind ++ codes "]"))))
      (raise weighed (record t { lowered = true }))

-- The last extension is read only where the rule has found one.
unfoldable pub double_extension_rule : Bool → LocationKind → CString → Tally → Tally
double_extension_rule tuned kind name t = elim (has_double_extension_disguise name) [
  | none ↦ t
  | some reason ↦
      if not tuned
      then append_reason reason (record t { any_high_rule = true })
      else (elim (nth_extension_from_end name 1) [
        | none ↦ t
        | some last_ext ↦ report_weighed kind reason (weigh_double_extension kind last_ext) t
      ])
]

-- A rule that is HIGH on every device and in every location.
unfoldable pub high_rule : Bool → CString → Tally → Tally
high_rule found text t = if found then append_reason text (record t { any_high_rule = true }) else t

unfoldable pub tally : Bool → LocationKind → DirEntry → Tally
tally tuned kind entry =
    let t₁ = double_extension_rule tuned kind entry.name fresh in
    let t₂ =
      high_rule (has_bidi_override entry.name)
        (codes "filename contains a Unicode bidi-override character") t₁ in
    let t₃ =
      high_rule (has_space_padding entry.name) (codes "long space padding hides the real extension")
        t₂ in
    high_rule (entry.is_hidden && is_executable_extension (nth_extension_from_end entry.name 1))
      (codes "hidden/system-attributed executable") t₃

abbrev pub final_severity : Tally → Severity
final_severity t = if t.any_high_rule then high else t.severity

-- `entry` and the tally of its name at their end: the finding, or the count of what was suppressed. The
-- answer of the push is not read.
unfoldable pub conclude : (ℕ → Bool) → CString → Tally → CheckResult → CheckResult
conclude grants path t result =
    if ltb 0 t.reasons_len
    then record result {
      findings =
          (finding_list_push grants result.findings (record {
            severity = final_severity t;
            message = clip message_max t.reasons;
            path = clip 1024 path;
          })).1;
      policy_lowered =
          if t.lowered && ltb (rank (final_severity t)) 2
          then (result.policy_lowered + 1) % 2 ^ 64
          else result.policy_lowered;
    }
    else if t.suppressed
    then record result { policy_suppressed = (result.policy_suppressed + 1) % 2 ^ 64 }
    else result

unfoldable pub volume_path_of : Option DetectContext → Option CString
volume_path_of none = none
volume_path_of (some d) = d.volume_path

unfoldable pub is_tuned : Option DetectContext → Bool
is_tuned none = false
is_tuned (some d) = policy_applies d.device

-- `none` is a NULL argument; the second component is the result that the context points to.
unfoldable pub on_file :
    (ℕ → Bool) → Option FileContext → Option CString → Option DirEntry → Status × Option CheckResult
on_file grants none full_path entry = (invalid_arg, none)
on_file grants (some ctx) none entry = (invalid_arg, some ctx.result)
on_file grants (some ctx) (some full_path) none = (invalid_arg, some ctx.result)
on_file grants (some ctx) (some full_path) (some entry) =
    let path = relative (volume_path_of ctx.detect_ctx) (some full_path) in
    let tuned = is_tuned ctx.detect_ctx in
    let kind = if tuned then classify (some path) else ordinary in
    (ok, some (conclude grants path (tally tuned kind entry) ctx.result))
