-- ===== src/Scanner/Report.antt =====
-- What the scanner writes into a check's own message, with `snprintf` behind what is there.
use usb_sentinel.Prelude.{
  ℕ, ◌+◌, ◌-◌, Bool, not, ◌&&◌, CString, codes, clip, take, ◌++◌, ltb, leb, ◌==◌, if◌then◌else◌,
  length, some,
}
use usb_sentinel.Core.Json.Decimal.{print_uint}
use usb_sentinel.Core.Scan.{CheckResult, check_result_init, set_failed}
use usb_sentinel.Scanner.Walk.{TraverseState}
use usb_sentinel.Status.{Status, status_string, is_ok}

-- `USBS_CHECK_MESSAGE_MAX`
abbrev pub check_message_max : ℕ
check_message_max = 256

unfoldable pub outcome : TraverseState → CString
outcome st =
    if st.cancelled
    then codes "cancelled"
    else if st.device_removed
    then codes "device disconnected"
    else codes "completed"

-- "%s: %llu file(s), %llu byte(s)"
unfoldable pub count_text : TraverseState → CString
count_text st =
    outcome st
    ++ (codes ": "
        ++ (print_uint st.file_count
            ++ (codes " file(s), " ++ (print_uint st.byte_count ++ codes " byte(s)"))))

-- The two texts that follow where the count is not zero.
unfoldable pub skipped_text : ℕ → CString
skipped_text n =
    codes ", " ++ (print_uint n ++ codes " location(s) skipped (access denied or unavailable)")

unfoldable pub excluded_text : ℕ → CString
excluded_text n =
    codes ", " ++ (print_uint n ++ codes " location(s) excluded (USB Sentinel test fixtures)")

-- `written` and the message.
pub record Printed : Type 0 where
  pub written : ℕ
  pub message : CString

-- A print behind `written` bytes, where the count is not zero and there is room.
unfoldable pub print_more : ℕ → CString → Printed → Printed
print_more count text p =
    if ltb 0 count && (ltb 0 p.written && ltb p.written check_message_max)
    then record {
      written = p.written + length text;
      message = take p.written p.message ++ clip (check_message_max - p.written) text;
    }
    else p

unfoldable pub traversal_message : TraverseState → CString
traversal_message st =
    let first : Printed = record {
      written = length (count_text st);
      message = clip check_message_max (count_text st);
    } in
    let second = print_more st.paths_skipped (skipped_text st.paths_skipped) first in
    (print_more st.paths_excluded (excluded_text st.paths_excluded) second).message

-- The check "file_traversal" when the walk is over.
unfoldable pub traversal_check : Status → TraverseState → CheckResult
traversal_check walk_status st =
    let check = check_result_init (some (codes "file_traversal")) in
    if not (is_ok walk_status)
    then set_failed check (some (status_string walk_status))
    else record check { message = traversal_message st }

-- "%sinternal-drive location policy: ..."
unfoldable pub policy_text : Bool → CheckResult → CString
policy_text follows check =
    (if follows then codes "; " else codes "")
    ++ (codes "internal-drive location policy: "
        ++ (print_uint check.policy_suppressed
            ++ (codes " match(es) in OS-generated or dependency locations not reported, "
                ++ (print_uint check.policy_lowered ++ codes " reported at lowered severity"))))

-- `describe_location_policy`
unfoldable pub describe_location_policy : CheckResult → CheckResult
describe_location_policy check =
    let len = length check.message in
    if check.policy_suppressed == 0 && check.policy_lowered == 0
    then check
    else if leb check_message_max (len + 1)
    then check
    else record check {
      message = check.message ++ clip (check_message_max - len) (policy_text (ltb 0 len) check);
    }
