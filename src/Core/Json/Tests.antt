-- ===== src/Core/Json/Tests.antt =====
-- Runs of the writer and the reader, after tests/test_json.c, and the theorems at concrete inputs.
use usb_sentinel.Prelude.{
  ℕ, ◌^◌, ◌≡◌, ◌≢◌, refl, Bool, [], ◌∷◌, some, arith, leb, length, CString, codes,
}
use usb_sentinel.Status.{ok}
use usb_sentinel.Core.Json.Calls.{Call, run}
use usb_sentinel.Core.Json.Decimal.{negsuc, digits_onto, print_uint, print_int}
use usb_sentinel.Core.Json.Document.{
  Document, uint, int, string, array, object, no_items, item, no_members, member, print, height,
  calls,
}
use usb_sentinel.Core.Json.Emit.{finish-print}
use usb_sentinel.Core.Json.Meaning.{value_of, IsTextual}
use usb_sentinel.Core.Json.Reader.{parse}
use usb_sentinel.Core.Json.Room.{IsSafe}
use usb_sentinel.Core.Json.RoundTrip.{parse-print}
use usb_sentinel.Core.Json.Safety.{run-IsSafe}
use usb_sentinel.Core.Json.Strings
use usb_sentinel.Core.Json.Strings.{parse_string_literal, scan_number}
use usb_sentinel.Core.Json.Totality.{parse-ne-out_of_fuel}
use usb_sentinel.Core.Json.Writer
use usb_sentinel.Core.Json.Writer.{init, finish, double_until, out_of_fuel}
use usb_sentinel.Core.Json.Writes.{Plenty}

abbrev report : Document
report = object (
    member (codes "path") (string (codes "a\"b"))
      (member (codes "sizes") (array (item (uint 12) (item (int (negsuc 6)) no_items))) no_members))

abbrev roomy : ℕ → Bool
roomy n = leb n (2 ^ 62)

roomy-Plenty : Plenty roomy
roomy-Plenty = record { bound = λ n e. ground arith; gives = λ n h. ground arith }

printing : Unit {0}
unfolding print height calls print_int print_uint digits_onto IsTextual
printing = tt

report_text : print report ≡ codes "{\"path\":\"a\\\"b\",\"sizes\":[12,-7]}"
unfolding printing Writer.escape_byte
report_text = refl

finish-print_example : finish (run roomy (calls report) init) ≡ (ok, some (print report))
unfolding printing Writer.escape_byte
finish-print_example = finish-print roomy roomy-Plenty report (omega arith) (omega arith)

-- A `strtod` that keeps the text it reads.
abbrev keep : CString → CString × ℕ
keep s = (s, length s)

parse-print_example : parse keep (print report) ≡ Strings.ok (value_of keep report)
unfolding printing
parse-print_example = parse-print keep (λ z. refl) report (ground arith) (omega arith)

-- Calls in an order that no document has, and an allocator that refuses all but the first block.
run-IsSafe_example : IsSafe (
    run
      (λ n. leb n 256)
      (Call.end_array ∷ Call.key (some (codes "k")) ∷ Call.begin_array ∷ [])
      init)
run-IsSafe_example =
    run-IsSafe (λ n. leb n 256) (λ n e. ground arith)
      (Call.end_array ∷ Call.key (some (codes "k")) ∷ Call.begin_array ∷ [])

parse-ne-out_of_fuel_example : parse keep (codes "[[[{\"a\":") ≢ Strings.out_of_fuel
parse-ne-out_of_fuel_example = parse-ne-out_of_fuel keep (codes "[[[{\"a\":")
