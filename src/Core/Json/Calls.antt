-- ===== src/Core/Json/Calls.antt =====
-- The calls of the writer's interface, and runs of them in any order.
use usb_sentinel.Prelude.{ℕ, Bool, List, [], ◌∷◌, Option, CString}
use usb_sentinel.Core.Json.Decimal.{ℤ}
use usb_sentinel.Core.Json.Writer
use usb_sentinel.Core.Json.Writer.{Writer}

pub data Call : Type 0 where
  begin_object end_object begin_array end_array null : Call
  key string : Option CString → Call
  int : ℤ → Call
  uint : ℕ → Call
  bool_value : Bool → Call
  member_string : Option CString → Option CString → Call
  member_int : Option CString → ℤ → Call
  member_uint : Option CString → ℕ → Call
  member_bool : Option CString → Bool → Call

module _ (grants : ℕ → Bool) where
  unfoldable pub call : Call → Writer → Writer
  call begin_object w = Writer.begin_object grants w
  call end_object w = Writer.end_object grants w
  call begin_array w = Writer.begin_array grants w
  call end_array w = Writer.end_array grants w
  call null w = Writer.null grants w
  call (key name) w = Writer.key grants name w
  call (string value) w = Writer.string grants value w
  call (int value) w = Writer.int grants value w
  call (uint value) w = Writer.uint grants value w
  call (bool_value value) w = Writer.bool_value grants value w
  call (member_string name value) w = Writer.member_string grants name value w
  call (member_int name value) w = Writer.member_int grants name value w
  call (member_uint name value) w = Writer.member_uint grants name value w
  call (member_bool name value) w = Writer.member_bool grants name value w

  unfoldable pub run : List Call → Writer → Writer
  run [] w = w
  run (c ∷ cs) w = run cs (call c w)
