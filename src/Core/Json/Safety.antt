-- ===== src/Core/Json/Safety.antt =====
-- Memory safety of the writer: whatever is called in whatever order, with whatever memory there is,
-- the text and its NUL stay within the buffer, and no level past the arrays is opened.
use usb_sentinel.Prelude.{
  ℕ, ◌+◌, ◌-◌, ◌^◌, ◌<◌, refl, Bool, true, false, List, [], ◌∷◌, Option, none, some, arith, leb,
  length, CString, codes, Bool-cases, inl, inr,
}
use usb_sentinel.Core.Json.Digits.{length-digits_onto-le}
use usb_sentinel.Core.Json.Decimal.{ℤ, pos, negsuc, print_uint, print_int}
use usb_sentinel.Core.Json.Writer.{
  Writer, writer_raw, writer_before_value, writer_escape_string, open_container, begin_container,
  begin_object, begin_array, end_object, end_array, key, scalar, string, int, uint, bool_value,
  null, member_string, member_int, member_uint, member_bool, init, max_depth,
}
use usb_sentinel.Core.Json.Calls.{Call, call, run}
use usb_sentinel.Core.Json.Room.{
  Bounded, IsSafe, IsSafe-flags, Kept, Kept-refl, Kept-if, writer_raw-Kept,
  writer_escape_string-Kept,
}

length-print_uint : (n : ℕ) → length (print_uint n) < 2 ^ 63
unfolding print_uint
length-print_uint n = omega (arith, length-digits_onto-le 20 n [])

length-print_int : (z : ℤ) → length (print_int z) < 2 ^ 63
unfolding print_int print_uint
length-print_int (pos n) = omega (arith, length-digits_onto-le 20 n [])
length-print_int (negsuc n) = omega (arith, length-digits_onto-le 20 (n + 1) [])

module _ (grants : ℕ → Bool) (bound : Bounded grants) where
  writer_before_value-Kept : (w : Writer) → IsSafe w → Kept w (writer_before_value grants w)
  unfolding writer_before_value
  writer_before_value-Kept w h =
      let comma = writer_raw-Kept grants bound w (b',' ∷ []) h (omega arith) in
      ground (arith, comma)

  open_container-IsSafe :
      (object : Bool) (bracket : CString) (w : Writer)
      → IsSafe w
      → length bracket < 2 ^ 63
      → IsSafe (open_container grants object bracket w)
  unfolding open_container
  open_container-IsSafe object bracket w h short =
      let k = writer_raw-Kept grants bound w bracket h short in
      elim (Bool-cases (leb max_depth w.depth)) [
        | inl e ↦ rw e (IsSafe-flags h refl refl h.level)
        | inr e ↦ rw e (IsSafe-flags k.safe refl refl (ground (arith, k.same_depth)))
      ]

  begin_container-IsSafe :
      (object : Bool) (bracket : CString) (w : Writer)
      → IsSafe w
      → length bracket < 2 ^ 63
      → IsSafe (begin_container grants object bracket w)
  unfolding begin_container
  begin_container-IsSafe object bracket w h short =
      let k = writer_before_value-Kept w h in
      let opened =
        open_container-IsSafe object bracket (writer_before_value grants w) k.safe short in
      ground (arith, k, opened)

  close-IsSafe :
      (w : Writer) (bracket : CString)
      → IsSafe w
      → length bracket < 2 ^ 63
      → IsSafe (writer_raw grants (record w { depth = w.depth - 1 }) bracket)
  close-IsSafe w bracket h short =
      (writer_raw-Kept grants bound _ bracket (IsSafe-flags h refl refl (omega (arith, h.level)))
        short).safe

  end_object-IsSafe : (w : Writer) → IsSafe w → IsSafe (end_object grants w)
  unfolding end_object
  end_object-IsSafe w h =
      let closed = close-IsSafe w (b'}' ∷ []) h (omega arith) in ground (arith, closed)

  end_array-IsSafe : (w : Writer) → IsSafe w → IsSafe (end_array grants w)
  unfolding end_array
  end_array-IsSafe w h =
      let closed = close-IsSafe w (b']' ∷ []) h (omega arith) in ground (arith, closed)

  key-IsSafe : (name : Option CString) (w : Writer) → IsSafe w → IsSafe (key grants name w)
  unfolding key
  key-IsSafe none w h = h
  key-IsSafe (some name) w h =
      let comma =
        Kept-if (w.need_comma (w.depth - 1))
          (writer_raw-Kept grants bound w (b',' ∷ []) h (omega arith)) (Kept-refl h) in
      let named = writer_escape_string-Kept grants bound name _ comma.safe in
      let colon = writer_raw-Kept grants bound _ (b':' ∷ []) named.safe (omega arith) in
      ground (arith, colon)

  scalar-IsSafe :
      (write : Writer → Writer) (w : Writer)
      → ((v : Writer) → IsSafe v → IsSafe (write v))
      → IsSafe w
      → IsSafe (scalar grants write w)
  unfolding scalar
  scalar-IsSafe write w keep h =
      let k = writer_before_value-Kept w h in
      let written = keep (writer_before_value grants w) k.safe in ground (arith, k, written)

  raw_scalar-IsSafe :
      (t : CString) (w : Writer)
      → IsSafe w
      → length t < 2 ^ 63
      → IsSafe (scalar grants (λ v. writer_raw grants v t) w)
  raw_scalar-IsSafe t w h short =
      scalar-IsSafe (λ v. writer_raw grants v t) w
        (λ v k. (writer_raw-Kept grants bound v t k short).safe) h

  string-IsSafe : (value : Option CString) (w : Writer) → IsSafe w → IsSafe (string grants value w)
  unfolding string
  string-IsSafe none w h =
      scalar-IsSafe (λ v. writer_escape_string grants v []) w
        (λ v k. (writer_escape_string-Kept grants bound [] v k).safe) h
  string-IsSafe (some value) w h =
      scalar-IsSafe (λ v. writer_escape_string grants v value) w
        (λ v k. (writer_escape_string-Kept grants bound value v k).safe) h

  uint-IsSafe : (n : ℕ) (w : Writer) → IsSafe w → IsSafe (uint grants n w)
  unfolding uint
  uint-IsSafe n w h = raw_scalar-IsSafe (print_uint n) w h (length-print_uint n)

  int-IsSafe : (z : ℤ) (w : Writer) → IsSafe w → IsSafe (int grants z w)
  unfolding int
  int-IsSafe z w h = raw_scalar-IsSafe (print_int z) w h (length-print_int z)

  bool_value-IsSafe : (b : Bool) (w : Writer) → IsSafe w → IsSafe (bool_value grants b w)
  unfolding bool_value
  bool_value-IsSafe true w h = raw_scalar-IsSafe (codes "true") w h (omega arith)
  bool_value-IsSafe false w h = raw_scalar-IsSafe (codes "false") w h (omega arith)

  null-IsSafe : (w : Writer) → IsSafe w → IsSafe (null grants w)
  unfolding null
  null-IsSafe w h = raw_scalar-IsSafe (codes "null") w h (omega arith)

  -- Every call keeps the writer safe.
  pub call-IsSafe : (c : Call) (w : Writer) → IsSafe w → IsSafe (call grants c w)
  unfolding call begin_object begin_array member_string member_int member_uint member_bool
  call-IsSafe Call.begin_object w h = begin_container-IsSafe true (b'{' ∷ []) w h (omega arith)
  call-IsSafe Call.begin_array w h = begin_container-IsSafe false (b'[' ∷ []) w h (omega arith)
  call-IsSafe Call.end_object w h = end_object-IsSafe w h
  call-IsSafe Call.end_array w h = end_array-IsSafe w h
  call-IsSafe Call.null w h = null-IsSafe w h
  call-IsSafe (Call.key name) w h = key-IsSafe name w h
  call-IsSafe (Call.string value) w h = string-IsSafe value w h
  call-IsSafe (Call.int value) w h = int-IsSafe value w h
  call-IsSafe (Call.uint value) w h = uint-IsSafe value w h
  call-IsSafe (Call.bool_value value) w h = bool_value-IsSafe value w h
  call-IsSafe (Call.member_string name value) w h = string-IsSafe value _ (key-IsSafe name w h)
  call-IsSafe (Call.member_int name value) w h = int-IsSafe value _ (key-IsSafe name w h)
  call-IsSafe (Call.member_uint name value) w h = uint-IsSafe value _ (key-IsSafe name w h)
  call-IsSafe (Call.member_bool name value) w h = bool_value-IsSafe value _ (key-IsSafe name w h)

  run_from-IsSafe : (cs : List Call) (w : Writer) → IsSafe w → IsSafe (run grants cs w)
  unfolding run
  run_from-IsSafe [] w h = h
  run_from-IsSafe (c ∷ cs) w h = run_from-IsSafe cs (call grants c w) (call-IsSafe c w h)

  -- If the allocator hands out no more than 2 ^ 63 bytes, then from a fresh writer any calls in
  -- any order, with any allocations refused, leave the text and its NUL inside the buffer and the
  -- nesting level within the arrays.
  pub run-IsSafe : (cs : List Call) → IsSafe (run grants cs init)
  run-IsSafe cs =
      run_from-IsSafe cs init
        (unfold init in record { fits = omega arith; bounded = omega arith; level = omega arith })
