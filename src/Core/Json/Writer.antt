-- ===== src/Core/Json/Writer.antt =====
-- The writer. `text` is `buf[0..len)`, and `capacity` is 0 where `buf` is NULL. The arrays of 32 flags are
-- functions of the level; that every access stays below 32 is part of the invariant. Pointers to a
-- writer are taken to be no NULL.
use usb_sentinel.Prelude.{
  ℕ, zero, suc, ◌+◌, ◌-◌, ◌*◌, ◌/◌, ◌%◌, ◌^◌, Bool, true, false, not, ◌||◌, [], ◌∷◌, ◌++◌, Option,
  none, some, CString, codes, ltb, leb, ◌==◌, if◌then◌else◌, length,
}
use usb_sentinel.Status.{Status, ok, no_memory, unsupported, internal, is_ok}
use usb_sentinel.Core.Json.Decimal.{ℤ, print_uint, print_int, print_hex4}

-- `USBS_JSON_MAX_DEPTH`
abbrev pub max_depth : ℕ
max_depth = 32

abbrev pub size_max : ℕ
size_max = 2 ^ 64 - 1

pub record Writer : Type 0 where
  pub text : CString
  pub capacity : ℕ
  pub depth : ℕ
  pub is_object : ℕ → Bool
  pub need_comma : ℕ → Bool
  pub want_key : ℕ → Bool
  pub error : Status

-- `flags[i] = v`
abbrev pub update : (ℕ → Bool) → ℕ → Bool → ℕ → Bool
update flags i v j = if j == i then v else flags j

abbrev pub fail : Writer → Status → Writer
fail w e = record w { error = e }

-- `usbs_json_writer_init`, and what `usbs_json_writer_free` leaves
unfoldable pub init : Writer
init = record {
  text = [];
  capacity = 0;
  depth = 0;
  is_object = λ _. false;
  need_comma = λ _. false;
  want_key = λ _. false;
  error = ok;
}

-- The doubling loop of `writer_ensure`.
pub data Growth : Type 0 where
  grown : ℕ → Growth
  too_large out_of_fuel : Growth

unfoldable pub double_until : ℕ → ℕ → ℕ → Growth
double_until zero needed new_cap = out_of_fuel
double_until (suc f) needed new_cap =
    let more = double_until f needed (new_cap * 2) in
    if not (ltb new_cap needed)
    then grown new_cap
    else if ltb (size_max / 2) new_cap
    then too_large
    else more

-- A capacity of 256 or more is doubled at most 57 times before it is past SIZE_MAX / 2.
abbrev pub double_fuel : ℕ
double_fuel = 64

-- `len + extra + 1`, in a `size_t`
abbrev pub needed_for : Writer → ℕ → ℕ
needed_for w extra = (length w.text + extra + 1) % 2 ^ 64

abbrev pub first_cap : ℕ → ℕ
first_cap capacity = if capacity == 0 then 256 else capacity

-- What the `switch` of `writer_escape_string` writes for one byte.
unfoldable pub escape_byte : ℕ → CString
escape_byte c =
    if c == b'"'
    then codes "\\\""
    else if c == b'\\'
    then codes "\\\\"
    else if c == 8
    then codes "\\b"
    else if c == 12
    then codes "\\f"
    else if c == b'\n'
    then codes "\\n"
    else if c == b'\r'
    then codes "\\r"
    else if c == b'\t'
    then codes "\\t"
    else if ltb c 0x20
    then b'\\' ∷ b'u' ∷ print_hex4 c
    else c ∷ []

-- What `realloc` answers for a size: the capacity only grows, and a refusal ends the writer's life,
-- so no writer asks for one size twice.
module _ (grants : ℕ → Bool) where
  unfoldable pub grow_to : Writer → Growth → Writer
  grow_to w (grown n) = if grants n then record w { capacity = n } else fail w no_memory
  grow_to w too_large = fail w no_memory
  grow_to w out_of_fuel = fail w no_memory

  unfoldable pub writer_ensure : Writer → ℕ → Writer
  writer_ensure w extra =
      if not (is_ok w.error)
      then w
      else if leb (needed_for w extra) w.capacity
      then w
      else grow_to w (double_until double_fuel (needed_for w extra) (first_cap w.capacity))

  -- `writer_raw` and `writer_raw_str`
  unfoldable pub writer_raw : Writer → CString → Writer
  writer_raw w s =
      let w' = writer_ensure w (length s) in
      if not (is_ok w'.error) then w' else record w' { text = w'.text ++ s }

  unfoldable pub writer_before_value : Writer → Writer
  writer_before_value w =
      if not (is_ok w.error)
      then w
      else if w.depth == 0
      then w
      else if w.is_object (w.depth - 1)
      then (if w.want_key (w.depth - 1)
          then fail w internal
          else record w { want_key = update w.want_key (w.depth - 1) true })
      else (let w' = if w.need_comma (w.depth - 1) then writer_raw w (b',' ∷ []) else w in
          record w' { need_comma = update w'.need_comma (w'.depth - 1) true })

  -- The loop of `writer_escape_string` and the closing quote behind it.
  unfoldable pub escape_bytes : Writer → CString → Writer
  escape_bytes w [] = writer_raw w (b'"' ∷ [])
  escape_bytes w (c ∷ value) =
      let w' = writer_raw w (escape_byte c) in
      let more = escape_bytes w' value in if not (is_ok w'.error) then w' else more

  unfoldable pub writer_escape_string : Writer → CString → Writer
  writer_escape_string w value = escape_bytes (writer_raw w (b'"' ∷ [])) value

  -- The end of `usbs_json_begin_object` and `usbs_json_begin_array`.
  unfoldable pub open_container : Bool → CString → Writer → Writer
  open_container object bracket w =
      if leb max_depth w.depth
      then fail w unsupported
      else (let w' = writer_raw w bracket in
          record w' {
            is_object = update w'.is_object w'.depth object;
            need_comma = update w'.need_comma w'.depth false;
            want_key = if object then update w'.want_key w'.depth true else w'.want_key;
            depth = w'.depth + 1;
          })

  -- `usbs_json_begin_object` for `true`, and `usbs_json_begin_array` for `false`
  unfoldable pub begin_container : Bool → CString → Writer → Writer
  begin_container object bracket w =
      if not (is_ok w.error)
      then w
      else (let w' = writer_before_value w in
          if not (is_ok w'.error) then w' else open_container object bracket w')

  unfoldable pub begin_object : Writer → Writer
  begin_object w = begin_container true (b'{' ∷ []) w

  unfoldable pub begin_array : Writer → Writer
  begin_array w = begin_container false (b'[' ∷ []) w

  unfoldable pub end_object : Writer → Writer
  end_object w =
      if not (is_ok w.error)
      then w
      else if w.depth == 0 || not (w.is_object (w.depth - 1))
      then fail w internal
      else writer_raw (record w { depth = w.depth - 1 }) (b'}' ∷ [])

  unfoldable pub end_array : Writer → Writer
  end_array w =
      if not (is_ok w.error)
      then w
      else if w.depth == 0 || w.is_object (w.depth - 1)
      then fail w internal
      else writer_raw (record w { depth = w.depth - 1 }) (b']' ∷ [])

  -- `usbs_json_key`; `none` is a NULL key
  unfoldable pub key : Option CString → Writer → Writer
  key none w = w
  key (some name) w =
      if not (is_ok w.error)
      then w
      else if w.depth == 0 || (not (w.is_object (w.depth - 1)) || not (w.want_key (w.depth - 1)))
      then fail w internal
      else (let commaed = if w.need_comma (w.depth - 1) then writer_raw w (b',' ∷ []) else w in
          let named = writer_raw (writer_escape_string commaed name) (b':' ∷ []) in
          record named {
            want_key = update named.want_key (named.depth - 1) false;
            need_comma = update named.need_comma (named.depth - 1) true;
          })

  -- The frame of every scalar: the guard, the separator, the guard again, and the write.
  unfoldable pub scalar : (Writer → Writer) → Writer → Writer
  scalar write w =
      if not (is_ok w.error)
      then w
      else (let w' = writer_before_value w in if not (is_ok w'.error) then w' else write w')

  -- `usbs_json_string`; `none` is a NULL value, and is written as ""
  unfoldable pub string : Option CString → Writer → Writer
  string none w = scalar (λ w'. writer_escape_string w' []) w
  string (some value) w = scalar (λ w'. writer_escape_string w' value) w

  unfoldable pub int : ℤ → Writer → Writer
  int value w = scalar (λ w'. writer_raw w' (print_int value)) w

  unfoldable pub uint : ℕ → Writer → Writer
  uint value w = scalar (λ w'. writer_raw w' (print_uint value)) w

  unfoldable pub bool_value : Bool → Writer → Writer
  bool_value value w =
      scalar (λ w'. writer_raw w' (if value then codes "true" else codes "false")) w

  unfoldable pub null : Writer → Writer
  null w = scalar (λ w'. writer_raw w' (codes "null")) w

  unfoldable pub member_string : Option CString → Option CString → Writer → Writer
  member_string name value w = string value (key name w)

  unfoldable pub member_int : Option CString → ℤ → Writer → Writer
  member_int name value w = int value (key name w)

  unfoldable pub member_uint : Option CString → ℕ → Writer → Writer
  member_uint name value w = uint value (key name w)

  unfoldable pub member_bool : Option CString → Bool → Writer → Writer
  member_bool name value w = bool_value value (key name w)

-- `usbs_json_writer_finish`: the status, and the text where there is one.
unfoldable pub finish : Writer → Status × Option CString
finish w =
    if not (is_ok w.error)
    then (w.error, none)
    else if not (w.depth == 0)
    then (internal, none)
    else if w.capacity == 0
    then (internal, none)
    else (ok, some w.text)
