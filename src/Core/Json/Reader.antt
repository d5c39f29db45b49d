-- ===== src/Core/Json/Reader.antt =====
-- The reader. `strtod` is the C library's: the value that a text starts with, and the number of bytes
-- that it takes.
use usb_sentinel.Prelude.{
  ℕ, zero, suc, ◌+◌, ◌*◌, Bool, true, false, not, ◌||◌, Option, none, some, CString, codes, leb,
  ◌==◌, if◌then◌else◌, length, strip_prefix, str_eq,
}
use usb_sentinel.Core.Json.Strings.{
  Result, ok, failed, out_of_fuel, ◌>>=◌, peek, advance, at_end, skip_ws, parse_string_literal,
  is_digit, scan_number,
}
use usb_sentinel.Status.{invalid_arg, unsupported}

-- `usbs_json_value`; `D` is the type of a `double`.
mutual
  pub data Value (D : Type 0) : Type 0 where
    null : Value D
    boolean : Bool → Value D
    number : D → Value D
    string : CString → Value D
    array : Elements D → Value D
    object : Members D → Value D

  pub data Elements (D : Type 0) : Type 0 where
    no_elements : Elements D
    element : Value D → Elements D → Elements D

  pub data Members (D : Type 0) : Type 0 where
    no_members : Members D
    member : CString → Value D → Members D → Members D

-- `USBS_JSON_PARSE_MAX_DEPTH`
abbrev pub parse_max_depth : ℕ
parse_max_depth = 32

-- `match_literal`: what stands behind the literal
unfoldable pub match_literal : CString → CString → Option CString
match_literal literal p = strip_prefix literal p

module _ {D : Type 0} where
  -- A literal that stands for a value.
  unfoldable pub parse_literal : CString → Value D → CString → Result (Value D × CString)
  parse_literal literal v p = elim (match_literal literal p) [
    | none ↦ failed invalid_arg
    | some rest ↦ ok (v, rest)
  ]

-- The key of a member and its colon.
unfoldable pub parse_key : CString → Result (CString × CString)
parse_key p = parse_string_literal (skip_ws p) >>= λ (k, rest).
    if not (peek (skip_ws rest) == b':')
    then failed invalid_arg
    else ok (k, skip_ws (advance (skip_ws rest)))

module _ {D : Type 0} (strtod : CString → D × ℕ) where
  -- `tmp` has room for 63 bytes and the NUL.
  unfoldable pub parse_number : CString → Result (D × CString)
  parse_number p =
      let (text, rest) = scan_number p in
      if length text == 0 || leb 64 (length text)
      then failed invalid_arg
      else if not ((strtod text).1 == length text)
      then failed invalid_arg
      else ok ((strtod text).0, rest)

  -- The cases of `parse_value` that recur no further.
  unfoldable pub parse_scalar : CString → Result (Value D × CString)
  parse_scalar p =
      if peek p == b'"'
      then (parse_string_literal p >>= λ (s, rest). ok (string s, rest))
      else if peek p == b't'
      then parse_literal (codes "true") (boolean true) p
      else if peek p == b'f'
      then parse_literal (codes "false") (boolean false) p
      else if peek p == b'n'
      then parse_literal (codes "null") null p
      else if peek p == b'-' || is_digit (peek p)
      then (parse_number p >>= λ (x, rest). ok (number x, rest))
      else failed invalid_arg

  unfoldable mutual
    pub parse_value : ℕ → ℕ → CString → Result (Value D × CString)
    parse_value zero depth p = out_of_fuel
    parse_value (suc f) depth p =
        let obj =
          parse_object f (depth + 1) (advance (skip_ws p)) >>= λ (ms, rest). ok (object ms, rest) in
        let arr =
          parse_array f (depth + 1) (advance (skip_ws p)) >>= λ (xs, rest). ok (array xs, rest) in
        if leb parse_max_depth depth
        then failed unsupported
        else if at_end (skip_ws p)
        then failed invalid_arg
        else if peek (skip_ws p) == b'{'
        then obj
        else if peek (skip_ws p) == b'['
        then arr
        else parse_scalar (skip_ws p)

    -- behind the bracket that opens
    pub parse_object : ℕ → ℕ → CString → Result (Members D × CString)
    parse_object zero depth p = out_of_fuel
    parse_object (suc f) depth p =
        let more = parse_members f depth (skip_ws p) in
        if peek (skip_ws p) == b'}' then ok (no_members, advance (skip_ws p)) else more

    -- the loop of `parse_object`
    pub parse_members : ℕ → ℕ → CString → Result (Members D × CString)
    parse_members zero depth p = out_of_fuel
    parse_members (suc f) depth p = parse_key p >>= λ (k, p₁). parse_value f depth p₁ >>= λ (v, p₂).
        let more =
          parse_members f depth (advance (skip_ws p₂)) >>= λ (ms, rest). ok (member k v ms, rest) in
        if peek (skip_ws p₂) == b','
        then more
        else if peek (skip_ws p₂) == b'}'
        then ok (member k v no_members, advance (skip_ws p₂))
        else failed invalid_arg

    pub parse_array : ℕ → ℕ → CString → Result (Elements D × CString)
    parse_array zero depth p = out_of_fuel
    parse_array (suc f) depth p =
        let more = parse_elements f depth (skip_ws p) in
        if peek (skip_ws p) == b']' then ok (no_elements, advance (skip_ws p)) else more

    -- the loop of `parse_array`
    pub parse_elements : ℕ → ℕ → CString → Result (Elements D × CString)
    parse_elements zero depth p = out_of_fuel
    parse_elements (suc f) depth p = parse_value f depth (skip_ws p) >>= λ (v, p₂).
        let more =
          parse_elements f depth (advance (skip_ws p₂)) >>= λ (xs, rest). ok (element v xs, rest) in
        if peek (skip_ws p₂) == b','
        then more
        else if peek (skip_ws p₂) == b']'
        then ok (element v no_elements, advance (skip_ws p₂))
        else failed invalid_arg

  -- What `usbs_json_parse` does behind the value.
  unfoldable pub finish_parse : Value D → CString → Result (Value D)
  finish_parse v rest = if not (at_end (skip_ws rest)) then failed invalid_arg else ok v

  -- Three calls for each byte are enough.
  unfoldable pub parse : CString → Result (Value D)
  parse text = parse_value (3 * length text + 3) 0 text >>= λ (v, rest). finish_parse v rest

module _ {D : Type 0} where
  -- `usbs_json_object_get`
  unfoldable pub member_get : Members D → CString → Option (Value D)
  member_get no_members key = none
  member_get (member k v ms) key = if str_eq k key then some v else member_get ms key

  unfoldable pub object_get : Value D → CString → Option (Value D)
  object_get (object ms) key = member_get ms key
  object_get _ key = none
