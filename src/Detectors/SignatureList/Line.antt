-- ===== src/Detectors/SignatureList/Line.antt =====
-- One line of a signature file: `parse_line`. A line is the list of its bytes.
use usb_sentinel.Prelude.{
  ℕ, ◌-◌, ◌+◌, Bool, not, ◌||◌, [], ◌∷◌, Option, none, some, CString, leb, ◌==◌, within,
  if◌then◌else◌, length, take,
}
use usb_sentinel.Core.Json.Strings.{before_nul}
use usb_sentinel.Detectors.SignatureList.{Signature}

-- `USBS_SIGNATURE_HASH_LEN`
abbrev pub hash_len : ℕ
hash_len = 64

-- `USBS_SIGNATURE_NAME_MAX`
abbrev pub name_max : ℕ
name_max = 160

-- `line_result_t`, with the entry that `LINE_OK` comes with
pub data LineResult : Type 0 where
  skip_quiet malformed : LineResult
  ok : Signature → LineResult

unfoldable pub skip_blanks : CString → CString
skip_blanks [] = []
skip_blanks (c ∷ p) = if c == b' ' || c == b'\t' then skip_blanks p else c ∷ p

-- `memchr`: what stands in front of the first such byte, and behind it
unfoldable pub split_at : ℕ → CString → Option (CString × CString)
split_at stop [] = none
split_at stop (c ∷ p) =
    let more : Option (CString × CString) = elim (split_at stop p) [
      | none ↦ none
      | some (front, behind) ↦ some (c ∷ front, behind)
    ] in
    if c == stop then some ([], p) else more

abbrev pub is_blank_end : ℕ → Bool
is_blank_end c = c == b'\r' || (c == b'\n' || (c == b' ' || c == b'\t'))

-- The loop that moves `name_end` back.
unfoldable pub trim_end : CString → CString
trim_end [] = []
trim_end (c ∷ s) = elim (trim_end s) [
  | [] ↦ if is_blank_end c then [] else c ∷ []
  | x ∷ xs ↦ c ∷ x ∷ xs
]

abbrev pub hex_lower : ℕ → Option ℕ
hex_lower c =
    if within b'A' b'F' c
    then some (c - b'A' + b'a')
    else if not (within b'0' b'9' c || within b'a' b'f' c)
    then none
    else some c

-- The loop that validates the hash and folds it to lower case.
unfoldable pub normalize_hash : CString → Option CString
normalize_hash [] = some []
normalize_hash (c ∷ s) = elim (hex_lower c) [
  | none ↦ none
  | some x ↦ elim (normalize_hash s) [ none ↦ none | some xs ↦ some (x ∷ xs) ]
]

-- `strtoull` is the C library's at base 10: the value that a text starts with, and the number of
-- bytes that it takes. It sees no further than the first NUL of `size_buf`.
module _ (strtoull : CString → ℕ × ℕ) where
  -- The checks behind the three fields, in the order of the source.
  unfoldable pub make_entry : CString → CString → CString → LineResult
  make_entry hash size_text name = elim (normalize_hash hash) [
    | none ↦ malformed
    | some hex ↦
        let (value, taken) = strtoull (before_nul size_text) in
        if not (taken == length size_text)
        then malformed
        else ok (record {
          sha256_hex = hex;
          size = value;
          name = before_nul (take (name_max - 1) name);
        })
  ]

  unfoldable pub parse_fields : CString → LineResult
  parse_fields p = elim (split_at b':' p) [
    | none ↦ malformed
    | some (hash, behind) ↦
        if not (length hash == hash_len) then malformed else (elim (split_at b':' behind) [
          | none ↦ malformed
          | some (size_text, rest) ↦
              if length size_text == 0 || leb 32 (length size_text)
              then malformed
              else if length (trim_end rest) == 0
              then malformed
              else make_entry hash size_text (trim_end rest)
        ])
  ]

  unfoldable pub parse_line : CString → LineResult
  parse_line line = elim (skip_blanks line) [
    | [] ↦ skip_quiet
    | c ∷ p ↦ if c == b'#' || c == b'\r' then skip_quiet else parse_fields (c ∷ p)
  ]
