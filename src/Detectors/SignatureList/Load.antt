-- ===== src/Detectors/SignatureList/Load.antt =====
-- `push_entry` and `usbs_signature_list_load`. Log output is left out. `grants` answers for a size
-- whether `realloc` finds it, `sort` is the C library's `qsort` by `compare_by_size`, and `file` is what
-- opening the path and reading from it answers.
use usb_sentinel.Prelude.{
  ℕ, ◌+◌, ◌*◌, ◌/◌, ◌%◌, ◌^◌, Bool, not, List, [], ◌∷◌, ◌++◌, Option, none, some, CString, ltb,
  ◌==◌, if◌then◌else◌, length,
}
use usb_sentinel.Core.Json.Writer.{size_max}
use usb_sentinel.Detectors.SignatureList.{Signature, SignatureList}
use usb_sentinel.Detectors.SignatureList.FileRead.{Source, read_whole_file_capped}
use usb_sentinel.Detectors.SignatureList.Line.{LineResult, parse_line}
use usb_sentinel.Status.{Status, ok, invalid_arg, no_memory, is_ok}

-- `usbs_signature_list_init`, and what `usbs_signature_list_free` leaves
unfoldable pub empty_list : SignatureList
empty_list = record { entries = []; capacity = 0 }

-- `sizeof(usbs_signature_t)`: 65 bytes, padded to 72, the size, and the name.
abbrev pub entry_size : ℕ
entry_size = 240

abbrev pub next_capacity : ℕ → ℕ
next_capacity capacity = if capacity == 0 then 64 else (capacity * 2) % 2 ^ 64

-- The bytes between two line feeds, and behind the last one where there are any.
unfoldable pub first_byte : ℕ → List CString → List CString
first_byte c [] = (c ∷ []) ∷ []
first_byte c (line ∷ more) = (c ∷ line) ∷ more

unfoldable pub lines : CString → List CString
lines [] = []
lines (c ∷ buf) = if c == b'\n' then [] ∷ lines buf else first_byte c (lines buf)

module _ (grants : ℕ → Bool) where
  unfoldable pub push_entry : SignatureList → Signature → Status × SignatureList
  push_entry list entry =
      if not (length list.entries == list.capacity)
      then (ok, record list { entries = list.entries ++ (entry ∷ []) })
      else if ltb (size_max / entry_size) (next_capacity list.capacity)
      then (no_memory, list)
      else if grants (next_capacity list.capacity * entry_size)
      then (
        ok,
        record list {
          entries = list.entries ++ (entry ∷ []);
          capacity = next_capacity list.capacity;
        },
      )
      else (no_memory, list)

  module _ (strtoull : CString → ℕ × ℕ) where
    -- The loop over the lines, and the number of malformed ones. A push that fails ends it.
    unfoldable pub load_lines : SignatureList → List CString → ℕ → SignatureList × ℕ
    load_lines list [] skipped = (list, skipped)
    load_lines list (line ∷ more) skipped = elim (parse_line strtoull line) [
      | LineResult.skip_quiet ↦ load_lines list more skipped
      | LineResult.malformed ↦ load_lines list more (skipped + 1)
      | LineResult.ok entry ↦
          let (status, list') = push_entry list entry in
          let rest = load_lines list' more skipped in
          if not (is_ok status) then (list', skipped) else rest
    ]

    -- `none` is a NULL list or path.
    unfoldable pub load :
        (List Signature → List Signature)
        → Option SignatureList
        → Source
        → Status × Option SignatureList
    load sort none file = (invalid_arg, none)
    load sort (some list) file =
        let (status, buf) = read_whole_file_capped grants file in
        let list' = (load_lines list (lines buf) 0).0 in
        if not (is_ok status)
        then (status, some list)
        else if ltb 0 (length list'.entries)
        then (ok, some (record list' { entries = sort list'.entries }))
        else (ok, some list')
