-- ===== src/Detectors/SignatureList/Lookup.antt =====
-- The binary search and what stands on it.
use usb_sentinel.Prelude.{
  ℕ, zero, suc, ◌+◌, ◌-◌, ◌/◌, Bool, false, not, List, [], ◌∷◌, Option, none, some, CString, ltb,
  ◌==◌, if◌then◌else◌, length, drop, get_elem?, str_eq,
}
use usb_sentinel.Detectors.SignatureList.{Signature, SignatureList}

-- The loop of `lower_bound_by_size`. `none` is an access out of bounds, or fuel at its end.
unfoldable pub lower_bound_from : ℕ → List Signature → ℕ → ℕ → ℕ → Option ℕ
lower_bound_from zero entries size_bytes lo hi = none
lower_bound_from (suc f) entries size_bytes lo hi =
    let mid = lo + (hi - lo) / 2 in
    let right = lower_bound_from f entries size_bytes (mid + 1) hi in
    let left = lower_bound_from f entries size_bytes lo mid in
    if not (ltb lo hi) then some lo else (elim (get_elem? entries mid) [
      | none ↦ none
      | some e ↦ if ltb e.size size_bytes then right else left
    ])

-- Each round leaves less than there was between `lo` and `hi`.
unfoldable pub lower_bound_by_size : List Signature → ℕ → Option ℕ
lower_bound_by_size entries size_bytes =
    lower_bound_from (suc (length entries)) entries size_bytes 0 (length entries)

-- The loop over the run of entries of one size.
unfoldable pub scan_run : List Signature → ℕ → CString → Option CString
scan_run [] size_bytes hex = none
scan_run (e ∷ es) size_bytes hex =
    if not (e.size == size_bytes)
    then none
    else if str_eq e.sha256_hex hex
    then some e.name
    else scan_run es size_bytes hex

-- `usbs_signature_list_lookup`: `none` is NULL, as an argument and as the answer.
unfoldable pub lookup : Option SignatureList → ℕ → Option CString → Option CString
lookup none size_bytes hex = none
lookup (some list) size_bytes none = none
lookup (some list) size_bytes (some hex) =
    if length list.entries == 0 then none else (elim (lower_bound_by_size list.entries size_bytes) [
      | none ↦ none
      | some lo ↦ scan_run (drop lo list.entries) size_bytes hex
    ])

-- `usbs_signature_list_has_size`
unfoldable pub has_size : Option SignatureList → ℕ → Bool
has_size none size_bytes = false
has_size (some list) size_bytes =
    if length list.entries == 0
    then false
    else (elim (lower_bound_by_size list.entries size_bytes) [
      | none ↦ false
      | some lo ↦ elim (get_elem? list.entries lo) [ none ↦ false | some e ↦ e.size == size_bytes ]
    ])
