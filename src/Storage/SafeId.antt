-- ===== src/Storage/SafeId.antt =====
-- `usbs_store_safe_id`: the name of a device's directory.
pub mod Encoding
pub mod Names
use usb_sentinel.Prelude.{
  ℕ, ◌+◌, ◌-◌, ◌/◌, ◌%◌, Bool, not, ◌||◌, List, [], ◌∷◌, ◌++◌, Option, none, some, CString, ltb,
  leb, ◌==◌, within, if◌then◌else◌, length,
}
use usb_sentinel.Status.{Status, ok, invalid_arg, no_memory}

unfoldable pub is_safe : ℕ → Bool
is_safe c =
    within b'A' b'Z' c
    || (within b'a' b'z' c || (within b'0' b'9' c || (c == b'.' || (c == b'-' || c == b'_'))))

unfoldable pub upper_digit : ℕ → ℕ
upper_digit d = if ltb d 10 then b'0' + d else b'A' + (d - 10)

-- "_%02X"
unfoldable pub hex_escape : ℕ → CString
hex_escape c = b'_' ∷ upper_digit (c / 16) ∷ upper_digit (c % 16) ∷ []

unfoldable pub encode_byte : ℕ → CString
encode_byte c = if is_safe c then c ∷ [] else hex_escape c

-- The loop; `out` is what stands in the buffer of `size` bytes.
unfoldable pub encode_from : ℕ → CString → CString → Status × Option CString
encode_from size out [] = if length out == 0 then (invalid_arg, none) else (ok, some out)
encode_from size out (c ∷ s) =
    let need = if is_safe c then 1 else 3 in
    let more = encode_from size (out ++ encode_byte c) s in
    if leb size (length out + need) then (no_memory, none) else more

-- `usbs_store_safe_id`; `none` is a NULL identity. A failure hands out no name.
unfoldable pub safe_id : Option CString → ℕ → Status × Option CString
safe_id none size = (invalid_arg, none)
safe_id (some identity) size =
    if size == 0 then (invalid_arg, none) else encode_from size [] identity
