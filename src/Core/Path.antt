-- ===== src/Core/Path.antt =====
-- include/usbsentinel/path.h and src/core/path.c: host path separators and the bounded join.
pub mod Join
mod Tests
use usb_sentinel.Prelude.{
  ℕ, ◌+◌, ◌-◌, ◌<◌, Bool, true, false, ◌||◌, not, List, [], ◌∷◌, ◌++◌, Option, none, some, ltb, leb,
  ◌==◌, if◌then◌else◌, length, CString, clip,
}
use usb_sentinel.Status.{Status, ok, invalid_arg, no_memory, internal}

-- The host that the sources are built for.
pub data Host : Type 0 where
  windows posix : Host

-- `USBS_PATH_SEP_CHAR`
abbrev pub path_sep : Host → ℕ
path_sep windows = b'\\'
path_sep posix = b'/'

unfoldable pub is_separator : Host → ℕ → Bool
is_separator windows c = c == b'\\' || c == b'/'
is_separator posix c = c == b'/'

-- `base_len > 0 && usbs_path_is_separator(base[base_len - 1])`
unfoldable pub ends_in_separator : Host → CString → Bool
ends_in_separator h [] = false
ends_in_separator h (c ∷ []) = is_separator h c
ends_in_separator h (c ∷ d ∷ cs) = ends_in_separator h (d ∷ cs)

-- What `snprintf` may return at most.
abbrev pub int_max : ℕ
int_max = 2147483647

-- The status for a bounded print of `text` into `size` bytes, and what the buffer then holds.
-- `snprintf` returns a negative number where the length does not fit an `int`.
unfoldable pub print_bounded : ℕ → CString → Status × Option CString
print_bounded size text =
    if ltb int_max (length text)
    then (internal, some (clip size text))
    else if leb size (length text)
    then (no_memory, some (clip size text))
    else (ok, some (clip size text))

-- `usbs_path_join`: the status, and the new content of `out` where it is written. `none` stands for
-- a NULL argument.
unfoldable pub path_join : Host → ℕ → Option CString → Option CString → Status × Option CString
path_join h size none leaf = (invalid_arg, none)
path_join h size (some base) none = (invalid_arg, none)
path_join h size (some base) (some leaf) =
    if size == 0
    then (invalid_arg, none)
    else if ends_in_separator h base
    then print_bounded size (base ++ leaf)
    else print_bounded size (base ++ (path_sep h ∷ leaf))
