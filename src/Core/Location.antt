-- ===== src/Core/Location.antt =====
-- include/usbsentinel/location.h and src/core/location.c: what kind of place a path relative to the
-- volume root lies in. A component is its own list of bytes, where the source keeps a pointer and a
-- length into the path.
pub mod Components
pub mod Scratch
pub mod Rules
pub mod Split
pub mod Exposed
pub mod Exclusion
pub mod Relative
pub mod Policy
mod Tests
use usb_sentinel.Prelude.{
  ℕ, ◌<◌, Bool, true, false, ◌&&◌, ◌||◌, not, List, [], ◌∷◌, Option, none, some, ltb, ◌==◌,
  if◌then◌else◌, length, drop, CString, codes,
}
