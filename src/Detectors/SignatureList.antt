-- ===== src/Detectors/SignatureList.antt =====
-- src/detectors/signature_list.h and signature_list.c: the list of signatures, the parser of its
-- file format, and the lookup by size and hash.
pub mod Line
pub mod FileRead
pub mod WholeFile
pub mod Load
pub mod Lookup
pub mod Bounds
pub mod Search
pub mod Loaded
pub mod Instances
mod Tests
use usb_sentinel.Prelude.{ℕ, List, CString}

-- `usbs_signature_t`
pub record Signature : Type 0 where
  pub sha256_hex : CString
  pub size : ℕ
  pub name : CString

-- `usbs_signature_list_t`: `entries[0..count)`, and the capacity.
pub record SignatureList : Type 0 where
  pub entries : List Signature
  pub capacity : ℕ
