-- ===== src/Platform.antt =====
-- include/usbsentinel/platform.h: what the operating system shows of a volume. A directory is what the
-- calls on it answer, one after the other, so that a volume that changes or disappears during a scan is
-- one of these as well.
pub mod Sha256
use usb_sentinel.Prelude.{ℕ, Bool, List, CString}
use usb_sentinel.Status.{Status}

-- `usbs_dir_entry_t`
pub record DirEntry : Type 0 where
  pub name : CString
  pub is_directory : Bool
  pub is_reparse_point : Bool
  pub is_hidden : Bool
  pub size_bytes : ℕ

mutual
  -- The answer of `usbs_platform_dir_open`. A refusal has a status that is not OK, and says whether the
  -- volume root opens right after it.
  pub data Visit : Type 0 where
    refuses : Status → Bool → Visit
    opens : Listing → Visit

  -- The answers of `usbs_platform_dir_next`, with those of the caller's cancel check, where it is asked
  -- and answers yes. A failure has a status that is neither OK nor NOT_FOUND, and says whether the volume
  -- root opens right after it. Each entry has the visit that opening it would begin.
  pub data Listing : Type 0 where
    ends : Listing
    cancels : Listing → Listing
    fails : Status → Bool → Listing
    lists : DirEntry → Visit → Listing → Listing

-- The answers of `usbs_platform_file_read`: each gives bytes, of which a call gets no more than it asks
-- for, or fails with a status that is not OK.
pub data Reads : Type 0 where
  finished : Reads
  breaks : Status → Reads
  chunk : List ℕ → Reads → Reads

-- The answer of `usbs_platform_file_open_read`. A refusal has a status that is not OK.
pub data FileVisit : Type 0 where
  denied : Status → FileVisit
  readable : Reads → FileVisit
