-- ===== src/Status.antt =====
-- include/usbsentinel/error.h and src/core/error.c: the status codes.
use usb_sentinel.Prelude.{Bool, true, false, CString, codes}

pub data Status : Type 0 where
  ok invalid_arg not_found io access_denied no_memory unsupported internal : Status

-- `usbs_ok`
abbrev pub is_ok : Status → Bool
is_ok ok = true
is_ok _ = false

-- `usbs_status_string`
unfoldable pub status_string : Status → CString
status_string ok = codes "USBS_OK"
status_string invalid_arg = codes "USBS_ERR_INVALID_ARG"
status_string not_found = codes "USBS_ERR_NOT_FOUND"
status_string io = codes "USBS_ERR_IO"
status_string access_denied = codes "USBS_ERR_ACCESS_DENIED"
status_string no_memory = codes "USBS_ERR_NO_MEMORY"
status_string unsupported = codes "USBS_ERR_UNSUPPORTED"
status_string internal = codes "USBS_ERR_INTERNAL"
