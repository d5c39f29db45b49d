-- ===== src/Core/Device.antt =====
-- include/usbsentinel/device.h and src/core/device.c: the record of one volume, its identity, and
-- which volumes may be scanned.
pub mod Identity
mod Tests
use usb_sentinel.Prelude.{
  ℕ, Bool, true, false, not, ◌&&◌, List, [], ◌∷◌, ◌++◌, Option, none, some, CString, codes, ltb,
  ◌==◌, if◌then◌else◌, length,
}
use usb_sentinel.Core.Path.{print_bounded}
use usb_sentinel.Core.Vector
use usb_sentinel.Core.Vector.{Vector}
use usb_sentinel.Status.{Status, ok, invalid_arg, unsupported, is_ok}

pub data BusType : Type 0 where
  unknown usb sata nvme scsi sd other network : BusType

pub data EnumMode : Type 0 where
  usb_only all_volumes : EnumMode

-- `usbs_device_t`
pub record Device : Type 0 where
  pub volume_path : CString
  pub mount_points : List CString
  pub label : CString
  pub filesystem : CString
  pub capacity_bytes : ℕ
  pub free_bytes : ℕ
  pub bus_type : BusType
  pub disk_number : ℕ
  pub has_disk_number : Bool
  pub vendor : CString
  pub product : CString
  pub serial : CString
  pub usb_vid : CString
  pub usb_pid : CString
  pub removable_media : Bool
  pub media_present : Bool

-- `usbs_device_init`: all zero
unfoldable pub device_init : Device
device_init = record {
  volume_path = [];
  mount_points = [];
  label = [];
  filesystem = [];
  capacity_bytes = 0;
  free_bytes = 0;
  bus_type = unknown;
  disk_number = 0;
  has_disk_number = false;
  vendor = [];
  product = [];
  serial = [];
  usb_vid = [];
  usb_pid = [];
  removable_media = false;
  media_present = false;
}

-- `usbs_bus_type_string`
unfoldable pub bus_type_string : BusType → CString
bus_type_string unknown = codes "unknown"
bus_type_string usb = codes "USB"
bus_type_string sata = codes "SATA"
bus_type_string nvme = codes "NVMe"
bus_type_string scsi = codes "SCSI"
bus_type_string sd = codes "SD"
bus_type_string other = codes "other"
bus_type_string network = codes "network"

abbrev pub is_usb : BusType → Bool
is_usb usb = true
is_usb _ = false

unfoldable pub is_known_non_usb_bus : BusType → Bool
is_known_non_usb_bus usb = false
is_known_non_usb_bus unknown = false
is_known_non_usb_bus _ = true

-- `s[0] != '\0'`
abbrev pub is_given : CString → Bool
is_given s = not (length s == 0)

-- What `usbs_device_identity` prints.
unfoldable pub identity_text : Device → CString
identity_text device =
    let have_usb_ids = is_given device.usb_vid && is_given device.usb_pid in
    let have_serial = is_given device.serial && not (is_known_non_usb_bus device.bus_type) in
    if have_usb_ids && have_serial
    then codes "usb:"
      ++ (device.usb_vid ++ (codes "-" ++ (device.usb_pid ++ (codes ":" ++ device.serial))))
    else if have_usb_ids
    then codes "usb:" ++ (device.usb_vid ++ (codes "-" ++ device.usb_pid))
    else if have_serial
    then codes "serial:" ++ device.serial
    else codes "volume:" ++ device.volume_path

-- `usbs_device_identity`, with the new content of a buffer of `size` bytes
unfoldable pub device_identity : Option Device → ℕ → Status × Option CString
device_identity none size = (invalid_arg, none)
device_identity (some device) size =
    if size == 0 then (invalid_arg, none) else print_bounded size (identity_text device)

-- `usbs_device_is_scannable_usb`
unfoldable pub is_scannable_usb : Option Device → Bool
is_scannable_usb none = false
is_scannable_usb (some device) = is_usb device.bus_type && device.media_present

-- `usbs_device_is_scannable`
unfoldable pub is_scannable : Option Device → EnumMode → Bool
is_scannable none mode = false
is_scannable (some device) usb_only = is_scannable_usb (some device)
is_scannable (some device) all_volumes =
    device.media_present && (ltb 0 (length device.mount_points) && is_given device.volume_path)

-- `usbs_device_list_t`
abbrev pub DeviceList : Type 0
DeviceList = Vector Device

-- `sizeof(usbs_device_t)`
abbrev pub device_size : ℕ
device_size = 3152

-- `usbs_device_list_push`; `none` is a NULL device.
unfoldable pub device_list_push : (ℕ → Bool) → DeviceList → Option Device → Status × DeviceList
device_list_push grants list none = (invalid_arg, list)
device_list_push grants list (some device) = Vector.push grants 8 device_size list device

-- `usbs_device_enumerate`: the source is a function that pushes onto a list, `some none` is one without
-- the function, and `none` a NULL source.
unfoldable pub device_enumerate :
    Option (Option (DeviceList → Status × DeviceList)) → Status × Option DeviceList
device_enumerate none = (invalid_arg, none)
device_enumerate (some none) = (unsupported, some Vector.empty)
device_enumerate (some (some enumerate)) =
    let (status, list) = enumerate Vector.empty in
    if not (is_ok status) then (status, some Vector.empty) else (status, some list)
