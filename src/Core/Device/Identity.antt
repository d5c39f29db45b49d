-- ===== src/Core/Device/Identity.antt =====
-- The identity of a device.
use usb_sentinel.Prelude.{ℕ, ◌<◌, ◌≡◌, ◌++◌, some, codes, arith, length, length-append}
use usb_sentinel.Core.Device.{Device, identity_text, device_identity}
use usb_sentinel.Core.Path.Join.{print_bounded-fits}
use usb_sentinel.Status.{ok}

-- The strings of a record lie in its fields, with their NUL.
pub record InFields (device : Device) : Type 0 where
  pub volume_path : length device.volume_path < 512
  pub serial : length device.serial < 128
  pub usb_vid : length device.usb_vid < 5
  pub usb_pid : length device.usb_pid < 5

-- `USBS_IDENTITY_MAX`
abbrev pub identity_max : ℕ
identity_max = 544

length-identity_text :
    (device : Device) → InFields device → length (identity_text device) < identity_max
unfolding identity_text
length-identity_text device h = ground (
  arith,
  length-append device.usb_vid (codes "-" ++ (device.usb_pid ++ (codes ":" ++ device.serial))),
  length-append device.usb_pid (codes ":" ++ device.serial),
  length-append device.usb_vid (codes "-" ++ device.usb_pid),
)

-- For a device whose strings lie in their fields, the identity fits its buffer of 544 bytes
-- whole.
pub device_identity_fits :
    (device : Device)
    → InFields device
    → device_identity (some device) identity_max ≡ (ok, some (identity_text device))
unfolding device_identity
device_identity_fits device h =
    print_bounded-fits identity_max (identity_text device) (length-identity_text device h)
      (omega (arith, length-identity_text device h))
