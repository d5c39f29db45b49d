-- ===== src/Core/Location/Policy.antt =====
-- Where the location policy applies: `usbs_location_policy_applies`.
use usb_sentinel.Prelude.{Bool, true, false, Option, none, some}
use usb_sentinel.Core.Device.{BusType, Device}

-- `none` is a NULL device.
unfoldable pub policy_applies : Option Device → Bool
policy_applies none = false
policy_applies (some device) = elim device.bus_type [
  | BusType.usb ↦ false
  | BusType.unknown ↦ false
  | _ ↦ true
]
