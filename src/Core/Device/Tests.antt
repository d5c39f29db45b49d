-- ===== src/Core/Device/Tests.antt =====
-- Devices at concrete inputs, after tests/test_device.c.
use usb_sentinel.Prelude.{codes}
use usb_sentinel.Core.Device.{usb, sata, Device, device_init}

abbrev stick : Device
stick = record device_init {
  volume_path = codes "/m/";
  bus_type = usb;
  usb_vid = codes "0951";
  usb_pid = codes "1666";
  serial = codes "A1";
}

abbrev disk : Device
disk = record device_init { volume_path = codes "/d/"; bus_type = sata; serial = codes "S" }
