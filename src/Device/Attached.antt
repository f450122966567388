-- ===== src/Device/Attached.antt =====
-- device/usb.rs: `create_device_attached`, the message that tells a listener of a device, before it is a
-- plist.
use rusbmux.Base.{ℕ, Option, none, some, List, []}
use rusbmux.Backend.{speed, location_id, product_id, serial_number}
use rusbmux.Device.{UsbDevice}

abbrev pub unwrap_or {ℓ} : {A : Type ℓ} → A → Option A → A
unwrap_or a none = a
unwrap_or a (some b) = b

pub record UsbAttached : Type 0 where
  pub device_id : ℕ
  pub connection_speed : ℕ
  pub location : ℕ
  pub product : ℕ
  pub serial : List ℕ

unfoldable pub create_device_attached : UsbDevice → UsbAttached
create_device_attached d = record {
  device_id = d.id;
  connection_speed = unwrap_or 0 (speed d.info);
  location = location_id d.info;
  product = product_id d.info;
  serial = unwrap_or [] (serial_number d.info);
}
