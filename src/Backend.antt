-- ===== src/Backend.antt =====
-- usb_backend/mod.rs: `AnyDeviceInfo` and its identifiers, on Linux. What the crates nusb and rusb report
-- of a device is a record.
pub mod Rusb
pub mod Hotplug
pub mod Identity
pub mod Descriptors
pub mod Opening
pub mod Endpoints
use rusbmux.Base.{
  ℕ, zero, suc, ◌+◌, ◌*◌, ◌^◌, ◌%◌, Bool, true, false, Option, none, some, List, [], ◌∷◌, ◌==◌,
  if◌then◌else◌, map,
}
use mathlib.Core.Option
use rusbmux.Utils.{Speed, speed_to_number, get_serial_number}

abbrev pub apple_vid : ℕ
apple_vid = 0x5ac

pub record DeviceInfo : Type 0 where
  pub vendor_id : ℕ
  pub product_id : ℕ
  -- The string descriptor, where it can be read.
  pub serial : Option (List ℕ)
  pub speed : Option Speed
  pub bus : ℕ
  pub address : ℕ
  -- The hash of the id that nusb gives the device.
  pub hash_id : ℕ

pub data AnyDeviceInfo : Type 0 where
  nusb rusb : DeviceInfo → AnyDeviceInfo

abbrev pub info_of : AnyDeviceInfo → DeviceInfo
info_of (nusb i) = i
info_of (rusb i) = i

abbrev pub vendor_id : AnyDeviceInfo → ℕ
vendor_id d = (info_of d).vendor_id

abbrev pub product_id : AnyDeviceInfo → ℕ
product_id d = (info_of d).product_id

-- usb_backend/rusb.rs: `trim_matches('\0')`, on both ends.
abbrev trim_start : List ℕ → List ℕ
trim_start [] = []
trim_start (zero ∷ bs) = trim_start bs
trim_start (suc b ∷ bs) = suc b ∷ bs

abbrev trim_cons : ℕ → List ℕ → List ℕ
trim_cons zero [] = []
trim_cons b bs = b ∷ bs

abbrev trim_end : List ℕ → List ℕ
trim_end [] = []
trim_end (b ∷ bs) = trim_cons b (trim_end bs)

unfoldable pub trim_matches : List ℕ → List ℕ
trim_matches bs = trim_end (trim_start bs)

unfoldable pub serial_number : AnyDeviceInfo → Option (List ℕ)
serial_number (nusb i) = Option.map get_serial_number i.serial
serial_number (rusb i) = Option.map get_serial_number (Option.map trim_matches i.serial)

unfoldable pub speed : AnyDeviceInfo → Option ℕ
speed (nusb i) = Option.map speed_to_number i.speed
speed (rusb i) = Option.map speed_to_number i.speed

-- `(bus as u32) << 16 | address as u32`; the operands are u8, so that the parts do not overlap.
unfoldable pub location_id : AnyDeviceInfo → ℕ
location_id d = (info_of d).bus * 2 ^ 16 + (info_of d).address

-- `(bus as u64) << 8 | address as u64` for rusb, the hash for nusb.
unfoldable pub opaque_id : AnyDeviceInfo → ℕ
opaque_id (nusb i) = i.hash_id
opaque_id (rusb i) = i.bus * 2 ^ 8 + i.address

-- `DEVICE_ID_COUNTER`, a u64: the id, and the counter after it.
abbrev pub take_new_id : ℕ → ℕ × ℕ
take_new_id counter = (counter, (counter + 1) % 2 ^ 64)
