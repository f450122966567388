-- ===== src/Devices.antt =====
-- device/mod.rs: `Device`, a USB or a network device.
pub mod Connecting
use rusbmux.Base.{ℕ, Bool, true, false, Option, none, some, List, []}
use rusbmux.Extern.{Extern}
use rusbmux.Conn.{Progress, done, failed, pending}
use rusbmux.Backend
use rusbmux.NetworkDevice
use rusbmux.NetworkDevice.{NetworkDevice}
use rusbmux.NetworkDevice.Attached as Wireless
use rusbmux.NetworkDevice.Attached.{NetworkAttached}
use rusbmux.Device.{UsbDevice}
use rusbmux.Device.Attached.{UsbAttached, unwrap_or}
use rusbmux.Device.Attached
use rusbmux.Device.Table

pub data Device : Type 0 where
  network : NetworkDevice → Device
  usb : UsbDevice → Device

pub data ConnectionType : Type 0 where
  over_usb over_network : ConnectionType

abbrev pub connection_type : Device → ConnectionType
connection_type (usb d) = over_usb
connection_type (network d) = over_network

abbrev pub id : Device → ℕ
id (network d) = d.id
id (usb d) = d.id

abbrev pub serial_number : Device → List ℕ
serial_number (network d) = d.serial_number
serial_number (usb d) = unwrap_or [] (Backend.serial_number d.info)

abbrev pub as_network : Device → Option NetworkDevice
as_network (network d) = some d
as_network (usb d) = none

abbrev pub as_usb : Device → Option UsbDevice
as_usb (network d) = none
as_usb (usb d) = some d

pub data DeviceAttached : Type 0 where
  usb_attached : UsbAttached → DeviceAttached
  network_attached : NetworkAttached → DeviceAttached

unfoldable pub create_device_attached : ℕ → ℕ → Device → DeviceAttached
create_device_attached af_inet af_inet6 (usb d) = usb_attached (Attached.create_device_attached d)
create_device_attached af_inet af_inet6 (network d) =
    network_attached (Wireless.create_device_attached af_inet af_inet6 d)

abbrev pub is_usb : Device → Bool
is_usb (network d) = false
is_usb (usb d) = true

abbrev stopped_usb : Progress UsbDevice → Progress Device
stopped_usb (done d) = done (usb d)
stopped_usb (failed e) = failed e
stopped_usb pending = pending

-- `gone`: whether the aborted writer has already left its channel.
unfoldable pub shutdown : Extern → Bool → Device → Progress Device
shutdown x gone (usb d) = stopped_usb (Table.shutdown x gone d)
shutdown x gone (network d) = done (network (NetworkDevice.shutdown d))
