-- ===== src/Backend/Hotplug.antt =====
-- usb_backend/rusb.rs and usb_backend/nusb.rs: `watch_devices`, which gives each device that arrives an id, and
-- names it by that id when it leaves. Between arrival and departure the device is known by its opaque id.
pub mod Live
pub mod Twice
use rusbmux.Base.{
  ℕ, Bool, true, false, Option, none, some, List, [], ◌∷◌, ◌++◌, ◌==◌, if◌then◌else◌, map,
}
use rusbmux.Error
use rusbmux.Error.{Result, hot_plug_not_supported}
use rusbmux.Base.Map.{get, insert, remove}
use rusbmux.Backend.{AnyDeviceInfo, DeviceInfo, nusb, rusb, opaque_id, apple_vid, take_new_id}

-- `usb_backend::Event`
pub data Event : Type 0 where
  connected : AnyDeviceInfo → ℕ → Event
  disconnected : ℕ → Event

-- `rusb::UsbEvent`, and the events of nusb, where a device that leaves is a hash.
pub data UsbEvent : Type 0 where
  arrived left : DeviceInfo → UsbEvent

pub data HotplugEvent : Type 0 where
  plugged : DeviceInfo → HotplugEvent
  unplugged : ℕ → HotplugEvent

-- The counter of the ids, and the ids by opaque id.
pub record Ids : Type 0 where
  pub counter : ℕ
  pub devices_id_map : List (ℕ × ℕ)

unfoldable pub arrive : AnyDeviceInfo → Ids → Ids × List Event
arrive d s =
    let (id, counter) = take_new_id s.counter in
    (
      record { counter = counter; devices_id_map = insert (opaque_id d) id s.devices_id_map },
      connected d id ∷ [],
    )

abbrev pub leave_known : ℕ → Ids → Option ℕ → Ids × List Event
leave_known opaque s none = (s, [])
leave_known opaque s (some id) =
    (record s { devices_id_map = remove opaque s.devices_id_map }, disconnected id ∷ [])

unfoldable pub leave : ℕ → Ids → Ids × List Event
leave opaque s = leave_known opaque s (get opaque s.devices_id_map)

unfoldable pub watch_rusb : UsbEvent → Ids → Ids × List Event
unfolding arrive leave
watch_rusb (arrived d) s = arrive (rusb d) s
watch_rusb (left d) s = leave (opaque_id (rusb d)) s

-- Devices of others are passed over when they arrive.
unfoldable pub watch_nusb : HotplugEvent → Ids → Ids × List Event
unfolding arrive leave
watch_nusb (plugged d) s = if d.vendor_id == apple_vid then arrive (nusb d) s else (s, [])
watch_nusb (unplugged hash) s = leave hash s

-- The devices that are there at the start come first.
unfoldable pub list_devices : List DeviceInfo → List DeviceInfo
list_devices [] = []
list_devices (d ∷ ds) =
    let rest = list_devices ds in if d.vendor_id == apple_vid then d ∷ rest else rest

-- nusb: what is listed, or nothing if that fails.
unfoldable pub nusb_list_devices : Option (List DeviceInfo) → List AnyDeviceInfo
unfolding list_devices
nusb_list_devices none = []
nusb_list_devices (some ds) = map nusb (list_devices ds)

-- rusb: a device whose descriptor cannot be read is left out.
abbrev readable_only : List (DeviceInfo × Bool) → List DeviceInfo
readable_only [] = []
readable_only ((d, true) ∷ ds) = d ∷ readable_only ds
readable_only ((d, false) ∷ ds) = readable_only ds

unfoldable pub rusb_list_devices : Option (List (DeviceInfo × Bool)) → List AnyDeviceInfo
unfolding list_devices
rusb_list_devices none = []
rusb_list_devices (some ds) = map rusb (list_devices (readable_only ds))

-- The stream of nusb: the devices that are listed at the start, and then the events since the watch began,
-- which is before they are listed.
abbrev pub arrive_all : List AnyDeviceInfo → Ids → Ids × List Event
arrive_all [] s = (s, [])
arrive_all (d ∷ ds) s =
    let (s', events) = arrive d s in let (s'', later) = arrive_all ds s' in (s'', events ++ later)

abbrev pub watch_all : List HotplugEvent → Ids → Ids × List Event
watch_all [] s = (s, [])
watch_all (e ∷ es) s =
    let (s', events) = watch_nusb e s in
    let (s'', later) = watch_all es s' in (s'', events ++ later)

unfoldable pub watch_usb : Option (List DeviceInfo) → List HotplugEvent → Ids → Ids × List Event
unfolding nusb_list_devices
watch_usb listed es s =
    let (s', events) = arrive_all (nusb_list_devices listed) s in
    let (s'', later) = watch_all es s' in (s'', events ++ later)

-- The stream of rusb: by callbacks where libusb has them, and by polling where it has not. A callback that
-- cannot be registered is an error.
pub data DeviceStream : Type 0 where
  hotplug polling : DeviceStream

unfoldable pub rusb_stream : Bool → Bool → Result DeviceStream
rusb_stream true true = Error.ok hotplug
rusb_stream true false = Error.err hot_plug_not_supported
rusb_stream false registers = Error.ok polling
