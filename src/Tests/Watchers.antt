-- ===== src/Tests/Watchers.antt =====
-- The theorems about the table of devices and the clients that listen, at small tables.
use rusbmux.Base.{ℕ, ◌≡◌, refl, true, false, none, some, List, [], ◌∷◌, ◌++◌, if◌then◌else◌, inl}
use rusbmux.Base.Map.{get}
use rusbmux.Error
use rusbmux.Error.{RusbmuxError, err, device_not_found, bad_device_or_no_such_file}
use rusbmux.Conn.{done}
use rusbmux.Backend.{AnyDeviceInfo, rusb, apple_vid}
use rusbmux.Backend.Hotplug
use rusbmux.NetworkDevice.{NetworkDevice, ip_v4}
use rusbmux.Device.{UsbDevice, opened}
use rusbmux.Device.Table
use rusbmux.Devices
use rusbmux.Devices.{Device, network, usb, serial_number}
use rusbmux.Watcher.{Connected, usb_connected, usb_disconnected, network_added, is_known}
use rusbmux.Watcher.Steps.{Reached, start, next, connected, resolved, Reached-IsRegistry}
use rusbmux.Watcher.Stream.{Moment, Occasion, open_device}
use rusbmux.Watcher.View.{View, replay, visible, Shows}
use rusbmux.Watcher.Unplugged.{usb_disconnected-Shows}
use rusbmux.Handler.{Session, send_result}
use rusbmux.Handler.DeviceList.{listed}
use rusbmux.Handler.DeviceList.Agreement.{get-listed}
use rusbmux.Handler.Listen.Start.{attaches, send_currently_connected-Shows}
use rusbmux.Handler.Listen.Following.{same, unplugged, listener_knows}
use rusbmux.Tests.Codec.{plain}

abbrev pub phone : AnyDeviceInfo
phone = rusb (record {
  vendor_id = apple_vid;
  product_id = 4776;
  serial = some (b'a' ∷ []);
  speed = none;
  bus = 1;
  address = 7;
  hash_id = 0;
})

abbrev pub cable : UsbDevice
cable = opened 3 phone (record { major = 2; minor = 0; padding = 0 })

abbrev pub wifi : NetworkDevice
wifi = record {
  id = 4;
  addr = ip_v4 (10 ∷ 0 ∷ 0 ∷ 1 ∷ []);
  scope_id = some 2;
  mac_address = b'm' ∷ [];
  service_name = b'm' ∷ b'@' ∷ [];
  serial_number = b'a' ∷ [];
  cancelled = false;
}

-- The device on its cable, and then over the network as well.
abbrev pub plugged : Connected
plugged = (usb_connected 3 (usb cable) []).0

abbrev pub both : Connected
both = (network_added wifi plugged).0

wifi_unknown : is_known wifi.serial_number plugged ≡ false
unfolding is_known usb_connected
wifi_unknown = refl

pub both-Reached : Reached plain both
both-Reached =
    next plugged both (next [] plugged start (connected (usb cable) []))
      (resolved wifi plugged wifi_unknown)

get-listed_example : get 4 (listed both) ≡ (if visible 4 both then get 4 both else none)
get-listed_example = get-listed both 4 (Reached-IsRegistry plain both both-Reached)

cable_here : get 3 both ≡ some (usb cable)
unfolding network_added usb_connected
cable_here = refl

abbrev pub stopped : Device
stopped = usb (record cable { dropped = true; cancelled = true })

pub cable_stops : Devices.shutdown plain false (usb cable) ≡ done stopped
unfolding Devices.shutdown Table.shutdown Table.send_rsts
cable_stops = refl

abbrev told : View
told = replay (attaches (listed both)) (λ j. false)

told-Shows : Shows told both
told-Shows = send_currently_connected-Shows both (Reached-IsRegistry plain both both-Reached)

usb_disconnected-Shows_example :
    Shows
      (replay (usb_disconnected plain false 3 both).1 told)
      (usb_disconnected plain false 3 both).0
usb_disconnected-Shows_example =
    usb_disconnected-Shows both (Reached-IsRegistry plain both both-Reached) 3 cable cable_here
      plain false told stopped cable_stops told-Shows

listener_knows_example :
    Shows
      (replay (usb_disconnected plain false 3 both).1 told)
      (usb_disconnected plain false 3 both).0
listener_knows_example =
    listener_knows plain both
      (replay (usb_disconnected plain false 3 both).1 told, (usb_disconnected plain false 3 both).0)
      (Reached-IsRegistry plain both both-Reached)
      (unplugged (told, both) told both false 3 cable stopped (same (told, both)) cable_here
        cable_stops)

nothing_shown : Shows (λ j. false) []
nothing_shown j = refl

abbrev pub session : Session (List ℕ) (List ℕ)
session = record {
  codec = record { to_xml_bytes = λ v. v; from_bytes = λ bs. some bs };
  result_value = λ n. n ∷ [];
  from_value = λ v. inl λ field. false;
  write = λ bs written. (written ++ bs, Error.ok tt);
  handle = λ request tag written. (written, Error.ok tt);
}

answered :
    send_result session bad_device_or_no_such_file 5 []
    ≡ ((send_result session bad_device_or_no_such_file 5 []).0, Error.ok tt)
unfolding send_result
answered = refl

-- The second of three devices cannot be opened, and is not listed again.
abbrev refuses : Moment
refuses = record { new_usb = λ info id. err RusbmuxError.usb; list_devices = [] }

abbrev accepts : Moment
accepts = record { new_usb = λ info id. Error.ok (usb cable); list_devices = [] }

abbrev occasion : ℕ → Moment → Occasion
occasion id moment = record {
  event = Error.ok (Hotplug.connected phone id);
  now = moment;
  later = refuses ∷ [];
}

refused : open_device refuses (refuses ∷ []) phone 4 ≡ err RusbmuxError.usb
unfolding open_device
refused = refl
