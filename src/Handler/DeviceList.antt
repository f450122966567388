-- ===== src/Handler/DeviceList.antt =====
-- handler/device_list.rs and handler/listeners_list.rs: the list of the connected devices, with a network device
-- left out where another device has its serial number.
pub mod Agreement
use rusbmux.Base.{
  ℕ, zero, suc, ◌==◌, ◌&&◌, not, Bool, true, Option, none, some, List, [], ◌∷◌, if◌then◌else◌,
}
use rusbmux.Base.Map.{any, retain}
use rusbmux.Error.{Result, err, RusbmuxError, hot_plug_not_supported}
use rusbmux.NetworkDevice.Attached.{NetworkAttached}
use rusbmux.Device.Attached.{UsbAttached}
use rusbmux.Devices
use rusbmux.Devices.{Device, network, usb, serial_number, DeviceAttached}
use rusbmux.Watcher.{Connected, same}
use rusbmux.Handler.{Session}
use rusbmux.Handler.Answers.{Ran, answer}

-- `any(dev.serial_number() == ndev.serial_number && dev.id() != ndev.core.id)`
abbrev pub elsewhere : List ℕ → ℕ → Device → Bool
elsewhere serial id e = same (serial_number e) serial && not (Devices.id e == id)

abbrev pub is_listed : Connected → Device → Bool
is_listed m (network d) = not (any (elsewhere d.serial_number d.id) m)
is_listed m (usb d) = true

abbrev pub values : Connected → List Device
values [] = []
values ((k, d) ∷ m) = d ∷ values m

unfoldable pub listed : Connected → Connected
listed m = retain (λ _ d. is_listed m d) m

-- The plist values that the handlers make of the devices and of the clients that listen.
pub record Messages (Value : Type 0) : Type 0 where
  pub attached_value : DeviceAttached → Value
  pub detached_value : ℕ → Value
  pub device_list_value : List Value → Value
  pub listener_value : Value
  pub listener_list_value : List Value → Value

module _ (af_inet af_inet6 : ℕ) {Value World : Type 0} (x : Session Value World)
    (g : Messages Value) where
  abbrev pub attached_values : List Device → List Value
  attached_values [] = []
  attached_values (d ∷ ds) =
      g.attached_value (Devices.create_device_attached af_inet af_inet6 d) ∷ attached_values ds

  unfoldable pub devices_plist : Connected → Value
  unfolding listed
  devices_plist m = g.device_list_value (attached_values (values (listed m)))

  unfoldable pub handle_device_list : Connected → ℕ → World → Ran World
  unfolding devices_plist
  handle_device_list m tag w = answer x (devices_plist m) tag w

module _ {Value World : Type 0} (x : Session Value World) (g : Messages Value) where
  abbrev pub repeated : ℕ → Value → List Value
  repeated zero v = []
  repeated (suc n) v = v ∷ repeated n v

  -- `receivers` is `none` before the channel of the events exists.
  unfoldable pub handle_listeners_list : Option ℕ → ℕ → World → Ran World
  handle_listeners_list none tag w = (w, err hot_plug_not_supported)
  handle_listeners_list (some n) tag w =
      answer x (g.listener_list_value (repeated n g.listener_value)) tag w
