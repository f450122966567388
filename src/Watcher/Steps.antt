-- ===== src/Watcher/Steps.antt =====
-- What can happen to the table of devices in the daemon, as a step relation: the branches of the USB watcher
-- and of the network watcher.
use rusbmux.Base.{ℕ, ◌≡◌, ◌≢◌, not, Bool, true, false, none, some, List, [], ◌==◌}
use rusbmux.Base.Map.{get}
use rusbmux.Extern.{Extern}
use rusbmux.NetworkDevice.{NetworkDevice}
use rusbmux.Devices
use rusbmux.Devices.{Device, serial_number}
use rusbmux.Watcher.{
  Connected, usb_connected, usb_disconnected, usb_failed, network_added, network_removed, is_known,
  opaque_id_of,
}
use rusbmux.Watcher.Registry.{
  IsRegistry, empty-IsRegistry, usb_connected-IsRegistry, usb_disconnected-IsRegistry,
  lost-IsRegistry, reopened-IsRegistry, network_added-IsRegistry, network_removed-IsRegistry,
}

-- A device that comes back keeps its id, and no entry that stays has its serial number.
abbrev pub ComesBack : ℕ → ℕ → Connected → Device → Type 0
ComesBack id op m d =
    (Devices.id d ≡ id)
    × ((j : ℕ) (e : Device)
        → get j m ≡ some e
        → not (opaque_id_of e == op) ≡ true
        → serial_number e ≢ serial_number d)

module _ (x : Extern) where
  -- `network` needs that the device is still unknown when it is put in.
  pub data Step : Connected → Connected → Type 0 where
    connected : (d : Device) (m : Connected) → Step m (usb_connected (Devices.id d) d m).0
    disconnected : (gone : Bool) (id : ℕ) (m : Connected) → Step m (usb_disconnected x gone id m).0
    lost : (id op : ℕ) (m : Connected) → Step m (usb_failed id op none m).0
    reopened :
        (id op : ℕ) (d : Device) (m : Connected)
        → ComesBack id op m d
        → Step m (usb_failed id op (some d) m).0
    resolved :
        (d : NetworkDevice) (m : Connected)
        → is_known d.serial_number m ≡ false
        → Step m (network_added d m).0
    removed : (mac : List ℕ) (m : Connected) → Step m (network_removed mac m).0

  -- A table that the daemon can come to.
  pub data Reached : Connected → Type 0 where
    start : Reached []
    next : (m n : Connected) → Reached m → Step m n → Reached n

  Step-IsRegistry : (m n : Connected) → Step m n → IsRegistry m → IsRegistry n
  Step-IsRegistry _ _ (connected d m) v = usb_connected-IsRegistry d m v
  Step-IsRegistry _ _ (disconnected gone id m) v = usb_disconnected-IsRegistry x gone id m v
  Step-IsRegistry _ _ (lost id op m) v = lost-IsRegistry id op m v
  Step-IsRegistry _ _ (reopened id op d m back) v = reopened-IsRegistry id op d m back.0 back.1 v
  Step-IsRegistry _ _ (resolved d m unknown) v = network_added-IsRegistry d m unknown v
  Step-IsRegistry _ _ (removed mac m) v = network_removed-IsRegistry mac m v

  -- In every table that the daemon can come to, each entry stands under its device's id, and a serial number has at
  -- most one USB device and one network device.
  pub Reached-IsRegistry : (m : Connected) → Reached m → IsRegistry m
  Reached-IsRegistry _ start = empty-IsRegistry
  Reached-IsRegistry _ (next m n r s) = Step-IsRegistry m n s (Reached-IsRegistry m r)
