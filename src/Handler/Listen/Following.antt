-- ===== src/Handler/Listen/Following.antt =====
-- A client that listens, over what happens to the table of devices.
use rusbmux.Base.{ℕ, ◌≡◌, Bool, false, none, some, List}
use rusbmux.Base.Map.{get}
use rusbmux.Extern.{Extern}
use rusbmux.Conn.{done}
use rusbmux.NetworkDevice.{NetworkDevice}
use rusbmux.Device.{UsbDevice}
use rusbmux.Devices
use rusbmux.Devices.{Device, usb}
use rusbmux.Watcher.{
  Connected, DeviceEvent, network_added, network_removed, usb_disconnected, is_known,
}
use rusbmux.Watcher.Registry.{
  IsRegistry, usb_disconnected-IsRegistry, network_added-IsRegistry, network_removed-IsRegistry,
}
use rusbmux.Watcher.View.{View, replay, Shows, network_added-Shows, network_removed-Shows}
use rusbmux.Watcher.Unplugged.{usb_disconnected-Shows}
use rusbmux.Handler.DeviceList.{listed}
use rusbmux.Handler.Listen.Start.{attaches, send_currently_connected-Shows}

-- What a client has been told, and the table.
abbrev pub Told : Type 0
Told = View × Connected

abbrev after : View → Connected × List DeviceEvent → Told
after v (m, events) = (replay events v, m)

module _ (x : Extern) where
  -- What happens: a network device with a new id that is still unknown comes, or one goes, or a USB device is unplugged
  -- whose shutdown succeeds.
  pub data Follows : Told → Told → Type 0 where
    same : (t : Told) → Follows t t
    added :
        (t : Told) (v : View) (m : Connected) (d : NetworkDevice)
        → Follows t (v, m)
        → get d.id m ≡ none
        → is_known d.serial_number m ≡ false
        → Follows t (after v (network_added d m))
    removed :
        (t : Told) (v : View) (m : Connected) (mac : List ℕ)
        → Follows t (v, m)
        → Follows t (after v (network_removed mac m))
    unplugged :
        (t : Told) (v : View) (m : Connected) (gone : Bool) (id : ℕ) (d : UsbDevice) (d' : Device)
        → Follows t (v, m)
        → get id m ≡ some (usb d)
        → Devices.shutdown x gone (usb d) ≡ done d'
        → Follows t (after v (usb_disconnected x gone id m))

  Follows-Shows :
      (t u : Told) → Follows t u → IsRegistry t.1 → Shows t.0 t.1 → IsRegistry u.1 × Shows u.0 u.1
  Follows-Shows _ _ (same t) r s = (r, s)
  Follows-Shows _ _ (added t v m d f fresh unknown) r s =
      let (r', s') = Follows-Shows t (v, m) f r s in
      (network_added-IsRegistry d m unknown r', network_added-Shows d m v fresh s')
  Follows-Shows _ _ (removed t v m mac f) r s =
      let (r', s') = Follows-Shows t (v, m) f r s in
      (network_removed-IsRegistry mac m r', network_removed-Shows mac m v r' s')
  Follows-Shows _ _ (unplugged t v m gone id d d' f here closed) r s =
      let (r', s') = Follows-Shows t (v, m) f r s in
      (
        usb_disconnected-IsRegistry x gone id m r',
        usb_disconnected-Shows m r' id d here x gone v d' closed s',
      )

  -- A client that starts to listen on a table that is in order knows what the table shows, and goes on knowing it while
  -- network devices come and go and USB devices are unplugged: each device in the table is known to it exactly if it
  -- is a USB device or no USB device has its serial number.
  pub listener_knows :
      (m : Connected) (u : Told)
      → IsRegistry m
      → Follows (replay (attaches (listed m)) (λ j. false), m) u
      → Shows u.0 u.1
  listener_knows m u r f =
      (Follows-Shows (replay (attaches (listed m)) (λ j. false), m) u f r
        (send_currently_connected-Shows m r)).1
