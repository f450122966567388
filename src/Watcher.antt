-- ===== src/Watcher.antt =====
-- watcher/mod.rs, watcher/usb.rs and watcher/network.rs: the table of the connected devices, and what the
-- watchers do to it on each event. An operation returns the table and the events that it broadcasts.
pub mod Search
pub mod Registry
pub mod Steps
pub mod View
pub mod Unplugged
pub mod Plugged
pub mod Resolve
pub mod Stream
pub mod Unordered
pub mod Table
pub mod Services
pub mod Loops
use rusbmux.Base.{
  ℕ, ◌==◌, ◌&&◌, not, Bool, true, false, Option, none, some, List, [], ◌∷◌, ◌++◌, if◌then◌else◌,
}
use rusbmux.Base.Map.{get, insert, remove, retain, find, any}
use rusbmux.Extern.{Extern}
use rusbmux.Error.{RusbmuxError, device_not_found}
use rusbmux.Conn.{Progress, done, failed, pending}
use rusbmux.Backend
use rusbmux.NetworkDevice.{NetworkDevice}
use rusbmux.Devices
use rusbmux.Devices.{Device, network, usb, is_usb, serial_number, as_usb}

pub data DeviceEvent : Type 0 where
  attached detached : ℕ → DeviceEvent

-- `CONNECTED_DEVICES`
abbrev pub Connected : Type 0
Connected = List (ℕ × Device)

-- Equality of strings.
abbrev pub same : List ℕ → List ℕ → Bool
same [] [] = true
same (a ∷ as') (b ∷ bs) = (a == b) && same as' bs
same _ _ = false

-- A device of the other kind, or of one kind, under a serial number.
abbrev pub is_network_of : List ℕ → Device → Bool
is_network_of serial d = not (is_usb d) && same (serial_number d) serial

abbrev pub is_usb_of : List ℕ → Device → Bool
is_usb_of serial d = is_usb d && same (serial_number d) serial

abbrev pub has_usb : List ℕ → Connected → Bool
has_usb serial m = any (is_usb_of serial) m

abbrev pub Outcome : Type 0
Outcome = Connected × List DeviceEvent

abbrev pub attached_to : Option Device → List DeviceEvent
attached_to none = []
attached_to (some d) = attached (Devices.id d) ∷ []

abbrev pub detached_from : Option Device → List DeviceEvent
detached_from none = []
detached_from (some d) = detached (Devices.id d) ∷ []

-- What `remove_device` broadcasts, on the table without the device.
abbrev pub removal_events : Device → Connected → List DeviceEvent
removal_events (usb d) m = attached_to (find (is_network_of (serial_number (usb d))) m)
removal_events (network d) m = if has_usb d.serial_number m then [] else detached d.id ∷ []

-- The removed device is shut down first; an error ends the call, with the device gone and nothing
-- broadcast.
abbrev pub after_shutdown : Device → Connected → Progress Device → Outcome × Progress Device
after_shutdown d m (done d') = ((m, removal_events d m), done d')
after_shutdown d m (failed e) = ((m, []), failed e)
after_shutdown d m pending = ((m, []), pending)

abbrev pub remove_found : Extern → Bool → ℕ → Connected → Option Device → Outcome × Progress Device
remove_found x gone id m none = ((m, []), failed (device_not_found id))
remove_found x gone id m (some d) = after_shutdown d (remove id m) (Devices.shutdown x gone d)

unfoldable pub remove_device : Extern → Bool → ℕ → Connected → Outcome × Progress Device
remove_device x gone id m = remove_found x gone id m (get id m)

-- watch_usb_daemon, a device that has been opened: its network twin is reported as detached, and every
-- entry of its serial number goes.
unfoldable pub usb_connected : ℕ → Device → Connected → Outcome
usb_connected id d m = (
  insert id d (retain (λ _ e. not (same (serial_number e) (serial_number d))) m),
  detached_from (find (is_network_of (serial_number d)) m),
)

-- watch_usb_daemon, a device that is gone. An error of the removal is logged.
abbrev pub after_removal : ℕ → Outcome × Progress Device → Outcome
after_removal id ((m, events), done d) = (m, events ++ detached id ∷ [])
after_removal id (outcome, failed e) = outcome
after_removal id (outcome, pending) = outcome

unfoldable pub usb_disconnected : Extern → Bool → ℕ → Connected → Outcome
unfolding remove_device
usb_disconnected x gone id m = after_removal id (remove_device x gone id m)

-- watch_usb_daemon, a device whose reader loop has failed: it is dropped, and opened again if the backend
-- still lists it and that succeeds. A network device counts as one with the opaque id 0.
abbrev pub opaque_id_of : Device → ℕ
opaque_id_of (usb d) = Backend.opaque_id d.info
opaque_id_of (network d) = 0

abbrev reopened : ℕ → Connected → Option Device → Outcome
reopened id m none = (m, detached id ∷ [])
reopened id m (some d) = (insert id d m, detached id ∷ attached id ∷ [])

unfoldable pub usb_failed : ℕ → ℕ → Option Device → Connected → Outcome
usb_failed id opaque_id again m =
    reopened id (retain (λ _ e. not (opaque_id_of e == opaque_id)) m) again

-- watcher/network.rs, `network_device_add`: the check, and what follows once the device is connected
-- to. Other tasks run in between.
unfoldable pub is_known : List ℕ → Connected → Bool
is_known udid m = any (is_network_of udid) m

unfoldable pub network_added : NetworkDevice → Connected → Outcome
network_added d m =
    let m' = insert d.id (network d) m in
    (m', if has_usb d.serial_number m' then [] else attached d.id ∷ [])

-- watch_network_daemon, a service that is removed, by its MAC address.
abbrev pub has_mac : List ℕ → Device → Bool
has_mac mac (network d) = same d.mac_address mac
has_mac mac (usb d) = false

abbrev pub network_removed_id : Connected → ℕ → Option Device → Outcome
network_removed_id m id none = (m, [])
network_removed_id m id (some d) =
    let m' = remove id m in (m', if has_usb (serial_number d) m' then [] else detached id ∷ [])

abbrev pub network_found : Connected → Option Device → Outcome
network_found m none = (m, [])
network_found m (some d) = network_removed_id m (Devices.id d) (get (Devices.id d) m)

unfoldable pub network_removed : List ℕ → Connected → Outcome
network_removed mac m = network_found m (find (has_mac mac) m)
