-- ===== src/Watcher/Plugged.antt =====
-- What a listening client does not learn of a USB device that is plugged in, and of its network twin.
use rusbmux.Base.{
  ℕ, ◌≡◌, refl, not, Bool, true, false, Option, none, some, List, [], ◌∷◌, arith, Bool-cases,
}
use rusbmux.Base.Map.{get, insert, remove, retain, find}
use rusbmux.Extern.{Extern}
use rusbmux.Conn.{done}
use rusbmux.Device.{UsbDevice}
use rusbmux.Devices
use rusbmux.Devices.{Device, usb, serial_number}
use rusbmux.Watcher.{
  Connected, detached, same, detached_from, is_network_of, remove_device, usb_connected,
  usb_disconnected,
}
use rusbmux.Watcher.View.{View, replay, visible, Shows}

replay-detached_from :
    (o : Option Device) (v : View) (j : ℕ) → v j ≡ false → replay (detached_from o) v j ≡ false
replay-detached_from none v j h = h
replay-detached_from (some d) v j h = ground arith

-- The USB watcher broadcasts nothing of the device that it puts into the table: a client that knew what the table
-- showed no longer does.
pub usb_connected_unseen :
    (id : ℕ) (d : UsbDevice) (m : Connected) (v : View)
    → get id m ≡ none
    → Shows v m
    → (replay (usb_connected id (usb d) m).1 v id ≡ false)
      × (visible id (usb_connected id (usb d) m).0 ≡ true)
unfolding usb_connected
usb_connected_unseen id d m v fresh shows = (
  replay-detached_from (find (is_network_of (serial_number (usb d))) m) v id
      (ground (arith, shows id)),
  ground arith,
)

find-remove :
    (p : Device → Bool) (k : ℕ) (m : Connected) → find p m ≡ none → find p (remove k m) ≡ none
find-remove p k [] h = refl
find-remove p k ((j, d) ∷ m) h = ground (arith, find-remove p k m, Bool-cases (p d))

find-retain_twin :
    (s : List ℕ) (m : Connected)
    → find (is_network_of s) (retain (λ _ e. not (same (serial_number e) s)) m) ≡ none
find-retain_twin s [] = refl
find-retain_twin s ((j, d) ∷ m) = ground (arith, find-retain_twin s m)

-- Plugging a device in drops its network twin from the table, so that unplugging it, when the shutdown succeeds, only
-- reports it as gone: the twin does not come back.
pub usb_disconnected-usb_connected :
    (x : Extern) (gone : Bool) (id : ℕ) (d : UsbDevice) (d' : Device) (m : Connected)
    → Devices.shutdown x gone (usb d) ≡ done d'
    → (usb_disconnected x gone id (usb_connected id (usb d) m).0).1 ≡ detached id ∷ []
unfolding usb_connected usb_disconnected remove_device
usb_disconnected-usb_connected x gone id d d' m closed =
    let s = serial_number (usb d) in
    let kept = retain (λ _ e. not (same (serial_number e) s)) m in
    let at_id : get id (insert id (usb d) kept) ≡ some (usb d) = ground arith in
    let no_twin : find (is_network_of s) (remove id (insert id (usb d) kept)) ≡ none =
      find-remove (is_network_of s) id (insert id (usb d) kept)
        (find-remove (is_network_of s) id kept (find-retain_twin s m)) in
    rw (at_id, closed, no_twin) refl
