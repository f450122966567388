-- ===== src/Watcher/View.antt =====
-- What a listening client knows: the devices attached and not detached since, as a function on the ids, and
-- what the table of devices has to show, a network device only where no USB device has its serial number.
use rusbmux.Base.{
  ℕ, ◌≡◌, refl, ap, ◌∙◌, not, Bool, true, false, Option, none, some, List, [], ◌∷◌, arith, ◌==◌,
  if◌then◌else◌,
}
use rusbmux.Base.Map.{get, insert, remove, find, IsMap, get-remove}
use rusbmux.NetworkDevice.{NetworkDevice}
use rusbmux.Devices
use rusbmux.Devices.{Device, network, usb, is_usb, serial_number}
use rusbmux.Watcher.{
  Connected, DeviceEvent, attached, detached, has_usb, network_added, network_removed, is_usb_of,
  has_mac, network_removed_id, network_found,
}
use rusbmux.Watcher.Search.{get-of_find, any-remove_absent, any-remove_other}
use rusbmux.Watcher.Registry.{IsRegistry}

abbrev pub View : Type 0
View = ℕ → Bool

abbrev pub replay : List DeviceEvent → View → View
replay [] v = v
replay (attached i ∷ events) v = replay events (λ j. if i == j then true else v j)
replay (detached i ∷ events) v = replay events (λ j. if i == j then false else v j)

abbrev pub shows_entry : Connected → Option Device → Bool
shows_entry m none = false
shows_entry m (some (usb d)) = true
shows_entry m (some (network d)) = not (has_usb d.serial_number m)

abbrev pub visible : ℕ → Connected → Bool
visible j m = shows_entry m (get j m)

abbrev pub Shows : View → Connected → Type 0
Shows v m = (j : ℕ) → v j ≡ visible j m

-- An entry that comes or goes changes what is visible elsewhere only through the USB devices.
pub shows_entry_same :
    (m n : Connected) (o : Option Device)
    → ((d : NetworkDevice)
        → o ≡ some (network d)
        → has_usb d.serial_number n ≡ has_usb d.serial_number m)
    → shows_entry n o ≡ shows_entry m o
shows_entry_same m n none h = refl
shows_entry_same m n (some (usb d)) h = refl
shows_entry_same m n (some (network d)) h = ap not (h d refl)

has_usb-insert :
    (d : NetworkDevice) (m : Connected) (s : List ℕ)
    → get d.id m ≡ none
    → has_usb s (insert d.id (network d) m) ≡ has_usb s m
has_usb-insert d m s fresh = any-remove_absent (is_usb_of s) d.id m fresh

-- A network device that is found is shown when no USB device has its serial number, as the table wants it.
pub network_added-Shows :
    (d : NetworkDevice) (m : Connected) (v : View)
    → get d.id m ≡ none
    → Shows v m
    → Shows (replay (network_added d m).1 v) (network_added d m).0
unfolding network_added
network_added-Shows d m v fresh shows j =
    let keeps : (s : List ℕ) → has_usb s (insert d.id (network d) m) ≡ has_usb s m =
      λ s. has_usb-insert d m s fresh in
    let same_rest : shows_entry (insert d.id (network d) m) (get j m) ≡ visible j m =
      shows_entry_same m (insert d.id (network d) m) (get j m) λ e _. keeps e.serial_number in
    ground (arith, get-remove d.id j m, shows j, same_rest, keeps d.serial_number, fresh)

has_usb-remove_network :
    (d : NetworkDevice) (k : ℕ) (m : Connected) (s : List ℕ)
    → IsMap m
    → get k m ≡ some (network d)
    → has_usb s (remove k m) ≡ has_usb s m
has_usb-remove_network d k m s u e = any-remove_other (is_usb_of s) k m (network d) u e refl

removed_id-Shows :
    (d : NetworkDevice) (k : ℕ) (m : Connected) (v : View)
    → IsMap m
    → get k m ≡ some (network d)
    → Shows v m
    → Shows
        (replay (network_removed_id m k (some (network d))).1 v)
        (network_removed_id m k (some (network d))).0
removed_id-Shows d k m v u e shows j =
    let keeps : (s : List ℕ) → has_usb s (remove k m) ≡ has_usb s m =
      λ s. has_usb-remove_network d k m s u e in
    let same_rest : shows_entry (remove k m) (get j m) ≡ visible j m =
      shows_entry_same m (remove k m) (get j m) λ f _. keeps f.serial_number in
    ground (arith, get-remove k j m, shows j, same_rest, keeps d.serial_number, e)

found-Shows :
    (o : Option Device) (m : Connected) (v : View)
    → IsRegistry m
    → ((e : Device)
        → o ≡ some e
        → (d : NetworkDevice) × (e ≡ network d) × (k : ℕ) × (get k m ≡ some e))
    → Shows v m
    → Shows (replay (network_found m o).1 v) (network_found m o).0
found-Shows none m v r found shows = shows
found-Shows (some e) m v r found shows =
    let (d, is_net, k, here) = found e refl in
    let at_id : get (Devices.id e) m ≡ some (network d) =
      rw (r.own_id k e here) here ∙ ap some is_net in
    rw at_id (removed_id-Shows d (Devices.id e) m v r.is_map at_id shows)

has_mac-network :
    (mac : List ℕ) (e : Device) → has_mac mac e ≡ true → (d : NetworkDevice) × (e ≡ network d)
has_mac-network mac (network d) h = (d, refl)
has_mac-network mac (usb d) h = ground arith

-- A network device that goes is taken from the view where it stands in it.
pub network_removed-Shows :
    (mac : List ℕ) (m : Connected) (v : View)
    → IsRegistry m
    → Shows v m
    → Shows (replay (network_removed mac m).1 v) (network_removed mac m).0
unfolding network_removed
network_removed-Shows mac m v r shows =
    found-Shows (find (has_mac mac) m) m v r
      (λ e h.
        let (k, here, fits) = get-of_find (has_mac mac) m e r.is_map h in
        let (d, is_net) = has_mac-network mac e fits in (d, is_net, k, here))
      shows
