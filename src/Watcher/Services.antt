-- ===== src/Watcher/Services.antt =====
-- watcher/network.rs: `watch_network`, the stream of the network devices that are connected to and of those
-- whose service is removed, and the pairing files on the disk.
pub mod Ids
use rusbmux.Base.{ℕ, Bool, true, false, Option, none, some, List, [], ◌∷◌, ◌++◌, if◌then◌else◌}
use rusbmux.Error
use rusbmux.Error.{Result, err, RusbmuxError}
use rusbmux.Backend.{take_new_id}
use rusbmux.NetworkDevice.{NetworkDevice, Identity, IpAddr, new}
use rusbmux.Watcher.{same}
use rusbmux.Watcher.Resolve.{
  ResolvedService, ResolvedDevice, PairingFile, Saved, before_at, resolve_service,
}

-- An entry of the directory: the stem of its name where that is text, and the pairing file in it where it
-- is one.
pub record Entry : Type 0 where
  pub file_stem : Option (List ℕ)
  pub pairing_file : Option PairingFile

abbrev pub pair_of : Option (List ℕ) → Option PairingFile → Saved
pair_of (some udid) (some f) = (udid, f) ∷ []
pair_of _ _ = []

abbrev pub saved_in : List (Option Entry) → Saved
saved_in [] = []
saved_in (none ∷ entries) = saved_in entries
saved_in (some e ∷ entries) = pair_of e.file_stem e.pairing_file ++ saved_in entries

-- `none` is a directory that cannot be read, or an entry of it.
unfoldable pub get_saved_pairing_files : Option (List (Option Entry)) → Saved
get_saved_pairing_files none = []
get_saved_pairing_files (some entries) = saved_in entries

pub data NetworkEvent : Type 0 where
  connected : NetworkDevice → NetworkEvent
  disconnected : ℕ → NetworkEvent

-- What the stream does: it yields an event or an error, or panics.
pub data Item : Type 0 where
  yields : Result NetworkEvent → Item
  panics : Item

-- The events of mDNS that the stream reads, with what is found while a device is connected to.
pub record Network : Type 0 where
  pub entries : Option (List (Option Entry))
  pub pairing_file : List ℕ → Result (Unit {0})
  pub connects : IpAddr → Bool
  pub assertion : IpAddr → Result (Unit {0})

pub data ServiceEvent : Type 0 where
  resolved : ResolvedService → Network → ServiceEvent
  removed : List ℕ → ServiceEvent
  others : ServiceEvent

-- `devices_id_map`
abbrev pub lookup : List ℕ → List (List ℕ × ℕ) → Option ℕ
lookup mac [] = none
lookup mac ((m, id) ∷ ids) = let rest = lookup mac ids in if same m mac then some id else rest

-- What the stream has done so far stands newest first.
pub record Watch : Type 0 where
  pub counter : ℕ
  pub devices_id_map : List (List ℕ × ℕ)
  pub items : List Item
  pub ended : Bool

abbrev pub start : ℕ → Watch
start counter = record { counter = counter; devices_id_map = []; items = []; ended = false }

abbrev pub identity : ResolvedDevice → ℕ → Identity
identity rd id = record {
  id = id;
  scope_id = some rd.scope_id;
  mac_address = rd.mac_address;
  service_name = rd.service_name;
  serial_number = rd.udid;
}

-- `Device::new_network`
abbrev pub new_network : ResolvedDevice → Network → ℕ → Result NetworkDevice
new_network rd n id =
    new (identity rd id) (n.pairing_file rd.udid) n.connects n.assertion rd.primary rd.secondary

-- `?` yields the error and ends the stream.
abbrev pub created : ResolvedDevice → ℕ → Watch → Result NetworkDevice → Watch
created rd id s (err e) = record s { items = yields (err e) ∷ s.items; ended = true }
created rd id s (Error.ok d) = record s {
  devices_id_map = (rd.mac_address, id) ∷ s.devices_id_map;
  items = yields (Error.ok (connected d)) ∷ s.items;
}

abbrev pub add_resolved : Network → Watch → Option (Option ResolvedDevice) → Watch
add_resolved n s none = record s { items = panics ∷ s.items; ended = true }
add_resolved n s (some none) = s
add_resolved n s (some (some rd)) =
    let (id, counter) = take_new_id s.counter in
    created rd id (record s { counter = counter }) (new_network rd n id)

abbrev pub forget : Option ℕ → List Item
forget none = []
forget (some id) = yields (Error.ok (disconnected id)) ∷ []

module _ (decode : List ℕ → Option (List ℕ)) (derive : List ℕ → List ℕ → List ℕ) where
  abbrev pub receive : ServiceEvent → Watch → Watch
  receive (resolved rs n) s =
      add_resolved n s (resolve_service decode derive (get_saved_pairing_files n.entries) rs)
  receive (removed name) s = record s {
    items = forget (lookup (before_at name) s.devices_id_map) ++ s.items;
  }
  receive others s = s

  -- A stream that has ended reads no more.
  abbrev pub unless_ended : Bool → Watch → Watch → Watch
  unless_ended true s next = s
  unless_ended false s next = next

  unfoldable pub watch_network : List ServiceEvent → Watch → Watch
  unfolding get_saved_pairing_files
  watch_network [] s = s
  watch_network (e ∷ es) s =
      let rest = watch_network es (receive e s) in unless_ended s.ended s rest
