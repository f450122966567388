-- ===== src/Watcher/Services/Ids.antt =====
-- watcher/network.rs: the ids by which `watch_network` names the devices that it reports.
use rusbmux.Base.{
  ℕ, ◌≡◌, ◌∙◌, refl, ap, sym, Bool, true, false, Option, none, some, List, [], ◌∷◌, ◌++◌,
  if◌then◌else◌, arith,
}
use rusbmux.Error
use rusbmux.Error.{Result, err, RusbmuxError}
use rusbmux.NetworkDevice.{
  NetworkDevice, Identity, IpAddr, new, made, answering, connect_heartbeat_client,
}
use rusbmux.Watcher.{same}
use rusbmux.Watcher.Resolve.{ResolvedDevice, before_at, resolve_service}
use rusbmux.Watcher.Services.{
  ServiceEvent, resolved, removed, others, connected, disconnected, Item, yields, panics, Network,
  lookup, Watch, start, new_network, created, add_resolved, forget, receive, watch_network,
  unless_ended, get_saved_pairing_files,
}

-- The id of the last device that has been reported under a MAC address.
abbrev pub last_id : List ℕ → List Item → Option ℕ
last_id mac [] = none
last_id mac (yields (Error.ok (connected d)) ∷ items) =
    let earlier = last_id mac items in if same d.mac_address mac then some d.id else earlier
last_id mac (yields (Error.ok (disconnected id)) ∷ items) = last_id mac items
last_id mac (yields (err e) ∷ items) = last_id mac items
last_id mac (panics ∷ items) = last_id mac items

abbrev pub Follows : Watch → Type 0
Follows s = (mac : List ℕ) → lookup mac s.devices_id_map ≡ last_id mac s.items

made-Identity :
    (i : Identity) (addr : IpAddr) (r : Result (Unit {0})) (d : NetworkDevice)
    → made i addr r ≡ Error.ok d
    → (d.id ≡ i.id) × (d.mac_address ≡ i.mac_address) × (d.serial_number ≡ i.serial_number)
made-Identity i addr (err e) d h = absurd (ground arith)
made-Identity i addr (Error.ok t) d h = ground arith

answering-Identity :
    (i : Identity) (assertion : IpAddr → Result (Unit {0})) (r : Result IpAddr) (d : NetworkDevice)
    → answering i assertion r ≡ Error.ok d
    → (d.id ≡ i.id) × (d.mac_address ≡ i.mac_address) × (d.serial_number ≡ i.serial_number)
answering-Identity i assertion (err e) d h = absurd (ground arith)
answering-Identity i assertion (Error.ok addr) d h = made-Identity i addr (assertion addr) d h

-- A new device has the id, the MAC address and the serial number that it was given.
new-Identity :
    (i : Identity) (file : Result (Unit {0})) (connects : IpAddr → Bool)
    (assertion : IpAddr → Result (Unit {0})) (first : IpAddr) (second : Option IpAddr)
    (d : NetworkDevice)
    → new i file connects assertion first second ≡ Error.ok d
    → (d.id ≡ i.id) × (d.mac_address ≡ i.mac_address) × (d.serial_number ≡ i.serial_number)
unfolding new
new-Identity i (err e) connects assertion first second d h = absurd (ground arith)
new-Identity i (Error.ok t) connects assertion first second d h =
    answering-Identity i assertion (connect_heartbeat_client connects first second) d h

pub new_network-serial :
    (rd : ResolvedDevice) (n : Network) (id : ℕ) (d : NetworkDevice)
    → new_network rd n id ≡ Error.ok d
    → d.serial_number ≡ rd.udid
new_network-serial rd n id d made = (new-Identity _ _ _ _ _ _ d made).2

created-Follows :
    (rd : ResolvedDevice) (n : Network) (id : ℕ) (s : Watch) (r : Result NetworkDevice)
    → new_network rd n id ≡ r
    → Follows s
    → Follows (created rd id s r)
created-Follows rd n id s (err e) made h mac = h mac
created-Follows rd n id s (Error.ok d) made h mac =
    let (same_id, same_mac, same_serial) = new-Identity _ _ _ _ _ _ d made in
    rw (same_id, same_mac, h mac) refl

add_resolved-Follows :
    (n : Network) (s : Watch) (o : Option (Option ResolvedDevice))
    → Follows s
    → Follows (add_resolved n s o)
add_resolved-Follows n s none h = h
add_resolved-Follows n s (some none) h = h
add_resolved-Follows n s (some (some rd)) h =
    created-Follows rd n s.counter _ (new_network rd n s.counter) refl h

-- What a stream has done once it has yielded the disconnection of a device.
abbrev pub gone : Option ℕ → List Item → List Item
gone none items = items
gone (some id) items = yields (Error.ok (disconnected id)) ∷ items

gone-forget : (o : Option ℕ) (items : List Item) → forget o ++ items ≡ gone o items
gone-forget none items = refl
gone-forget (some id) items = refl

last_id-forget :
    (mac : List ℕ) (o : Option ℕ) (items : List Item)
    → last_id mac (forget o ++ items) ≡ last_id mac items
last_id-forget mac none items = refl
last_id-forget mac (some id) items = refl

module _ (decode : List ℕ → Option (List ℕ)) (derive : List ℕ → List ℕ → List ℕ) where
  receive-Follows : (e : ServiceEvent) (s : Watch) → Follows s → Follows (receive decode derive e s)
  receive-Follows (resolved rs n) s h mac =
      add_resolved-Follows n s
        (resolve_service decode derive (get_saved_pairing_files n.entries) rs) h mac
  receive-Follows (removed name) s h mac =
      h mac ∙ sym (last_id-forget mac (lookup (before_at name) s.devices_id_map) s.items)
  receive-Follows others s h mac = h mac

  unless_ended-Follows :
      (b : Bool) (s t : Watch) → Follows s → Follows t → Follows (unless_ended decode derive b s t)
  unless_ended-Follows true s t h k = h
  unless_ended-Follows false s t h k = k

  watch_network-Follows :
      (es : List ServiceEvent) (s : Watch) → Follows s → Follows (watch_network decode derive es s)
  unfolding watch_network
  watch_network-Follows [] s h = h
  watch_network-Follows (e ∷ es) s h =
      unless_ended-Follows s.ended s (watch_network decode derive es (receive decode derive e s)) h
        (watch_network-Follows es (receive decode derive e s) (receive-Follows e s h))

  -- Whatever services have been resolved and removed before, with whatever came of the connections: where
  -- the stream goes on, the removal of a service yields a disconnection of the id of the device that the
  -- stream last reported under the MAC address in the service's name, and nothing where it has reported
  -- none under it.
  pub receive-last_id :
      (counter : ℕ) (es : List ServiceEvent) (name : List ℕ)
      → let s = watch_network decode derive es (start counter) in
        (receive decode derive (removed name) s).items
        ≡ gone (last_id (before_at name) s.items) s.items
  receive-last_id counter es name =
      let s = watch_network decode derive es (start counter) in
      gone-forget (lookup (before_at name) s.devices_id_map) s.items
      ∙ ap (λ o. gone o s.items)
          (watch_network-Follows es (start counter) (λ mac. refl) (before_at name))

  -- The entry of a service that is removed stays, so that each further removal reports its device again.
  pub receive_twice :
      (name : List ℕ) (id : ℕ) (s : Watch)
      → lookup (before_at name) s.devices_id_map ≡ some id
      → (receive decode derive (removed name) (receive decode derive (removed name) s)).items
        ≡ yields (Error.ok (disconnected id)) ∷ yields (Error.ok (disconnected id)) ∷ s.items
  receive_twice name id s h = rw h refl
