-- ===== src/Watcher/Unplugged.antt =====
-- What a listening client knows after a USB device has gone: its network twin is back.
use rusbmux.Base.{
  ℕ, ◌≡◌, ◌≢◌, refl, sym, ap, ◌∙◌, Bool, true, false, Option, none, some, List, [], ◌∷◌, ◌++◌,
  arith, ◌==◌, Bool-cases, inl, inr,
}
use rusbmux.Base.Map.{get, remove, find, get-remove, remove-IsMap}
use rusbmux.Extern.{Extern}
use rusbmux.Conn.{done}
use rusbmux.NetworkDevice.{NetworkDevice}
use rusbmux.Device.{UsbDevice}
use rusbmux.Devices
use rusbmux.Devices.{Device, network, usb, is_usb, serial_number}
use rusbmux.Watcher.{
  Connected, attached, detached, attached_to, same, has_usb, remove_device, usb_disconnected,
  is_network_of, is_usb_of,
}
use rusbmux.Watcher.Search.{
  is_usb_of_iff, is_network_of_iff, same_iff, get-of_any, get-of_find, find-none, any-remove_other,
}
use rusbmux.Watcher.Registry.{IsRegistry}
use rusbmux.Watcher.View.{View, replay, shows_entry, shows_entry_same, visible, Shows}

same-false : (a b : List ℕ) → a ≢ b → same a b ≡ false
same-false a b h = elim (Bool-cases (same a b)) [
  | inl e ↦ absurd (h ((same_iff a b).0 e))
  | inr e ↦ e
]

kept :
    (id k : ℕ) (m : Connected) (e : Device)
    → get k (remove id m) ≡ some e
    → (id ≢ k) × (get k m ≡ some e)
kept id k m e h = ground (arith, get-remove id k m)

left : (id k : ℕ) (m : Connected) → id ≢ k → get k (remove id m) ≡ get k m
left id k m h = ground (arith, get-remove id k m)

module _ (m : Connected) (r : IsRegistry m) (id : ℕ) (d : UsbDevice)
    (here : get id m ≡ some (usb d)) where
  abbrev serial : List ℕ
  serial = serial_number (usb d)

  -- The USB device was the only one of its serial number.
  has_usb-unplugged : has_usb serial (remove id m) ≡ false
  has_usb-unplugged = elim (Bool-cases (has_usb serial (remove id m))) [
    | inl still ↦
        let (k, e, at_k, fits) =
          get-of_any (is_usb_of serial) (remove id m) (remove-IsMap id m r.is_map) still in
        let (other, at_m) = kept id k m e at_k in
        let (kind, eq) = is_usb_of_iff serial e fits in
        absurd (other (r.unique id k (usb d) e here at_m (sym kind) (sym eq)))
    | inr none_left ↦ none_left
  ]

  has_usb-of_others :
      (e : NetworkDevice)
      → e.serial_number ≢ serial
      → has_usb e.serial_number (remove id m) ≡ has_usb e.serial_number m
  has_usb-of_others e other =
      any-remove_other (is_usb_of e.serial_number) id m (usb d) r.is_map here
        (same-false serial e.serial_number λ q. other (sym q))

  -- What is visible of an entry with another serial number.
  visible-elsewhere :
      (j : ℕ)
      → id ≢ j
      → ((e : NetworkDevice) → get j m ≡ some (network e) → e.serial_number ≢ serial)
      → visible j (remove id m) ≡ visible j m
  visible-elsewhere j h other =
      ap (shows_entry (remove id m)) (left id j m h)
      ∙ shows_entry_same m (remove id m) (get j m) λ e at_j. has_usb-of_others e (other e at_j)

  visible-gone : visible id (remove id m) ≡ false
  visible-gone = ground (arith, get-remove id id m)

  -- What a client sees stays right, whichever entry is the network twin.
  no_twin-Shows :
      (v : View)
      → find (is_network_of serial) (remove id m) ≡ none
      → Shows v m
      → Shows (replay (detached id ∷ []) v) (remove id m)
  no_twin-Shows v no_twin shows j = elim (Bool-cases (id == j)) [
    | inl here_j ↦ ground (arith, visible-gone)
    | inr away ↦
        let h : id ≢ j = ground arith in
        let other : (e : NetworkDevice) → get j m ≡ some (network e) → e.serial_number ≢ serial =
          λ e at_j q.
            let fits : is_network_of serial (network e) ≡ true =
              (same_iff e.serial_number serial).1 q in
            let at_j' : get j (remove id m) ≡ some (network e) = left id j m h ∙ at_j in
            ground
              (arith, find-none (is_network_of serial) (remove id m) j (network e) no_twin at_j') in
        ground (arith, shows j, visible-elsewhere j h other)
  ]

  twin-Shows :
      (v : View) (n : NetworkDevice) (k : ℕ)
      → get k (remove id m) ≡ some (network n)
      → n.serial_number ≡ serial
      → Shows v m
      → Shows (replay (attached k ∷ detached id ∷ []) v) (remove id m)
  twin-Shows v n k at_k eq shows j = elim (Bool-cases (id == j)) [
    | inl here_j ↦ ground (arith, visible-gone)
    | inr away ↦
        let h : id ≢ j = ground arith in
        let at_m = (kept id k m (network n) at_k).1 in
        elim (Bool-cases (k == j)) [
          | inl twin_j ↦
              let free : has_usb n.serial_number (remove id m) ≡ false =
                ap (λ s. has_usb s (remove id m)) eq ∙ has_usb-unplugged in
              let e : k ≡ j = ground arith in
              let at_j : get j (remove id m) ≡ some (network n) = rw (← e) at_k in
              ground (arith, free, at_j)
          | inr elsewhere ↦
              let other : (e : NetworkDevice)
                  → get j m ≡ some (network e)
                  → e.serial_number ≢ serial =
                λ e at_j q.
                  let same_place : k ≡ j =
                    r.unique k j (network n) (network e) at_m at_j refl (eq ∙ sym q) in
                  ground arith in
              ground (arith, shows j, visible-elsewhere j h other)
        ]
  ]

  removed-Shows :
      (v : View) (o : Option Device)
      → find (is_network_of serial) (remove id m) ≡ o
      → Shows v m
      → Shows (replay (attached_to o ++ detached id ∷ []) v) (remove id m)
  removed-Shows v none h shows = no_twin-Shows v h shows
  removed-Shows v (some e) h shows =
      let (k, at_k, fits) =
        get-of_find (is_network_of serial) (remove id m) e (remove-IsMap id m r.is_map) h in
      let (n, is_net, eq) = is_network_of_iff serial e fits in
      let own : Devices.id e ≡ k = r.own_id k e (kept id k m e at_k).1 in
      let at_n : get k (remove id m) ≡ some (network n) = at_k ∙ ap some is_net in
      rw own (twin-Shows v n k at_n eq shows)

  -- A USB device that is unplugged, when its shutdown succeeds, is taken from the view, and its network twin is put
  -- back: what the clients know stays what the table shows.
  pub usb_disconnected-Shows :
      (x : Extern) (gone : Bool) (v : View) (d' : Device)
      → Devices.shutdown x gone (usb d) ≡ done d'
      → Shows v m
      → Shows (replay (usb_disconnected x gone id m).1 v) (usb_disconnected x gone id m).0
  unfolding usb_disconnected remove_device
  usb_disconnected-Shows x gone v d' closed shows =
      rw (here, closed) (removed-Shows v (find (is_network_of serial) (remove id m)) refl shows)
