-- ===== src/Watcher/Unordered.antt =====
-- The order in which the iterator of CONNECTED_DEVICES gives its entries, which DashMap leaves open: two tables
-- with the same entries in another order, and what the watchers do to them.
use rusbmux.Base.{
  ℕ, ◌≡◌, ◌∙◌, refl, sym, ap, not, Bool, true, Option, none, some, List, [], ◌∷◌, ◌++◌, arith, ◌==◌,
  Bool-cases, Option-cases, inl, inr,
}
use rusbmux.Base.Map.{
  get, insert, remove, retain, kept, find, any, IsMap, get-remove, get-insert, get-retain,
  remove-IsMap, insert-IsMap,
}
use rusbmux.Extern.{Extern}
use rusbmux.Conn.{Progress, done, failed, pending}
use rusbmux.NetworkDevice.{NetworkDevice}
use rusbmux.Devices
use rusbmux.Devices.{Device, network, usb, is_usb, serial_number}
use rusbmux.Watcher.{
  Connected, detached, Outcome, same, remove_device, usb_connected, usb_disconnected, usb_failed,
  network_added, network_removed, is_network_of, is_usb_of, has_mac, after_shutdown, remove_found,
  after_removal, network_removed_id, network_found, opaque_id_of, detached_from, attached_to,
  removal_events,
}
use rusbmux.Watcher.Search.{any-of_get, get-of_any, get-of_find, find-none, is_network_of_iff}
use rusbmux.Watcher.Registry.{IsRegistry, remove-IsRegistry}

abbrev pub SameEntries : Connected → Connected → Type 0
SameEntries m n = (k : ℕ) → get k m ≡ get k n

abbrev pub Agree : Outcome → Outcome → Type 0
Agree o p = SameEntries o.0 p.0 × (o.1 ≡ p.1)

-- At most one entry fits.
abbrev pub OneFits : (Device → Bool) → Connected → Type 0
OneFits p m =
    (j k : ℕ) (d e : Device) → get j m ≡ some d → get k m ≡ some e → p d ≡ true → p e ≡ true → j ≡ k

module _ (p : Device → Bool) where
  any-implies : (m n : Connected) → IsMap m → SameEntries m n → any p m ≡ true → any p n ≡ true
  any-implies m n u s h =
      let (k, d, e, fits) = get-of_any p m u h in any-of_get p n k d (sym (s k) ∙ e) fits

  -- Whether some entry fits does not depend on the order.
  pub any-SameEntries : (m n : Connected) → IsMap m → IsMap n → SameEntries m n → any p m ≡ any p n
  any-SameEntries m n u v s = ground (
    arith,
    Bool-cases (any p m),
    Bool-cases (any p n),
    any-implies m n u s,
    any-implies n m v (λ k. sym (s k)),
  )

  none-implies : (m n : Connected) → IsMap n → SameEntries m n → find p m ≡ none → find p n ≡ none
  none-implies m n v s h = elim (Option-cases (find p n)) [
    | inl e ↦ e
    | inr (d, e) ↦
        let (k, at, fits) = get-of_find p n d v e in absurd (cc (find-none p m k d h (s k ∙ at)))
  ]

  -- Where at most one entry fits, which one is found does not depend on the order.
  pub find-SameEntries :
      (m n : Connected) → IsMap m → IsMap n → SameEntries m n → OneFits p m → find p m ≡ find p n
  find-SameEntries m n u v s one = elim (Option-cases (find p m)) [
    | inl e ↦ e ∙ sym (none-implies m n v s e)
    | inr (d, e) ↦ elim (Option-cases (find p n)) [
      | inl f ↦ none-implies n m u (λ k. sym (s k)) f ∙ sym f
      | inr (d', f) ↦
          let (j, at, fits) = get-of_find p m d u e in
          let (k, at', fits') = get-of_find p n d' v f in
          let same_key = one j k d d' at (s k ∙ at') fits fits' in
          e ∙ sym at ∙ (ap (λ i. get i m) same_key ∙ s k ∙ at') ∙ sym f
    ]
  ]

remove-SameEntries :
    (k : ℕ) (m n : Connected) → SameEntries m n → SameEntries (remove k m) (remove k n)
remove-SameEntries k m n s j = ground (arith, get-remove k j m, get-remove k j n, s j)

insert-SameEntries :
    (k : ℕ) (d : Device) (m n : Connected)
    → SameEntries m n
    → SameEntries (insert k d m) (insert k d n)
insert-SameEntries k d m n s j = ground (arith, get-insert k j d m, get-insert k j d n, s j)

retain-SameEntries :
    (keep : ℕ → Device → Bool) (m n : Connected)
    → IsMap m
    → IsMap n
    → SameEntries m n
    → SameEntries (retain keep m) (retain keep n)
retain-SameEntries keep m n u v s j =
    get-retain keep j m u ∙ ap (kept keep j) (s j) ∙ sym (get-retain keep j n v)

network-OneFits :
    (serial : List ℕ) (m : Connected) → IsRegistry m → OneFits (is_network_of serial) m
network-OneFits serial m v j k d e at at' fits fits' =
    let (a, da, sa) = is_network_of_iff serial d fits in
    let (b, eb, sb) = is_network_of_iff serial e fits' in
    v.unique j k d e at at' (ap is_usb da ∙ sym (ap is_usb eb))
      (ap serial_number da ∙ sa ∙ sym sb ∙ sym (ap serial_number eb))

-- What happens to the table, of which a removed service may name several devices.
pub data Change : Type 0 where
  plugged : Device → Change
  unplugged : Bool → ℕ → Change
  reader_failed : ℕ → ℕ → Option Device → Change
  resolved : NetworkDevice → Change
  service_removed : List ℕ → Change

abbrev pub change : Extern → Change → Connected → Outcome
change x (plugged d) m = usb_connected (Devices.id d) d m
change x (unplugged gone id) m = usb_disconnected x gone id m
change x (reader_failed id opaque_id again) m = usb_failed id opaque_id again m
change x (resolved d) m = network_added d m
change x (service_removed mac) m = network_removed mac m

-- A removed service names at most one device.
abbrev pub Names : Change → Connected → Type 0
Names (plugged d) m = Unit
Names (unplugged gone id) m = Unit
Names (reader_failed id opaque_id again) m = Unit
Names (resolved d) m = Unit
Names (service_removed mac) m = OneFits (has_mac mac) m

module _ (m n : Connected) (v : IsRegistry m) (w : IsRegistry n) (s : SameEntries m n) where
  pub usb_connected-Agree :
      (d : Device) → Agree (usb_connected (Devices.id d) d m) (usb_connected (Devices.id d) d n)
  unfolding usb_connected
  usb_connected-Agree d = (
    insert-SameEntries (Devices.id d) d _ _ (
        retain-SameEntries (λ _ e. not (same (serial_number e) (serial_number d))) m n v.is_map
          w.is_map s),
    ap detached_from (
        find-SameEntries (is_network_of (serial_number d)) m n v.is_map w.is_map s
          (network-OneFits (serial_number d) m v)),
  )

  removal_events-Agree : (d : Device) → removal_events d m ≡ removal_events d n
  removal_events-Agree (usb d) = ap attached_to (
      find-SameEntries (is_network_of (serial_number (usb d))) m n v.is_map w.is_map s
        (network-OneFits (serial_number (usb d)) m v))
  removal_events-Agree (network d) =
      rw (any-SameEntries (is_usb_of d.serial_number) m n v.is_map w.is_map s) refl

  network_added-Agree : (d : NetworkDevice) → Agree (network_added d m) (network_added d n)
  unfolding network_added
  network_added-Agree d =
      let inserted = insert-SameEntries d.id (network d) m n s in
      (
        inserted,
        rw
            (any-SameEntries (is_usb_of d.serial_number) (insert d.id (network d) m)
              (insert d.id (network d) n) (insert-IsMap d.id (network d) m v.is_map)
              (insert-IsMap d.id (network d) n w.is_map) inserted)
            refl,
      )

  usb_failed-Agree :
      (id opaque_id : ℕ) (again : Option Device)
      → Agree (usb_failed id opaque_id again m) (usb_failed id opaque_id again n)
  unfolding usb_failed
  usb_failed-Agree id opaque_id none =
      (retain-SameEntries (λ _ e. not (opaque_id_of e == opaque_id)) m n v.is_map w.is_map s, refl)
  usb_failed-Agree id opaque_id (some d) = (
    insert-SameEntries id d _ _
        (retain-SameEntries (λ _ e. not (opaque_id_of e == opaque_id)) m n v.is_map w.is_map s),
    refl,
  )

  -- The entry under an id, once it is looked up in both tables.
  network_removed_id-Agree :
      (id : ℕ) (o : Option Device) → Agree (network_removed_id m id o) (network_removed_id n id o)
  network_removed_id-Agree id none = (s, refl)
  network_removed_id-Agree id (some d) = (
    remove-SameEntries id m n s,
    rw
        (any-SameEntries (is_usb_of (serial_number d)) (remove id m) (remove id n)
          (remove-IsMap id m v.is_map) (remove-IsMap id n w.is_map) (remove-SameEntries id m n s))
        refl,
  )

  network_found-Agree : (o : Option Device) → Agree (network_found m o) (network_found n o)
  network_found-Agree none = (s, refl)
  network_found-Agree (some d) =
      rw (← s (Devices.id d)) (network_removed_id-Agree (Devices.id d) (get (Devices.id d) m))

  network_removed-Agree :
      (mac : List ℕ)
      → OneFits (has_mac mac) m
      → Agree (network_removed mac m) (network_removed mac n)
  unfolding network_removed
  network_removed-Agree mac one =
      rw (← find-SameEntries (has_mac mac) m n v.is_map w.is_map s one)
        (network_found-Agree (find (has_mac mac) m))

after_shutdown-Agree :
    (id : ℕ) (d : Device) (m n : Connected) (p : Progress Device)
    → IsRegistry m
    → IsRegistry n
    → SameEntries m n
    → Agree (after_removal id (after_shutdown d m p)) (after_removal id (after_shutdown d n p))
after_shutdown-Agree id d m n (done d') v w s =
    (s, ap (λ events. events ++ detached id ∷ []) (removal_events-Agree m n v w s d))
after_shutdown-Agree id d m n (failed e) v w s = (s, refl)
after_shutdown-Agree id d m n pending v w s = (s, refl)

remove_found-Agree :
    (x : Extern) (gone : Bool) (id : ℕ) (m n : Connected) (o : Option Device)
    → IsRegistry m
    → IsRegistry n
    → SameEntries m n
    → Agree
        (after_removal id (remove_found x gone id m o))
        (after_removal id (remove_found x gone id n o))
remove_found-Agree x gone id m n none v w s = (s, refl)
remove_found-Agree x gone id m n (some d) v w s =
    after_shutdown-Agree id d (remove id m) (remove id n) (Devices.shutdown x gone d)
      (remove-IsRegistry id m v) (remove-IsRegistry id n w) (remove-SameEntries id m n s)

usb_disconnected-Agree :
    (x : Extern) (gone : Bool) (id : ℕ) (m n : Connected)
    → IsRegistry m
    → IsRegistry n
    → SameEntries m n
    → Agree (usb_disconnected x gone id m) (usb_disconnected x gone id n)
unfolding usb_disconnected remove_device
usb_disconnected-Agree x gone id m n v w s =
    rw (← s id) (remove_found-Agree x gone id m n (get id m) v w s)

-- The order in which the table gives its entries changes nothing: of two tables with the same entries, in
-- which each entry stands under its device's id and a serial number has at most one device of each kind,
-- every change makes tables with the same entries again, and broadcasts the same events in the same order,
-- where a service that is removed names at most one of the devices.
pub change-Agree :
    (x : Extern) (c : Change) (m n : Connected)
    → IsRegistry m
    → IsRegistry n
    → SameEntries m n
    → Names c m
    → Agree (change x c m) (change x c n)
change-Agree x (plugged d) m n v w s u = usb_connected-Agree m n v w s d
change-Agree x (unplugged gone id) m n v w s u = usb_disconnected-Agree x gone id m n v w s
change-Agree x (reader_failed id opaque_id again) m n v w s u =
    usb_failed-Agree m n v w s id opaque_id again
change-Agree x (resolved d) m n v w s u = network_added-Agree m n v w s d
change-Agree x (service_removed mac) m n v w s one = network_removed-Agree m n v w s mac one
