-- ===== src/Watcher/Loops/Refines.antt =====
-- The loops of the watchers take no step that is not one of the relation on tables.
use rusbmux.Base.{
  ℕ, ◌≡◌, ◌≢◌, ◌∙◌, refl, ap, sym, true, false, Option, none, some, List, [], ◌∷◌, Bool-cases, inl,
  inr, arith,
}
use mathlib.Core.Path.{subst}
use rusbmux.Base.Map.{get, insert, remove, get-insert, get-remove}
use rusbmux.Extern.{Extern}
use rusbmux.Error
use rusbmux.Error.{Result, err}
use rusbmux.NetworkDevice.{NetworkDevice}
use rusbmux.Devices
use rusbmux.Devices.{Device, network, is_usb}
use rusbmux.Watcher.{
  Connected, same, is_network_of, usb_connected, usb_failed, is_known, network_added,
}
use rusbmux.Watcher.Search.{same_iff}
use rusbmux.Watcher.Loops.Unknown.{
  any-insert-false, usb_connected-unknown, usb_disconnected-unknown, usb_lost-unknown,
  usb_reopened-unknown, network_removed-unknown,
}
use rusbmux.Watcher.Stream.{opened, left}
use rusbmux.Watcher.Resolve.{ResolvedDevice, before_at, resolve_service}
use rusbmux.Watcher.Services.{Network, get_saved_pairing_files, new_network}
use rusbmux.Watcher.Services.Ids.{new_network-serial}
use rusbmux.Watcher.Steps.{
  Step, Reached, ComesBack, connected, disconnected, lost, reopened, resolved, removed, start, next,
}
use rusbmux.Watcher.Registry.{IsRegistry}
use rusbmux.Watcher.Steps
use rusbmux.Watcher.Loops
use rusbmux.Watcher.Loops.{
  Round, hotplug, service_resolved, network_opened, service_removed, Task, Watching, reopen, added,
  network_device_add, finish, handle, watch,
}

-- What is expected of a round: a new device is a USB device and has the id that it was given, and one that comes
-- back is one too, with its id and a serial number that no device that stays has. A service is not resolved
-- while another task connects to a device of the same serial number.
abbrev BackAs : ℕ → ℕ → Connected → Option Device → Type 0
BackAs id opaque_id m none = Unit
BackAs id opaque_id m (some d) = (is_usb d ≡ true) × ComesBack id opaque_id m d

abbrev pub NotOpening : List (ℕ × Task) → Option (Option ResolvedDevice) → Type 0
NotOpening opening none = Unit
NotOpening opening (some none) = Unit
NotOpening opening (some (some rd)) =
    (i : ℕ) (a : Task) → get i opening ≡ some a → a.device.udid ≢ rd.udid

-- The device of each task is not in the table, and no two tasks have devices of one serial number.
pub record HasTasks (w : Watching) : Type 0 where
  pub unknown :
      (i : ℕ) (a : Task) → get i w.opening ≡ some a → is_known a.device.udid w.table ≡ false
  pub distinct :
      (i j : ℕ) (a b : Task)
      → i ≢ j
      → get i w.opening ≡ some a
      → get j w.opening ≡ some b
      → a.device.udid ≢ b.device.udid

-- What another round does to the table leaves the tasks so.
moved-HasTasks :
    (w : Watching) (m : Connected)
    → ((s : List ℕ) → is_known s w.table ≡ false → is_known s m ≡ false)
    → HasTasks w
    → HasTasks (record { table = m; opening = w.opening })
moved-HasTasks w m keeps v = record {
  unknown = λ i a h. keeps a.device.udid (v.unknown i a h);
  distinct = v.distinct;
}

same-other : (s u : List ℕ) → s ≢ u → same s u ≡ false
same-other s u differ = elim (Bool-cases (same s u)) [
  | inl e ↦ absurd (differ ((same_iff s u).0 e))
  | inr e ↦ e
]

checked-HasTasks :
    (n : Network) (id : ℕ) (w : Watching) (o : Option (Option ResolvedDevice))
    → NotOpening w.opening o
    → HasTasks w
    → HasTasks (network_device_add n id w o)
checked-HasTasks n id w none other v = v
checked-HasTasks n id w (some none) other v = v
checked-HasTasks n id w (some (some rd)) other v = elim (Bool-cases (is_known rd.udid w.table)) [
  | inl known ↦ rw known v
  | inr new ↦
      let task : Task = record { device = rd; found = n } in
      rw new (record {
        unknown = λ i a h. ground (arith, new, get-insert id i task w.opening, v.unknown i a);
        distinct = λ i j a b differ h k e. ground (
          arith,
          get-insert id i task w.opening,
          get-insert id j task w.opening,
          v.distinct i j a b differ,
          other i a,
          other j b,
        );
      })
]

removed-HasTasks :
    (id : ℕ) (w : Watching) → HasTasks w → HasTasks (record w { opening = remove id w.opening })
removed-HasTasks id w v = record {
  unknown = λ i a h. ground (arith, get-remove id i w.opening, v.unknown i a);
  distinct = λ i j a b differ h k e.
      ground
        (arith, get-remove id i w.opening, get-remove id j w.opening, v.distinct i j a b differ);
}

added-HasTasks :
    (id : ℕ) (a : Task) (w : Watching) (o : Result NetworkDevice)
    → get id w.opening ≡ some a
    → new_network a.device a.found id ≡ o
    → HasTasks w
    → HasTasks (record { table = (added w.table o).0; opening = remove id w.opening })
unfolding is_known network_added
added-HasTasks id a w (err e) here made v = removed-HasTasks id w v
added-HasTasks id a w (Error.ok d) here made v =
    let left = removed-HasTasks id w v in
    let serial = new_network-serial a.device a.found id d made in
    record {
      unknown = λ i b h.
          let differ : id ≢ i = λ e. ground (arith, get-remove id i w.opening) in
          let there : get i w.opening ≡ some b = ground (arith, get-remove id i w.opening) in
          any-insert-false (is_network_of b.device.udid) d.id (network d) w.table
            (same-other d.serial_number b.device.udid
              (λ e. v.distinct id i a b differ here there (sym serial ∙ e)))
            (v.unknown i b there);
      distinct = left.distinct;
    }

finished-HasTasks :
    (id : ℕ) (w : Watching) (o : Option Task)
    → get id w.opening ≡ o
    → HasTasks w
    → HasTasks (record { table = (finish id w.table o).0; opening = remove id w.opening })
finished-HasTasks id w none h v = removed-HasTasks id w v
finished-HasTasks id w (some a) h v =
    added-HasTasks id a w (new_network a.device a.found id) h refl v

module _ (x : Extern) (decode : List ℕ → Option (List ℕ)) (derive : List ℕ → List ℕ → List ℕ) where
  abbrev pub Expected : Round → Watching → Type 0
  Expected (hotplug gone (Error.ok (opened d id))) w = (is_usb d ≡ true) × (Devices.id d ≡ id)
  Expected (hotplug gone (Error.ok (left id))) w = Unit
  Expected (hotplug gone (err e)) w = Unit
  Expected (Loops.lost id opaque_id now) w = BackAs id opaque_id w.table (reopen now id opaque_id)
  Expected (service_resolved rs n id) w =
      NotOpening w.opening (resolve_service decode derive (get_saved_pairing_files n.entries) rs)
  Expected (network_opened id) w = Unit
  Expected (service_removed name) w = Unit

  abbrev pub AllExpected : List Round → Watching → Type 0
  AllExpected [] w = Unit
  AllExpected (r ∷ rs) w = Expected r w × AllExpected rs (handle x decode derive r w).0

  -- A table that the steps lead to, with its tasks.
  abbrev pub IsWatching : Watching → Type 0
  IsWatching w = Reached x w.table × HasTasks w

  lost-IsWatching :
      (id opaque_id : ℕ) (w : Watching) (again : Option Device)
      → IsWatching w
      → BackAs id opaque_id w.table again
      → IsWatching
          (record { table = (usb_failed id opaque_id again w.table).0; opening = w.opening })
  lost-IsWatching id opaque_id w none (r, v) h = (
    next _ _ r (lost id opaque_id w.table),
    moved-HasTasks w _ (λ s. usb_lost-unknown s id opaque_id w.table) v,
  )
  lost-IsWatching id opaque_id w (some d) (r, v) (kind, back) = (
    next _ _ r (reopened id opaque_id d w.table back),
    moved-HasTasks w _ (λ s. usb_reopened-unknown s id opaque_id d w.table kind) v,
  )

  checked-table :
      (n : Network) (id : ℕ) (w : Watching) (o : Option (Option ResolvedDevice))
      → (network_device_add n id w o).table ≡ w.table
  checked-table n id w none = refl
  checked-table n id w (some none) = refl
  checked-table n id w (some (some rd)) = elim (Bool-cases (is_known rd.udid w.table)) [
    | inl known ↦ rw known refl
    | inr new ↦ rw new refl
  ]

  added-Reached :
      (a : Task) (id : ℕ) (m : Connected) (o : Result NetworkDevice)
      → Reached x m
      → is_known a.device.udid m ≡ false
      → new_network a.device a.found id ≡ o
      → Reached x (added m o).0
  added-Reached a id m (err e) r unknown made = r
  added-Reached a id m (Error.ok d) r unknown made = next _ _ r (
      resolved d m
        (ap (λ s. is_known s m) (new_network-serial a.device a.found id d made) ∙ unknown))

  finished-Reached :
      (id : ℕ) (w : Watching) (o : Option Task)
      → get id w.opening ≡ o
      → IsWatching w
      → Reached x (finish id w.table o).0
  finished-Reached id w none h (r, v) = r
  finished-Reached id w (some a) h (r, v) =
      added-Reached a id w.table (new_network a.device a.found id) r (v.unknown id a h) refl

  handle-IsWatching :
      (round : Round) (w : Watching)
      → IsWatching w
      → Expected round w
      → IsWatching (handle x decode derive round w).0
  handle-IsWatching (hotplug gone (Error.ok (opened d id))) w (r, v) (kind, h) = (
    subst (λ i. Reached x (usb_connected i d w.table).0) h (next _ _ r (connected d w.table)),
    moved-HasTasks w _ (λ s. usb_connected-unknown s id d w.table kind) v,
  )
  handle-IsWatching (hotplug gone (Error.ok (left id))) w (r, v) h = (
    next _ _ r (disconnected gone id w.table),
    moved-HasTasks w _ (λ s. usb_disconnected-unknown s x gone id w.table) v,
  )
  handle-IsWatching (hotplug gone (err e)) w v h = v
  handle-IsWatching (Loops.lost id opaque_id now) w v h =
      lost-IsWatching id opaque_id w (reopen now id opaque_id) v h
  handle-IsWatching (service_resolved rs n id) w (r, v) h =
      let o = resolve_service decode derive (get_saved_pairing_files n.entries) rs in
      (subst (Reached x) (sym (checked-table n id w o)) r, checked-HasTasks n id w o h v)
  handle-IsWatching (network_opened id) w (r, v) h = (
    finished-Reached id w (get id w.opening) refl (r, v),
    finished-HasTasks id w (get id w.opening) refl v,
  )
  handle-IsWatching (service_removed name) w (r, v) h = (
    next _ _ r (removed (before_at name) w.table),
    moved-HasTasks w _ (λ s. network_removed-unknown s (before_at name) w.table) v,
  )

  -- Whatever the two loops are told and whenever the tasks that connect to network devices come to their end, as long as
  -- no service is resolved while a task connects to a device of the same serial number: the table that is
  -- left is one that the steps of the relation lead to, and so keeps its invariant, by which each entry stands
  -- under its device's id, and a serial number has at most one device of each kind. The devices that the USB
  -- loop opens are to be USB devices under the ids that they are given, and one that comes back is to have a
  -- serial number that no other has.
  pub watch-Reached :
      (rounds : List Round) (w : Watching)
      → Reached x w.table
      → HasTasks w
      → AllExpected rounds w
      → Reached x (watch x decode derive rounds w).0.table
        × IsRegistry (watch x decode derive rounds w).0.table
  unfolding watch
  watch-Reached [] w r v h = (r, Steps.Reached-IsRegistry x w.table r)
  watch-Reached (round ∷ rounds) w r v (h, hs) =
      let (r', v') = handle-IsWatching round w (r, v) h in
      watch-Reached rounds (handle x decode derive round w).0 r' v' hs

-- Where a service is resolved twice before the first task has its device, both tasks pass the check and both
-- put a device of the same serial number into the table.
pub network_opened_twice :
    (a b : Task) (d e : NetworkDevice) (i j : ℕ) (m : Connected)
    → new_network a.device a.found i ≡ Error.ok d
    → new_network b.device b.found j ≡ Error.ok e
    → a.device.udid ≡ b.device.udid
    → d.id ≢ e.id
    → let m' = (finish j (finish i m (some a)).0 (some b)).0 in
      (get d.id m' ≡ some (network d))
      × (get e.id m' ≡ some (network e))
      × (d.serial_number ≡ e.serial_number)
unfolding network_added
network_opened_twice a b d e i j m first second serial differ = (
  rw (first, second)
      (ground (
        arith,
        get-insert e.id d.id (network e) (insert d.id (network d) m),
        get-insert d.id d.id (network d) m,
      )),
  rw (first, second) (ground (arith, get-insert e.id e.id (network e) (insert d.id (network d) m))),
  new_network-serial a.device a.found i d first
      ∙ serial
      ∙ sym (new_network-serial b.device b.found j e second),
)
