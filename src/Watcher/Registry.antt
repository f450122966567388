-- ===== src/Watcher/Registry.antt =====
-- The invariant of the table of devices: an entry stands under its device's id, and a serial number has
-- at most one device of each kind.
use rusbmux.Base.{
  ℕ, ◌≡◌, ◌≢◌, refl, sym, not, Bool, true, false, Option, none, some, List, [], arith, ◌==◌,
  Bool-cases, Option-cases,
}
use rusbmux.Base.Map.{
  get, insert, remove, retain, find, any, IsMap, get-remove, get-insert, get-retain, remove-IsMap,
  insert-IsMap, retain-IsMap,
}
use mathlib.Core.Path.{subst}
use rusbmux.Extern.{Extern}
use rusbmux.Conn.{Progress, done, failed, pending}
use rusbmux.NetworkDevice.{NetworkDevice}
use rusbmux.Devices
use rusbmux.Devices.{Device, network, usb, is_usb, serial_number}
use rusbmux.Watcher.{
  Connected, Outcome, same, remove_device, usb_connected, usb_disconnected, usb_failed,
  network_added, network_removed, is_known, is_network_of, has_mac, after_shutdown, remove_found,
  after_removal, network_removed_id, network_found, opaque_id_of,
}
use rusbmux.Watcher.Search.{same_iff, any-of_get}

pub record IsRegistry (m : Connected) : Type 0 where
  pub is_map : IsMap m
  pub own_id : (j : ℕ) (d : Device) → get j m ≡ some d → Devices.id d ≡ j
  pub unique :
      (j k : ℕ) (d e : Device)
      → get j m ≡ some d
      → get k m ≡ some e
      → is_usb d ≡ is_usb e
      → serial_number d ≡ serial_number e
      → j ≡ k

pub empty-IsRegistry : IsRegistry []
empty-IsRegistry = record {
  is_map = tt;
  own_id = λ j d e. ground arith;
  unique = λ j k d e p q s t. ground arith;
}

module _ (m n : Connected) (v : IsRegistry m) (u : IsMap n)
    (sub : (j : ℕ) (d : Device) → get j n ≡ some d → get j m ≡ some d) where
  -- A table with no more entries has the invariant too.
  pub sub-IsRegistry : IsRegistry n
  sub-IsRegistry = record {
    is_map = u;
    own_id = λ j d e. v.own_id j d (sub j d e);
    unique = λ j k d e p q s t. v.unique j k d e (sub j d p) (sub k e q) s t;
  }

pub remove-IsRegistry : (k : ℕ) (m : Connected) → IsRegistry m → IsRegistry (remove k m)
remove-IsRegistry k m v =
    sub-IsRegistry m (remove k m) v (remove-IsMap k m v.is_map)
      λ j d e. ground (arith, get-remove k j m)

pub retain-IsRegistry :
    (keep : ℕ → Device → Bool) (m : Connected) → IsRegistry m → IsRegistry (retain keep m)
retain-IsRegistry keep m v =
    sub-IsRegistry m (retain keep m) v (retain-IsMap keep m v.is_map)
      λ j d e. ground (arith, get-retain keep j m v.is_map)

-- A device that no entry resembles may be put in.
pub insert-IsRegistry :
    (d : Device) (m : Connected)
    → IsRegistry m
    → ((k : ℕ) (e : Device)
        → get k m ≡ some e
        → is_usb e ≡ is_usb d
        → serial_number e ≢ serial_number d)
    → IsRegistry (insert (Devices.id d) d m)
insert-IsRegistry d m v new = record {
  is_map = insert-IsMap (Devices.id d) d m v.is_map;
  own_id = λ j e h. ground (arith, get-insert (Devices.id d) j d m, v.own_id j e);
  unique = λ j k a b p q s t. ground (
    arith,
    get-insert (Devices.id d) j d m,
    get-insert (Devices.id d) k d m,
    v.unique j k a b,
    new j a,
    new k b,
  );
}

-- A key whose entry `any` or a filter rules out.
any-false :
    (p : Device → Bool) (m : Connected) (k : ℕ) (e : Device)
    → get k m ≡ some e
    → any p m ≡ false
    → p e ≡ false
any-false p m k e h none_fits = ground (arith, any-of_get p m k e h, Bool-cases (p e))

pub usb_connected-IsRegistry :
    (d : Device) (m : Connected) → IsRegistry m → IsRegistry (usb_connected (Devices.id d) d m).0
unfolding usb_connected
usb_connected-IsRegistry d m v =
    let keep : ℕ → Device → Bool = λ _ e. not (same (serial_number e) (serial_number d)) in
    insert-IsRegistry d (retain keep m) (retain-IsRegistry keep m v) λ k e h kind eq.
      let gone : same (serial_number e) (serial_number d) ≡ true =
        (same_iff (serial_number e) (serial_number d)).1 eq in
      ground (arith, get-retain keep k m v.is_map, gone, Option-cases (get k m))

after_shutdown-IsRegistry :
    (d : Device) (m : Connected) (p : Progress Device)
    → IsRegistry m
    → IsRegistry (after_shutdown d m p).0.0
after_shutdown-IsRegistry d m (done d') v = v
after_shutdown-IsRegistry d m (failed e) v = v
after_shutdown-IsRegistry d m pending v = v

remove_found-IsRegistry :
    (x : Extern) (gone : Bool) (k : ℕ) (m : Connected) (o : Option Device)
    → IsRegistry m
    → IsRegistry (remove_found x gone k m o).0.0
remove_found-IsRegistry x gone k m none v = v
remove_found-IsRegistry x gone k m (some d) v =
    after_shutdown-IsRegistry d (remove k m) (Devices.shutdown x gone d) (remove-IsRegistry k m v)

pub after_removal-table : (k : ℕ) (r : Outcome × Progress Device) → (after_removal k r).0 ≡ r.0.0
after_removal-table k ((m, events), done d) = refl
after_removal-table k (o, failed e) = refl
after_removal-table k (o, pending) = refl

pub usb_disconnected-IsRegistry :
    (x : Extern) (gone : Bool) (k : ℕ) (m : Connected)
    → IsRegistry m
    → IsRegistry (usb_disconnected x gone k m).0
unfolding usb_disconnected remove_device
usb_disconnected-IsRegistry x gone k m v =
    subst IsRegistry (sym (after_removal-table k (remove_found x gone k m (get k m))))
      (remove_found-IsRegistry x gone k m (get k m) v)

pub network_added-IsRegistry :
    (d : NetworkDevice) (m : Connected)
    → is_known d.serial_number m ≡ false
    → IsRegistry m
    → IsRegistry (network_added d m).0
unfolding is_known network_added
network_added-IsRegistry d m unknown v = insert-IsRegistry (network d) m v λ k e h kind eq.
    let other : is_network_of d.serial_number e ≡ false =
      any-false (is_network_of d.serial_number) m k e h unknown in
    ground (arith, (same_iff (serial_number e) d.serial_number).1 eq)

network_removed_id-IsRegistry :
    (m : Connected) (k : ℕ) (o : Option Device)
    → IsRegistry m
    → IsRegistry (network_removed_id m k o).0
network_removed_id-IsRegistry m k none v = v
network_removed_id-IsRegistry m k (some d) v = remove-IsRegistry k m v

network_found-IsRegistry :
    (m : Connected) (o : Option Device) → IsRegistry m → IsRegistry (network_found m o).0
network_found-IsRegistry m none v = v
network_found-IsRegistry m (some d) v =
    network_removed_id-IsRegistry m (Devices.id d) (get (Devices.id d) m) v

pub network_removed-IsRegistry :
    (mac : List ℕ) (m : Connected) → IsRegistry m → IsRegistry (network_removed mac m).0
unfolding network_removed
network_removed-IsRegistry mac m v = network_found-IsRegistry m (find (has_mac mac) m) v

pub lost-IsRegistry :
    (k op : ℕ) (m : Connected) → IsRegistry m → IsRegistry (usb_failed k op none m).0
unfolding usb_failed
lost-IsRegistry k op m v = retain-IsRegistry (λ _ e. not (opaque_id_of e == op)) m v

-- The device whose reader loop failed comes back under its old id, and nothing else has its serial number.
pub reopened-IsRegistry :
    (k op : ℕ) (d : Device) (m : Connected)
    → Devices.id d ≡ k
    → ((j : ℕ) (e : Device)
        → get j m ≡ some e
        → not (opaque_id_of e == op) ≡ true
        → serial_number e ≢ serial_number d)
    → IsRegistry m
    → IsRegistry (usb_failed k op (some d) m).0
unfolding usb_failed
reopened-IsRegistry k op d m same_id fresh v =
    let keep : ℕ → Device → Bool = λ _ e. not (opaque_id_of e == op) in
    subst (λ i. IsRegistry (insert i d (retain keep m))) same_id
      (insert-IsRegistry d (retain keep m) (retain-IsRegistry keep m v) λ j e h kind.
        ground (arith, get-retain keep j m v.is_map, fresh j e, Option-cases (get j m)))
