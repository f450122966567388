-- ===== src/Watcher/Loops/Unknown.antt =====
-- That a serial number which no network device of the table has stays so.
use rusbmux.Base.{
  ℕ, ◌≡◌, refl, Bool, true, false, Option, none, some, List, [], ◌∷◌, arith, Bool-cases,
}
use rusbmux.Base.Map.{get, insert, remove, retain, find, any}
use rusbmux.Extern.{Extern}
use rusbmux.Conn.{Progress, done, failed, pending}
use rusbmux.Devices
use rusbmux.Devices.{Device, network, usb, is_usb, serial_number}
use rusbmux.Watcher.{
  Connected, is_network_of, is_known, usb_connected, usb_disconnected, remove_device, remove_found,
  after_removal, after_shutdown, usb_failed, network_removed, network_removed_id, network_found,
  has_mac,
}

module _ {V : Type 0} (p : V → Bool) where
  pub any-remove-false : (k : ℕ) (m : List (ℕ × V)) → any p m ≡ false → any p (remove k m) ≡ false
  any-remove-false k [] h = refl
  any-remove-false k ((j, v) ∷ m) h = ground (arith, any-remove-false k m, Bool-cases (p v))

  pub any-retain-false :
      (keep : ℕ → V → Bool) (m : List (ℕ × V)) → any p m ≡ false → any p (retain keep m) ≡ false
  any-retain-false keep [] h = refl
  any-retain-false keep ((j, v) ∷ m) h = ground (arith, any-retain-false keep m, Bool-cases (p v))

  pub any-insert-false :
      (k : ℕ) (v : V) (m : List (ℕ × V))
      → p v ≡ false
      → any p m ≡ false
      → any p (insert k v m) ≡ false
  any-insert-false k v m e h = rw e (any-remove-false k m h)

usb_is_other : (s : List ℕ) (d : Device) → is_usb d ≡ true → is_network_of s d ≡ false
usb_is_other s d h = rw h refl

module _ (s : List ℕ) where
  pub usb_connected-unknown :
      (id : ℕ) (d : Device) (m : Connected)
      → is_usb d ≡ true
      → is_known s m ≡ false
      → is_known s (usb_connected id d m).0 ≡ false
  unfolding is_known usb_connected
  usb_connected-unknown id d m kind h =
      any-insert-false (is_network_of s) id d _ (usb_is_other s d kind)
        (any-retain-false (is_network_of s) _ m h)

  shutdown-unknown :
      (d : Device) (m : Connected) (k : ℕ) (r : Progress Device)
      → is_known s m ≡ false
      → is_known s (after_removal k (after_shutdown d m r)).0 ≡ false
  shutdown-unknown d m k (done d') h = h
  shutdown-unknown d m k (failed e) h = h
  shutdown-unknown d m k pending h = h

  removed-unknown :
      (x : Extern) (gone : Bool) (k : ℕ) (m : Connected) (o : Option Device)
      → is_known s m ≡ false
      → is_known s (after_removal k (remove_found x gone k m o)).0 ≡ false
  unfolding is_known
  removed-unknown x gone k m none h = h
  removed-unknown x gone k m (some d) h =
      shutdown-unknown d (remove k m) k (Devices.shutdown x gone d)
        (any-remove-false (is_network_of s) k m h)

  pub usb_disconnected-unknown :
      (x : Extern) (gone : Bool) (k : ℕ) (m : Connected)
      → is_known s m ≡ false
      → is_known s (usb_disconnected x gone k m).0 ≡ false
  unfolding usb_disconnected remove_device
  usb_disconnected-unknown x gone k m h = removed-unknown x gone k m (get k m) h

  pub usb_lost-unknown :
      (id op : ℕ) (m : Connected)
      → is_known s m ≡ false
      → is_known s (usb_failed id op none m).0 ≡ false
  unfolding is_known usb_failed
  usb_lost-unknown id op m h = any-retain-false (is_network_of s) _ m h

  pub usb_reopened-unknown :
      (id op : ℕ) (d : Device) (m : Connected)
      → is_usb d ≡ true
      → is_known s m ≡ false
      → is_known s (usb_failed id op (some d) m).0 ≡ false
  unfolding is_known usb_failed
  usb_reopened-unknown id op d m kind h =
      any-insert-false (is_network_of s) id d _ (usb_is_other s d kind)
        (any-retain-false (is_network_of s) _ m h)

  found_id-unknown :
      (m : Connected) (k : ℕ) (o : Option Device)
      → is_known s m ≡ false
      → is_known s (network_removed_id m k o).0 ≡ false
  unfolding is_known
  found_id-unknown m k none h = h
  found_id-unknown m k (some d) h = any-remove-false (is_network_of s) k m h

  found-unknown :
      (m : Connected) (o : Option Device)
      → is_known s m ≡ false
      → is_known s (network_found m o).0 ≡ false
  found-unknown m none h = h
  found-unknown m (some d) h = found_id-unknown m (Devices.id d) (get (Devices.id d) m) h

  pub network_removed-unknown :
      (mac : List ℕ) (m : Connected)
      → is_known s m ≡ false
      → is_known s (network_removed mac m).0 ≡ false
  unfolding network_removed
  network_removed-unknown mac m h = found-unknown m (find (has_mac mac) m) h
