-- ===== src/Handler/DeviceList/Agreement.antt =====
-- The device list against the view of the events: both show the same devices of a table that is in order.
use rusbmux.Base.{
  ℕ, ◌≡◌, ◌≢◌, refl, sym, ◌∙◌, Bool, true, false, Option, none, some, List, if◌then◌else◌, arith,
}
use rusbmux.Base.Map.{get, any, kept, get-retain}
use rusbmux.NetworkDevice.{NetworkDevice}
use rusbmux.Devices
use rusbmux.Devices.{Device, network, usb, is_usb, serial_number}
use rusbmux.Watcher.{Connected, same, has_usb, is_usb_of}
use rusbmux.Watcher.Search.{is_usb_of_iff, same_iff, any-of_get, get-of_any}
use rusbmux.Watcher.Registry.{IsRegistry}
use rusbmux.Watcher.View.{shows_entry, visible}
use rusbmux.Handler.DeviceList.{elsewhere, is_listed, listed}

-- Two tests that are true together are equal.
pub same_tests : (a b : Bool) → (a ≡ true → b ≡ true) → (b ≡ true → a ≡ true) → a ≡ b
same_tests true b f g = sym (f refl)
same_tests false true f g = g refl
same_tests false false f g = refl

elsewhere_iff :
    (s : List ℕ) (i : ℕ) (e : Device)
    → elsewhere s i e ≡ true
    → (serial_number e ≡ s) × (Devices.id e ≢ i)
elsewhere_iff s i e h = ground (arith, (same_iff (serial_number e) s).0)

module _ (m : Connected) (r : IsRegistry m) (k : ℕ) (d : NetworkDevice)
    (here : get k m ≡ some (network d)) where
  twin-is_usb_of :
      (j : ℕ) (e : Device)
      → get j m ≡ some e
      → serial_number e ≡ d.serial_number
      → Devices.id e ≢ d.id
      → is_usb_of d.serial_number e ≡ true
  twin-is_usb_of j (usb e) at_j eq other = (same_iff (serial_number (usb e)) d.serial_number).1 eq
  twin-is_usb_of j (network e) at_j eq other =
      let same_place : j ≡ k = r.unique j k (network e) (network d) at_j here refl eq in
      let own_e : e.id ≡ j = r.own_id j (network e) at_j in
      let own_d : d.id ≡ k = r.own_id k (network d) here in
      absurd (other (own_e ∙ same_place ∙ sym own_d))

  usb-elsewhere :
      (j : ℕ) (e : Device)
      → get j m ≡ some e
      → is_usb e ≡ true
      → serial_number e ≡ d.serial_number
      → elsewhere d.serial_number d.id e ≡ true
  usb-elsewhere j (network e) at_j kind eq = ground arith
  usb-elsewhere j (usb e) at_j kind eq =
      let own_e : e.id ≡ j = r.own_id j (usb e) at_j in
      let own_d : d.id ≡ k = r.own_id k (network d) here in
      let met : same (serial_number (usb e)) d.serial_number ≡ true =
        (same_iff (serial_number (usb e)) d.serial_number).1 eq in
      let apart : e.id ≢ d.id = λ q.
        let place : j ≡ k = sym own_e ∙ q ∙ own_d in
        let both : get j m ≡ some (network d) = rw place here in ground arith in
      ground arith

  -- Another device has the serial number exactly if a USB device has it.
  elsewhere-has_usb : any (elsewhere d.serial_number d.id) m ≡ has_usb d.serial_number m
  elsewhere-has_usb =
      same_tests (any (elsewhere d.serial_number d.id) m) (has_usb d.serial_number m)
        (λ h.
          let (j, e, at_j, fits) = get-of_any (elsewhere d.serial_number d.id) m r.is_map h in
          let (eq, other) = elsewhere_iff d.serial_number d.id e fits in
          any-of_get (is_usb_of d.serial_number) m j e at_j (twin-is_usb_of j e at_j eq other))
        λ h.
          let (j, e, at_j, fits) = get-of_any (is_usb_of d.serial_number) m r.is_map h in
          let (kind, eq) = is_usb_of_iff d.serial_number e fits in
          any-of_get (elsewhere d.serial_number d.id) m j e at_j (usb-elsewhere j e at_j kind eq)

kept_if :
    (m : Connected) (r : IsRegistry m) (k : ℕ) (o : Option Device)
    → get k m ≡ o
    → kept (λ _ d. is_listed m d) k o ≡ (if shows_entry m o then o else none)
kept_if m r k none h = refl
kept_if m r k (some (usb d)) h = refl
kept_if m r k (some (network d)) h = rw (elsewhere-has_usb m r k d h) refl

-- In a table that is in order, the device list has exactly the devices that the events are to show: the filter on
-- another device of the serial number and the preference for USB are the same.
pub get-listed :
    (m : Connected) (k : ℕ)
    → IsRegistry m
    → get k (listed m) ≡ (if visible k m then get k m else none)
unfolding listed
get-listed m k r = get-retain (λ _ d. is_listed m d) k m r.is_map ∙ kept_if m r k (get k m) refl
