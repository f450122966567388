-- ===== src/Watcher/Table.antt =====
-- The table of devices without the order of its entries, as a quotient, and what plugging in means on it.
use rusbmux.Base.{
  ℕ, ◌≡◌, ◌≢◌, ◌∙◌, refl, sym, not, Bool, true, Option, none, some, List, arith, ◌==◌, Bool-cases,
  if◌then◌else◌,
}
use mathlib.Core.HLevel.{Σ_set}
use mathlib.Core.Quot
use mathlib.Core.Quot.{Quot, Quot-set}
use rusbmux.Base.Map.{get, retain, kept, get-insert, get-retain}
use rusbmux.Devices
use rusbmux.Devices.{Device, network, usb, is_usb, serial_number}
use rusbmux.Watcher.{Connected, DeviceEvent, same, usb_connected}
use rusbmux.Watcher.Search.{same_iff}
use rusbmux.Watcher.Registry.{IsRegistry, usb_connected-IsRegistry}
use rusbmux.Watcher.Unordered.{SameEntries, usb_connected-Agree}

abbrev pub Listed : Type 0
Listed = (m : Connected) × IsRegistry m

abbrev Reordered : Listed → Listed → Type 0
Reordered a b = SameEntries a.0 b.0

abbrev pub Table : Type 0
Table = Quot Reordered

DeviceEvents-set : IsSet (List DeviceEvent)
DeviceEvents-set = hlevel

outcome_set : IsSet (Table × List DeviceEvent)
outcome_set = Σ_set Quot-set (λ t. DeviceEvents-set)

plugged_list : Device → Listed → Table × List DeviceEvent
plugged_list d a =
    let o = usb_connected (Devices.id d) d a.0 in
    (Quot.mk (o.0, usb_connected-IsRegistry d a.0 a.1), o.1)

plugged_list-Reordered :
    (d : Device) (a b : Listed) → Reordered a b → plugged_list d a ≡ plugged_list d b
unfolding plugged_list
plugged_list-Reordered d a b s =
    let (tables, events) = usb_connected-Agree a.0 b.0 a.1 b.1 s d in
    let same_table : (plugged_list d a).0 ≡ (plugged_list d b).0 = Quot.sound tables in
    λ i. (same_table i, events i)

-- A device that has been opened, on the table without its order: the table then, and the broadcast events.
pub plug : Device → Table → Table × List DeviceEvent
plug d = Quot.lift outcome_set (plugged_list d) (plugged_list-Reordered d)

keeps : Device → ℕ → Device → Bool
keeps d k e = not (same (serial_number e) (serial_number d))

get-usb_connected :
    (d : Device) (m : Connected) (j : ℕ)
    → IsRegistry m
    → get j (usb_connected (Devices.id d) d m).0
      ≡ (if Devices.id d == j then some d else kept (keeps d) j (get j m))
unfolding usb_connected keeps
get-usb_connected d m j v =
    ground
      (arith, get-insert (Devices.id d) j d (retain (keeps d) m), get-retain (keeps d) j m v.is_map)

kept_comm :
    (d e : Device) (j : ℕ) (o : Option Device)
    → kept (keeps d) j (kept (keeps e) j o) ≡ kept (keeps e) j (kept (keeps d) j o)
kept_comm d e j none = refl
kept_comm d e j (some a) = ground (arith, Bool-cases (keeps d j a), Bool-cases (keeps e j a))

keeps_other : (d e : Device) (j : ℕ) → serial_number d ≢ serial_number e → keeps d j e ≡ true
unfolding keeps
keeps_other d e j differ = ground (arith, same_iff (serial_number e) (serial_number d))

-- The entry under one id, after the two in either order; `a` and `b` are what is there after the first.
both_entries :
    (d e : Device) (j : ℕ) (o a b : Option Device)
    → Devices.id d ≢ Devices.id e
    → serial_number d ≢ serial_number e
    → a ≡ (if Devices.id d == j then some d else kept (keeps d) j o)
    → b ≡ (if Devices.id e == j then some e else kept (keeps e) j o)
    → (if Devices.id d == j then some d else kept (keeps d) j b)
      ≡ (if Devices.id e == j then some e else kept (keeps e) j a)
both_entries d e j o a b ids serials p q = ground (
  arith,
  kept_comm d e j o,
  keeps_other d e j serials,
  keeps_other e d j (λ same_serial. serials (sym same_serial)),
)

plugged_both :
    (d e : Device) (m : Connected)
    → IsRegistry m
    → Devices.id d ≢ Devices.id e
    → serial_number d ≢ serial_number e
    → SameEntries
        (usb_connected (Devices.id d) d (usb_connected (Devices.id e) e m).0).0
        (usb_connected (Devices.id e) e (usb_connected (Devices.id d) d m).0).0
plugged_both d e m v ids serials j =
    get-usb_connected d _ j (usb_connected-IsRegistry e m v)
    ∙ both_entries d e j (get j m) (get j (usb_connected (Devices.id d) d m).0)
        (get j (usb_connected (Devices.id e) e m).0) ids serials (get-usb_connected d m j v)
        (get-usb_connected e m j v)
    ∙ sym (get-usb_connected e _ j (usb_connected-IsRegistry d m v))

-- Two devices with different ids and different serial numbers can be plugged in one before the other: the
-- tables that come of it are equal.
pub plug_comm :
    (d e : Device) (t : Table)
    → Devices.id d ≢ Devices.id e
    → serial_number d ≢ serial_number e
    → (plug d (plug e t).0).0 ≡ (plug e (plug d t).0).0
unfolding plug plugged_list
plug_comm d e t ids serials =
    Quot.ind {β = λ t. (plug d (plug e t).0).0 ≡ (plug e (plug d t).0).0} (λ t. Quot-set _ _)
      (λ a. Quot.sound (plugged_both d e a.0 a.1 ids serials)) t
