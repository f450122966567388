-- ===== src/Tests/Drivers.antt =====
-- The theorems about the Windows driver tool, at a machine with drivers stacked one above the other.
use rusbmux.Base.{ℕ, zero, suc, ◌≡◌, ◌<◌, ◌≤◌, refl, true, some, List, [], ◌∷◌, ◌++◌, arith}
use rusbmux.Driver.Text.{codes, lines}
use rusbmux.Driver.Listing.{PnpEntity}
use rusbmux.Driver.Listing.Blocks.{blocks, listed_in}
use rusbmux.Driver.Uninstall.{ok, Pnputil, find_apple_devices, uninstall_any_apple_driver}
use rusbmux.Driver.Uninstall.Rounds.{
  Works, Ends, find_apple_devices-blocks, uninstall_any_apple_driver-Ends, uninstall_clears,
}

abbrev listing : List ℕ
listing =
    codes "Instance ID:  VID_05AC"
    ++ 0xd ∷ 0xa ∷ codes "Manufacturer Name:  Apple Inc."
    ++ 0xd ∷ 0xa ∷ codes "Driver Name:  oem1.inf"
    ++ 0xd ∷ 0xa ∷ 0xd ∷ 0xa ∷ codes "Driver Name:  keyboard.inf"

abbrev printed : ℕ → List ℕ
printed zero = []
printed (suc drivers) = listing

abbrev less : ℕ → ℕ
less zero = 0
less (suc drivers) = drivers

-- The machine is the number of the drivers of the device.
abbrev pnputil : Pnputil ℕ
pnputil = record {
  enum_devices = λ drivers. some (printed drivers);
  delete_driver = λ inf drivers. (less drivers, some []);
  scan_devices = λ drivers. (drivers, some true);
}

found_none : find_apple_devices pnputil 0 ≡ ok []
unfolding find_apple_devices
found_none = refl

less_than :
    (drivers : ℕ) (dev : PnpEntity) (devs : List PnpEntity)
    → find_apple_devices pnputil drivers ≡ ok (dev ∷ devs)
    → less drivers < drivers
unfolding find_apple_devices
less_than zero dev devs h = absurd (ground arith)
less_than (suc drivers) dev devs h = omega arith

less_keeps : (drivers : ℕ) → less drivers ≤ drivers
less_keeps zero = omega arith
less_keeps (suc drivers) = omega arith

pnputil-Works : Works pnputil (λ drivers. drivers)
pnputil-Works = record {
  lists = λ drivers. (printed drivers, refl);
  deletes = λ inf drivers. refl;
  rescans = λ drivers. refl;
  lowers = less_than;
  keeps = λ inf drivers. less_keeps drivers;
  keeps_rescan = λ drivers. omega arith;
}

found_one : find_apple_devices pnputil 1 ≡ ok (record { inf_name = codes "oem1.inf" } ∷ [])
unfolding find_apple_devices
found_one = refl

find_apple_devices-blocks_example :
    find_apple_devices pnputil 1 ≡ ok (listed_in (blocks (lines listing)))
find_apple_devices-blocks_example = find_apple_devices-blocks pnputil 1 listing refl

uninstall_any_apple_driver-Ends_example : Ends pnputil 3 2 (uninstall_any_apple_driver pnputil 3 2)
uninstall_any_apple_driver-Ends_example = uninstall_any_apple_driver-Ends pnputil 3 2

uninstall_clears_example :
    ((uninstall_any_apple_driver pnputil 3 2).1 ≡ ok tt)
    × (find_apple_devices pnputil (uninstall_any_apple_driver pnputil 3 2).0 ≡ ok [])
uninstall_clears_example = uninstall_clears pnputil pnputil-Works 3 2 (omega arith)
