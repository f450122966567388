-- ===== src/Driver/Uninstall.antt =====
-- windows/rusbmux-usb-win-driver/src/uninstall.rs: the removal of the drivers. The commands of pnputil are
-- functions on a type of machines; the numbers of the errors are the exit codes.
pub mod Rounds
use rusbmux.Base.{ℕ, zero, suc, Bool, true, false, Option, none, some, List, [], ◌∷◌, length}
use rusbmux.Driver.Text.{lines}
use rusbmux.Driver.Listing.{PnpEntity, scan}

pub data Outcome {ℓ} (A : Type ℓ) : Type ℓ where
  ok : A → Outcome A
  err : ℕ → Outcome A

-- What a command of pnputil prints, where it can be run.
pub record Pnputil (Machine : Type 0) : Type 0 where
  -- The decoded standard output of `/enum-devices`.
  pub enum_devices : Machine → Option (List ℕ)
  -- The standard error of `/delete-driver inf /uninstall`.
  pub delete_driver : List ℕ → Machine → Machine × Option (List ℕ)
  -- Whether `/scan-devices` exits with success.
  pub scan_devices : Machine → Machine × Option Bool

module _ {Machine : Type 0} (p : Pnputil Machine) where
  abbrev Run : Type 0
  Run = Machine × Outcome (Unit {0})

  abbrev pub then_run : Run → (Machine → Run) → Run
  then_run (m, ok t) f = f m
  then_run (m, err code) f = (m, err code)

  abbrev deleted : Machine × Option (List ℕ) → Run
  deleted (m, none) = (m, err 677)
  deleted (m, some []) = (m, ok tt)
  deleted (m, some (c ∷ cs)) = (m, err 677)

  unfoldable pub remove_device : List ℕ → Machine → Run
  remove_device inf_name m = deleted (p.delete_driver inf_name m)

  abbrev scanned : Machine × Option Bool → Run
  scanned (m, some true) = (m, ok tt)
  scanned (m, some false) = (m, err 667)
  scanned (m, none) = (m, err 667)

  unfoldable pub rescan : Machine → Run
  rescan m = scanned (p.scan_devices m)

  abbrev parse_listing : Option (List ℕ) → Outcome (List PnpEntity)
  parse_listing none = err 67
  parse_listing (some text) = ok (scan (suc (length (lines text))) (lines text))

  unfoldable pub find_apple_devices : Machine → Outcome (List PnpEntity)
  unfolding scan lines
  find_apple_devices m = parse_listing (p.enum_devices m)

  -- The inner loop.
  unfoldable pub remove_all : List PnpEntity → Machine → Run
  unfolding remove_device
  remove_all [] m = (m, ok tt)
  remove_all (dev ∷ devs) m = then_run (remove_device dev.inf_name m) (remove_all devs)

  -- What a round does with the devices that it finds.
  unfoldable pub uninstall_found : Outcome (List PnpEntity) → (Machine → Run) → Machine → Run
  unfolding remove_all rescan
  uninstall_found (err code) next m = (m, err code)
  uninstall_found (ok []) next m = (m, ok tt)
  uninstall_found (ok (dev ∷ devs)) next m =
      then_run (remove_all (dev ∷ devs) m) λ m1. then_run (rescan m1) next

  unfoldable pub uninstall_any_apple_driver : ℕ → Machine → Run
  unfolding uninstall_found find_apple_devices
  uninstall_any_apple_driver zero m = (m, ok tt)
  uninstall_any_apple_driver (suc rescans) m =
      uninstall_found (find_apple_devices m) (uninstall_any_apple_driver rescans) m
