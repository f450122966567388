-- ===== src/Driver/Install.antt =====
-- windows/rusbmux-usb-win-driver/src/main.rs: the command line of the driver tool and its exit codes.
-- What wdi_rs lists and installs are functions; the wait for the Enter key is left out.
use rusbmux.Base.{
  ℕ, ◌≡◌, ◌≤◌, refl, ◌++◌, All, Bool, true, false, not, ◌&&◌, Option, none, some, List, [], ◌∷◌,
  ◌==◌, leb, if◌then◌else◌, arith, Bool-cases, inl, inr,
}
use rusbmux.Driver.Uninstall.{Outcome, ok, err, Pnputil, uninstall_any_apple_driver}

abbrev apple_vid : ℕ
apple_vid = 0x5ac

pub record WdiDevice : Type 0 where
  pub vid : ℕ
  pub pid : ℕ
  pub is_composite : Bool

pub record Args : Type 0 where
  pub clean : Bool
  pub install : Bool
  pub rescans : ℕ

-- The argument of `std::process::exit`.
pub data ExitCode : Type 0 where
  plus minus : ℕ → ExitCode

-- `Err` is the outcome `none`, and an installation says whether it succeeded.
pub record Wdi (Machine : Type 0) : Type 0 where
  pub create_list : Machine → Option (List WdiDevice)
  pub install_driver : WdiDevice → Machine → Machine × Bool

unfoldable pub is_apple_device : WdiDevice → Bool
is_apple_device dev =
    dev.vid == apple_vid && ((leb 0x1290 dev.pid && leb dev.pid 0x12af) && not dev.is_composite)

unfoldable pub find_device : List WdiDevice → Option WdiDevice
unfolding is_apple_device
find_device [] = none
find_device (dev ∷ devs) =
    let rest = find_device devs in if is_apple_device dev then some dev else rest

abbrev pub IsTarget : WdiDevice → Type 0
IsTarget dev =
    (dev.vid ≡ 0x5ac) × (0x1290 ≤ dev.pid) × (dev.pid ≤ 0x12af) × (dev.is_composite ≡ false)

skipped : (d : WdiDevice) → ¬ IsTarget d → is_apple_device d ≡ false
unfolding is_apple_device
skipped d h = elim (Bool-cases (is_apple_device d)) [
  | inl e ↦ absurd (h (ground arith, ground arith, ground arith, ground arith))
  | inr e ↦ e
]

find_device-first :
    (before after : List WdiDevice) (dev : WdiDevice)
    → All (λ d. ¬ IsTarget d) before
    → IsTarget dev
    → find_device (before ++ dev ∷ after) ≡ some dev
unfolding find_device
find_device-first [] after dev none_before t = ground arith
find_device-first (d ∷ before) after dev (h, none_before) t =
    ground (arith, skipped d h, find_device-first before after dev none_before t)

module _ {Machine : Type 0} (p : Pnputil Machine) (wdi : Wdi Machine) where
  abbrev installed : Machine × Bool → Machine × ExitCode
  installed (m, true) = (m, plus 0)
  installed (m, false) = (m, minus 67)

  abbrev install_on : Option WdiDevice → Machine → Machine × ExitCode
  install_on none m = (m, minus 677)
  install_on (some dev) m = installed (wdi.install_driver dev m)

  abbrev install_listed : Option (List WdiDevice) → Machine → Machine × ExitCode
  install_listed none m = (m, minus 667)
  install_listed (some devs) m = install_on (find_device devs) m

  -- What follows the cleaning.
  abbrev install_after : Bool → Machine × Outcome (Unit {0}) → Machine × ExitCode
  install_after install (m, err code) = (m, plus code)
  install_after false (m, ok t) = (m, plus 0)
  install_after true (m, ok t) = install_listed (wdi.create_list m) m

  abbrev cleaned : Args → Machine → Machine × Outcome (Unit {0})
  cleaned args m = if args.clean then uninstall_any_apple_driver p args.rescans m else (m, ok tt)

  unfoldable pub main : Args → Machine → Machine × ExitCode
  unfolding find_device
  main args m = install_after args.install (cleaned args m)

  -- With `--install`, and where cleaning went well or was not asked for, the driver is installed on the
  -- first device in the list that has the vendor id of Apple, a product id of the range and is not
  -- composite, and the exit code says whether the installation succeeded.
  pub main_installs :
      (args : Args) (m m1 : Machine) (before after : List WdiDevice) (dev : WdiDevice)
      → args.install ≡ true
      → cleaned args m ≡ (m1, ok tt)
      → wdi.create_list m1 ≡ some (before ++ dev ∷ after)
      → All (λ d. ¬ IsTarget d) before
      → IsTarget dev
      → main args m ≡ installed (wdi.install_driver dev m1)
  unfolding main
  main_installs args m m1 before after dev i c l h t =
      rw (c, i, l, find_device-first before after dev h t) refl
