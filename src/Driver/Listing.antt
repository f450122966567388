-- ===== src/Driver/Listing.antt =====
-- windows/rusbmux-usb-win-driver/src/uninstall.rs: `find_apple_devices` on the text that pnputil prints.
pub mod Blocks
use mathlib.Core.Option
use rusbmux.Base.{
  ℕ, zero, suc, Bool, true, false, not, ◌||◌, ◌&&◌, Option, none, some, List, [], ◌∷◌, ◌++◌,
  if◌then◌else◌,
}
use rusbmux.Driver.Text.{codes, trim, strip_prefix, contains}

pub record PnpEntity : Type 0 where
  pub inf_name : List ℕ

-- The four variables that a block of the listing fills.
pub record Fields : Type 0 where
  pub instance_id : Option (List ℕ)
  pub device_desc : Option (List ℕ)
  pub manufacturer : Option (List ℕ)
  pub driver_name : Option (List ℕ)

abbrev pub no_fields : Fields
no_fields = record {
  instance_id = none;
  device_desc = none;
  manufacturer = none;
  driver_name = none;
}

abbrev pub instance_key : List ℕ
instance_key = codes "Instance ID:"

abbrev pub description_key : List ℕ
description_key = codes "Device Description:"

abbrev pub manufacturer_key : List ℕ
manufacturer_key = codes "Manufacturer Name:"

abbrev pub driver_key : List ℕ
driver_key = codes "Driver Name:"

abbrev is_nil : List ℕ → Bool
is_nil [] = true
is_nil (c ∷ cs) = false

-- `l.trim().is_empty()`
unfoldable pub is_blank : List ℕ → Bool
unfolding trim
is_blank l = is_nil (trim l)

unfoldable pub skip_blank : List (List ℕ) → List (List ℕ)
unfolding is_blank
skip_blank [] = []
skip_blank (l ∷ ls) = let rest = skip_blank ls in if is_blank l then rest else l ∷ ls

-- The chain of tests on a trimmed line.
unfoldable pub read_line : List ℕ → Fields → Fields
unfolding strip_prefix trim
read_line trimmed d = elim (strip_prefix instance_key trimmed) [
  | some v ↦ record d { instance_id = some (trim v) }
  | none ↦ elim (strip_prefix description_key trimmed) [
    | some v ↦ record d { device_desc = some (trim v) }
    | none ↦ elim (strip_prefix manufacturer_key trimmed) [
      | some v ↦ record d { manufacturer = some (trim v) }
      | none ↦ elim (strip_prefix driver_key trimmed) [
        | some v ↦ record d { driver_name = some (trim v) }
        | none ↦ d
      ]
    ]
  ]
]

-- The inner loop: what the block gives, and the lines after it.
unfoldable pub collect : List (List ℕ) → Fields → Fields × List (List ℕ)
unfolding is_blank read_line trim
collect [] d = (d, [])
collect (l ∷ ls) d =
    let rest = collect ls (read_line (trim l) d) in if is_blank l then (d, ls) else rest

abbrev is_some_and : Option (List ℕ) → (List ℕ → Bool) → Bool
is_some_and none p = false
is_some_and (some s) p = p s

unfoldable pub is_apple : Fields → Bool
unfolding contains
is_apple d =
    is_some_and d.instance_id (contains (codes "VID_05AC"))
    || is_some_and d.device_desc (λ s.
      contains (codes "iPhone") s
      || contains (codes "iPad") s
      || contains (codes "iPod") s
      || contains (codes "Apple") s)
    || is_some_and d.manufacturer (contains (codes "Apple"))

abbrev with_driver : Bool → Option (List ℕ) → Option (List ℕ) → List PnpEntity
with_driver apple (some inf) (some prov) =
    if apple && (not (contains (codes "Microsoft") prov) && not (contains (codes "wpdmtp") inf))
    then record { inf_name = inf } ∷ []
    else []
with_driver apple _ _ = []

-- The driver that a block adds to the list, if it adds one.
unfoldable pub listed : Fields → List PnpEntity
unfolding is_apple contains
listed d = with_driver (is_apple d) d.driver_name d.manufacturer

-- The outer loop, on fuel.
unfoldable pub scan : ℕ → List (List ℕ) → List PnpEntity
unfolding skip_blank collect listed
scan zero ls = []
scan (suc fuel) ls = elim (skip_blank ls) [
  | [] ↦ []
  | l ∷ more ↦ let (d, rest) = collect (l ∷ more) no_fields in listed d ++ scan fuel rest
]
