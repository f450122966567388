-- ===== src/Backend/Rusb/Polling.antt =====
-- usb_backend/rusb.rs: `PollingStream`, which lists the devices again and again and reports what has changed.
pub mod Changes
use rusbmux.Base.{ℕ, Bool, true, ◌&&◌, Option, none, some, List, [], ◌∷◌, ◌++◌, ◌==◌, if◌then◌else◌}
use rusbmux.Base.Map.{get, insert}
use rusbmux.Backend.{DeviceInfo, rusb, opaque_id, apple_vid}
use rusbmux.Backend.Hotplug.{UsbEvent, arrived, left}

-- The devices of a listing, each with whether its descriptor can be read.
abbrev pub Listing : Type 0
Listing = List (DeviceInfo × Bool)

abbrev pub Known : Type 0
Known = List (ℕ × DeviceInfo)

pub record PollingStream : Type 0 where
  pub known : Known
  pub waiting : List UsbEvent

abbrev pub new : PollingStream
new = record { known = []; waiting = [] }

abbrev pub gather : Listing → Known → Known
gather [] m = m
gather ((d, readable) ∷ ds) m =
    gather ds
      (if readable && (d.vendor_id == apple_vid) then insert (opaque_id (rusb d)) d m else m)

abbrev pub unless_known : Option DeviceInfo → UsbEvent → List UsbEvent → List UsbEvent
unless_known none e events = e ∷ events
unless_known (some d) e events = events

abbrev pub arrivals : Known → Known → List UsbEvent
arrivals known [] = []
arrivals known ((k, d) ∷ current) = unless_known (get k known) (arrived d) (arrivals known current)

abbrev pub removals : Known → Known → List UsbEvent
removals current [] = []
removals current ((k, d) ∷ known) = unless_known (get k current) (left d) (removals current known)

unfoldable pub scan : Listing → PollingStream → PollingStream
scan ds s =
    let current = gather ds [] in
    record {
      known = current;
      waiting = s.waiting ++ (arrivals s.known current ++ removals current s.known);
    }

-- The next event over the listings that the loop makes, of which some fail; `none` where it still waits for one.
abbrev pub pop :
    UsbEvent
    → List UsbEvent
    → PollingStream
    → List (Option Listing)
    → UsbEvent × PollingStream × List (Option Listing)
pop e es s listings = (e, record s { waiting = es }, listings)

abbrev pub next_from :
    List (Option Listing)
    → PollingStream
    → List UsbEvent
    → Option (UsbEvent × PollingStream × List (Option Listing))
next_from listings s (e ∷ es) = some (pop e es s listings)
next_from [] s [] = none
next_from (none ∷ listings) s [] = next_from listings s []
next_from (some ds ∷ listings) s [] = next_from listings (scan ds s) (scan ds s).waiting

unfoldable pub next :
    List (Option Listing)
    → PollingStream
    → Option (UsbEvent × PollingStream × List (Option Listing))
next listings s = next_from listings s s.waiting
