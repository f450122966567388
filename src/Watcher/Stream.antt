-- ===== src/Watcher/Stream.antt =====
-- watcher/usb.rs: `watch_usb`, the stream of the USB devices that have been opened and of those that have left.
use rusbmux.Base.{
  ℕ, ◌≡◌, ◌==◌, refl, ap, true, Option, none, some, List, [], ◌∷◌, ◌++◌, if◌then◌else◌, arith,
}
use rusbmux.Error
use rusbmux.Error.{Result, err, RusbmuxError}
use rusbmux.Backend.{AnyDeviceInfo, apple_vid, vendor_id, opaque_id}
use rusbmux.Backend.Hotplug.{Event, connected, disconnected}
use rusbmux.Devices.{Device}

pub data UsbEvent : Type 0 where
  opened : Device → ℕ → UsbEvent
  left : ℕ → UsbEvent

-- `Device::new_usb` at one moment, and the devices that the backend lists then.
pub record Moment : Type 0 where
  pub new_usb : AnyDeviceInfo → ℕ → Result Device
  pub list_devices : List AnyDeviceInfo

abbrev pub find_opaque : ℕ → List AnyDeviceInfo → Option AnyDeviceInfo
find_opaque opaque [] = none
find_opaque opaque (d ∷ ds) =
    let rest = find_opaque opaque ds in if opaque_id d == opaque then some d else rest

-- The attempts that are made before the deadline; the error is that of the first.
abbrev retried : Result Device → Result Device → Result Device
retried (Error.ok d) later = Error.ok d
retried (err e) later = later

abbrev attempt : Moment → ℕ → ℕ → RusbmuxError → Result Device
attempt t opaque id first = elim (find_opaque opaque t.list_devices) [
  | none ↦ err first
  | some info ↦ t.new_usb info id
]

abbrev pub retry : List Moment → ℕ → ℕ → RusbmuxError → Result Device
retry [] opaque id first = err first
retry (t ∷ ts) opaque id first = retried (attempt t opaque id first) (retry ts opaque id first)

abbrev tried : List Moment → ℕ → ℕ → Result Device → Result Device
tried ts opaque id (Error.ok d) = Error.ok d
tried ts opaque id (err first) = retry ts opaque id first

unfoldable pub open_device : Moment → List Moment → AnyDeviceInfo → ℕ → Result Device
open_device now later info id = tried later (opaque_id info) id (now.new_usb info id)

-- An event of the backend, with the moments at which opening its device is tried.
pub record Occasion : Type 0 where
  pub event : Result Event
  pub now : Moment
  pub later : List Moment

-- `device?` in a `try_stream!` yields the error and ends the stream.
abbrev pub or_end : ℕ → Result Device → List (Result UsbEvent) → List (Result UsbEvent)
or_end id (Error.ok d) rest = Error.ok (opened d id) ∷ rest
or_end id (err e) rest = err e ∷ []

abbrev pub yielded : Occasion → Result Event → List (Result UsbEvent) → List (Result UsbEvent)
yielded o (err e) rest = rest
yielded o (Error.ok (disconnected id)) rest = Error.ok (left id) ∷ rest
yielded o (Error.ok (connected info id)) rest =
    if vendor_id info == apple_vid then or_end id (open_device o.now o.later info id) rest else rest

unfoldable pub watch_usb : List Occasion → List (Result UsbEvent)
watch_usb [] = []
watch_usb (o ∷ os) = yielded o o.event (watch_usb os)

-- Once a device of the vendor cannot be opened at any of the attempts, the stream is at its end: whatever events the
-- backend has after that, devices that come and devices that leave, none is yielded.
pub watch_usb_ends :
    (before after : List Occasion) (o : Occasion) (info : AnyDeviceInfo) (id : ℕ) (e : RusbmuxError)
    → o.event ≡ Error.ok (connected info id)
    → vendor_id info ≡ apple_vid
    → open_device o.now o.later info id ≡ err e
    → watch_usb (before ++ o ∷ after) ≡ watch_usb (before ++ o ∷ [])
unfolding watch_usb
watch_usb_ends [] after o info id e event apple refused =
    let is_apple : (vendor_id info == apple_vid) ≡ true = ground arith in
    rw (event, is_apple, refused) refl
watch_usb_ends (b ∷ before) after o info id e event apple refused =
    ap (yielded b b.event) (watch_usb_ends before after o info id e event apple refused)
