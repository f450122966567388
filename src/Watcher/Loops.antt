-- ===== src/Watcher/Loops.antt =====
-- watcher/usb.rs and watcher/network.rs: the loops of `watch_usb_daemon` and `watch_network_daemon` on one table,
-- in the order in which their rounds come. The tasks that are spawned for resolved services wait while their device
-- is connected to, and other rounds come in between.
pub mod Unknown
pub mod Refines
use rusbmux.Base.{ℕ, Bool, true, false, Option, none, some, List, [], ◌∷◌, ◌++◌, if◌then◌else◌}
use rusbmux.Base.Map.{get, insert, remove}
use rusbmux.Extern.{Extern}
use rusbmux.Error
use rusbmux.Error.{Result, err}
use rusbmux.NetworkDevice.{NetworkDevice}
use rusbmux.Devices.{Device}
use rusbmux.Backend.{AnyDeviceInfo}
use rusbmux.Watcher.{
  Connected, Outcome, DeviceEvent, usb_connected, usb_disconnected, usb_failed, network_added,
  network_removed, is_known,
}
use rusbmux.Watcher.Stream.{UsbEvent, opened, left, Moment, find_opaque}
use rusbmux.Watcher.Resolve.{ResolvedService, ResolvedDevice, before_at, resolve_service}
use rusbmux.Watcher.Services.{Network, get_saved_pairing_files, new_network}

-- A round of one of the loops, or the end of a task that a loop has spawned. `hotplug` has whether an aborted
-- writer has already left its channel; `lost` is a device whose reader loop has failed, by its id and its
-- opaque id. A service that is resolved is given an id, and what is found while its device is connected
-- to; its task goes on with `network_opened` once that is done.
pub data Round : Type 0 where
  hotplug : Bool → Result UsbEvent → Round
  lost : ℕ → ℕ → Moment → Round
  service_resolved : ResolvedService → Network → ℕ → Round
  network_opened : ℕ → Round
  service_removed : List ℕ → Round

-- A task of `network_device_add` that waits for its device.
pub record Task : Type 0 where
  pub device : ResolvedDevice
  pub found : Network

-- The table, and the tasks of `network_device_add` that wait for their device, by the ids that they have taken.
pub record Watching : Type 0 where
  pub table : Connected
  pub opening : List (ℕ × Task)

abbrev opened_again : Result Device → Option Device
opened_again (Error.ok d) = some d
opened_again (err e) = none

abbrev reopen_info : Moment → ℕ → Option AnyDeviceInfo → Option Device
reopen_info now id none = none
reopen_info now id (some info) = opened_again (now.new_usb info id)

-- The device that is brought back, if the backend still lists it and it can be opened.
abbrev pub reopen : Moment → ℕ → ℕ → Option Device
reopen now id opaque_id = reopen_info now id (find_opaque opaque_id now.list_devices)

abbrev pub added : Connected → Result NetworkDevice → Outcome
added m (Error.ok d) = network_added d m
added m (err e) = (m, [])

-- `network_device_add` up to where it waits, on what `resolve_service` gives; a panic there ends its task.
abbrev pub network_device_add : Network → ℕ → Watching → Option (Option ResolvedDevice) → Watching
network_device_add n id w none = w
network_device_add n id w (some none) = w
network_device_add n id w (some (some rd)) =
    if is_known rd.udid w.table
    then w
    else record w { opening = insert id (record { device = rd; found = n }) w.opening }

-- The rest of it, for the task that has taken the id.
abbrev pub finish : ℕ → Connected → Option Task → Outcome
finish id m none = (m, [])
finish id m (some a) = added m (new_network a.device a.found id)

abbrev pub with_table : List (ℕ × Task) → Outcome → Watching × List DeviceEvent
with_table opening (m, events) = (record { table = m; opening = opening }, events)

module _ (x : Extern) (decode : List ℕ → Option (List ℕ)) (derive : List ℕ → List ℕ → List ℕ) where
  abbrev pub handle : Round → Watching → Watching × List DeviceEvent
  handle (hotplug gone (Error.ok (opened d id))) w =
      with_table w.opening (usb_connected id d w.table)
  handle (hotplug gone (Error.ok (left id))) w =
      with_table w.opening (usb_disconnected x gone id w.table)
  handle (hotplug gone (err e)) w = (w, [])
  handle (lost id opaque_id now) w =
      with_table w.opening (usb_failed id opaque_id (reopen now id opaque_id) w.table)
  handle (service_resolved rs n id) w = (
    network_device_add n id w
        (resolve_service decode derive (get_saved_pairing_files n.entries) rs),
    [],
  )
  handle (network_opened id) w =
      with_table (remove id w.opening) (finish id w.table (get id w.opening))
  handle (service_removed name) w = with_table w.opening (network_removed (before_at name) w.table)

  -- The table, the tasks and the broadcast events after the rounds.
  unfoldable pub watch : List Round → Watching → Watching × List DeviceEvent
  watch [] w = (w, [])
  watch (r ∷ rs) w =
      let (w', events) = handle r w in let (w'', later) = watch rs w' in (w'', events ++ later)
