-- ===== src/Handler/Connect/Refused.antt =====
-- A client that connects to a device that has been unplugged.
use rusbmux.Base.{ℕ, ◌≡◌, refl, ap, ◌∙◌, Bool, Option, none, some, arith}
use rusbmux.Base.Map.{get, remove, get-remove}
use rusbmux.Extern.{Extern}
use rusbmux.Error
use rusbmux.Error.{Result, err, device_not_found, bad_device_or_no_such_file}
use rusbmux.Conn.{Progress, done, failed, pending}
use rusbmux.Devices
use rusbmux.Devices.{Device}
use rusbmux.Watcher.{Connected, after_shutdown, remove_found, remove_device, usb_disconnected}
use rusbmux.Watcher.Registry.{after_removal-table}
use rusbmux.Handler.{Session, send_result}
use rusbmux.Handler.Answers.{Ran}
use rusbmux.Handler.Connect.{connect, handle_connect}

get-after_shutdown :
    (id : ℕ) (d : Device) (m : Connected) (p : Progress Device)
    → get id m ≡ none
    → get id (after_shutdown d m p).0.0 ≡ none
get-after_shutdown id d m (done d') h = h
get-after_shutdown id d m (failed e) h = h
get-after_shutdown id d m pending h = h

get-remove_found :
    (x : Extern) (gone : Bool) (id : ℕ) (m : Connected) (o : Option Device)
    → get id m ≡ o
    → get id (remove_found x gone id m o).0.0 ≡ none
get-remove_found x gone id m none h = h
get-remove_found x gone id m (some d) h =
    get-after_shutdown id d (remove id m) (Devices.shutdown x gone d)
      (ground (arith, get-remove id id m))

-- However the shutdown of an unplugged device ends, its id is no longer in the table.
get-usb_disconnected :
    (x : Extern) (gone : Bool) (id : ℕ) (m : Connected)
    → get id (usb_disconnected x gone id m).0 ≡ none
unfolding usb_disconnected remove_device
get-usb_disconnected x gone id m =
    ap (get id) (after_removal-table id (remove_found x gone id m (get id m)))
    ∙ get-remove_found x gone id m (get id m) refl

-- A client that connects to a device that has been unplugged, however its shutdown ended, is answered with
-- BadDeviceOrNoSuchFile under its tag, no device is asked, and its handler returns DeviceNotFound if the answer is
-- sent.
pub handle_connect-usb_disconnected :
    {Value World C : Type 0} (x : Extern) (gone : Bool) (s : Session Value World)
    (connects : Device → World → World × Result C) (forward : C → World → Ran World) (id : ℕ)
    (m : Connected) (tag : ℕ) (w w' : World)
    → send_result s bad_device_or_no_such_file tag w ≡ (w', Error.ok tt)
    → handle_connect s connects forward id (usb_disconnected x gone id m).0 tag w
      ≡ (w', err (device_not_found id))
unfolding handle_connect connect
handle_connect-usb_disconnected x gone s connects forward id m tag w w' sent =
    rw (get-usb_disconnected x gone id m, sent) refl
