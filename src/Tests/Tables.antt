-- ===== src/Tests/Tables.antt =====
-- The theorems about the table of devices as a whole, the network devices and the end of the daemon.
use rusbmux.Base.{
  ℕ, ◌≡◌, ◌≢◌, refl, ◌∙◌, true, false, Option, none, some, List, [], ◌∷◌, ◌++◌, arith, All, inr,
}
use rusbmux.Base.Map.{get}
use mathlib.Core.Quot
use rusbmux.Error
use rusbmux.Error.{RusbmuxError, err, ResultCode}
use rusbmux.Backend
use rusbmux.Utils
use rusbmux.Watcher
use rusbmux.Backend.{AnyDeviceInfo, rusb, apple_vid}
use rusbmux.NetworkDevice.{NetworkDevice, ip_v6, SocketAddr}
use rusbmux.Conn.{UsbDeviceConn}
use rusbmux.NetworkDevice.Power.{Attempt}
use rusbmux.Device.{UsbDevice, opened}
use rusbmux.Device.Table.Closing.{rsts}
use rusbmux.Devices
use rusbmux.Devices.{Device, network, usb}
use rusbmux.Watcher.{Connected}
use rusbmux.Watcher.Registry.{IsRegistry, sub-IsRegistry, empty-IsRegistry}
use rusbmux.Watcher.Steps.{Reached, start, Reached-IsRegistry}
use rusbmux.Watcher.Stream
use rusbmux.Watcher.Unordered.{SameEntries, Agree, change, unplugged, change-Agree}
use rusbmux.Watcher.Table.{Table, plug, plug_comm}
use rusbmux.Watcher.Resolve.{ResolvedService, ResolvedDevice, v4, before_at}
use rusbmux.Watcher.Services
use rusbmux.Watcher.Services.{Network, ServiceEvent, resolved, removed, watch_network, receive}
use rusbmux.Watcher.Services.Ids.{last_id, gone, receive-last_id}
use rusbmux.Watcher.Loops.{
  Round, hotplug, service_resolved, network_opened, service_removed, Watching, watch,
}
use rusbmux.Watcher.Loops.Refines.{NotOpening, HasTasks, watch-Reached}
use rusbmux.Handler.{send_result}
use rusbmux.Handler.Connect.Wireless.{handled, EndsAs, handle_connect-socket_addr}
use rusbmux.Daemon.{cleanup}
use rusbmux.Daemon.Cleanup.{HasRoom, ends_of, cleanup-ends_of}
use rusbmux.Tests.Codec.{plain}
use rusbmux.Tests.Watchers.{cable, wifi, both, both-Reached, session}

-- The entries of the table in both orders.
abbrev forwards : Connected
forwards = (4, network wifi) ∷ (3, usb cable) ∷ []

abbrev backwards : Connected
backwards = (3, usb cable) ∷ (4, network wifi) ∷ []

forwards-both : both ≡ forwards
unfolding Watcher.usb_connected Watcher.network_added
forwards-both = refl

same_entries : SameEntries forwards backwards
same_entries k = ground arith

forwards-IsRegistry : IsRegistry forwards
forwards-IsRegistry = rw (← forwards-both) (Reached-IsRegistry plain both both-Reached)

backwards-IsRegistry : IsRegistry backwards
backwards-IsRegistry =
    sub-IsRegistry forwards backwards forwards-IsRegistry (refl, (refl, tt))
      λ j d e. same_entries j ∙ e

change-Agree_example :
    Agree (change plain (unplugged false 3) forwards) (change plain (unplugged false 3) backwards)
change-Agree_example =
    change-Agree plain (unplugged false 3) forwards backwards forwards-IsRegistry
      backwards-IsRegistry same_entries tt

abbrev other_phone : AnyDeviceInfo
other_phone = rusb (record {
  vendor_id = apple_vid;
  product_id = 4776;
  serial = some (b'b' ∷ []);
  speed = none;
  bus = 1;
  address = 8;
  hash_id = 0;
})

abbrev other_cable : UsbDevice
other_cable = opened 5 other_phone (record { major = 2; minor = 0; padding = 0 })

other_serial : Devices.serial_number (usb cable) ≢ Devices.serial_number (usb other_cable)
unfolding Backend.serial_number Backend.trim_matches Utils.get_serial_number
other_serial h = ground arith

abbrev no_devices : Table
no_devices = Quot.mk ([], empty-IsRegistry)

plug_comm_example :
    (plug (usb cable) (plug (usb other_cable) no_devices).0).0
    ≡ (plug (usb other_cable) (plug (usb cable) no_devices).0).0
plug_comm_example = plug_comm (usb cable) (usb other_cable) no_devices (omega arith) other_serial

abbrev decode : List ℕ → Option (List ℕ)
decode tag = some tag

abbrev derive : List ℕ → List ℕ → List ℕ
derive host identifier = host ++ identifier

abbrev service : ResolvedService
service = record {
  addresses = v4 (10 ∷ 0 ∷ 0 ∷ 1 ∷ []) (some 2) ∷ [];
  fullname = b'm' ∷ b'@' ∷ b'x' ∷ [];
  identifier = some (9 ∷ []);
  auth_tags = (1 ∷ 9 ∷ []) ∷ [];
}

abbrev reachable : Network
reachable = record {
  entries = some (
      some (record {
        file_stem = some (b'a' ∷ []);
        pairing_file = some (record { host_id = 1 ∷ []; wifi_mac_address = b'm' ∷ [] });
      })
      ∷ none
      ∷ []);
  pairing_file = λ serial. Error.ok tt;
  connects = λ ip. true;
  assertion = λ ip. Error.ok tt;
}

abbrev services : List ServiceEvent
services = resolved service reachable ∷ resolved service reachable ∷ []

receive-last_id_example :
    (receive decode derive
      (removed service.fullname)
      (watch_network decode derive services (Services.start 5))).items
    ≡ gone
        (last_id
          (before_at service.fullname)
          (watch_network decode derive services (Services.start 5)).items)
        (watch_network decode derive services (Services.start 5)).items
receive-last_id_example = receive-last_id decode derive 5 services service.fullname

-- The cable comes while the task of the service waits for its device.
abbrev rounds : List Round
rounds =
    service_resolved service reachable 5
    ∷ hotplug false (Error.ok (Stream.opened (usb cable) 3))
    ∷ network_opened 5
    ∷ service_removed (b'm' ∷ b'@' ∷ [])
    ∷ hotplug false (Error.ok (Stream.left 3))
    ∷ []

abbrev idle : Watching
idle = record { table = []; opening = [] }

idle-HasTasks : HasTasks idle
idle-HasTasks = record {
  unknown = λ i a h. ground arith;
  distinct = λ i j a b differ h k e. ground arith;
}

nothing_opening : (o : Option (Option ResolvedDevice)) → NotOpening [] o
nothing_opening none = tt
nothing_opening (some none) = tt
nothing_opening (some (some rd)) = λ i a h e. ground arith

watch-Reached_example :
    Reached plain (watch plain decode derive rounds idle).0.table
    × IsRegistry (watch plain decode derive rounds idle).0.table
watch-Reached_example =
    watch-Reached plain decode derive rounds idle start idle-HasTasks
      (nothing_opening _, ((refl, refl), (tt, (tt, (tt, tt)))))

answered :
    send_result session ResultCode.ok 5 []
    ≡ ((send_result session ResultCode.ok 5 []).0, Error.ok tt)
unfolding send_result
answered = refl

-- The device under a link-local address.
abbrev local : NetworkDevice
local = record wifi {
  addr = ip_v6 (254 ∷ 128 ∷ 0 ∷ 0 ∷ 0 ∷ 0 ∷ 0 ∷ 0 ∷ 0 ∷ 0 ∷ 0 ∷ 0 ∷ 0 ∷ 0 ∷ 0 ∷ 1 ∷ []);
}

abbrev local_address : SocketAddr
local_address = record { ip = local.addr; port = 62078; scope = 2 }

abbrev locals : Connected
locals = (4, network local) ∷ []

local_found : get 4 locals ≡ some (network local)
local_found = refl

abbrev usb_connect : ℕ → UsbDevice → List ℕ → List ℕ × Error.Result UsbDeviceConn
usb_connect port d w = (w, err RusbmuxError.usb)

abbrev tcp : SocketAddr → List ℕ → List ℕ × Error.Result SocketAddr
tcp address w = (w, Error.ok address)

abbrev copy : SocketAddr → List ℕ → List ℕ × Option (Error.Result (Unit {0}))
copy stream w = (w, none)

abbrev usb_forward : UsbDeviceConn → List ℕ → List ℕ × Error.Result (Unit {0})
usb_forward c w = (w, Error.ok tt)

handle_connect-socket_addr_example :
    EndsAs session usb_connect tcp copy usb_forward
      (inr local_address)
      (send_result session ResultCode.ok 5 []).0
      (handled session usb_connect tcp copy usb_forward 62078 4 locals 5 [])
handle_connect-socket_addr_example =
    handle_connect-socket_addr session usb_connect tcp copy usb_forward 62078 4 5 locals local
      local_address [] [] (send_result session ResultCode.ok 5 []).0 (inr local_address) local_found
      (refl, refl, refl) refl answered

abbrev attempts : List Attempt
attempts =
    record { until_taken = 2; until_reply = 1; success = true }
    ∷ record { until_taken = 0; until_reply = 0; success = true }
    ∷ []

no_rsts : rsts plain cable.conns ≡ []
unfolding rsts
no_rsts = refl

forwards-HasRoom : All (λ (e : ℕ × Device). HasRoom plain false e.1) forwards
unfolding rsts
forwards-HasRoom = (tt, ((refl, omega arith), tt))

cleanup-ends_of_example :
    cleanup plain (λ id. false) forwards ≡ some (ends_of plain (λ id. false) forwards)
cleanup-ends_of_example = cleanup-ends_of plain (λ id. false) forwards forwards-HasRoom
