-- ===== src/Tests/Backends.antt =====
-- The theorems about the USB backends and the network devices, at small inputs.
use rusbmux.Base.{
  ℕ, zero, suc, ap, ◌≡◌, refl, true, false, none, some, Option, List, [], ◌∷◌, ◌++◌, length, arith,
}
use rusbmux.Backend.{DeviceInfo, apple_vid}
use rusbmux.Backend.Rusb.{in_flight, completed}
use rusbmux.Backend.Rusb.Reader
use rusbmux.Backend.Rusb.Reader.{RusbAsyncReader}
use rusbmux.Backend.Rusb.Reader.Stream.{Polls, unread, run, transferred, run-poll_read}
use rusbmux.Backend.Rusb.Writer
use rusbmux.Backend.Rusb.Writer.{RusbAsyncWriter, submit_end}
use rusbmux.Backend.Rusb.Writer.Transfers.{write_each, framed, joined, submit_end-write_each}
use rusbmux.Backend.Rusb.Polling
use rusbmux.Backend.Rusb.Polling.{Listing, next}
use rusbmux.Backend.Rusb.Polling.Changes.{Taken, Reports, next-IsPolled, new-IsPolled}
use rusbmux.Backend.Hotplug.{UsbEvent, arrived, left, watch_rusb}
use rusbmux.Backend.Hotplug.Live.{IsLive, replay, watch_all, start, watch_rusb-IsLive}
use rusbmux.Backend.Descriptors.{Configuration, scan_configurations, find_interface, nothing}
use rusbmux.Backend.Descriptors.Agreement.{config_of, scan_configurations-find_interface}
use rusbmux.NetworkDevice.{ip_v4, ip_v6}
use rusbmux.NetworkDevice.Attached.{network_address, read_sockaddr, read_sockaddr-network_address}
use rusbmux.NetworkDevice.Heartbeat.{Beat}
use rusbmux.Watcher.Resolve.{ResolvedService, ResolvedDevice, Saved, v4, before_at, resolve_service}
use rusbmux.Watcher.Resolve.Found.{HasFile, fits_service, resolve_service-HasFile}

-- A transfer of three bytes into a buffer with room for two, and then the rest.
abbrev polls : Polls
polls = (true, in_flight, 2) ∷ (true, completed 0 (7 ∷ 8 ∷ 9 ∷ []), 2) ∷ (true, in_flight, 2) ∷ []

run-poll_read_example :
    (run polls Reader.new).0 ++ unread (run polls Reader.new).1
    ≡ unread Reader.new ++ transferred polls Reader.new
run-poll_read_example = run-poll_read polls Reader.new

-- Two writes of two bytes, on an endpoint with packets of four.
abbrev writer : RusbAsyncWriter
writer = Writer.new 4

abbrev bufs : List (List ℕ)
bufs = (1 ∷ 2 ∷ []) ∷ (3 ∷ 4 ∷ []) ∷ []

submit_end-write_each_example :
    submit_end (true, true) (write_each bufs writer)
    ≡ (record writer { transfers = [] ++ framed 4 (joined bufs) }, true)
submit_end-write_each_example = submit_end-write_each bufs writer (refl, refl, refl) (omega arith)

abbrev phone : DeviceInfo
phone = record {
  vendor_id = apple_vid;
  product_id = 4776;
  serial = none;
  speed = none;
  bus = 1;
  address = 7;
  hash_id = 0;
}

abbrev listings : List (Option Listing)
listings = none ∷ some ((phone, true) ∷ []) ∷ []

next-IsPolled_example :
    Taken (λ i. false) (next listings Polling.new)
    × Reports (λ i. false) (λ i. false) listings (next listings Polling.new)
next-IsPolled_example = next-IsPolled listings Polling.new (λ i. false) new-IsPolled

abbrev events : List UsbEvent
events = arrived phone ∷ left phone ∷ arrived phone ∷ []

watch_rusb-IsLive_example :
    IsLive
      (replay (watch_all watch_rusb events (start 5)).1 λ i. false)
      (watch_all watch_rusb events (start 5)).0
watch_rusb-IsLive_example = watch_rusb-IsLive events 5 (omega arith)

abbrev configurations : List Configuration
configurations =
    record {
      number = 1;
      interfaces =
          (record {
            interface_number = 0;
            alternate_setting = 0;
            class_code = 255;
            sub_class_code = 254;
            protocol_code = 2;
            endpoints = [];
          }
            ∷ [])
          ∷ [];
    }
    ∷ record {
      number = 4;
      interfaces =
          (record {
            interface_number = 1;
            alternate_setting = 0;
            class_code = 255;
            sub_class_code = 254;
            protocol_code = 2;
            endpoints = [];
          }
            ∷ [])
          ∷ [];
    }
    ∷ []

scan_configurations-find_interface_example :
    (scan_configurations configurations nothing).found_cfg_num
    ≡ config_of (find_interface configurations)
scan_configurations-find_interface_example = scan_configurations-find_interface configurations

abbrev octets : List ℕ
octets = 254 ∷ 128 ∷ 0 ∷ 0 ∷ 0 ∷ 0 ∷ 0 ∷ 0 ∷ 1 ∷ 2 ∷ 3 ∷ 4 ∷ 5 ∷ 6 ∷ 7 ∷ 8 ∷ []

read_sockaddr-network_address_example :
    read_sockaddr 2 10 (network_address 2 10 (ip_v6 octets) (some 3)) ≡ some (ip_v6 octets, some 3)
read_sockaddr-network_address_example =
    read_sockaddr-network_address 2 10 (ip_v6 octets) (some 3) (omega arith) (omega arith)
      (omega arith) (omega arith) refl

abbrev beats : List Beat
beats = (some 10, false) ∷ (some 10, true) ∷ []

abbrev decode : List ℕ → Option (List ℕ)
decode tag = some tag

abbrev derive : List ℕ → List ℕ → List ℕ
derive host identifier = host ++ identifier

abbrev service : ResolvedService
service = record {
  addresses = v4 (10 ∷ 0 ∷ 0 ∷ 1 ∷ []) (some 2) ∷ [];
  fullname = b'm' ∷ b'@' ∷ b'x' ∷ [];
  identifier = some (9 ∷ []);
  auth_tags = (1 ∷ 9 ∷ []) ∷ [];
}

abbrev files : Saved
files = (b'a' ∷ [], record { host_id = 1 ∷ []; wifi_mac_address = [] }) ∷ []

abbrev resolved : ResolvedDevice
resolved = record {
  primary = ip_v4 (10 ∷ 0 ∷ 0 ∷ 1 ∷ []);
  secondary = none;
  scope_id = 2;
  mac_address = b'm' ∷ [];
  service_name = service.fullname;
  udid = b'a' ∷ [];
}

service_resolves : resolve_service decode derive files service ≡ some (some resolved)
unfolding resolve_service
service_resolves = refl

resolve_service-HasFile_example :
    (HasFile
      (fits_service decode derive files resolved.mac_address service.identifier service.auth_tags)
      resolved.udid
      files)
    × (resolved.mac_address ≡ before_at service.fullname)
resolve_service-HasFile_example =
    resolve_service-HasFile decode derive files service resolved service_resolves

-- A write of so many bytes.
filler : ℕ → List ℕ
filler zero = []
filler (suc n) = 0 ∷ filler n

length-filler : (n : ℕ) → length (filler n) ≡ n
unfolding filler
length-filler zero = refl
length-filler (suc n) = ap suc (length-filler n)
