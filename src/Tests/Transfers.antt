-- ===== src/Tests/Transfers.antt =====
-- The theorems about the memory of the bulk transfers and about the opening of a device, at small ones.
use rusbmux.Base.{
  ℕ, ◌≡◌, refl, true, false, none, some, List, [], ◌∷◌, arith, take, ◌==◌, if◌then◌else◌,
}
use rusbmux.Base.Map.{get}
use rusbmux.Error
use rusbmux.Backend
use rusbmux.Backend.{AnyDeviceInfo}
use rusbmux.Backend.Descriptors.{Configuration, rusb_endpoints, find_interface, scan_configurations}
use rusbmux.Backend.Descriptors.Agreement.{config_of}
use rusbmux.Backend.Opening.{UsbHandle, rusb, open_as, endpoint, open_rusb, rusb_device_endpoints}
use rusbmux.Backend.Opening.Active.{Keeps, open_as-Configured}
use rusbmux.Backend.Rusb.Memory.{
  Heap, buffer, TransferHandle, alloc_and_submit, drop, bulk_callback,
}
use rusbmux.Backend.Rusb.Memory.Ownership.{IsHeap}
use rusbmux.Backend.Rusb.Memory.Lifetime.{device_writes, alloc_and_submit-drop}

abbrev heap : Heap
heap = record { next = 1; cells = (0, buffer (0 ∷ 0 ∷ 0 ∷ [])) ∷ []; flags = []; cancelled = [] }

heap-IsHeap : IsHeap heap
heap-IsHeap a h = ground arith

alloc_and_submit-drop_example :
    (t : TransferHandle) × (g h' : Heap) × (alloc_and_submit true 0 0 heap ≡ some (Error.ok t, g))
    × (drop t g ≡ some (tt, record g { cancelled = t.transfer_ptr ∷ g.cancelled }))
    × (bulk_callback t.transfer_ptr 0 2 (device_writes 0 (7 ∷ 8 ∷ 9 ∷ []) g)
        ≡ some (record { status = 0; bytes = take 2 (7 ∷ 8 ∷ 9 ∷ []) }, h'))
    × ((a : ℕ) → get a h'.cells ≡ (if 0 == a then none else get a heap.cells))
    × (drop t h' ≡ some (tt, h'))
alloc_and_submit-drop_example =
    alloc_and_submit-drop heap 0 (0 ∷ 0 ∷ 0 ∷ []) (7 ∷ 8 ∷ 9 ∷ []) 0 2 heap-IsHeap refl
      (omega arith)

abbrev configurations : List Configuration
configurations =
    record {
      number = 4;
      interfaces =
          (record {
            interface_number = 1;
            alternate_setting = 0;
            class_code = 255;
            sub_class_code = 254;
            protocol_code = 2;
            endpoints =
                record { is_in = true; is_bulk = true; address = 133; max_packet_size = 512 }
                ∷ record { is_in = false; is_bulk = true; address = 4; max_packet_size = 512 }
                ∷ [];
          }
            ∷ [])
          ∷ [];
    }
    ∷ []

-- The world is the number of the active configuration.
abbrev device : UsbHandle ℕ
device = record {
  open_device = λ w. (w, Error.ok tt);
  configurations = configurations;
  active_configuration = λ w. some w;
  detach_kernel_driver = λ intf w. (w, true);
  set_configuration = λ cfg w. (cfg, Error.ok tt);
  claim_interface = λ intf w. (w, Error.ok tt);
  open_endpoint = λ ep w. (w, Error.ok tt);
}

device-Keeps : Keeps device
device-Keeps = record {
  set_active = λ cfg w w' h. ground arith;
  claim_keeps = λ intf w. refl;
  endpoint_keeps = λ ep w. refl;
}

abbrev listed : AnyDeviceInfo
listed = Backend.rusb (record {
  vendor_id = 0x5ac;
  product_id = 4776;
  serial = none;
  speed = none;
  bus = 1;
  address = 7;
  hash_id = 0;
})

opens : open_as device listed 1 ≡ (4, Error.ok (rusb (133, 4, some 512)))
unfolding open_rusb rusb_device_endpoints rusb_endpoints scan_configurations
opens = refl

has_endpoints : endpoint device (rusb (133, 4, some 512)) 4 ≡ (4, Error.ok (133, 4, some 512))
unfolding endpoint
has_endpoints = refl

open_as-Configured_example :
    (cfg : ℕ) × (config_of (find_interface configurations) ≡ some cfg)
    × (device.active_configuration 4 ≡ some cfg)
open_as-Configured_example =
    open_as-Configured device device-Keeps listed 1 4 4 (rusb (133, 4, some 512)) (133, 4, some 512)
      opens has_endpoints
