-- ===== src/Backend/Opening.antt =====
-- usb_backend/mod.rs: `open` and `endpoint` of a device, and the halves of the two `device_endpoints` that
-- change the device: its configuration is switched and the interface claimed. The calls of the crates are
-- functions on a type of worlds, for the device that is opened.
pub mod Active
use rusbmux.Base.{ℕ, Bool, true, false, Option, none, some, List, [], ◌∷◌, ◌==◌, if◌then◌else◌}
use rusbmux.Error
use rusbmux.Error.{
  Result, err, RusbmuxError, usbmux_interface_not_found, bulk_in_endpoint_not_found,
  bulk_out_endpoint_not_found,
}
use rusbmux.Backend
use rusbmux.Backend.{AnyDeviceInfo}
use rusbmux.Backend.Descriptors.{
  Configuration, InterfaceDescriptor, rusb_endpoints, find_interface, find_endpoint, switches,
  all_alts, or_else,
}

pub record UsbHandle (World : Type 0) : Type 0 where
  pub open_device : World → World × Result (Unit {0})
  pub configurations : List Configuration
  pub active_configuration : World → Option ℕ
  -- Whether the driver was detached.
  pub detach_kernel_driver : ℕ → World → World × Bool
  pub set_configuration : ℕ → World → World × Result (Unit {0})
  pub claim_interface : ℕ → World → World × Result (Unit {0})
  -- nusb: the endpoint of a claimed interface.
  pub open_endpoint : ℕ → World → World × Result (Unit {0})

-- The endpoints in and out, and the packet size where it is known.
abbrev pub Endpoints : Type 0
Endpoints = ℕ × ℕ × Option ℕ

-- `AnyDeviceHandle`
pub data AnyDeviceHandle : Type 0 where
  nusb : AnyDeviceHandle
  rusb : Endpoints → AnyDeviceHandle

module _ {World : Type 0} (u : UsbHandle World) where
  abbrev pub and_then :
      {A : Type 0} → World × Result (Unit {0}) → (World → World × Result A) → World × Result A
  and_then (w, Error.ok t) k = k w
  and_then (w, err e) k = (w, err e)

  abbrev pub active : World → ℕ
  active w = or_else (u.active_configuration w) 0

  -- rusb: a driver that cannot be detached is passed over.
  abbrev pub rusb_switch : ℕ → ℕ → World → World × Result (Unit {0})
  rusb_switch intf cfg w =
      if switches cfg (active w)
      then u.set_configuration cfg (u.detach_kernel_driver intf w).0
      else (w, Error.ok tt)

  abbrev pub rusb_claim : Result (ℕ × ℕ × ℕ × ℕ × ℕ) → World → World × Result Endpoints
  rusb_claim (err e) w = (w, err e)
  rusb_claim (Error.ok (intf, cfg, end_in, end_out, max_packet_size)) w =
      and_then (rusb_switch intf cfg w) λ w1.
        and_then (u.claim_interface intf w1)
          λ w2. (w2, Error.ok (end_in, end_out, some max_packet_size))

  unfoldable pub rusb_device_endpoints : World → World × Result Endpoints
  rusb_device_endpoints w = rusb_claim (rusb_endpoints u.configurations) w

  -- nusb: the drivers of all interfaces of the configuration are detached, once for each.
  abbrev pub detach_all : List InterfaceDescriptor → World → World
  detach_all [] w = w
  detach_all (alt ∷ alts) w =
      detach_all alts (
        if alt.alternate_setting == 0 then (u.detach_kernel_driver alt.interface_number w).0 else w)

  abbrev pub alts_of : ℕ → List Configuration → List InterfaceDescriptor
  alts_of cfg [] = []
  alts_of cfg (c ∷ cs) =
      let rest = alts_of cfg cs in if c.number == cfg then all_alts c.interfaces else rest

  abbrev pub nusb_switch : ℕ → World → World × Result (Unit {0})
  nusb_switch cfg w =
      if switches cfg (active w)
      then u.set_configuration cfg (detach_all (alts_of cfg u.configurations) w)
      else (w, Error.ok tt)

  abbrev pub nusb_pair : Option ℕ → Option ℕ → World → World × Result Endpoints
  nusb_pair none end_in w = (w, err bulk_out_endpoint_not_found)
  nusb_pair (some end_out) none w = (w, err bulk_in_endpoint_not_found)
  nusb_pair (some end_out) (some end_in) w =
      and_then (u.open_endpoint end_in w)
        λ w1. and_then (u.open_endpoint end_out w1) λ w2. (w2, Error.ok (end_in, end_out, none))

  abbrev pub nusb_claim : Option (InterfaceDescriptor × ℕ) → World → World × Result Endpoints
  nusb_claim none w = (w, err usbmux_interface_not_found)
  nusb_claim (some (i, cfg)) w = and_then (nusb_switch cfg w) λ w1.
      and_then (u.claim_interface i.interface_number w1)
        (nusb_pair (find_endpoint false i.endpoints) (find_endpoint true i.endpoints))

  unfoldable pub nusb_device_endpoints : World → World × Result Endpoints
  nusb_device_endpoints w = nusb_claim (find_interface u.configurations) w

  -- `open`, on a device that nusb or rusb has listed.
  abbrev pub with_endpoints : World × Result Endpoints → World × Result AnyDeviceHandle
  with_endpoints (w, Error.ok ends) = (w, Error.ok (rusb ends))
  with_endpoints (w, err e) = (w, err e)

  unfoldable pub open_rusb : World → World × Result AnyDeviceHandle
  unfolding rusb_device_endpoints
  open_rusb w = and_then (u.open_device w) λ w1. with_endpoints (rusb_device_endpoints w1)

  unfoldable pub open_nusb : World → World × Result AnyDeviceHandle
  open_nusb w = and_then (u.open_device w) λ w1. (w1, Error.ok nusb)

  unfoldable pub endpoint : AnyDeviceHandle → World → World × Result Endpoints
  unfolding nusb_device_endpoints
  endpoint nusb w = nusb_device_endpoints w
  endpoint (rusb ends) w = (w, Error.ok ends)

  -- The device as the crate that listed it opens it.
  abbrev pub open_as : AnyDeviceInfo → World → World × Result AnyDeviceHandle
  open_as (Backend.nusb i) w = open_nusb w
  open_as (Backend.rusb i) w = open_rusb w
