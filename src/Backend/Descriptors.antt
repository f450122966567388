-- ===== src/Backend/Descriptors.antt =====
-- usb_backend/rusb.rs and usb_backend/nusb.rs: `device_endpoints`, the search of the usbmux interface among
-- the descriptors of a device. The descriptors are an argument; a configuration that cannot be read ends the call of rusb with its error.
pub mod Agreement
use rusbmux.Base.{
  ℕ, Bool, true, false, ◌&&◌, ◌||◌, not, Option, none, some, List, [], ◌∷◌, ◌++◌, ◌==◌,
  if◌then◌else◌,
}
use rusbmux.Error
use rusbmux.Error.{
  Result, err, RusbmuxError, usbmux_interface_not_found, bulk_in_endpoint_not_found,
  bulk_out_endpoint_not_found,
}

abbrev pub apple_usbmux_class : ℕ
apple_usbmux_class = 255

abbrev pub apple_usbmux_subclass : ℕ
apple_usbmux_subclass = 254

abbrev pub apple_usbmux_protocol : ℕ
apple_usbmux_protocol = 2

pub record EndpointDescriptor : Type 0 where
  pub is_in : Bool
  pub is_bulk : Bool
  pub address : ℕ
  pub max_packet_size : ℕ

-- One alternate setting of an interface.
pub record InterfaceDescriptor : Type 0 where
  pub interface_number : ℕ
  pub alternate_setting : ℕ
  pub class_code : ℕ
  pub sub_class_code : ℕ
  pub protocol_code : ℕ
  pub endpoints : List EndpointDescriptor

pub record Configuration : Type 0 where
  pub number : ℕ
  pub interfaces : List (List InterfaceDescriptor)

abbrev pub is_usbmux : InterfaceDescriptor → Bool
is_usbmux i =
    (i.class_code == apple_usbmux_class)
    && ((i.sub_class_code == apple_usbmux_subclass) && (i.protocol_code == apple_usbmux_protocol))

-- rusb: what the loops have found; a later find takes the place of an earlier one.
pub record Found : Type 0 where
  pub found_intf : Option ℕ
  pub found_cfg_num : Option ℕ
  pub in_addr : Option ℕ
  pub out_addr : Option ℕ
  pub out_max_packet_size : Option ℕ

abbrev pub nothing : Found
nothing = record {
  found_intf = none;
  found_cfg_num = none;
  in_addr = none;
  out_addr = none;
  out_max_packet_size = none;
}

abbrev pub scan_endpoints : List EndpointDescriptor → Found → Found
scan_endpoints [] f = f
scan_endpoints (ep ∷ eps) f = scan_endpoints eps (
    if ep.is_in
    then record f { in_addr = some ep.address }
    else record f { out_addr = some ep.address; out_max_packet_size = some ep.max_packet_size })

-- The first alternate setting that fits ends the loop over the interface.
abbrev pub scan_interface : ℕ → List InterfaceDescriptor → Found → Found
scan_interface number [] f = f
scan_interface number (alt ∷ alts) f =
    let rest = scan_interface number alts f in
    if is_usbmux alt
    then scan_endpoints alt.endpoints
        (record f { found_intf = some alt.interface_number; found_cfg_num = some number })
    else rest

abbrev pub scan_interfaces : ℕ → List (List InterfaceDescriptor) → Found → Found
scan_interfaces number [] f = f
scan_interfaces number (i ∷ is) f = scan_interfaces number is (scan_interface number i f)

unfoldable pub scan_configurations : List Configuration → Found → Found
scan_configurations [] f = f
scan_configurations (c ∷ cs) f = scan_configurations cs (scan_interfaces c.number c.interfaces f)

abbrev pub or_else {ℓ} : {A : Type ℓ} → Option A → A → A
or_else none a = a
or_else (some b) a = b

-- The interface, the configuration, the two endpoints and the packet size, or the first error.
abbrev pub with_endpoints : ℕ → Found → Option ℕ → Option ℕ → Result (ℕ × ℕ × ℕ × ℕ × ℕ)
with_endpoints intf f none out = err bulk_in_endpoint_not_found
with_endpoints intf f (some end_in) none = err bulk_out_endpoint_not_found
with_endpoints intf f (some end_in) (some end_out) =
    Error.ok (intf, or_else f.found_cfg_num 1, end_in, end_out, or_else f.out_max_packet_size 512)

abbrev pub with_interface : Found → Option ℕ → Result (ℕ × ℕ × ℕ × ℕ × ℕ)
with_interface f none = err usbmux_interface_not_found
with_interface f (some intf) = with_endpoints intf f f.in_addr f.out_addr

unfoldable pub rusb_endpoints : List Configuration → Result (ℕ × ℕ × ℕ × ℕ × ℕ)
unfolding scan_configurations
rusb_endpoints cs = let f = scan_configurations cs nothing in with_interface f f.found_intf

-- Both: whether the configuration is switched; 0 stands for no active one.
abbrev pub switches : ℕ → ℕ → Bool
switches cfg_num active = not (cfg_num == active) || (active == 0)

-- nusb: the first alternate setting that fits of the last configuration that has one.
abbrev pub all_alts : List (List InterfaceDescriptor) → List InterfaceDescriptor
all_alts [] = []
all_alts (i ∷ is) = i ++ all_alts is

abbrev pub find_usbmux : ℕ → List InterfaceDescriptor → Option (InterfaceDescriptor × ℕ)
find_usbmux number [] = none
find_usbmux number (alt ∷ alts) =
    let rest = find_usbmux number alts in if is_usbmux alt then some (alt, number) else rest

abbrev pub find_map {ℓ κ} : {A : Type ℓ} {B : Type κ} → (A → Option B) → List A → Option B
find_map f [] = none
find_map f (a ∷ as') = elim (f a) [ none ↦ find_map f as' | some b ↦ some b ]

abbrev pub rev {ℓ} : {A : Type ℓ} → List A → List A
rev [] = []
rev (a ∷ as') = rev as' ++ a ∷ []

unfoldable pub find_interface : List Configuration → Option (InterfaceDescriptor × ℕ)
find_interface cs = find_map (λ c. find_usbmux c.number (all_alts c.interfaces)) (rev cs)

abbrev pub find_endpoint : Bool → List EndpointDescriptor → Option ℕ
find_endpoint is_in [] = none
find_endpoint true (ep ∷ eps) =
    let rest = find_endpoint true eps in if ep.is_in && ep.is_bulk then some ep.address else rest
find_endpoint false (ep ∷ eps) =
    let rest = find_endpoint false eps in
    if not ep.is_in && ep.is_bulk then some ep.address else rest

abbrev pub nusb_ends : InterfaceDescriptor → ℕ → Option ℕ → Option ℕ → Result (ℕ × ℕ × ℕ × ℕ)
nusb_ends i cfg none end_in = err bulk_out_endpoint_not_found
nusb_ends i cfg (some end_out) none = err bulk_in_endpoint_not_found
nusb_ends i cfg (some end_out) (some end_in) = Error.ok (i.interface_number, cfg, end_in, end_out)

abbrev pub nusb_found : Option (InterfaceDescriptor × ℕ) → Result (ℕ × ℕ × ℕ × ℕ)
nusb_found none = err usbmux_interface_not_found
nusb_found (some (i, cfg)) =
    nusb_ends i cfg (find_endpoint false i.endpoints) (find_endpoint true i.endpoints)

unfoldable pub nusb_endpoints : List Configuration → Result (ℕ × ℕ × ℕ × ℕ)
unfolding find_interface
nusb_endpoints cs = nusb_found (find_interface cs)
