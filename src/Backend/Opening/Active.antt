-- ===== src/Backend/Opening/Active.antt =====
-- usb_backend: the configuration that is active once the endpoints of a device are open.
use rusbmux.Base.{
  ℕ, ◌≡◌, refl, sym, ◌∙◌, false, Option, none, some, List, [], ◌∷◌, arith, Bool-cases, inl, inr,
  Option-cases,
}
use rusbmux.Error
use rusbmux.Error.{Result, err, RusbmuxError}
use rusbmux.Backend.Descriptors.Agreement.{config_of, scan_configurations-find_interface}
use rusbmux.Backend.Descriptors.{
  EndpointDescriptor, Found, nothing, is_usbmux, scan_endpoints, scan_interface, scan_interfaces,
  scan_configurations, with_interface, with_endpoints, Configuration, InterfaceDescriptor,
  rusb_endpoints, find_interface, switches, or_else,
}
use rusbmux.Backend
use rusbmux.Backend.{AnyDeviceInfo}
use rusbmux.Backend.Opening
use rusbmux.Backend.Opening.{
  open_as, UsbHandle, Endpoints, AnyDeviceHandle, nusb, rusb, rusb_device_endpoints,
  nusb_device_endpoints, open_rusb, open_nusb, endpoint, rusb_claim, rusb_switch, nusb_switch,
  nusb_claim, nusb_pair, detach_all, active, and_then, alts_of,
}

-- What the crates do to the active configuration.
pub record Keeps {World : Type 0} (u : UsbHandle World) : Type 0 where
  pub set_active :
      (cfg : ℕ) (w w' : World)
      → u.set_configuration cfg w ≡ (w', Error.ok tt)
      → u.active_configuration w' ≡ some cfg
  pub claim_keeps :
      (intf : ℕ) (w : World)
      → u.active_configuration (u.claim_interface intf w).0 ≡ u.active_configuration w
  pub endpoint_keeps :
      (ep : ℕ) (w : World)
      → u.active_configuration (u.open_endpoint ep w).0 ≡ u.active_configuration w

module _ {World : Type 0} (u : UsbHandle World) (k : Keeps u) where
  -- No switch is needed only where the configuration is active already.
  stays_active : (cfg : ℕ) (o : Option ℕ) → switches cfg (or_else o 0) ≡ false → o ≡ some cfg
  stays_active cfg none h = absurd (ground arith)
  stays_active cfg (some c) h = ground arith

  rusb_switch-active :
      (intf cfg : ℕ) (w w' : World)
      → rusb_switch u intf cfg w ≡ (w', Error.ok tt)
      → u.active_configuration w' ≡ some cfg
  rusb_switch-active intf cfg w w' h = elim (Bool-cases (switches cfg (active u w))) [
    | inl change ↦ k.set_active cfg (u.detach_kernel_driver intf w).0 w' (ground arith)
    | inr same ↦
        let still = stays_active cfg (u.active_configuration w) same in ground (arith, still)
  ]

  nusb_switch-active :
      (cfg : ℕ) (w w' : World)
      → nusb_switch u cfg w ≡ (w', Error.ok tt)
      → u.active_configuration w' ≡ some cfg
  nusb_switch-active cfg w w' h = elim (Bool-cases (switches cfg (active u w))) [
    | inl change ↦
        k.set_active cfg (detach_all u (alts_of u cfg u.configurations) w) w' (ground arith)
    | inr same ↦
        let still = stays_active cfg (u.active_configuration w) same in ground (arith, still)
  ]

  -- A run that succeeds has a first part that succeeds.
  and_then-ok :
      {A : Type 0} (r : World × Result (Unit {0})) (next : World → World × Result A) (w' : World)
      (a : A)
      → and_then u r next ≡ (w', Error.ok a)
      → (w1 : World) × (r ≡ (w1, Error.ok tt)) × (next w1 ≡ (w', Error.ok a))
  and_then-ok (w1, Error.ok tt) next w' a h = (w1, refl, h)
  and_then-ok (w1, err e) next w' a h = absurd (ground arith)

  rusb_claim-active :
      (intf cfg end_in end_out size : ℕ) (w w' : World) (ends : Endpoints)
      → rusb_claim u (Error.ok (intf, cfg, end_in, end_out, size)) w ≡ (w', Error.ok ends)
      → u.active_configuration w' ≡ some cfg
  rusb_claim-active intf cfg end_in end_out size w w' ends h =
      let (w1, switched, rest) = and_then-ok (rusb_switch u intf cfg w) _ w' ends h in
      let (w2, claimed, last) = and_then-ok (u.claim_interface intf w1) _ w' ends rest in
      let e = rusb_switch-active intf cfg w w1 switched in ground (arith, k.claim_keeps intf w1)

  nusb_pair-active :
      (out end_in : Option ℕ) (w w' : World) (ends : Endpoints)
      → nusb_pair u out end_in w ≡ (w', Error.ok ends)
      → u.active_configuration w' ≡ u.active_configuration w
  nusb_pair-active none end_in w w' ends h = absurd (ground arith)
  nusb_pair-active (some out) none w w' ends h = absurd (ground arith)
  nusb_pair-active (some out) (some end_in) w w' ends h =
      let (w1, first, rest) = and_then-ok (u.open_endpoint end_in w) _ w' ends h in
      let (w2, second, last) = and_then-ok (u.open_endpoint out w1) _ w' ends rest in
      ground (arith, k.endpoint_keeps end_in w, k.endpoint_keeps out w1)

  nusb_claim-active :
      (i : InterfaceDescriptor) (cfg : ℕ) (w w' : World) (ends : Endpoints)
      → nusb_claim u (some (i, cfg)) w ≡ (w', Error.ok ends)
      → u.active_configuration w' ≡ some cfg
  nusb_claim-active i cfg w w' ends h =
      let (w1, switched, rest) = and_then-ok (nusb_switch u cfg w) _ w' ends h in
      let (w2, claimed, last) =
        and_then-ok (u.claim_interface i.interface_number w1) _ w' ends rest in
      let e = nusb_switch-active cfg w w1 switched in
      let kept = nusb_pair-active _ _ w2 w' ends last in
      ground (arith, k.claim_keeps i.interface_number w1)

-- rusb notes the interface and its configuration together.
abbrev Together : Found → Type 0
Together f = f.found_cfg_num ≡ none → f.found_intf ≡ none

scan_endpoints-Together :
    (eps : List EndpointDescriptor) (f : Found) → Together f → Together (scan_endpoints eps f)
scan_endpoints-Together [] f h = h
scan_endpoints-Together (ep ∷ eps) f h = elim (Bool-cases ep.is_in) [
  | inl e ↦ rw e (scan_endpoints-Together eps (record f { in_addr = some ep.address }) h)
  | inr e ↦ rw e (
      scan_endpoints-Together eps
        (record f { out_addr = some ep.address; out_max_packet_size = some ep.max_packet_size }) h)
]

scan_interface-Together :
    (n : ℕ) (alts : List InterfaceDescriptor) (f : Found)
    → Together f
    → Together (scan_interface n alts f)
scan_interface-Together n [] f h = h
scan_interface-Together n (alt ∷ alts) f h = elim (Bool-cases (is_usbmux alt)) [
  | inl e ↦ rw e (
      scan_endpoints-Together alt.endpoints
        (record f { found_intf = some alt.interface_number; found_cfg_num = some n })
        (λ no_cfg. absurd (cc)))
  | inr e ↦ rw e (scan_interface-Together n alts f h)
]

scan_interfaces-Together :
    (n : ℕ) (is : List (List InterfaceDescriptor)) (f : Found)
    → Together f
    → Together (scan_interfaces n is f)
scan_interfaces-Together n [] f h = h
scan_interfaces-Together n (i ∷ is) f h =
    scan_interfaces-Together n is (scan_interface n i f) (scan_interface-Together n i f h)

scan_configurations-Together :
    (cs : List Configuration) (f : Found) → Together f → Together (scan_configurations cs f)
unfolding scan_configurations
scan_configurations-Together [] f h = h
scan_configurations-Together (c ∷ cs) f h =
    scan_configurations-Together cs (scan_interfaces c.number c.interfaces f)
      (scan_interfaces-Together c.number c.interfaces f h)

chosen :
    (f : Found) (intf intf' cfg end_in end_out size : ℕ) (a b : Option ℕ)
    → Together f
    → f.found_intf ≡ some intf
    → with_endpoints intf f a b ≡ Error.ok (intf', cfg, end_in, end_out, size)
    → f.found_cfg_num ≡ some cfg
chosen f intf intf' cfg end_in end_out size none b t eq h = absurd (ground arith)
chosen f intf intf' cfg end_in end_out size (some a) none t eq h = absurd (ground arith)
chosen f intf intf' cfg end_in end_out size (some a) (some b) t eq h =
    elim (Option-cases f.found_cfg_num) [ inl e ↦ absurd (cc (t e)) | inr (c, e) ↦ ground arith ]

chosen_by :
    (f : Found) (intf cfg end_in end_out size : ℕ) (o : Option ℕ)
    → Together f
    → f.found_intf ≡ o
    → with_interface f o ≡ Error.ok (intf, cfg, end_in, end_out, size)
    → f.found_cfg_num ≡ some cfg
chosen_by f intf cfg end_in end_out size none t eq h = absurd (ground arith)
chosen_by f intf cfg end_in end_out size (some i) t eq h =
    chosen f i intf cfg end_in end_out size f.in_addr f.out_addr t eq h

-- The configuration that rusb chooses is that of the last interface that fits.
rusb_endpoints-config :
    (cs : List Configuration) (intf cfg end_in end_out size : ℕ)
    → rusb_endpoints cs ≡ Error.ok (intf, cfg, end_in, end_out, size)
    → config_of (find_interface cs) ≡ some cfg
unfolding rusb_endpoints
rusb_endpoints-config cs intf cfg end_in end_out size h =
    let f = scan_configurations cs nothing in
    sym (scan_configurations-find_interface cs)
    ∙ chosen_by f intf cfg end_in end_out size f.found_intf
        (scan_configurations-Together cs nothing (λ e. refl)) refl h

module _ {World : Type 0} (u : UsbHandle World) (k : Keeps u) where
  abbrev Configured : World → Type 0
  Configured w =
      (cfg : ℕ) × (config_of (find_interface u.configurations) ≡ some cfg)
      × (u.active_configuration w ≡ some cfg)

  claimed_rusb :
      (o : Result (ℕ × ℕ × ℕ × ℕ × ℕ)) (w w' : World) (ends : Endpoints)
      → rusb_endpoints u.configurations ≡ o
      → rusb_claim u o w ≡ (w', Error.ok ends)
      → Configured w'
  claimed_rusb (err e) w w' ends eq h = absurd (ground arith)
  claimed_rusb (Error.ok (intf, cfg, end_in, end_out, size)) w w' ends eq h = (
    cfg,
    rusb_endpoints-config u.configurations intf cfg end_in end_out size eq,
    rusb_claim-active u k intf cfg end_in end_out size w w' ends h,
  )

  claimed_nusb :
      (o : Option (InterfaceDescriptor × ℕ)) (w w' : World) (ends : Endpoints)
      → find_interface u.configurations ≡ o
      → nusb_claim u o w ≡ (w', Error.ok ends)
      → Configured w'
  claimed_nusb none w w' ends eq h = absurd (ground arith)
  claimed_nusb (some (i, cfg)) w w' ends eq h =
      (cfg, rw eq refl, nusb_claim-active u k i cfg w w' ends h)

  rusb_opened :
      (r : World × Result Endpoints) (w1 w2 : World) (handle : AnyDeviceHandle) (ends : Endpoints)
      → Opening.with_endpoints u r ≡ (w1, Error.ok handle)
      → endpoint u handle w1 ≡ (w2, Error.ok ends)
      → r ≡ (w2, Error.ok ends)
  unfolding endpoint
  rusb_opened (w, err e) w1 w2 handle ends h j = absurd (ground arith)
  rusb_opened (w, Error.ok found) w1 w2 nusb ends h j = absurd (ground arith)
  rusb_opened (w, Error.ok found) w1 w2 (rusb e) ends h j = ground arith

  nusb_opened :
      (w0 w1 w2 : World) (handle : AnyDeviceHandle) (ends : Endpoints)
      → ◌≡◌ {A = World × Result AnyDeviceHandle} (w0, Error.ok nusb) (w1, Error.ok handle)
      → endpoint u handle w1 ≡ (w2, Error.ok ends)
      → nusb_device_endpoints u w0 ≡ (w2, Error.ok ends)
  unfolding endpoint
  nusb_opened w0 w1 w2 nusb ends h j = ground arith
  nusb_opened w0 w1 w2 (rusb e) ends h j = absurd (ground arith)

  -- Once a device is open and its endpoints are, whichever crate listed it, the configuration that is
  -- active is that of the last interface of the device that speaks usbmux. This rests on a
  -- configuration being active once it is set, and on the claims not changing it.
  pub open_as-Configured :
      (d : AnyDeviceInfo) (w w1 w2 : World) (handle : AnyDeviceHandle) (ends : Endpoints)
      → open_as u d w ≡ (w1, Error.ok handle)
      → endpoint u handle w1 ≡ (w2, Error.ok ends)
      → Configured w2
  unfolding open_rusb open_nusb rusb_device_endpoints nusb_device_endpoints
  open_as-Configured (Backend.rusb i) w w1 w2 handle ends h j =
      let (w0, opened, rest) = and_then-ok u k (u.open_device w) _ w1 handle h in
      claimed_rusb (rusb_endpoints u.configurations) w0 w2 ends refl
        (rusb_opened (rusb_device_endpoints u w0) w1 w2 handle ends rest j)
  open_as-Configured (Backend.nusb i) w w1 w2 handle ends h j =
      let (w0, opened, rest) = and_then-ok u k (u.open_device w) _ w1 handle h in
      claimed_nusb (find_interface u.configurations) w0 w2 ends refl
        (nusb_opened w0 w1 w2 handle ends rest j)
