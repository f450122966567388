-- ===== src/Backend/Descriptors/Agreement.antt =====
-- The two searches of the usbmux interface against each other.
use rusbmux.Base.{
  ℕ, ◌≡◌, refl, sym, ap, ◌∙◌, Option, none, some, List, [], ◌∷◌, ◌++◌, Bool-cases, Option-cases,
  inl, inr,
}
use rusbmux.Backend.Descriptors.{
  EndpointDescriptor, InterfaceDescriptor, Configuration, is_usbmux, Found, nothing, scan_endpoints,
  scan_interface, scan_interfaces, scan_configurations, all_alts, find_usbmux, find_map, rev,
  find_interface,
}

-- The configuration that a search has found.
abbrev pub config_of : Option (InterfaceDescriptor × ℕ) → Option ℕ
config_of none = none
config_of (some (i, cfg)) = some cfg

abbrev pub first_of : Option ℕ → Option ℕ → Option ℕ
first_of none b = b
first_of (some a) b = some a

scan_endpoints-cfg :
    (eps : List EndpointDescriptor) (f : Found)
    → (scan_endpoints eps f).found_cfg_num ≡ f.found_cfg_num
scan_endpoints-cfg [] f = refl
scan_endpoints-cfg (ep ∷ eps) f = elim (Bool-cases ep.is_in) [
  | inl e ↦ rw e (scan_endpoints-cfg eps (record f { in_addr = some ep.address }))
  | inr e ↦ rw e (
      scan_endpoints-cfg eps
        (record f { out_addr = some ep.address; out_max_packet_size = some ep.max_packet_size }))
]

scan_interface-cfg :
    (n : ℕ) (alts : List InterfaceDescriptor) (f : Found)
    → (scan_interface n alts f).found_cfg_num
      ≡ first_of (config_of (find_usbmux n alts)) f.found_cfg_num
scan_interface-cfg n [] f = refl
scan_interface-cfg n (alt ∷ alts) f = elim (Bool-cases (is_usbmux alt)) [
  | inl e ↦ rw e (
      scan_endpoints-cfg alt.endpoints
        (record f { found_intf = some alt.interface_number; found_cfg_num = some n }))
  | inr e ↦ rw e (scan_interface-cfg n alts f)
]

-- A find in a configuration has its number.
found_number :
    (n : ℕ) (alts : List InterfaceDescriptor)
    → first_of (config_of (find_usbmux n alts)) (some n) ≡ some n
found_number n [] = refl
found_number n (alt ∷ alts) = elim (Bool-cases (is_usbmux alt)) [
  | inl e ↦ rw e refl
  | inr e ↦ rw e (found_number n alts)
]

find_usbmux-append :
    (n : ℕ) (as' bs : List InterfaceDescriptor) (o : Option ℕ)
    → first_of (config_of (find_usbmux n (as' ++ bs))) o
      ≡ first_of (config_of (find_usbmux n bs)) (first_of (config_of (find_usbmux n as')) o)
find_usbmux-append n [] bs o = refl
find_usbmux-append n (a ∷ as') bs o = elim (Bool-cases (is_usbmux a)) [
  | inl e ↦ rw e (sym (found_number n bs))
  | inr e ↦ rw e (find_usbmux-append n as' bs o)
]

scan_interfaces-cfg :
    (n : ℕ) (is : List (List InterfaceDescriptor)) (f : Found)
    → (scan_interfaces n is f).found_cfg_num
      ≡ first_of (config_of (find_usbmux n (all_alts is))) f.found_cfg_num
scan_interfaces-cfg n [] f = refl
scan_interfaces-cfg n (i ∷ is) f =
    scan_interfaces-cfg n is (scan_interface n i f)
    ∙ ap (first_of (config_of (find_usbmux n (all_alts is)))) (scan_interface-cfg n i f)
    ∙ sym (find_usbmux-append n i (all_alts is) f.found_cfg_num)

abbrev search : Configuration → Option (InterfaceDescriptor × ℕ)
search c = find_usbmux c.number (all_alts c.interfaces)

find_map-append :
    (as' bs : List Configuration) (o : Option ℕ)
    → first_of (config_of (find_map search (as' ++ bs))) o
      ≡ first_of (config_of (find_map search as')) (first_of (config_of (find_map search bs)) o)
find_map-append [] bs o = refl
find_map-append (a ∷ as') bs o = elim (Option-cases (search a)) [
  | inl e ↦ rw (e, first_of) (find_map-append as' bs o)
  | inr (found, e) ↦ rw (e, first_of) refl
]

find_map-single :
    (c : Configuration) (o : Option ℕ)
    → first_of (config_of (find_map search (c ∷ []))) o ≡ first_of (config_of (search c)) o
find_map-single c o = elim (Option-cases (search c)) [
  | inl e ↦ rw (e, first_of) refl
  | inr (found, e) ↦ rw (e, first_of) refl
]

first_of-none : (o : Option ℕ) → first_of o none ≡ o
first_of-none none = refl
first_of-none (some a) = refl

scan_configurations-cfg :
    (cs : List Configuration) (f : Found)
    → (scan_configurations cs f).found_cfg_num
      ≡ first_of (config_of (find_interface cs)) f.found_cfg_num
unfolding scan_configurations find_interface
scan_configurations-cfg [] f = refl
scan_configurations-cfg (c ∷ cs) f =
    scan_configurations-cfg cs (scan_interfaces c.number c.interfaces f)
    ∙ ap (first_of (config_of (find_map search (rev cs))))
        (scan_interfaces-cfg c.number c.interfaces f)
    ∙ ap (first_of (config_of (find_map search (rev cs)))) (sym (find_map-single c f.found_cfg_num))
    ∙ sym (find_map-append (rev cs) (c ∷ []) f.found_cfg_num)

-- Both backends choose the same configuration, and find none on the same devices: rusb, which goes through all of them
-- and keeps the last find, and nusb, which goes from the last one up and stops at the first.
pub scan_configurations-find_interface :
    (cs : List Configuration)
    → (scan_configurations cs nothing).found_cfg_num ≡ config_of (find_interface cs)
scan_configurations-find_interface cs =
    scan_configurations-cfg cs nothing ∙ first_of-none (config_of (find_interface cs))
