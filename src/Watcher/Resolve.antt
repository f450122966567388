-- ===== src/Watcher/Resolve.antt =====
-- watcher/network.rs: `resolve_service`, which makes of a service that mDNS has resolved the device to connect to.
pub mod Found
use rusbmux.Base.{
  ℕ, ◌==◌, ◌&&◌, ◌||◌, Bool, true, false, Option, none, some, List, [], ◌∷◌, length, if◌then◌else◌,
}
use rusbmux.NetworkDevice.{IpAddr, ip_v4, ip_v6}
use rusbmux.Watcher.{same}

-- An address of the service, with the index of its interface where one is known.
pub data ScopedIp : Type 0 where
  v4 : List ℕ → Option ℕ → ScopedIp
  v6 : List ℕ → ℕ → ScopedIp

-- What is read of the service: its addresses in their order, its full name, the value of `identifier`, and the tags of
-- the keys `authTag` and `authTag#...`.
pub record ResolvedService : Type 0 where
  pub addresses : List ScopedIp
  pub fullname : List ℕ
  pub identifier : Option (List ℕ)
  pub auth_tags : List (List ℕ)

pub record ResolvedDevice : Type 0 where
  pub primary : IpAddr
  pub secondary : Option IpAddr
  pub scope_id : ℕ
  pub mac_address : List ℕ
  pub service_name : List ℕ
  pub udid : List ℕ

pub record PairingFile : Type 0 where
  pub host_id : List ℕ
  pub wifi_mac_address : List ℕ

abbrev pub first_v6 : List ScopedIp → Option (IpAddr × ℕ)
first_v6 [] = none
first_v6 (v6 octets scope ∷ as') = some (ip_v6 octets, scope)
first_v6 (v4 octets scope ∷ as') = first_v6 as'

abbrev or_zero : Option ℕ → ℕ
or_zero none = 0
or_zero (some i) = i

abbrev pub first_v4 : List ScopedIp → Option (IpAddr × ℕ)
first_v4 [] = none
first_v4 (v4 octets scope ∷ as') = some (ip_v4 octets, or_zero scope)
first_v4 (v6 octets scope ∷ as') = first_v4 as'

-- The addresses and the scope; with no address at all the code is unreachable, and panics.
abbrev pub prefer : Option (IpAddr × ℕ) → Option (IpAddr × ℕ) → Option (IpAddr × Option IpAddr × ℕ)
prefer (some (a, scope)) (some (b, other)) = some (a, some b, scope)
prefer (some (a, scope)) none = some (a, none, scope)
prefer none (some (b, scope)) = some (b, none, scope)
prefer none none = none

-- `split('@').next()`: what stands before the first `@`, all of it where there is none.
abbrev pub before_at : List ℕ → List ℕ
before_at [] = []
before_at (b ∷ bs) = let rest = before_at bs in if b == b'@' then [] else b ∷ rest

-- The pairing files by their stems, in the order of the directory.
abbrev pub Saved : Type 0
Saved = List (List ℕ × PairingFile)

abbrev pub get_udid_from_mac_addr : List ℕ → Saved → Option (List ℕ)
get_udid_from_mac_addr mac [] = none
get_udid_from_mac_addr mac ((udid, f) ∷ fs) =
    let rest = get_udid_from_mac_addr mac fs in
    if same mac f.wifi_mac_address then some udid else rest

abbrev pub has_tag : List ℕ → List (List ℕ) → Bool
has_tag t [] = false
has_tag t (u ∷ us) = same u t || has_tag t us

abbrev pub decoded : (List ℕ → Option (List ℕ)) → List (List ℕ) → List (List ℕ)
decoded decode [] = []
decoded decode (t ∷ ts) = elim (decode t) [
  | none ↦ decoded decode ts
  | some u ↦ u ∷ decoded decode ts
]

abbrev pub match_tags :
    (List ℕ → List ℕ → List ℕ) → List ℕ → List (List ℕ) → Saved → Option (List ℕ)
match_tags derive identifier tags [] = none
match_tags derive identifier tags ((udid, f) ∷ fs) =
    let rest = match_tags derive identifier tags fs in
    if has_tag (derive f.host_id identifier) tags then some udid else rest

-- `none` for no tag at all, and for tags of which none can be decoded.
abbrev pub with_tags : (List ℕ → List ℕ → List ℕ) → List ℕ → Saved → List (List ℕ) → Option (List ℕ)
with_tags derive identifier files [] = none
with_tags derive identifier files (t ∷ ts) = match_tags derive identifier (t ∷ ts) files

-- `decode` and `derive` are the crate's `decode_auth_tag` and `derive_auth_tag`.
module _ (decode : List ℕ → Option (List ℕ)) (derive : List ℕ → List ℕ → List ℕ)
    (files : Saved) where
  unfoldable pub find_udid_from_txt : List ℕ → List (List ℕ) → Option (List ℕ)
  find_udid_from_txt identifier tags = with_tags derive identifier files (decoded decode tags)

  -- Newer devices are found by their tags, older ones, without an identifier or without tags, by the MAC address.
  abbrev pub udid_of : List ℕ → Option (List ℕ) → List (List ℕ) → Option (List ℕ)
  udid_of mac none tags = get_udid_from_mac_addr mac files
  udid_of mac (some identifier) [] = get_udid_from_mac_addr mac files
  udid_of mac (some identifier) (t ∷ ts) = find_udid_from_txt identifier (t ∷ ts)

  abbrev pub device_of :
      ResolvedService → IpAddr × Option IpAddr × ℕ → Option (List ℕ) → Option ResolvedDevice
  device_of rs addr none = none
  device_of rs (primary, secondary, scope) (some udid) = some record {
    primary = primary;
    secondary = secondary;
    scope_id = scope;
    mac_address = before_at rs.fullname;
    service_name = rs.fullname;
    udid = udid;
  }

  -- The outer `none` is the panic on a service without an address.
  unfoldable pub resolve_service : ResolvedService → Option (Option ResolvedDevice)
  unfolding find_udid_from_txt
  resolve_service rs = elim (prefer (first_v6 rs.addresses) (first_v4 rs.addresses)) [
    | none ↦ none
    | some addr ↦
        some (device_of rs addr (udid_of (before_at rs.fullname) rs.identifier rs.auth_tags))
  ]
