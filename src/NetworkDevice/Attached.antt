-- ===== src/NetworkDevice/Attached.antt =====
-- device/network.rs: `create_device_attached` of a network device on Linux, before it is a plist: its address
-- is a `sockaddr_in` or a `sockaddr_in6` at the front of 128 bytes, in the byte order of a little-endian host.
use rusbmux.Base.{
  ℕ, zero, suc, ◌≡◌, ◌≢◌, ◌≤◌, ◌+◌, ◌-◌, ◌^◌, ◌/◌, ◌%◌, ◌*◌, refl, sym, ap, ◌∙◌, Option, none, some,
  List, [], ◌∷◌, ◌++◌, length, take, drop, take-append, drop-append, length-append, arith,
  if◌then◌else◌, ◌==◌, append_assoc,
}
use rusbmux.Base.Words.{IsU16, IsU32, le32, le32_at}
use rusbmux.Device.Attached.{unwrap_or}
use rusbmux.NetworkDevice.{NetworkDevice, IpAddr, ip_v4, ip_v6}

abbrev pub zeros : ℕ → List ℕ
zeros zero = []
zeros (suc n) = 0 ∷ zeros n

-- A u16, lowest byte first.
abbrev le16 : ℕ → List ℕ → List ℕ
le16 a rest = (a % 2 ^ 8) ∷ (a / 2 ^ 8 % 2 ^ 8) ∷ rest

abbrev le16_at : List ℕ → ℕ
le16_at [] = 0
le16_at (a ∷ []) = a
le16_at (a ∷ b ∷ rest) = a + b * 2 ^ 8

-- The octets of an address, as many as it has.
abbrev pub IsIpAddr : IpAddr → Type 0
IsIpAddr (ip_v4 octets) = length octets ≡ 4
IsIpAddr (ip_v6 octets) = length octets ≡ 16

pub record NetworkAttached : Type 0 where
  pub device_id : ℕ
  pub escaped_full_service_name : List ℕ
  pub interface_index : ℕ
  pub network_address : List ℕ
  pub serial : List ℕ

-- The numbers of the two address families, from the crate libc.
module _ (af_inet af_inet6 : ℕ) where
  -- Family, port, the octets, `sin_zero`.
  abbrev pub sockaddr_in : List ℕ → List ℕ
  sockaddr_in octets = le16 af_inet (le16 0 (octets ++ zeros 8))

  -- Family, port, flow information, the octets, the scope.
  abbrev pub sockaddr_in6 : List ℕ → ℕ → List ℕ
  sockaddr_in6 octets scope = le16 af_inet6 (le16 0 (le32 0 (octets ++ le32 scope [])))

  abbrev sockaddr : IpAddr → Option ℕ → List ℕ
  sockaddr (ip_v4 octets) scope_id = sockaddr_in octets
  sockaddr (ip_v6 octets) scope_id = sockaddr_in6 octets (unwrap_or 0 scope_id)

  -- The bytes over the front of an array of 128 zeros.
  unfoldable pub network_address : IpAddr → Option ℕ → List ℕ
  network_address addr scope_id =
      let bytes = sockaddr addr scope_id in bytes ++ zeros (128 - length bytes)

  unfoldable pub create_device_attached : NetworkDevice → NetworkAttached
  unfolding network_address
  create_device_attached d = record {
    device_id = d.id;
    escaped_full_service_name = d.service_name;
    interface_index = unwrap_or 0 d.scope_id;
    network_address = network_address d.addr d.scope_id;
    serial = d.serial_number;
  }

  -- What a client that knows the layouts reads back: the address, and the scope of an IPv6 address.
  unfoldable pub read_sockaddr : List ℕ → Option (IpAddr × Option ℕ)
  read_sockaddr bytes =
      if le16_at bytes == af_inet
      then some (ip_v4 (take 4 (drop 4 bytes)), none)
      else if le16_at bytes == af_inet6
      then some (ip_v6 (take 16 (drop 8 bytes)), some (le32_at (drop 24 bytes) 0))
      else none

  abbrev pub scope_of : IpAddr → Option ℕ → Option ℕ
  scope_of (ip_v4 octets) scope_id = none
  scope_of (ip_v6 octets) scope_id = some (unwrap_or 0 scope_id)

  take_front : (n : ℕ) (xs ys : List ℕ) → length xs ≡ n → take n (xs ++ ys) ≡ xs
  take_front n xs ys h = ap (λ k. take k (xs ++ ys)) (sym h) ∙ take-append xs ys

  drop_front : (n : ℕ) (xs ys : List ℕ) → length xs ≡ n → drop n (xs ++ ys) ≡ ys
  drop_front n xs ys h = ap (λ k. drop k (xs ++ ys)) (sym h) ∙ drop-append xs ys

  le16_fits : (a : ℕ) → IsU16 a → a % 2 ^ 8 + a / 2 ^ 8 % 2 ^ 8 * 2 ^ 8 ≡ a
  le16_fits a h = omega arith

  le32_fits :
      (a : ℕ)
      → IsU32 a
      → a % 2 ^ 8
          + a / 2 ^ 8 % 2 ^ 8 * 2 ^ 8
          + a / 2 ^ 16 % 2 ^ 8 * 2 ^ 16
          + a / 2 ^ 24 % 2 ^ 8 * 2 ^ 24
        ≡ a
  le32_fits a h = omega arith

  length-zeros : (n : ℕ) → length (zeros n) ≡ n
  length-zeros zero = refl
  length-zeros (suc n) = ap suc (length-zeros n)

  padded :
      (bytes : List ℕ) → length bytes ≤ 128 → length (bytes ++ zeros (128 - length bytes)) ≡ 128
  padded bytes h =
      ground
        (arith, length-append bytes (zeros (128 - length bytes)), length-zeros (128 - length bytes))

  length-sockaddr :
      (addr : IpAddr) (scope_id : Option ℕ) → IsIpAddr addr → length (sockaddr addr scope_id) ≤ 128
  length-sockaddr (ip_v4 octets) scope_id h = ground (arith, length-append octets (zeros 8))
  length-sockaddr (ip_v6 octets) scope_id h =
      ground (arith, length-append octets (le32 (unwrap_or 0 scope_id) []))

  -- The address always fills its 128 bytes.
  pub length-network_address :
      (addr : IpAddr) (scope_id : Option ℕ)
      → IsIpAddr addr
      → length (network_address addr scope_id) ≡ 128
  unfolding network_address
  length-network_address addr scope_id h =
      padded (sockaddr addr scope_id) (length-sockaddr addr scope_id h)

  -- A client reads back the address that the device has.
  pub read_sockaddr-network_address :
      (addr : IpAddr) (scope_id : Option ℕ)
      → IsU16 af_inet
      → IsU16 af_inet6
      → af_inet ≢ af_inet6
      → IsU32 (unwrap_or 0 scope_id)
      → IsIpAddr addr
      → read_sockaddr (network_address addr scope_id) ≡ some (addr, scope_of addr scope_id)
  unfolding read_sockaddr network_address
  read_sockaddr-network_address (ip_v4 octets) scope_id u4 u6 distinct u32 h =
      let pad = zeros (128 - length (sockaddr (ip_v4 octets) scope_id)) in
      let split = append_assoc octets (zeros 8) pad in
      ground (arith, le16_fits af_inet u4, split, take_front 4 octets (zeros 8 ++ pad) h)
  read_sockaddr-network_address (ip_v6 octets) scope_id u4 u6 distinct u32 h =
      let pad = zeros (128 - length (sockaddr (ip_v6 octets) scope_id)) in
      let scope = unwrap_or 0 scope_id in
      let split = append_assoc octets (le32 scope []) pad in
      ground (
        arith,
        le16_fits af_inet6 u6,
        split,
        take_front 16 octets (le32 scope pad) h,
        drop_front 16 octets (le32 scope pad) h,
        le32_fits scope u32,
      )
