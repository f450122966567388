-- ===== src/NetworkDevice.antt =====
-- device/network.rs: `NetworkDevice`, a device that is reached over the local network.
pub mod Heartbeat
pub mod Power
pub mod Attached
use rusbmux.Base.{ℕ, Bool, true, false, Option, none, some, List}
use rusbmux.Error.{Result, ok, err, RusbmuxError, idevice}

-- The four or sixteen bytes of an address, highest first.
pub data IpAddr : Type 0 where
  ip_v4 ip_v6 : List ℕ → IpAddr

pub record NetworkDevice : Type 0 where
  pub id : ℕ
  pub addr : IpAddr
  pub scope_id : Option ℕ
  pub mac_address : List ℕ
  pub service_name : List ℕ
  pub serial_number : List ℕ
  pub cancelled : Bool

abbrev pub shutdown : NetworkDevice → NetworkDevice
shutdown d = record d { cancelled = true }

-- `connect_heartbeat_client`: the address that answers, the second where the first does not. `connects`
-- says which addresses the client can be connected to.
abbrev try_second : (IpAddr → Bool) → Option IpAddr → Result IpAddr
try_second connects none = err idevice
try_second connects (some second) = elim (connects second) [
  | true ↦ ok second
  | false ↦ err idevice
]

unfoldable pub connect_heartbeat_client : (IpAddr → Bool) → IpAddr → Option IpAddr → Result IpAddr
connect_heartbeat_client connects first second = elim (connects first) [
  | true ↦ ok first
  | false ↦ try_second connects second
]

-- `SocketAddr`: the address, the port, and the scope of an IPv6 address.
pub record SocketAddr : Type 0 where
  pub ip : IpAddr
  pub port : ℕ
  pub scope : ℕ

abbrev scope_or_zero : Option ℕ → ℕ
scope_or_zero none = 0
scope_or_zero (some s) = s

abbrev pub socket : IpAddr → Option ℕ → ℕ → SocketAddr
socket (ip_v4 octets) scope_id port = record { ip = ip_v4 octets; port = port; scope = 0 }
socket (ip_v6 octets) scope_id port = record {
  ip = ip_v6 octets;
  port = port;
  scope = scope_or_zero scope_id;
}

-- `connect` up to the connection itself.
unfoldable pub socket_addr : NetworkDevice → ℕ → SocketAddr
socket_addr d port = socket d.addr d.scope_id port

-- What a device is made of, besides its address.
pub record Identity : Type 0 where
  pub id : ℕ
  pub scope_id : Option ℕ
  pub mac_address : List ℕ
  pub service_name : List ℕ
  pub serial_number : List ℕ

abbrev pub made : Identity → IpAddr → Result (Unit {0}) → Result NetworkDevice
made i addr (err e) = err e
made i addr (ok held) = ok (record {
  id = i.id;
  addr = addr;
  scope_id = i.scope_id;
  mac_address = i.mac_address;
  service_name = i.service_name;
  serial_number = i.serial_number;
  cancelled = false;
})

abbrev pub answering :
    Identity → (IpAddr → Result (Unit {0})) → Result IpAddr → Result NetworkDevice
answering i assertion (err e) = err e
answering i assertion (ok addr) = made i addr (assertion addr)

-- `new`: the pairing file, the address that answers a heartbeat client, and a power assertion there.
unfoldable pub new :
    Identity
    → Result (Unit {0})
    → (IpAddr → Bool)
    → (IpAddr → Result (Unit {0}))
    → IpAddr
    → Option IpAddr
    → Result NetworkDevice
unfolding connect_heartbeat_client
new i (err e) connects assertion first second = err e
new i (ok file) connects assertion first second =
    answering i assertion (connect_heartbeat_client connects first second)
