-- ===== src/Handler/Connect/Wireless.antt =====
-- handler/connect.rs: what follows on a connection, and a client that connects to a network device.
use rusbmux.Base.{ℕ, ◌≡◌, ◌⊎◌, inl, inr, refl, arith, Option, none, some}
use rusbmux.Base.Parser.{IoErrorKind}
use rusbmux.Base.Map.{get}
use rusbmux.Error
use rusbmux.Error.{Result, err, RusbmuxError}
use rusbmux.NetworkDevice.{NetworkDevice, IpAddr, ip_v4, ip_v6, SocketAddr, socket, socket_addr}
use rusbmux.Device.{UsbDevice}
use rusbmux.Devices
use rusbmux.Devices.Connecting
use rusbmux.Conn.{UsbDeviceConn}
use rusbmux.Conn.Network
use rusbmux.Conn.Network.{NetworkDeviceConn}
use rusbmux.Conn.Either
use rusbmux.Conn.Either.{DeviceConn}
use rusbmux.Watcher.{Connected}
use rusbmux.Handler.{Session, send_result}
use rusbmux.Handler.Answers.{Ran}
use rusbmux.Handler.Connect.{connect, handle_connect}
use rusbmux.Error.{ResultCode}

-- `copy` copies in both directions until an end or an error, or until the device is shut down, which is `none`.
module _ {Stream World : Type 0} (copy : Stream → World → World × Option (Result (Unit {0}))) where
  abbrev pub selected : World × Option (Result (Unit {0})) → Ran World
  selected (w, none) = (w, Error.ok tt)
  selected (w, some r) = (w, r)

  unfoldable pub handle_network_device_connect : NetworkDeviceConn Stream → World → Ran World
  handle_network_device_connect c w = selected (copy c.stream w)

  -- `usb_forward` is the loop of a USB connection.
  unfoldable pub forward :
      (UsbDeviceConn → World → Ran World) → DeviceConn Stream → World → Ran World
  unfolding handle_network_device_connect
  forward usb_forward (Either.usb c) w = usb_forward c w
  forward usb_forward (Either.network c) w = handle_network_device_connect c w

-- The address of a device at a port: an IPv6 address has the scope of the device, or 0 where it has none, and
-- an IPv4 address has none.
abbrev ScopeIs : IpAddr → Option ℕ → ℕ → Type 0
ScopeIs (ip_v4 octets) scope_id scope = scope ≡ 0
ScopeIs (ip_v6 octets) none scope = scope ≡ 0
ScopeIs (ip_v6 octets) (some s) scope = scope ≡ s

abbrev pub IsAddressOf : NetworkDevice → ℕ → SocketAddr → Type 0
IsAddressOf d port a = (a.ip ≡ d.addr) × (a.port ≡ port) × ScopeIs d.addr d.scope_id a.scope

socket-address :
    (ip : IpAddr) (scope_id : Option ℕ) (port : ℕ) (a : SocketAddr)
    → a.ip ≡ ip
    → a.port ≡ port
    → ScopeIs ip scope_id a.scope
    → socket ip scope_id port ≡ a
socket-address (ip_v4 octets) scope_id port a i p s = ground arith
socket-address (ip_v6 octets) none port a i p s = ground arith
socket-address (ip_v6 octets) (some z) port a i p s = ground arith

socket_addr-address :
    (d : NetworkDevice) (port : ℕ) (a : SocketAddr) → IsAddressOf d port a → socket_addr d port ≡ a
unfolding socket_addr
socket_addr-address d port a (i, p, s) = socket-address d.addr d.scope_id port a i p s

-- A TCP connection fails with an I/O error.
abbrev pub tcp_result : {Stream : Type 0} → IoErrorKind ⊎ Stream → Result Stream
tcp_result (inl e) = err (RusbmuxError.io e)
tcp_result (inr s) = Error.ok s

-- The code that the client is answered with.
abbrev pub code_of : {Stream : Type 0} → IoErrorKind ⊎ Stream → ResultCode
code_of (inl e) = ResultCode.connection_refused
code_of (inr s) = ResultCode.ok

module _ {Value Stream World : Type 0} (x : Session Value World)
    (usb_connect : ℕ → UsbDevice → World → World × Result UsbDeviceConn)
    (tcp_connect : SocketAddr → World → World × Result Stream)
    (copy : Stream → World → World × Option (Result (Unit {0})))
    (usb_forward : UsbDeviceConn → World → Ran World) where
  -- The handler with the connections of both kinds of devices put in.
  abbrev pub handled : ℕ → ℕ → Connected → ℕ → World → Ran World
  handled port id m =
      handle_connect x (Connecting.connect usb_connect tcp_connect port) (forward copy usb_forward)
        id m

  -- What the handler is to come to, once the client is answered: the error; or the copying, from the world
  -- that the answer leaves, with its error if it had one.
  abbrev pub EndsAs : IoErrorKind ⊎ Stream → World → Ran World → Type 0
  EndsAs (inl e) w o = o ≡ (w, err (RusbmuxError.io e))
  EndsAs (inr s) w o =
      (w' : World) × (((copy s w ≡ (w', none)) × (o ≡ (w', Error.ok tt)))
        ⊎ ((result : Result (Unit {0})) × (copy s w ≡ (w', some result)) × (o ≡ (w', result))))

  copied-EndsAs :
      (s : Stream) (w : World) (c : World × Option (Result (Unit {0})))
      → copy s w ≡ c
      → EndsAs (inr s) w (selected copy c)
  copied-EndsAs s w (w', none) e = (w', inl (e, refl))
  copied-EndsAs s w (w', some result) e = (w', inr (result, e, refl))

  -- Where the table has a network device under the id that a client asks for, a TCP connection is opened
  -- to the device's own address, at the port that the client asks for, an IPv6 address with the scope of the device. If
  -- that fails, which it does with an I/O error, the client is answered ConnectionRefused and the handler
  -- returns the error. If it succeeds, the client is answered OK, and then what it sends and what the device
  -- sends is copied until the copying ends or the device is shut down; of that outcome the handler returns
  -- an error only where the copying had one. The answer to the client is one that can be written.
  pub handle_connect-socket_addr :
      (port id tag : ℕ) (m : Connected) (d : NetworkDevice) (a : SocketAddr) (w w1 w2 : World)
      (r : IoErrorKind ⊎ Stream)
      → get id m ≡ some (Devices.network d)
      → IsAddressOf d port a
      → tcp_connect a w ≡ (w1, tcp_result r)
      → send_result x (code_of r) tag w1 ≡ (w2, Error.ok tt)
      → EndsAs r w2 (handled port id m tag w)
  unfolding handle_connect connect Connecting.connect Network.connect Network.new forward
  handle_connect-socket_addr port id tag m d a w w1 w2 (inl e) found address fails sent =
      rw (found, socket_addr-address d port a address, fails, sent) refl
  handle_connect-socket_addr port id tag m d a w w1 w2 (inr s) found address opens sent =
      rw (found, socket_addr-address d port a address, opens, sent)
        (copied-EndsAs s w2 (copy s w2) refl)
