-- ===== src/Conn/Network.antt =====
-- conn/network.rs: `NetworkDeviceConn`, a TCP stream to a port of a network device. The streams of tokio
-- are a parameter.
use rusbmux.Base.{ℕ, List, [], ◌∷◌}
use rusbmux.Base.Parser.{network_unreachable}
use rusbmux.Error.{Result, ok, err, io}
use rusbmux.NetworkDevice.{NetworkDevice, SocketAddr, socket_addr}

pub record NetworkDeviceConn (Stream : Type 0) : Type 0 where
  pub stream : Stream
  pub device_id : ℕ
  pub destination_port : ℕ

module _ {Stream World : Type 0} (tcp_connect : SocketAddr → World → World × Result Stream) where
  abbrev opened : ℕ → ℕ → World × Result Stream → World × Result (NetworkDeviceConn Stream)
  opened device_id port (w, err e) = (w, err e)
  opened device_id port (w, ok s) =
      (w, ok (record { stream = s; device_id = device_id; destination_port = port }))

  unfoldable pub new : SocketAddr → ℕ → World → World × Result (NetworkDeviceConn Stream)
  new addr device_id w = opened device_id addr.port (tcp_connect addr w)

  -- `NetworkDevice::connect`
  unfoldable pub connect : ℕ → NetworkDevice → World → World × Result (NetworkDeviceConn Stream)
  unfolding new socket_addr
  connect port d w = new (socket_addr d port) d.id w

-- What `read_buf` gives: no byte is the end of the stream, which is an error here.
unfoldable pub read : Result (List ℕ) → Result (List ℕ)
read (err e) = err e
read (ok []) = err (io network_unreachable)
read (ok (b ∷ bs)) = ok (b ∷ bs)
