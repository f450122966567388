-- ===== src/Handler/Connect.antt =====
-- handler/connect.rs: a client that connects to a port of a device, and the forwarding of bytes between the two.
pub mod Forwarding
pub mod Window
pub mod Refused
pub mod Wireless
use rusbmux.Base.{
  ℕ, zero, suc, Bool, true, false, Option, none, some, List, [], ◌∷◌, ◌++◌, take, drop, ltb,
  if◌then◌else◌,
}
use rusbmux.Base.Map.{get}
use rusbmux.Base.Parser.{IoErrorKind, broken_pipe}
use rusbmux.Extern.{Extern}
use rusbmux.Error
use rusbmux.Error.{
  Result, err, RusbmuxError, ResultCode, device_not_found, ran_out_of_source_port,
  bad_device_or_no_such_file, connection_refused,
}
use rusbmux.Channel.{Channel}
use rusbmux.Router.{PacketRouter}
use rusbmux.DeviceMux.Packet.{UsbDevicePacket}
use rusbmux.DeviceMux.Payload
use rusbmux.Conn
use rusbmux.Conn.{
  UsbDeviceConn, RecvState, Received, got, recv_failed, nothing_yet, ack_waits, recv, send_bytes,
}
use rusbmux.Devices.{Device}
use rusbmux.Watcher.{Connected}
use rusbmux.Handler.{Session, send_result}
use rusbmux.Handler.Answers.{Ran, and_then}

abbrev pub connect_code : RusbmuxError → ResultCode
connect_code (device_not_found id) = bad_device_or_no_such_file
connect_code ran_out_of_source_port = bad_device_or_no_such_file
connect_code _ = connection_refused

-- `connects` is `Device::connect`, `forward` what follows on a connection.
module _ {Value World C : Type 0} (x : Session Value World)
    (connects : Device → World → World × Result C) (forward : C → World → Ran World) where
  abbrev pub connect_found : ℕ → World → Option Device → World × Result C
  connect_found id w none = (w, err (device_not_found id))
  connect_found id w (some d) = connects d w

  unfoldable pub connect : ℕ → Connected → World → World × Result C
  connect id m w = connect_found id w (get id m)

  abbrev pub after_connect : ℕ → World × Result C → Ran World
  after_connect tag (w, err e) = and_then (send_result x (connect_code e) tag w) λ w'. (w', err e)
  after_connect tag (w, Error.ok c) = and_then (send_result x ResultCode.ok tag w) (forward c)

  unfoldable pub handle_connect : ℕ → Connected → ℕ → World → Ran World
  unfolding connect send_result
  handle_connect id m tag w = after_connect tag (connect id m w)

-- The bytes of the buffer go first; then what the client sends is read. Either way no more than may be sent is
-- taken, and the rest stays in the buffer.
abbrev pub split_to : ℕ → List ℕ → List ℕ × List ℕ
split_to n buf = (take n buf, drop n buf)

abbrev pub read_in : ℕ → Result (List ℕ) → Result (List ℕ × List ℕ)
read_in sendable (Error.ok bytes) = Error.ok (split_to sendable bytes)
read_in sendable (err e) = err e

unfoldable pub client_read : Result (List ℕ) → List ℕ → ℕ → Result (List ℕ × List ℕ)
client_read read [] sendable = read_in sendable read
client_read read (b ∷ bs) sendable = Error.ok (split_to sendable (b ∷ bs))

-- The loop's state, with what has been written to the client.
pub record Forward : Type 0 where
  pub conn : UsbDeviceConn
  pub rx : Channel UsbDevicePacket
  pub tx : Channel UsbDevicePacket
  pub read_buf : List ℕ
  pub to_client : List ℕ

-- A branch of the `select!`: the device shuts down, a packet of the device, with whether the client takes it, or the
-- client's bytes.
pub data Branch : Type 0 where
  shut_down : Branch
  from_device : Result (Unit {0}) → Branch
  from_client : Result (List ℕ) → Branch

-- What a round comes to. `waits` is a branch that cannot run to its end yet, or is not enabled.
pub data Round : Type 0 where
  goes_on : Forward → Round
  ends : Round
  fails : RusbmuxError → Round
  waits : Round

module _ (x : Extern) where
  abbrev pub written : RecvState → Forward → List ℕ → Result (Unit {0}) → Round
  written r s payload (err e) = fails e
  written r s payload (Error.ok u) =
      goes_on (record s { conn = r.conn; rx = r.rx; tx = r.tx; to_client = s.to_client ++ payload })

  abbrev pub deliver : RecvState → Forward → Result (Unit {0}) → Received → Round
  deliver r s client (got packet) = written r s (Payload.encode packet.payload) client
  deliver r s client (recv_failed e) = fails e
  deliver r s client nothing_yet = waits
  deliver r s client ack_waits = waits

  abbrev pub passed_on :
      Forward → List ℕ → Conn.Progress (UsbDeviceConn × Channel UsbDevicePacket) → Round
  passed_on s rest (Conn.done (c, tx)) = goes_on (record s { conn = c; tx = tx; read_buf = rest })
  passed_on s rest (Conn.failed e) = fails e
  passed_on s rest Conn.pending = waits

  abbrev pub closed :
      Conn.Progress (UsbDeviceConn × Option PacketRouter × Channel UsbDevicePacket) → Round
  closed (Conn.done (c, r, tx)) = ends
  closed (Conn.failed e) = fails e
  closed Conn.pending = waits

  -- An empty packet is the client's end, on which the connection is closed.
  abbrev pub take_packet : Option PacketRouter → Forward → Result (List ℕ × List ℕ) → Round
  take_packet router s (err e) = fails e
  take_packet router s (Error.ok ([], rest)) = closed (Conn.close x s.conn router s.tx)
  take_packet router s (Error.ok (b ∷ bs, rest)) =
      passed_on s rest (send_bytes x s.conn s.tx (b ∷ bs))

  unfoldable pub select : Option PacketRouter → Branch → Forward → Round
  unfolding client_read
  select router shut_down s = ends
  select router (from_device client) s =
      let r = recv x s.conn s.rx s.tx in deliver r s client r.outcome
  select router (from_client read) s =
      if ltb 0 s.conn.sendable_bytes
      then take_packet router s (client_read read s.read_buf s.conn.sendable_bytes)
      else waits
