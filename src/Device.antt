-- ===== src/Device.antt =====
-- device/usb.rs: `UsbDevice`, the daemon's side of one device: its counters, its reader and writer
-- loops and the exchange that opens it.
pub mod Ports
pub mod Writer
pub mod Reader
pub mod Opening
pub mod Table
pub mod Attached
use rusbmux.Base.{ℕ, ◌+◌, ◌==◌, Bool, true, false, Option, List, [], if◌then◌else◌}
use rusbmux.Base.Words.{as_u16}
use rusbmux.Error.{Result, ok, err, ran_out_of_source_port}
use rusbmux.Backend.{AnyDeviceInfo}
use rusbmux.Channel.{Channel, bounded}
use rusbmux.Conn.{UsbDeviceConn}
use rusbmux.DeviceMux.Packet.{UsbDevicePacket}
use rusbmux.Router.{PacketRouter, new}
use rusbmux.DeviceMux.Payload.{UsbDevicePacketVersion}

pub record UsbDevice : Type 0 where
  pub id : ℕ
  pub info : AnyDeviceInfo
  pub send_seq : ℕ
  pub recv_seq : ℕ
  pub next_source_port : ℕ
  pub version : UsbDevicePacketVersion
  pub router : PacketRouter
  -- The connections by source port; `none` for one that nobody holds any more.
  pub conns : List (ℕ × Option UsbDeviceConn)
  -- The channel that the writer loop empties.
  pub w_tx : Channel UsbDevicePacket
  pub dropped : Bool
  pub cancelled : Bool
  -- Whether the watcher has set `disconnected_tx`.
  pub disconnected_tx : Bool

-- The counters of a device that has just been opened.
abbrev pub opened : ℕ → AnyDeviceInfo → UsbDevicePacketVersion → UsbDevice
opened id info version = record {
  id = id;
  info = info;
  send_seq = 1;
  recv_seq = 0;
  next_source_port = 1;
  version = version;
  router = new;
  conns = [];
  w_tx = bounded;
  dropped = false;
  cancelled = false;
  disconnected_tx = false;
}

-- `fetch_add(1)` on an `AtomicU16` wraps, and returns the old value.
unfoldable pub get_next_source_port : UsbDevice → UsbDevice × Result ℕ
get_next_source_port d = (
  record d { next_source_port = as_u16 (d.next_source_port + 1) },
  if d.next_source_port == 0 then err ran_out_of_source_port else ok d.next_source_port,
)

unfoldable pub take_send_seq : UsbDevice → UsbDevice × ℕ
take_send_seq d = (record d { send_seq = as_u16 (d.send_seq + 1) }, d.send_seq)

abbrev pub get_recv_seq : UsbDevice → ℕ
get_recv_seq d = d.recv_seq

abbrev pub set_disconnected_tx : UsbDevice → UsbDevice
set_disconnected_tx d = record d { disconnected_tx = true }

unfoldable pub increment_recv_seq : UsbDevice → UsbDevice
increment_recv_seq d = record d { recv_seq = as_u16 (d.recv_seq + 1) }
