-- ===== src/Device/Writer.antt =====
-- device/usb.rs: `start_writer_loop`, which numbers the packets of all connections and writes them.
pub mod Numbering
use rusbmux.Base.{
  ℕ, suc, ◌+◌, ◌≡◌, Bool, true, false, Option, none, some, List, [], ◌∷◌, ◌++◌, length, take, ◌==◌,
  if◌then◌else◌,
}
use rusbmux.Extern.{Extern, TcpHeader, tcp_min_len}
use rusbmux.DeviceMux.Header.{
  UsbDevicePacketHeader, UsbDevicePacketHeaderV1, UsbDevicePacketHeaderV2, v1, v2, encode_v1,
  encode_v2,
}
use rusbmux.DeviceMux.Payload
use rusbmux.DeviceMux.Packet.{UsbDevicePacket}
use rusbmux.Device.{UsbDevice, take_send_seq, get_recv_seq}

-- What is done with the endpoint: bytes are written, it is flushed, or a transfer is ended.
pub data Action : Type 0 where
  wrote : List ℕ → Action
  flushed ended : Action

-- The endpoint: what has been done with it, and what the next writes and flushes come to, `some k` for an
-- error, of a write after `k` bytes. Those beyond the list succeed.
pub record Endpoint : Type 0 where
  pub log : List Action
  pub outcomes : List (Option ℕ)

abbrev pub write_as : Endpoint → List ℕ → List (Option ℕ) → Endpoint × Bool
write_as e bs [] = (record e { log = e.log ++ wrote bs ∷ [] }, true)
write_as e bs (none ∷ os) = (record e { log = e.log ++ wrote bs ∷ []; outcomes = os }, true)
write_as e bs (some k ∷ os) =
    (record e { log = e.log ++ wrote (take k bs) ∷ []; outcomes = os }, false)

abbrev pub write_all : List ℕ → Endpoint → Endpoint × Bool
write_all bs e = write_as e bs e.outcomes

abbrev pub flush_as : Endpoint → List (Option ℕ) → Endpoint × Bool
flush_as e [] = (record e { log = e.log ++ flushed ∷ [] }, true)
flush_as e (none ∷ os) = (record e { log = e.log ++ flushed ∷ []; outcomes = os }, true)
flush_as e (some k ∷ os) = (record e { outcomes = os }, false)

abbrev pub flush : Endpoint → Endpoint × Bool
flush e = flush_as e e.outcomes

abbrev pub submit_end : Endpoint → Endpoint
submit_end e = record e { log = e.log ++ ended ∷ [] }

-- A version 2 header gets the next send number and the current receive number.
abbrev pub number_header : UsbDevice → UsbDevicePacketHeader → UsbDevice × UsbDevicePacketHeader
number_header d (v1 h) = (d, v1 h)
number_header d (v2 h) =
    let (d', send_seq) = take_send_seq d in
    (d', v2 (record h { send_seq = send_seq; recv_seq = get_recv_seq d' }))

module _ (x : Extern) where
  -- The bytes that go out in front of the payload. The buffer holds twenty bytes behind the header,
  -- and a TCP header of another length makes the copy panic: `none`.
  abbrev pub header_bytes : UsbDevicePacketHeader → Option TcpHeader → Option (List ℕ)
  header_bytes (v1 h) t = some (encode_v1 h)
  header_bytes (v2 h) none = some (encode_v2 h)
  header_bytes (v2 h) (some t) =
      if length (x.to_bytes t) == tcp_min_len then some (encode_v2 h ++ x.to_bytes t) else none

  -- After a failed header the payload is skipped; after a failed payload the transfer is still ended.
  abbrev pub write_payload : UsbDevicePacket → Endpoint × Bool → Endpoint
  write_payload packet (e, false) = e
  write_payload packet (e, true) = submit_end (write_all (Payload.encode packet.payload) e).0

  abbrev pub write_parts : UsbDevicePacket → Endpoint → Option (List ℕ) → Option Endpoint
  write_parts packet e none = none
  write_parts packet e (some bs) = some (write_payload packet (write_all bs e))

  abbrev pub attach : UsbDevice → Option Endpoint → Option (UsbDevice × Endpoint)
  attach d none = none
  attach d (some e) = some (d, e)

  -- One round of the loop, on the packet that it takes from the channel; `none` is a panic.
  unfoldable pub writer_round :
      UsbDevicePacket → UsbDevice → Endpoint → Option (UsbDevice × Endpoint)
  unfolding take_send_seq
  writer_round packet d e =
      let (d', header) = number_header d packet.header in
      attach d' (write_parts packet e (header_bytes header packet.tcp_hdr))

  -- The rounds over the packets of the channel, until it is closed.
  pub writer_loop : List UsbDevicePacket → UsbDevice → Endpoint → Option (UsbDevice × Endpoint)
  writer_loop [] d e = some (d, e)
  writer_loop (packet ∷ packets) d e = elim (writer_round packet d e) [
    | none ↦ none
    | some (d', e') ↦ writer_loop packets d' e'
  ]
