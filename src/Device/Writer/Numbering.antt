-- ===== src/Device/Writer/Numbering.antt =====
-- device/usb.rs: what `start_writer_loop` puts on the wire.
use rusbmux.Base.{
  ℕ, ◌+◌, ◌≡◌, All, refl, sym, ◌∙◌, ap, Option, none, some, List, [], ◌∷◌, ◌++◌, arith,
  append_assoc, append-nil,
}
use rusbmux.Base.Words.{as_u16}
use rusbmux.Extern.{Extern, ExternLaws, TcpHeader, tcp_min_len}
use rusbmux.DeviceMux.Header.{UsbDevicePacketHeader, v1, v2}
use rusbmux.DeviceMux.Header
use rusbmux.DeviceMux.Payload
use rusbmux.DeviceMux.Payload.{UsbDevicePacketPayload}
use rusbmux.DeviceMux.Packet.{UsbDevicePacket, encode}
use rusbmux.DeviceMux.Packet.Parts.{encode_parts}
use rusbmux.Device.{UsbDevice, take_send_seq}
use rusbmux.Device.Writer.{Action, wrote, flushed, ended, Endpoint, writer_round, writer_loop}

-- A packet under the numbers `send` and `recv`, which only a version 2 header has.
abbrev pub numbered_header : ℕ → ℕ → UsbDevicePacketHeader → UsbDevicePacketHeader
numbered_header send recv (v1 h) = v1 h
numbered_header send recv (v2 h) = v2 (record h { send_seq = send; recv_seq = recv })

abbrev pub numbered : ℕ → ℕ → UsbDevicePacket → UsbDevicePacket
numbered send recv p = record p { header = numbered_header send recv p.header }

-- The number that the next packet gets.
abbrev pub next_number : UsbDevicePacketHeader → ℕ → ℕ
next_number (v1 h) send = send
next_number (v2 h) send = as_u16 (send + 1)

-- The transfers of a log: a transfer has what was written since the one before it was ended. What no
-- `ended` follows is left.
pub transfers_of : List ℕ → List Action → List (List ℕ) × List ℕ
transfers_of held [] = ([], held)
transfers_of held (wrote bs ∷ log) = transfers_of (held ++ bs) log
transfers_of held (flushed ∷ log) = transfers_of held log
transfers_of held (ended ∷ log) =
    let (transfers, left) = transfers_of [] log in (held ∷ transfers, left)

module _ (x : Extern) where
  abbrev IsWritableAs : UsbDevicePacketHeader → Option TcpHeader → Type 0
  IsWritableAs _ none = Unit
  IsWritableAs (v1 h) (some t) = ⊥
  IsWritableAs (v2 h) (some t) = x.header_len t ≡ tcp_min_len

  -- A TCP header stands only behind a version 2 header, and has no options.
  abbrev pub IsWritable : UsbDevicePacket → Type 0
  IsWritable p = IsWritableAs p.header p.tcp_hdr

  -- The encoded packets, under consecutive numbers.
  pub wire : ℕ → ℕ → List UsbDevicePacket → List (List ℕ)
  wire send recv [] = []
  wire send recv (p ∷ ps) =
      encode x (numbered send recv p) ∷ wire (next_number p.header send) recv ps

  -- The device once a packet is written.
  abbrev after_device : UsbDevicePacket → UsbDevice → UsbDevice
  after_device p d = record d { send_seq = next_number p.header d.send_seq }

  -- What a round does with the endpoint.
  abbrev round_log : List Action → List ℕ → List ℕ → List Action
  round_log log front back = ((log ++ wrote front ∷ []) ++ wrote back ∷ []) ++ ended ∷ []

  packet : UsbDevicePacketHeader → Option TcpHeader → UsbDevicePacketPayload → UsbDevicePacket
  packet h t pay = record { header = h; tcp_hdr = t; payload = pay }

  round_log-append :
      (log : List Action) (front back : List ℕ) (done : List Action)
      → round_log log front back ++ done ≡ log ++ wrote front ∷ wrote back ∷ ended ∷ done
  round_log-append log front back done = ground (
    arith,
    append_assoc ((log ++ wrote front ∷ []) ++ wrote back ∷ []) (ended ∷ []) done,
    append_assoc (log ++ wrote front ∷ []) (wrote back ∷ []) (ended ∷ done),
    append_assoc log (wrote front ∷ []) (wrote back ∷ ended ∷ done),
  )

  round_parts :
      ExternLaws x
      → (h : UsbDevicePacketHeader) (t : Option TcpHeader) (pay : UsbDevicePacketPayload)
        (d : UsbDevice) (e : Endpoint)
      → IsWritableAs h t
      → e.outcomes ≡ []
      → (front : List ℕ) × (writer_round x (packet h t pay) d e
          ≡ some (
            after_device (packet h t pay) d,
            record e { log = round_log e.log front (Payload.encode pay) },
          ))
        × (front ++ Payload.encode pay ≡ encode x (numbered d.send_seq d.recv_seq (packet h t pay)))
  unfolding writer_round take_send_seq packet
  round_parts laws (v1 h) none pay d e w o =
      (Header.encode (v1 h), ground arith, sym (encode_parts x (packet (v1 h) none pay)))
  round_parts laws (v1 h) (some t) pay d e w o = absurd w
  round_parts laws (v2 h) none pay d e w o =
      let h' = numbered_header d.send_seq d.recv_seq (v2 h) in
      (Header.encode h', ground arith, sym (encode_parts x (packet h' none pay)))
  round_parts laws (v2 h) (some t) pay d e w o =
      let h' = numbered_header d.send_seq d.recv_seq (v2 h) in
      (
        Header.encode h' ++ x.to_bytes t,
        ground (arith, laws.length_to_bytes t),
        ground (
          arith,
          encode_parts x (packet h' (some t) pay),
          append_assoc (Header.encode h') (x.to_bytes t) (Payload.encode pay),
        ),
      )

  -- Where the endpoint takes every write, and every packet's TCP header stands behind a version 2 header
  -- and has no options, the loop writes the packets of the channel in order, each as one transfer with the
  -- bytes of the whole encoded packet and no others, the version 2 headers under consecutive send numbers
  -- modulo 2 ^ 16 from the device's on, and under its receive number; nothing is left outside a transfer.
  pub writer_loop-wire :
      ExternLaws x
      → (ps : List UsbDevicePacket) (d : UsbDevice) (e : Endpoint) → All IsWritable ps
      → e.outcomes ≡ []
      → (d' : UsbDevice) × (e' : Endpoint) × (done : List Action) × (writer_loop x ps d e
          ≡ some (d', e'))
        × (e'.log ≡ e.log ++ done)
        × (transfers_of [] done ≡ (wire d.send_seq d.recv_seq ps, []))
  unfolding writer_loop wire packet transfers_of
  writer_loop-wire laws [] d e w o = (d, e, [], refl, sym (append-nil e.log), refl)
  writer_loop-wire laws (p ∷ ps) d e w o =
      let (front, first, whole) = round_parts laws p.header p.tcp_hdr p.payload d e w.0 o in
      let back = Payload.encode p.payload in
      let e1 : Endpoint = record e { log = round_log e.log front back } in
      let (d', e', done, run, log, split) = writer_loop-wire laws ps (after_device p d) e1 w.1 o in
      (
        d',
        e',
        wrote front ∷ wrote back ∷ ended ∷ done,
        ap (λ r. elim r [ none ↦ none | some (d1, e1) ↦ writer_loop x ps d1 e1 ]) first ∙ run,
        log ∙ round_log-append e.log front back done,
        rw (split, whole) refl,
      )
