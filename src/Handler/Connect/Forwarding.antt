-- ===== src/Handler/Connect/Forwarding.antt =====
-- What the forwarding loop keeps: the order of the client's bytes, and the device's window.
use rusbmux.Base.{
  ℕ, ◌≡◌, ◌<◌, refl, sym, ap, ◌∙◌, Option, List, [], ◌∷◌, ◌++◌, take, drop, take-append-drop,
  append-nil, append_assoc, ltb, arith, Bool-cases, inl, inr,
}
use rusbmux.Extern.{Extern}
use rusbmux.Error
use rusbmux.Error.{Result, err}
use rusbmux.Channel.{Channel, Sent, sent as accepted, refused, full, send}
use rusbmux.DeviceMux.Payload
use rusbmux.DeviceMux.Builder.{ack, build_ack, build_bytes}
use rusbmux.Conn.FlowControl.{send_packet_done}
use rusbmux.Conn.Sequence.{put_behind, one_behind, nothing_behind}
use rusbmux.Router.{PacketRouter}
use rusbmux.DeviceMux.Packet.{UsbDevicePacket}
use rusbmux.Conn
use rusbmux.Conn.{
  RecvState, Received, got, recv_failed, nothing_yet, ack_waits, recv, UsbDeviceConn, own_packet,
  acknowledged, note_received, calc_sendable_bytes, send_bytes, send_packet,
  max_packet_payload_size,
}
use rusbmux.Handler.Connect.{
  Forward, Branch, shut_down, from_device, from_client, Round, goes_on, ends, fails, waits,
  split_to, client_read, take_packet, passed_on, closed, select, deliver,
}

-- The bytes that a round reads from the client.
abbrev pub new_bytes : Result (List ℕ) → List ℕ → List ℕ
new_bytes read (b ∷ bs) = []
new_bytes (err e) [] = []
new_bytes (Error.ok bytes) [] = bytes

abbrev pub read_of : Branch → Forward → List ℕ
read_of shut_down s = []
read_of (from_device client) s = []
read_of (from_client read) s = new_bytes read s.read_buf

-- The bytes that a round on the client's bytes may send.
abbrev pub sent_of : Branch → Forward → List ℕ
sent_of shut_down s = []
sent_of (from_device client) s = []
sent_of (from_client read) s = take s.conn.sendable_bytes (s.read_buf ++ new_bytes read s.read_buf)

-- The payloads of packets, one after the other.
pub payloads : List UsbDevicePacket → List ℕ
payloads [] = []
payloads (p ∷ ps) = Payload.encode p.payload ++ payloads ps

-- The bytes that a round puts into the channel to the device.
abbrev pub sent_between : Forward → Forward → List ℕ
sent_between s t = payloads (put_behind s.tx t.tx)

silent : (tx : Channel UsbDevicePacket) → payloads (put_behind tx tx) ≡ []
unfolding payloads
silent tx = ap payloads (nothing_behind tx)

module _ (x : Extern) where
  one-payloads :
      (c d : UsbDeviceConn) (tx tx' : Channel UsbDevicePacket) (p : UsbDevicePacket)
      → send_packet x c tx p ≡ Conn.done (d, tx')
      → payloads (put_behind tx tx') ≡ Payload.encode p.payload
  unfolding payloads
  one-payloads c d tx tx' p h =
      ap payloads (one_behind tx tx' p (send_packet_done x c d tx tx' p h).0)
      ∙ append-nil (Payload.encode p.payload)

  -- The payload of what `send_bytes` puts into the channel is what it is given.
  sent-payloads :
      (c d : UsbDeviceConn) (tx tx' : Channel UsbDevicePacket) (bytes : List ℕ)
      → send_bytes x c tx bytes ≡ Conn.done (d, tx')
      → payloads (put_behind tx tx') ≡ bytes
  unfolding send_bytes build_bytes
  sent-payloads c d tx tx' bytes h = one-payloads c d tx tx' _ h

  acknowledged-payloads :
      (c : UsbDeviceConn) (rx tx : Channel UsbDevicePacket) (response : UsbDevicePacket)
      (s : Sent UsbDevicePacket)
      → send (own_packet x c ack) tx ≡ s
      → payloads (put_behind tx (acknowledged x c rx tx response s).tx) ≡ []
  unfolding payloads build_ack
  acknowledged-payloads c rx tx response (accepted tx') h =
      ap payloads (one_behind tx tx' (own_packet x c ack) (ground arith))
  acknowledged-payloads c rx tx response refused h = silent tx
  acknowledged-payloads c rx tx response full h = silent tx

  taken-payloads :
      (c : UsbDeviceConn) (rx tx : Channel UsbDevicePacket) (q : List UsbDevicePacket)
      → rx.queue ≡ q
      → payloads (put_behind tx (recv x c rx tx).tx) ≡ []
  unfolding recv
  taken-payloads c rx tx [] h = rw h (silent tx)
  taken-payloads c rx tx (response ∷ rest) h =
      let c' = note_received x c response response.tcp_hdr in
      rw h (
        acknowledged-payloads c' (record rx { queue = rest }) tx response
          (send (own_packet x c' ack) tx) refl)

module _ (x : Extern) (router : Option PacketRouter) where
  closed-goes_on :
      (p : Conn.Progress (UsbDeviceConn × Option PacketRouter × Channel UsbDevicePacket))
      (t : Forward)
      → closed x p ≡ goes_on t
      → ⊥
  closed-goes_on (Conn.done (c, r, tx)) t h = ground arith
  closed-goes_on (Conn.failed e) t h = ground arith
  closed-goes_on Conn.pending t h = ground arith

  passed_on-goes_on :
      (s t : Forward) (rest : List ℕ) (p : Conn.Progress (UsbDeviceConn × Channel UsbDevicePacket))
      → passed_on x s rest p ≡ goes_on t
      → (p ≡ Conn.done (t.conn, t.tx)) × (t.read_buf ≡ rest)
  passed_on-goes_on s t rest (Conn.done (c, tx)) h = ground arith
  passed_on-goes_on s t rest (Conn.failed e) h = ground arith
  passed_on-goes_on s t rest Conn.pending h = ground arith

  taken-goes_on :
      (s t : Forward) (p rest : List ℕ)
      → take_packet x router s (Error.ok (p, rest)) ≡ goes_on t
      → (send_bytes x s.conn s.tx p ≡ Conn.done (t.conn, t.tx)) × (t.read_buf ≡ rest)
  taken-goes_on s t [] rest h = absurd (closed-goes_on (Conn.close x s.conn router s.tx) t h)
  taken-goes_on s t (b ∷ bs) rest h =
      passed_on-goes_on s t rest (send_bytes x s.conn s.tx (b ∷ bs)) h

  read-goes_on :
      (read : Result (List ℕ)) (buf : List ℕ) (n : ℕ) (s t : Forward)
      → take_packet x router s (client_read read buf n) ≡ goes_on t
      → take_packet x router s (Error.ok (split_to n (buf ++ new_bytes read buf))) ≡ goes_on t
  unfolding client_read
  read-goes_on (err e) [] n s t h = ground arith
  read-goes_on (Error.ok bytes) [] n s t h = h
  read-goes_on read (b ∷ bs) n s t h = rw (append-nil bs) h

  -- A round on the client's bytes sends what may be sent of the bytes at hand and keeps the rest.
  pub client_round :
      (read : Result (List ℕ)) (s t : Forward)
      → select x router (from_client read) s ≡ goes_on t
      → (send_bytes x s.conn s.tx (sent_of (from_client read) s) ≡ Conn.done (t.conn, t.tx))
        × (t.read_buf ≡ drop s.conn.sendable_bytes (s.read_buf ++ new_bytes read s.read_buf))
        × (0 < s.conn.sendable_bytes)
  unfolding select
  client_round read s t h =
      let n = s.conn.sendable_bytes in
      let bytes = s.read_buf ++ new_bytes read s.read_buf in
      elim (Bool-cases (ltb 0 n)) [
        | inl may_send ↦
            let (sent, kept) =
              taken-goes_on s t (take n bytes) (drop n bytes)
                (read-goes_on read s.read_buf n s t (ground arith)) in
            (sent, kept, ground arith)
        | inr none_sendable ↦ ground arith
      ]

  -- What the rounds one after the other put into the channel to the device and read from the client, up to the first that does not go
  -- on, and the loop's state there.
  abbrev pub then_on :
      Branch → Forward → Round → (Forward → List ℕ × List ℕ × Forward) → List ℕ × List ℕ × Forward
  then_on b s (goes_on t) again =
      let (sent, read, final) = again t in (sent_between s t ++ sent, read_of b s ++ read, final)
  then_on b s ends again = ([], [], s)
  then_on b s (fails e) again = ([], [], s)
  then_on b s waits again = ([], [], s)

  unfoldable pub run : List Branch → Forward → List ℕ × List ℕ × Forward
  run [] s = ([], [], s)
  run (b ∷ bs) s = then_on b s (select x router b s) (run bs)

  deliver-goes_on :
      (r : RecvState) (s t : Forward) (client : Result (Unit {0})) (o : Received)
      → deliver x r s client o ≡ goes_on t
      → (t.read_buf ≡ s.read_buf) × (t.tx ≡ r.tx)
  deliver-goes_on r s t (err e) (got packet) h = ground arith
  deliver-goes_on r s t (Error.ok u) (got packet) h = ground arith
  deliver-goes_on r s t client (recv_failed e) h = ground arith
  deliver-goes_on r s t client nothing_yet h = ground arith
  deliver-goes_on r s t client ack_waits h = ground arith

  round_keeps :
      (b : Branch) (s t : Forward)
      → select x router b s ≡ goes_on t
      → sent_between s t ++ t.read_buf ≡ s.read_buf ++ read_of b s
  unfolding select
  round_keeps shut_down s t h = ground arith
  round_keeps (from_device client) s t h =
      let r = recv x s.conn s.rx s.tx in
      let (kept, channel) = deliver-goes_on r s t client r.outcome h in
      let nothing : payloads (put_behind s.tx t.tx) ≡ [] =
        ap (λ tx. payloads (put_behind s.tx tx)) channel
        ∙ taken-payloads x s.conn s.rx s.tx s.rx.queue refl in
      ap (λ bytes. bytes ++ t.read_buf) nothing ∙ kept ∙ sym (append-nil s.read_buf)
  round_keeps (from_client read) s t h =
      let (sent, kept, some_room) = client_round read s t h in
      let bytes = s.read_buf ++ new_bytes read s.read_buf in
      ap (λ front. front ++ t.read_buf)
        (sent-payloads x s.conn t.conn s.tx t.tx (sent_of (from_client read) s) sent)
      ∙ ap (λ back. take s.conn.sendable_bytes bytes ++ back) kept
      ∙ take-append-drop s.conn.sendable_bytes bytes

  then_on-sent :
      (b : Branch) (s : Forward) (o : Round) (again : Forward → List ℕ × List ℕ × Forward)
      → select x router b s ≡ o
      → ((t : Forward) → (again t).0 ++ (again t).2.read_buf ≡ t.read_buf ++ (again t).1)
      → (then_on b s o again).0 ++ (then_on b s o again).2.read_buf
        ≡ s.read_buf ++ (then_on b s o again).1
  then_on-sent b s (goes_on t) again h ih =
      let (sent, read, final) = again t in
      append_assoc (sent_between s t) sent final.read_buf
      ∙ ap (λ rest. sent_between s t ++ rest) (ih t)
      ∙ sym (append_assoc (sent_between s t) t.read_buf read)
      ∙ ap (λ front. front ++ read) (round_keeps b s t h)
      ∙ append_assoc s.read_buf (read_of b s) read
  then_on-sent b s ends again h ih = sym (append-nil s.read_buf)
  then_on-sent b s (fails e) again h ih = sym (append-nil s.read_buf)
  then_on-sent b s waits again h ih = sym (append-nil s.read_buf)

  -- Over any rounds, in whatever order the branches run, the payloads of the packets that are put into the channel
  -- to the device, one after the other, and then the bytes still in the buffer, are the bytes read from the client
  -- behind those that were in the buffer, in their order.
  pub run-sent :
      (bs : List Branch) (s : Forward)
      → (run bs s).0 ++ (run bs s).2.read_buf ≡ s.read_buf ++ (run bs s).1
  unfolding run
  run-sent [] s = sym (append-nil s.read_buf)
  run-sent (b ∷ bs) s = then_on-sent b s (select x router b s) (run bs) refl (run-sent bs)
