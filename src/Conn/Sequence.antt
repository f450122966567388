-- ===== src/Conn/Sequence.antt =====
-- conn/usb.rs: the sequence numbers of what a connection sends over its life. The channel to the device is
-- shared with the other connections and emptied by the writer, so that each operation finds it as it may be.
use rusbmux.Base.{
  ℕ, ◌+◌, ◌≡◌, refl, Option, none, some, List, [], ◌∷◌, ◌++◌, arith, length, drop, drop-append,
  append-nil, inl, inr, Bool-cases, true, sym, ap, ◌∙◌,
}
use rusbmux.Base.Words.{IsU32, as_u32}
use mathlib.Core.Option
use mathlib.Core.Path.{subst}
use rusbmux.Extern.{Extern, TcpHeader}
use rusbmux.Channel.{Channel, Sent, sent, refused, full, send}
use rusbmux.Router.{PacketRouter}
use rusbmux.DeviceMux.Payload
use rusbmux.DeviceMux.Packet.{UsbDevicePacket}
use rusbmux.Conn
use rusbmux.DeviceMux.Builder.{TcpFlags, ack, rst, build_ack, build_bytes, build_plist}
use rusbmux.Conn.{
  update_sendable_bytes, own_packet, acknowledged, note_received, closed_blocking, close_blocking,
  UsbDeviceConn, send_packet, send_bytes, send_plist, send_rst, recv, close, done,
}
use rusbmux.Conn.FlowControl.{send_packet_done}

-- What an operation has put behind the packets of the channel.
abbrev pub put_behind : Channel UsbDevicePacket → Channel UsbDevicePacket → List UsbDevicePacket
put_behind before after = drop (length before.queue) after.queue

-- An operation on a connection, with the packets that it sends and the connection that it leaves. A receive
-- counts whatever it comes to.
pub data Step (x : Extern) (c : UsbDeviceConn) : List UsbDevicePacket → UsbDeviceConn → Type 1 where
  sends :
      (value : List ℕ) (tx tx' : Channel UsbDevicePacket) (d : UsbDeviceConn)
      → send_bytes x c tx value ≡ done (d, tx')
      → Step x c (put_behind tx tx') d
  sends_plist :
      (Value : Type 0) (to_xml : Value → List ℕ) (value : Value) (tx tx' : Channel UsbDevicePacket)
      (d : UsbDeviceConn)
      → send_plist x to_xml c tx value ≡ done (d, tx')
      → Step x c (put_behind tx tx') d
  receives :
      (rx tx : Channel UsbDevicePacket)
      → Step x c (put_behind tx (recv x c rx tx).tx) (recv x c rx tx).conn
  closes :
      (router left : Option PacketRouter) (tx tx' : Channel UsbDevicePacket) (d : UsbDeviceConn)
      → close x c router tx ≡ done (d, left, tx')
      → Step x c (put_behind tx tx') d
  resets :
      (tx tx' : Channel UsbDevicePacket)
      → send_rst x c tx ≡ done tx'
      → Step x c (put_behind tx tx') c
  drops :
      (router : Option PacketRouter) (tx : Channel UsbDevicePacket)
      → Step x c (put_behind tx (Conn.drop x c router tx).2) (Conn.drop x c router tx).0

pub data Run (x : Extern) (c : UsbDeviceConn) : List UsbDevicePacket → UsbDeviceConn → Type 1 where
  here : Run x c [] c
  next :
      (ps qs : List UsbDevicePacket) (d e : UsbDeviceConn)
      → Run x c ps d
      → Step x d qs e
      → Run x c (ps ++ qs) e

abbrev pub sequence_of : UsbDevicePacket → Option ℕ
sequence_of p = Option.map (λ (h : TcpHeader). h.sequence_number) p.tcp_hdr

-- Each packet has a TCP header whose sequence number is where the payload before it ends, modulo 2 ^ 32.
unfoldable pub Contiguous : ℕ → List UsbDevicePacket → ℕ → Type 0
Contiguous n [] m = n ≡ m
Contiguous n (p ∷ ps) m =
    (sequence_of p ≡ some n) × Contiguous (as_u32 (n + Payload.len p.payload)) ps m

pub nothing_behind : (tx : Channel UsbDevicePacket) → put_behind tx tx ≡ []
nothing_behind tx =
    ap (drop (length tx.queue)) (sym (append-nil tx.queue)) ∙ drop-append tx.queue []

pub one_behind :
    (tx tx' : Channel UsbDevicePacket) (p : UsbDevicePacket)
    → tx'.queue ≡ tx.queue ++ p ∷ []
    → put_behind tx tx' ≡ p ∷ []
one_behind tx tx' p e = ap (drop (length tx.queue)) e ∙ drop-append tx.queue (p ∷ [])

append-Contiguous :
    (n : ℕ) (ps qs : List UsbDevicePacket) (m k : ℕ)
    → Contiguous n ps m
    → Contiguous m qs k
    → Contiguous n (ps ++ qs) k
unfolding Contiguous
append-Contiguous n [] qs m k e h = subst (λ i. Contiguous i qs k) (sym e) h
append-Contiguous n (p ∷ ps) qs m k (e, g) h =
    (e, append-Contiguous (as_u32 (n + Payload.len p.payload)) ps qs m k g h)

silent-Contiguous : (n : ℕ) (tx : Channel UsbDevicePacket) → Contiguous n (put_behind tx tx) n
unfolding Contiguous
silent-Contiguous n tx = subst (λ ps. Contiguous n ps n) (sym (nothing_behind tx)) refl

one-Contiguous :
    (n m : ℕ) (tx tx' : Channel UsbDevicePacket) (p : UsbDevicePacket)
    → tx'.queue ≡ tx.queue ++ p ∷ []
    → sequence_of p ≡ some n
    → as_u32 (n + Payload.len p.payload) ≡ m
    → Contiguous n (put_behind tx tx') m
unfolding Contiguous
one-Contiguous n m tx tx' p e s l =
    subst (λ ps. Contiguous n ps m) (sym (one_behind tx tx' p e)) (s, l)

module _ (x : Extern) where
  packet-Contiguous :
      (c d : UsbDeviceConn) (tx tx' : Channel UsbDevicePacket) (p : UsbDevicePacket)
      → send_packet x c tx p ≡ done (d, tx')
      → sequence_of p ≡ some c.sent_bytes
      → Contiguous c.sent_bytes (put_behind tx tx') d.sent_bytes
  packet-Contiguous c d tx tx' p e s =
      let (behind, counted, _) = send_packet_done x c d tx tx' p e in
      one-Contiguous c.sent_bytes d.sent_bytes tx tx' p behind s (omega (arith, counted))

  -- A packet without a payload.
  own-Contiguous :
      (c : UsbDeviceConn) (flags : TcpFlags) (tx tx' : Channel UsbDevicePacket)
      → IsU32 c.sent_bytes
      → send (own_packet x c flags) tx ≡ sent tx'
      → Contiguous c.sent_bytes (put_behind tx tx') c.sent_bytes
  unfolding build_ack
  own-Contiguous c flags tx tx' fits e =
      one-Contiguous c.sent_bytes c.sent_bytes tx tx' (own_packet x c flags) (ground arith) refl
        (omega arith)

  acknowledged-Contiguous :
      (c : UsbDeviceConn) (rx tx : Channel UsbDevicePacket) (response : UsbDevicePacket)
      (s : Sent UsbDevicePacket)
      → IsU32 c.sent_bytes
      → send (own_packet x c ack) tx ≡ s
      → let r = acknowledged x c rx tx response s in
        Contiguous c.sent_bytes (put_behind tx r.tx) r.conn.sent_bytes
  unfolding update_sendable_bytes
  acknowledged-Contiguous c rx tx response (sent tx') fits e = own-Contiguous c ack tx tx' fits e
  acknowledged-Contiguous c rx tx response refused fits e = silent-Contiguous c.sent_bytes tx
  acknowledged-Contiguous c rx tx response full fits e = silent-Contiguous c.sent_bytes tx

  note_sent :
      (c : UsbDeviceConn) (response : UsbDevicePacket) (o : Option TcpHeader)
      → (note_received x c response o).sent_bytes ≡ c.sent_bytes
  note_sent c response none = refl
  note_sent c response (some h) = refl

  taken-Contiguous :
      (c : UsbDeviceConn) (rx tx : Channel UsbDevicePacket) (q : List UsbDevicePacket)
      → IsU32 c.sent_bytes
      → rx.queue ≡ q
      → Contiguous c.sent_bytes (put_behind tx (recv x c rx tx).tx) (recv x c rx tx).conn.sent_bytes
  unfolding recv
  taken-Contiguous c rx tx [] fits e = rw e (silent-Contiguous c.sent_bytes tx)
  taken-Contiguous c rx tx (response ∷ rest) fits e =
      let same = note_sent c response response.tcp_hdr in
      let c' = note_received x c response response.tcp_hdr in
      let rx' = record rx { queue = rest } in
      rw e (
        subst
          (λ n.
            Contiguous n
              (put_behind tx (acknowledged x c' rx' tx response (send (own_packet x c' ack) tx)).tx)
              (acknowledged x c' rx' tx response (send (own_packet x c' ack) tx)).conn.sent_bytes)
          same
          (acknowledged-Contiguous c' rx' tx response (send (own_packet x c' ack) tx)
            (omega (arith, same)) refl))

  reset-Contiguous :
      (c : UsbDeviceConn) (tx tx' : Channel UsbDevicePacket)
      → IsU32 c.sent_bytes
      → send_rst x c tx ≡ done tx'
      → Contiguous c.sent_bytes (put_behind tx tx') c.sent_bytes
  unfolding send_rst
  reset-Contiguous c tx tx' fits e = own-Contiguous c rst tx tx' fits (ground arith)

  close-Contiguous :
      (c d : UsbDeviceConn) (router left : Option PacketRouter) (tx tx' : Channel UsbDevicePacket)
      → IsU32 c.sent_bytes
      → close x c router tx ≡ done (d, left, tx')
      → Contiguous c.sent_bytes (put_behind tx tx') d.sent_bytes
  unfolding close
  close-Contiguous c d router left tx tx' fits e =
      let same : c.sent_bytes ≡ d.sent_bytes = ground arith in
      subst (Contiguous c.sent_bytes (put_behind tx tx')) same
        (own-Contiguous (record c { dropped = true }) rst tx tx' fits (ground arith))

  blocking-Contiguous :
      (c : UsbDeviceConn) (router : Option PacketRouter) (tx : Channel UsbDevicePacket)
      (s : Sent UsbDevicePacket)
      → IsU32 c.sent_bytes
      → send (own_packet x c rst) tx ≡ s
      → let r = closed_blocking x c router tx s in
        Contiguous c.sent_bytes (put_behind tx r.2) r.0.sent_bytes
  blocking-Contiguous c router tx (sent tx') fits e = own-Contiguous c rst tx tx' fits e
  blocking-Contiguous c router tx refused fits e = silent-Contiguous c.sent_bytes tx
  blocking-Contiguous c router tx full fits e = silent-Contiguous c.sent_bytes tx

  drop-Contiguous :
      (c : UsbDeviceConn) (router : Option PacketRouter) (tx : Channel UsbDevicePacket)
      → IsU32 c.sent_bytes
      → Contiguous c.sent_bytes
          (put_behind tx (Conn.drop x c router tx).2)
          (Conn.drop x c router tx).0.sent_bytes
  unfolding Conn.drop close_blocking
  drop-Contiguous c router tx fits = elim (Bool-cases c.dropped) [
    | inl e ↦ rw e (silent-Contiguous c.sent_bytes tx)
    | inr e ↦ rw e (
        blocking-Contiguous (record c { dropped = true }) router tx (send (own_packet x c rst) tx)
          fits refl)
  ]

  Step-Contiguous :
      (c d : UsbDeviceConn) (ps : List UsbDevicePacket)
      → IsU32 c.sent_bytes
      → Step x c ps d
      → Contiguous c.sent_bytes ps d.sent_bytes
  unfolding send_bytes send_plist build_bytes build_plist
  Step-Contiguous c d _ fits (sends value tx tx' _ e) = packet-Contiguous c d tx tx' _ e refl
  Step-Contiguous c d _ fits (sends_plist Value to_xml value tx tx' _ e) =
      packet-Contiguous c d tx tx' _ e refl
  Step-Contiguous c _ _ fits (receives rx tx) = taken-Contiguous c rx tx rx.queue fits refl
  Step-Contiguous c d _ fits (closes router left tx tx' _ e) =
      close-Contiguous c d router left tx tx' fits e
  Step-Contiguous c _ _ fits (resets tx tx' e) = reset-Contiguous c tx tx' fits e
  Step-Contiguous c _ _ fits (drops router tx) = drop-Contiguous c router tx fits

  Contiguous-IsU32 :
      (n : ℕ) (ps : List UsbDevicePacket) (m : ℕ) → IsU32 n → Contiguous n ps m → IsU32 m
  unfolding Contiguous
  Contiguous-IsU32 n [] m fits e = omega (arith, e)
  Contiguous-IsU32 n (p ∷ ps) m fits (e, h) =
      Contiguous-IsU32 (as_u32 (n + Payload.len p.payload)) ps m (omega arith) h

  -- Whatever a connection does, and whatever the channel to the device holds meanwhile, its packets have TCP
  -- sequence numbers without a gap or an overlap: the first has the count of sent bytes that the connection
  -- started with, each further one the number at which the payload before it ends, modulo 2 ^ 32, and the count
  -- that is left is where the last one ends.
  pub Run-Contiguous :
      (c d : UsbDeviceConn) (ps : List UsbDevicePacket)
      → IsU32 c.sent_bytes
      → Run x c ps d
      → Contiguous c.sent_bytes ps d.sent_bytes
  unfolding Contiguous
  Run-Contiguous c _ _ fits here = refl
  Run-Contiguous c _ _ fits (next ps qs d e r s) =
      let before = Run-Contiguous c d ps fits r in
      append-Contiguous c.sent_bytes ps qs d.sent_bytes e.sent_bytes before
        (Step-Contiguous d e qs (Contiguous-IsU32 c.sent_bytes ps d.sent_bytes fits before) s)
