-- ===== src/Device/Table/Closing.antt =====
-- device/usb.rs: what closing the connections of a device does.
use rusbmux.Base.{
  ℕ, ◌+◌, ◌≡◌, ◌≤◌, refl, ap, ◌∙◌, true, false, Option, none, some, List, [], ◌∷◌, ◌++◌, arith,
  length, length-append, append_assoc, append-nil, ◌==◌, if◌then◌else◌,
}
use rusbmux.Base.Map.{get, remove, get-remove}
use rusbmux.Extern.{Extern}
use rusbmux.Error
use rusbmux.Channel.{Channel, capacity}
use rusbmux.DeviceMux.Packet.{UsbDevicePacket}
use rusbmux.DeviceMux.Builder.{rst}
use rusbmux.Router.{unregister, clear}
use rusbmux.Conn
use rusbmux.Conn.{UsbDeviceConn, Progress, done, failed, pending, send_rst, own_packet}
use rusbmux.Device.{UsbDevice}
use rusbmux.Device.Table.{send_rsts, close_all, cleanup_conn, shutdown, unregistered, close_entry}

-- The connection of an entry is that of the entry's port.
abbrev pub IsOwn : ℕ → Option (Option UsbDeviceConn) → Type 0
IsOwn port (some (some c)) = c.source_port ≡ port
IsOwn port _ = Unit

module _ (x : Extern) where
  -- One RST for each connection that is alive, in the order of the table.
  unfoldable pub rsts : List (ℕ × Option UsbDeviceConn) → List UsbDevicePacket
  rsts [] = []
  rsts ((port, none) ∷ conns) = rsts conns
  rsts ((port, some c) ∷ conns) = own_packet x c rst ∷ rsts conns

  send_rsts-done :
      (conns : List (ℕ × Option UsbDeviceConn)) (tx : Channel UsbDevicePacket)
      → tx.disconnected ≡ false
      → length tx.queue + length (rsts conns) ≤ capacity
      → send_rsts x conns tx ≡ done (record tx { queue = tx.queue ++ rsts conns })
  unfolding send_rsts rsts send_rst
  send_rsts-done [] tx d l = rw (append-nil tx.queue) refl
  send_rsts-done ((port, none) ∷ conns) tx d l = send_rsts-done conns tx d l
  send_rsts-done ((port, some c) ∷ conns) tx d l =
      let p = own_packet x c rst in
      let tx' = record tx { queue = tx.queue ++ p ∷ [] } in
      ground (
        arith,
        append_assoc tx.queue (p ∷ []) (rsts conns),
        length-append tx.queue (p ∷ []),
        send_rsts-done conns tx' d,
      )

  -- Where the channel to the writer has room, `close_all` puts one RST for each connection that is alive
  -- into it, in order, and leaves no connection in the table and none in the router.
  pub close_all_done :
      (d : UsbDevice)
      → d.w_tx.disconnected ≡ false
      → length d.w_tx.queue + length (rsts d.conns) ≤ capacity
      → close_all x d
        ≡ done (record d {
          w_tx = record (d.w_tx) { queue = d.w_tx.queue ++ rsts d.conns };
          router = record { conns = [] };
          conns = [];
        })
  unfolding close_all clear
  close_all_done d e l = rw (send_rsts-done d.conns d.w_tx e l) refl

  send_rsts-refused :
      (conns : List (ℕ × Option UsbDeviceConn)) (tx : Channel UsbDevicePacket) (p : UsbDevicePacket)
      (ps : List UsbDevicePacket)
      → tx.disconnected ≡ true
      → rsts conns ≡ p ∷ ps
      → send_rsts x conns tx ≡ failed Error.RusbmuxError.channel
  unfolding send_rsts rsts send_rst
  send_rsts-refused [] tx p ps d e = ground arith
  send_rsts-refused ((port, none) ∷ conns) tx p ps d e = send_rsts-refused conns tx p ps d e
  send_rsts-refused ((port, some c) ∷ conns) tx p ps d e = ground arith

  -- A shutdown aborts the writer first. Where its end of the channel is gone by the time that the RSTs
  -- are sent, and a connection is alive, the shutdown fails and no RST is sent.
  pub shutdown_after_abort :
      (d : UsbDevice) (p : UsbDevicePacket) (ps : List UsbDevicePacket)
      → rsts d.conns ≡ p ∷ ps
      → shutdown x true d ≡ failed Error.RusbmuxError.channel
  unfolding shutdown close_all
  shutdown_after_abort d p ps e =
      rw (send_rsts-refused d.conns (record (d.w_tx) { disconnected = true }) p ps refl e) refl

  close_entry-done :
      (d e : UsbDevice) (port j : ℕ) (entry : Option (Option UsbDeviceConn))
      → IsOwn port entry
      → close_entry x d entry ≡ done e
      → (e.conns ≡ d.conns)
        × (get j (unregister port e.router).conns
            ≡ (if port == j then none else get j d.router.conns))
  unfolding unregister Conn.close
  close_entry-done d e port j none own h = ground (arith, get-remove port j d.router.conns)
  close_entry-done d e port j (some none) own h = ground (arith, get-remove port j d.router.conns)
  close_entry-done d e port j (some (some c)) own h =
      ground
        (arith, get-remove port j d.router.conns, get-remove port j (remove port d.router.conns))

  unregistered-done :
      (port : ℕ) (p : Progress UsbDevice) (e : UsbDevice)
      → unregistered x port p ≡ done e
      → (m : UsbDevice) × (p ≡ done m) × (e ≡ record m { router = unregister port m.router })
  unregistered-done port (done m) e h = (m, refl, ground arith)
  unregistered-done port (failed c) e h = ground arith
  unregistered-done port pending e h = ground arith

  -- Where `cleanup_conn` succeeds, the port is in neither the table nor the router, and the entries of the
  -- other ports are as they were.
  pub cleanup_conn_done :
      (d e : UsbDevice) (port j : ℕ)
      → IsOwn port (get port d.conns)
      → cleanup_conn x port d ≡ done e
      → (get j e.conns ≡ (if port == j then none else get j d.conns))
        × (get j e.router.conns ≡ (if port == j then none else get j d.router.conns))
  unfolding cleanup_conn
  cleanup_conn_done d e port j own h =
      let d1 = record d { conns = remove port d.conns } in
      let (m, run, same) = unregistered-done port (close_entry x d1 (get port d.conns)) e h in
      let (conns, routes) = close_entry-done d1 m port j (get port d.conns) own run in
      (
        ap (λ (v : UsbDevice). get j v.conns) same ∙ ap (get j) conns ∙ get-remove port j d.conns,
        ap (λ (v : UsbDevice). get j v.router.conns) same ∙ routes,
      )
