-- ===== src/Device/Table.antt =====
-- device/usb.rs: the table of a device's connections. A connection is known to the device by a weak
-- pointer; the receiving end of its channel stands in the router under its source port.
pub mod Closing
pub mod Runs
use rusbmux.Base.{ℕ, ◌==◌, not, Bool, true, false, Option, none, some, List, [], ◌∷◌, if◌then◌else◌}
use rusbmux.Base.Map.{get, insert, remove}
use rusbmux.Extern.{Extern}
use rusbmux.Error
use rusbmux.Error.{Result, RusbmuxError}
use rusbmux.Channel.{Channel, bounded}
use rusbmux.Router.{PacketRouter, register, unregister, clear}
use rusbmux.DeviceMux.Packet.{UsbDevicePacket}
use rusbmux.Conn
use rusbmux.Conn.{
  UsbDeviceConn, Progress, done, failed, pending, new_syn, new_answer, new_from, send_rst,
}
use rusbmux.Device.{UsbDevice, get_next_source_port}

-- The receiver of a port is dropped, so that its sender fails.
abbrev pub drop_receiver : ℕ → Option (Channel UsbDevicePacket) → PacketRouter → PacketRouter
drop_receiver port none r = r
drop_receiver port (some c) r = record r {
  conns = insert port (record c { disconnected = true }) r.conns;
}

abbrev pub without_receiver : ℕ → UsbDevice → UsbDevice
without_receiver port d = record d {
  router = drop_receiver port (get port d.router.conns) d.router;
}

abbrev pub receiver_of : ℕ → UsbDevice → Channel UsbDevicePacket
receiver_of port d = elim (get port d.router.conns) [ none ↦ bounded | some c ↦ c ]

abbrev pub add_conn : UsbDeviceConn → UsbDevice → UsbDevice
add_conn c d = record d { conns = insert c.source_port (some c) d.conns }

module _ (x : Extern) where
  -- `connect` up to where it waits for the answer: the port is taken and registered, and the SYN is in
  -- the channel of the writer. Where the SYN cannot be sent, the receiver is dropped.
  abbrev pub after_syn : UsbDevice → ℕ → Progress (Channel UsbDevicePacket) → UsbDevice × Progress ℕ
  after_syn d port (done tx) = (record d { w_tx = tx }, done port)
  after_syn d port (failed e) = (without_receiver port d, failed e)
  after_syn d port pending = (d, pending)

  abbrev pub with_port : UsbDevice → ℕ → Result ℕ → UsbDevice × Progress ℕ
  with_port d destination (Error.err e) = (d, failed e)
  with_port d destination (Error.ok port) =
      let d' = record d { router = register port d.router } in
      after_syn d' port (new_syn x port destination d.w_tx)

  unfoldable pub connect_syn : ℕ → UsbDevice → UsbDevice × Progress ℕ
  unfolding get_next_source_port register
  connect_syn destination d =
      let (d', port) = get_next_source_port d in with_port d' destination port

  -- The rest of `connect`, on what the router has put into the port's channel.
  abbrev pub after_answer :
      UsbDevice
      → ℕ
      → Progress (UsbDeviceConn × Channel UsbDevicePacket × Channel UsbDevicePacket)
      → UsbDevice × Progress UsbDeviceConn
  after_answer d port (done (c, rx, tx)) = (
    add_conn c (record d {
      w_tx = tx;
      router = record (d.router) { conns = insert port rx d.router.conns };
    }),
    done c,
  )
  after_answer d port (failed e) = (without_receiver port d, failed e)
  after_answer d port pending = (d, pending)

  unfoldable pub connect_answer : ℕ → ℕ → UsbDevice → UsbDevice × Progress UsbDeviceConn
  connect_answer destination port d =
      after_answer d port (new_answer x d.id port destination (receiver_of port d) d.w_tx)

  unfoldable pub connect_from : ℕ → ℕ → ℕ → ℕ → ℕ → ℕ → UsbDevice → UsbDevice × UsbDeviceConn
  unfolding register
  connect_from destination port sent received window device_received d =
      let c = new_from d.id destination port sent received window device_received in
      (add_conn c (record d { router = register port d.router }), c)

  -- `conn.close()` of a connection of the device, which marks it, sends the RST and unregisters it.
  abbrev pub after_close :
      UsbDevice
      → Progress (UsbDeviceConn × Option PacketRouter × Channel UsbDevicePacket)
      → Progress UsbDevice
  after_close d (done (c, none, tx)) = done (record d { w_tx = tx })
  after_close d (done (c, some r, tx)) = done (record d { w_tx = tx; router = r })
  after_close d (failed e) = failed e
  after_close d pending = pending

  -- The connection of the removed entry is closed if it is alive and not closed yet.
  abbrev pub close_entry : UsbDevice → Option (Option UsbDeviceConn) → Progress UsbDevice
  close_entry d none = done d
  close_entry d (some none) = done d
  close_entry d (some (some c)) =
      if c.dropped then done d else after_close d (Conn.close x c (some d.router) d.w_tx)

  abbrev pub unregistered : ℕ → Progress UsbDevice → Progress UsbDevice
  unregistered port (done d) = done (record d { router = unregister port d.router })
  unregistered port (failed e) = failed e
  unregistered port pending = pending

  unfoldable pub cleanup_conn : ℕ → UsbDevice → Progress UsbDevice
  unfolding unregister
  cleanup_conn port d =
      unregistered port (close_entry (record d { conns = remove port d.conns }) (get port d.conns))

  -- The loop of `close_all`: an RST for each connection that is alive. The first that cannot be sent ends
  -- it.
  abbrev pub and_rest :
      Progress (Channel UsbDevicePacket)
      → (Channel UsbDevicePacket → Progress (Channel UsbDevicePacket))
      → Progress (Channel UsbDevicePacket)
  and_rest (done tx) rest = rest tx
  and_rest (failed e) rest = failed e
  and_rest pending rest = pending

  unfoldable pub send_rsts :
      List (ℕ × Option UsbDeviceConn) → Channel UsbDevicePacket → Progress (Channel UsbDevicePacket)
  send_rsts [] tx = done tx
  send_rsts ((port, none) ∷ conns) tx = send_rsts conns tx
  send_rsts ((port, some c) ∷ conns) tx = and_rest (send_rst x c tx) λ tx'. send_rsts conns tx'

  abbrev pub cleared : UsbDevice → Progress (Channel UsbDevicePacket) → Progress UsbDevice
  cleared d (done tx) = done (record d { w_tx = tx; router = clear d.router; conns = [] })
  cleared d (failed e) = failed e
  cleared d pending = pending

  unfoldable pub close_all : UsbDevice → Progress UsbDevice
  unfolding clear
  close_all d = cleared d (send_rsts d.conns d.w_tx)

  -- `try_send` fails where `send` waits.
  abbrev pub at_once : {A : Type 0} → Progress A → Progress A
  at_once (done a) = done a
  at_once (failed e) = failed e
  at_once pending = failed Error.RusbmuxError.channel

  unfoldable pub close_all_blocking : UsbDevice → Progress UsbDevice
  unfolding clear
  close_all_blocking d = cleared d (at_once (send_rsts d.conns d.w_tx))

  -- `drop_loops` aborts the tasks. The writer's end of the channel goes with its task, which may be
  -- before or after the rest of the shutdown: `gone` says which.
  abbrev pub stopped : Bool → UsbDevice → UsbDevice
  stopped gone d = record d {
    cancelled = true;
    dropped = true;
    w_tx = if gone then record (d.w_tx) { disconnected = true } else d.w_tx;
  }

  unfoldable pub shutdown : Bool → UsbDevice → Progress UsbDevice
  unfolding close_all
  shutdown gone d = close_all (stopped gone d)

  unfoldable pub shutdown_blocking : Bool → UsbDevice → Progress UsbDevice
  unfolding close_all_blocking
  shutdown_blocking gone d = close_all_blocking (stopped gone d)

  -- `drop`, whose error is ignored.
  unfoldable pub drop : Bool → UsbDevice → Progress UsbDevice
  unfolding shutdown_blocking
  drop gone d = if d.dropped then done d else shutdown_blocking gone d
