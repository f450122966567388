-- ===== src/Daemon/Cleanup.antt =====
-- daemon.rs: what the cleanup comes to for each device, and the end of the daemon.
use rusbmux.Base.{
  ℕ, ◌+◌, ◌≡◌, ◌≤◌, refl, ap, ◌∙◌, Bool, true, false, Option, none, some, List, [], ◌∷◌, ◌++◌,
  length, arith, All,
}
use rusbmux.Daemon
use rusbmux.Router
use rusbmux.Extern.{Extern}
use rusbmux.Error
use rusbmux.Error.{Result, RusbmuxError, channel}
use rusbmux.Channel.{Channel, capacity}
use rusbmux.DeviceMux.Packet.{UsbDevicePacket}
use rusbmux.Conn.{UsbDeviceConn, done}
use rusbmux.Device.{UsbDevice}
use rusbmux.Device.Table
use rusbmux.Device.Table.{send_rsts, close_all, stopped}
use rusbmux.Device.Table.Closing.{rsts, close_all_done, shutdown_after_abort}
use rusbmux.Devices
use rusbmux.Devices.{Device}
use rusbmux.Watcher.{Connected}
use rusbmux.Daemon.{Ended, logged, cleanup, after_one, push, Host, run}

module _ (x : Extern) where
  -- A USB device whose shutdown has been carried out: an RST for each connection that is alive stands
  -- last in the channel to its writer, and no connection is left.
  closed_usb : UsbDevice → UsbDevice
  closed_usb d = record d {
    cancelled = true;
    dropped = true;
    w_tx = record (d.w_tx) { queue = d.w_tx.queue ++ rsts x d.conns };
    router = record { conns = [] };
    conns = [];
  }

  -- The same where the writer has left its channel and no connection was alive.
  left_usb : UsbDevice → UsbDevice
  left_usb d = record d {
    cancelled = true;
    dropped = true;
    w_tx = record (d.w_tx) { disconnected = true };
    router = record { conns = [] };
    conns = [];
  }

  abbrev without_writer : UsbDevice → List UsbDevicePacket → Ended
  without_writer d [] = Daemon.stopped (Devices.usb (left_usb d))
  without_writer d (p ∷ ps) = logged channel

  -- How the shutdown of a device ends.
  unfoldable pub ended_of : Bool → Device → Ended
  unfolding closed_usb left_usb
  ended_of gone (Devices.network d) =
      Daemon.stopped (Devices.network (record d { cancelled = true }))
  ended_of false (Devices.usb d) = Daemon.stopped (Devices.usb (closed_usb d))
  ended_of true (Devices.usb d) = without_writer d (rsts x d.conns)

  -- The writer has left, or its channel has room for an RST to each connection that is alive.
  abbrev pub HasRoom : Bool → Device → Type 0
  HasRoom gone (Devices.network d) = Unit
  HasRoom true (Devices.usb d) = Unit
  HasRoom false (Devices.usb d) =
      (d.w_tx.disconnected ≡ false) × (length d.w_tx.queue + length (rsts x d.conns) ≤ capacity)

  send_rsts-none :
      (conns : List (ℕ × Option UsbDeviceConn)) (tx : Channel UsbDevicePacket)
      → rsts x conns ≡ []
      → send_rsts x conns tx ≡ done tx
  unfolding send_rsts rsts
  send_rsts-none [] tx h = refl
  send_rsts-none ((port, none) ∷ conns) tx h = send_rsts-none conns tx h
  send_rsts-none ((port, some c) ∷ conns) tx h = absurd (ground arith)

  shutdown_left :
      (d : UsbDevice) → rsts x d.conns ≡ [] → Table.shutdown x true d ≡ done (left_usb d)
  unfolding Table.shutdown close_all left_usb Router.clear
  shutdown_left d h = rw (send_rsts-none d.conns (record (d.w_tx) { disconnected = true }) h) refl

  shutdown_room :
      (d : UsbDevice)
      → d.w_tx.disconnected ≡ false
      → length d.w_tx.queue + length (rsts x d.conns) ≤ capacity
      → Table.shutdown x false d ≡ done (closed_usb d)
  unfolding Table.shutdown closed_usb
  shutdown_room d e l = close_all_done x (stopped x false d) e l

  writer_left :
      (d : UsbDevice) (id : ℕ) (ps : List UsbDevicePacket) (rest : Option (List (ℕ × Ended)))
      → rsts x d.conns ≡ ps
      → (gone : ℕ → Bool)
      → after_one x gone id (Devices.shutdown x true (Devices.usb d)) rest
        ≡ push id (without_writer d ps) rest
  unfolding Devices.shutdown
  writer_left d id [] rest e gone = rw (shutdown_left d e) refl
  writer_left d id (p ∷ ps) rest e gone = rw (shutdown_after_abort x d p ps e) refl

  after_one-ended_of :
      (gone : ℕ → Bool) (id : ℕ) (b : Bool) (d : Device) (rest : Option (List (ℕ × Ended)))
      → HasRoom b d
      → after_one x gone id (Devices.shutdown x b d) rest ≡ push id (ended_of b d) rest
  unfolding Devices.shutdown ended_of
  after_one-ended_of gone id b (Devices.network d) rest h = refl
  after_one-ended_of gone id true (Devices.usb d) rest h =
      writer_left d id (rsts x d.conns) rest refl gone
  after_one-ended_of gone id false (Devices.usb d) rest h = rw (shutdown_room d h.0 h.1) refl

  module _ (gone : ℕ → Bool) where
    abbrev pub ends_of : Connected → List (ℕ × Ended)
    ends_of [] = []
    ends_of ((id, d) ∷ m) = (id, ended_of (gone id) d) ∷ ends_of m

    -- Where the channel to the writer of each USB device has room, or the writer has left it, the cleanup
    -- comes to its end and shuts every device of the table down, in its order: the token of a network device is
    -- cancelled; of a USB device, whose tasks have been aborted, an RST for each connection that is alive is put
    -- into the channel of the writer, and no connection is kept; a USB device whose writer has left while a
    -- connection is alive is an error, which is logged and stops none of the others. Whether an aborted writer
    -- still takes the RSTs out of its channel is not said.
    pub cleanup-ends_of :
        (m : Connected)
        → All (λ (e : ℕ × Device). HasRoom (gone e.0) e.1) m
        → cleanup x gone m ≡ some (ends_of m)
    unfolding cleanup
    cleanup-ends_of [] h = refl
    cleanup-ends_of ((id, d) ∷ m) (room, h) =
        after_one-ended_of gone id (gone id) d (cleanup x gone m) room
        ∙ ap (push id (ended_of (gone id) d)) (cleanup-ends_of m h)

-- Where no handler for SIGTERM can be registered, a daemon that has bound its socket serves no client: it
-- cleans up at once and returns without an error.
pub run_unregistered :
    {World : Type 0} (host : Host World) (w w1 : World)
    → host.socket_exists w ≡ false
    → host.bind w ≡ (w1, Error.ok tt)
    → let w2 =
        host.spawn_watchers
          ((host.set_permissions (host.set_socket_reuseaddr (host.create_dir_all w1).0).0).0) in
      host.registers w2 ≡ false → run host w ≡ (host.clean w2, Error.ok tt)
unfolding run
run_unregistered host w w1 absent binds unregistered = rw (absent, binds, unregistered) refl
