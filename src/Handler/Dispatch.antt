-- ===== src/Handler/Dispatch.antt =====
-- handler/mod.rs: the choice of a handler for a request, with the handlers of the daemon put in.
use rusbmux.Base.{ℕ, ◌≡◌, refl, Bool, true, false, Option, none, some, List, inr}
use rusbmux.Error
use rusbmux.Error.{Result}
use rusbmux.UsbMux.Kinds.{message_plist}
use rusbmux.UsbMux.Packet.{UsbMuxPacket, as_plist}
use rusbmux.UsbMux.Request
use rusbmux.UsbMux.Request.{UsbMuxRequest}
use rusbmux.Devices.{Device}
use rusbmux.Watcher.{Connected, DeviceEvent}
use rusbmux.Handler.{Session, continues, handle_message}
use rusbmux.Handler.Answers.{Ran, packet_of}
use rusbmux.Handler.DeviceList.{Messages, devices_plist, handle_device_list, handle_listeners_list}
use rusbmux.Handler.Listen.{handle_listen}
use rusbmux.Handler.Connect.{handle_connect}
use rusbmux.Handler.ReadBuid.{ConfigFile, handle_read_buid}
use rusbmux.Handler.PairRecords.{
  Store, handle_read_pair_record, handle_save_pair_record, handle_delete_pair_record,
}

-- What the handlers find in the daemon: the table, the receivers of the events if their channel exists, the events that
-- are still to come, a new id for the system, and what a connection is and does.
pub record Daemon (Value World C : Type 0) : Type 0 where
  pub af_inet : ℕ
  pub af_inet6 : ℕ
  pub messages : Messages Value
  pub store : Store Value World
  pub config : ConfigFile Value World
  pub table : World → Connected
  pub receivers : World → Option ℕ
  pub to_come : World → List (Connected × DeviceEvent)
  pub new_id : World → List ℕ
  pub connects : ℕ → Device → World → World × Result C
  pub forward : C → World → Ran World

abbrev subscribed : Option ℕ → Bool
subscribed none = false
subscribed (some n) = true

module _ {Value World C : Type 0} (x : Session Value World) (d : Daemon Value World C) where
  unfoldable pub dispatch : UsbMuxRequest → ℕ → World → Ran World
  dispatch (Request.list_devices c) tag w =
      handle_device_list d.af_inet d.af_inet6 x d.messages (d.table w) tag w
  dispatch (Request.listen c) tag w =
      handle_listen d.af_inet d.af_inet6 x d.messages (subscribed (d.receivers w)) (d.table w)
        (d.to_come w) tag w
  dispatch (Request.list_listeners c) tag w =
      handle_listeners_list x d.messages (d.receivers w) tag w
  dispatch (Request.read_pair_record c id) tag w = handle_read_pair_record x d.store id tag w
  dispatch (Request.connect c device_id port) tag w =
      handle_connect x (d.connects port) d.forward device_id (d.table w) tag w
  dispatch (Request.read_buid c) tag w = handle_read_buid x d.config (d.new_id w) tag w
  dispatch (Request.save_pair_record c id content device_id) tag w =
      handle_save_pair_record x d.store id content device_id tag w
  dispatch (Request.delete_pair_record c id) tag w = handle_delete_pair_record x d.store id tag w

  -- The session with these handlers.
  abbrev pub served : Session Value World
  served = record x { handle = dispatch }

  -- A client that asks for the devices gets the list of the table under the tag of its packet, where the answer can be
  -- written, and its session goes on.
  pub handle_message-served :
      (packet : UsbMuxPacket Value) (v : Value) (c : Request.UsbMuxCommon) (w w' : World)
      → packet.header.msg_type ≡ message_plist
      → as_plist packet.payload ≡ some v
      → x.from_value v ≡ inr (Request.list_devices c)
      → x.write
          (packet_of x
            (devices_plist d.af_inet d.af_inet6 x d.messages (d.table w))
            packet.header.tag)
          w
        ≡ (w', Error.ok tt)
      → handle_message served packet w ≡ (w', continues)
  unfolding handle_message dispatch handle_device_list
  handle_message-served packet v c w w' typed plist request wrote =
      rw (typed, plist, request, wrote) refl
