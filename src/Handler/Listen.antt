-- ===== src/Handler/Listen.antt =====
-- handler/listen.rs: a client that listens gets the devices that are connected, and then every event.
pub mod Start
pub mod Following
use rusbmux.Base.{ℕ, Bool, true, false, Option, none, some, List, [], ◌∷◌}
use rusbmux.Base.Map.{get}
use rusbmux.Error
use rusbmux.Error.{
  Result, err, ResultCode, RusbmuxError, hot_plug_not_supported, bad_device_or_no_such_file,
}
use rusbmux.Devices
use rusbmux.Devices.{Device}
use rusbmux.Watcher.{Connected, DeviceEvent, attached, detached}
use rusbmux.Handler.{Session, send_result}
use rusbmux.Handler.Answers.{Ran, and_then, answer, answer_all}
use rusbmux.Handler.DeviceList.{Messages, listed, values, attached_values}

module _ (af_inet af_inet6 : ℕ) {Value World : Type 0} (x : Session Value World)
    (g : Messages Value) where
  unfoldable pub send_currently_connected : Connected → ℕ → World → Ran World
  unfolding listed
  send_currently_connected m tag =
      answer_all x (attached_values af_inet af_inet6 x g (values (listed m))) tag

  -- A device that has gone before its event is taken is passed over.
  abbrev pub attach_event : Option Device → ℕ → World → Ran World
  attach_event none tag w = (w, Error.ok tt)
  attach_event (some d) tag w =
      answer x (g.attached_value (Devices.create_device_attached af_inet af_inet6 d)) tag w

  unfoldable pub send_event : Connected → DeviceEvent → ℕ → World → Ran World
  send_event m (attached id) tag w = attach_event (get id m) tag w
  send_event m (detached id) tag w = answer x (g.detached_value id) tag w

  -- The events in the order of the channel, each with the table as it is when the event is taken; the loop ends
  -- without an error where the channel is closed or has dropped an event.
  unfoldable pub send_events : List (Connected × DeviceEvent) → ℕ → World → Ran World
  unfolding send_event
  send_events [] tag w = (w, Error.ok tt)
  send_events ((m, event) ∷ rest) tag w = and_then (send_event m event tag w) (send_events rest tag)

  -- `subscribed`: whether the channel of the events exists, from which on its events are kept.
  unfoldable pub handle_listen :
      Bool → Connected → List (Connected × DeviceEvent) → ℕ → World → Ran World
  unfolding send_currently_connected send_events send_result
  handle_listen false m events tag w =
      and_then (send_result x bad_device_or_no_such_file tag w)
        λ w'. (w', err hot_plug_not_supported)
  handle_listen true m events tag w =
      and_then (send_result x ResultCode.ok tag w)
        λ w'. and_then (send_currently_connected m tag w') (send_events events tag)
