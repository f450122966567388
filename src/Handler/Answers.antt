-- ===== src/Handler/Answers.antt =====
-- handler: what the handlers share, runs that may fail over the state of a session, and the write of one plist.
use rusbmux.Base.{ℕ, List, [], ◌∷◌}
use rusbmux.Error
use rusbmux.Error.{Result, err}
use rusbmux.UsbMux.Kinds.{UsbMuxVersion, message_plist}
use rusbmux.UsbMux.Packet.{encode_from}
use rusbmux.Handler.{Session}

abbrev pub Ran : Type 0 → Type 0
Ran World = World × Result (Unit {0})

-- `?`: the rest runs if this succeeds.
abbrev pub and_then : {World : Type 0} → Ran World → (World → Ran World) → Ran World
and_then (w, Error.ok u) k = k w
and_then (w, err e) k = (w, err e)

module _ {Value World : Type 0} (x : Session Value World) where
  abbrev pub packet_of : Value → ℕ → List ℕ
  packet_of v tag =
      encode_from x.codec (x.codec.to_xml_bytes v) UsbMuxVersion.plist message_plist tag

  abbrev pub answer : Value → ℕ → World → Ran World
  answer v tag = x.write (packet_of v tag)

  -- One answer for each value, until one fails.
  abbrev pub answer_all : List Value → ℕ → World → Ran World
  answer_all [] tag w = (w, Error.ok tt)
  answer_all (v ∷ vs) tag w = and_then (answer v tag w) (answer_all vs tag)
