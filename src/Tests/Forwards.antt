-- ===== src/Tests/Forwards.antt =====
-- The theorems about the forwarding of a connection, the system's id and the shutdown of a device, at small inputs.
use rusbmux.Base.{
  ℕ, ◌≡◌, refl, true, false, Bool, none, some, Option, List, [], ◌∷◌, ◌++◌, arith, inl,
}
use rusbmux.Error
use rusbmux.Error.{Result}
use rusbmux.Channel.{bounded}
use rusbmux.DeviceMux.Builder.{rst}
use rusbmux.Conn.{UsbDeviceConn, calc_sendable_bytes, send_bytes, own_packet}
use rusbmux.Backend.{rusb, apple_vid}
use rusbmux.Device.{UsbDevice, opened}
use rusbmux.Device.Table.Closing.{rsts}
use rusbmux.Handler.{Session}
use rusbmux.Handler.Connect.{Forward, Branch, Round, from_client, select, goes_on}
use rusbmux.Handler.Connect.Forwarding.{run, run-sent}
use rusbmux.Handler.Connect.Window.{InWindow, client_round-InWindow}
use rusbmux.Handler.ReadBuid.{ConfigFile, SystemConfig, buid, ConfigLaws}
use rusbmux.Tests.Codec.{plain}

-- A connection with room for two bytes more in the device's window.
abbrev conn : UsbDeviceConn
conn = record {
  device_id = 3;
  sent_bytes = 600;
  received_bytes = 4;
  source_port = 5;
  destination_port = 62078;
  sendable_bytes = 2;
  device_last_window_size = 2;
  device_last_received_bytes = 90;
  dropped = false;
}

abbrev state : Forward
state = record { conn = conn; rx = bounded; tx = bounded; read_buf = []; to_client = [] }

abbrev typed : Branch
typed = from_client (Error.ok (1 ∷ 2 ∷ 3 ∷ []))

run-sent_example :
    (run plain none (typed ∷ typed ∷ []) state).0
      ++ (run plain none (typed ∷ typed ∷ []) state).2.read_buf
    ≡ state.read_buf ++ (run plain none (typed ∷ typed ∷ []) state).1
run-sent_example = run-sent plain none (typed ∷ typed ∷ []) state

conn-InWindow : InWindow conn
unfolding calc_sendable_bytes
conn-InWindow = record {
  fits = omega arith;
  received = omega arith;
  within = omega arith;
  current = refl;
}

abbrev state_of : Round → Forward
state_of (goes_on t) = t
state_of _ = state

abbrev forwarded : Forward
forwarded = state_of (select plain none typed state)

typed-goes_on : select plain none typed state ≡ goes_on forwarded
unfolding select send_bytes
typed-goes_on = refl

client_round-InWindow_example : InWindow forwarded.conn
client_round-InWindow_example =
    client_round-InWindow plain none (Error.ok (1 ∷ 2 ∷ 3 ∷ [])) state forwarded conn-InWindow
      (omega arith) typed-goes_on

abbrev device : UsbDevice
device =
    record (opened 3
      (rusb (record {
        vendor_id = apple_vid;
        product_id = 4776;
        serial = none;
        speed = none;
        bus = 1;
        address = 7;
        hash_id = 0;
      }))
      (record { major = 2; minor = 0; padding = 0 })) { conns = (4, none) ∷ (5, some conn) ∷ [] }

one_alive : rsts plain device.conns ≡ own_packet plain conn rst ∷ []
unfolding rsts
one_alive = refl

abbrev session : Session (List ℕ) (Option (List ℕ))
session = record {
  codec = record { to_xml_bytes = λ v. v; from_bytes = λ bs. some bs };
  result_value = λ n. n ∷ [];
  from_value = λ v. inl λ field. false;
  write = λ bs file. (file, Error.ok tt);
  handle = λ request tag file. (file, Error.ok tt);
}

-- The world is the file; a plist is the id itself.
abbrev is_there : Option (List ℕ) → Bool
is_there none = false
is_there (some id) = true

abbrev config_in : Option (List ℕ) → Result SystemConfig
config_in none = Error.err Error.RusbmuxError.plist
config_in (some id) = Error.ok (buid id)

abbrev config : ConfigFile (List ℕ) (Option (List ℕ))
config = record {
  exists = is_there;
  write = λ bytes file. (some bytes, Error.ok tt);
  from_file = config_in;
  config_bytes = λ id. id;
  buid_value = λ id. id;
}

config-ConfigLaws : ConfigLaws session config
config-ConfigLaws = record {
  write_exists = λ id w w' e. ground arith;
  from_file_write = λ id w w' e. ground arith;
  exists_answer = λ bytes w. refl;
  from_file_answer = λ bytes w. refl;
}
