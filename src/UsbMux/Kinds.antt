-- ===== src/UsbMux/Kinds.antt =====
-- parser/usbmux.rs: the enumerations of the protocol, and the numbers and names they stand for.
use Prim.Native.String.{String}
use text.Mathlib.Text.{◌==◌ as str_eq}
use text.Mathlib.TextEquality.{eq_iff}
use rusbmux.Base.{ℕ, ◌≡◌, refl, ◌↔◌, Option, none, some, arith, ◌==◌, if◌then◌else◌}

pub data UsbMuxVersion : Type 0 where
  binary plist : UsbMuxVersion

-- `self as u32`
abbrev pub version_number : UsbMuxVersion → ℕ
version_number binary = 0
version_number plist = 1

unfoldable pub version_try_from : ℕ → Option UsbMuxVersion
version_try_from v = if v == 0 then some binary else if v == 1 then some plist else none

pub data UsbMuxMsgType : Type 0 where
  result connect listen device_add device_remove device_paired message_plist : UsbMuxMsgType

abbrev pub msg_type_number : UsbMuxMsgType → ℕ
msg_type_number result = 1
msg_type_number connect = 2
msg_type_number listen = 3
msg_type_number device_add = 4
msg_type_number device_remove = 5
msg_type_number device_paired = 6
msg_type_number message_plist = 8

unfoldable pub msg_type_try_from : ℕ → Option UsbMuxMsgType
msg_type_try_from v =
    if v == 1
    then some result
    else if v == 2
    then some connect
    else if v == 3
    then some listen
    else if v == 4
    then some device_add
    else if v == 5
    then some device_remove
    else if v == 6
    then some device_paired
    else if v == 8
    then some message_plist
    else none

pub data UsbMuxResult : Type 0 where
  ok bad_command bad_dev conn_refused bad_version : UsbMuxResult

abbrev pub result_number : UsbMuxResult → ℕ
result_number ok = 0
result_number bad_command = 1
result_number bad_dev = 2
result_number conn_refused = 3
result_number bad_version = 6

unfoldable pub result_try_from : ℕ → Option UsbMuxResult
result_try_from v =
    if v == 0
    then some ok
    else if v == 1
    then some bad_command
    else if v == 2
    then some bad_dev
    else if v == 3
    then some conn_refused
    else if v == 6
    then some bad_version
    else none

pub data PayloadMessageType : Type 0 where
  listens list_devices list_listeners read_buid read_pair_record : PayloadMessageType
  save_pair_record delete_pair_record connects : PayloadMessageType

-- `Display`
abbrev pub display : PayloadMessageType → String
display listens = "Listen"
display list_devices = "ListDevices"
display list_listeners = "ListListeners"
display read_buid = "ReadBUID"
display read_pair_record = "ReadPairRecord"
display save_pair_record = "SavePairRecord"
display delete_pair_record = "DeletePairRecord"
display connects = "Connect"

unfoldable pub message_try_from : String → Option PayloadMessageType
message_try_from s =
    if str_eq s "Listen"
    then some listens
    else if str_eq s "ListDevices"
    then some list_devices
    else if str_eq s "ListListeners"
    then some list_listeners
    else if str_eq s "ReadBUID"
    then some read_buid
    else if str_eq s "ReadPairRecord"
    then some read_pair_record
    else if str_eq s "SavePairRecord"
    then some save_pair_record
    else if str_eq s "DeletePairRecord"
    then some delete_pair_record
    else if str_eq s "Connect"
    then some connects
    else none

pub version_try_from-version_number :
    (v : UsbMuxVersion) → version_try_from (version_number v) ≡ some v
unfolding version_try_from
version_try_from-version_number binary = refl
version_try_from-version_number plist = refl

pub msg_type_try_from-msg_type_number :
    (m : UsbMuxMsgType) → msg_type_try_from (msg_type_number m) ≡ some m
unfolding msg_type_try_from
msg_type_try_from-msg_type_number result = refl
msg_type_try_from-msg_type_number connect = refl
msg_type_try_from-msg_type_number listen = refl
msg_type_try_from-msg_type_number device_add = refl
msg_type_try_from-msg_type_number device_remove = refl
msg_type_try_from-msg_type_number device_paired = refl
msg_type_try_from-msg_type_number message_plist = refl

message_try_from-display : (m : PayloadMessageType) → message_try_from (display m) ≡ some m
unfolding message_try_from
message_try_from-display listens = refl
message_try_from-display list_devices = refl
message_try_from-display list_listeners = refl
message_try_from-display read_buid = refl
message_try_from-display read_pair_record = refl
message_try_from-display save_pair_record = refl
message_try_from-display delete_pair_record = refl
message_try_from-display connects = refl

result_try_from-result_number : (r : UsbMuxResult) → result_try_from (result_number r) ≡ some r
unfolding result_try_from
result_try_from-result_number ok = refl
result_try_from-result_number bad_command = refl
result_try_from-result_number bad_dev = refl
result_try_from-result_number conn_refused = refl
result_try_from-result_number bad_version = refl

result_number-result_try_from :
    (n : ℕ) (r : UsbMuxResult) → result_try_from n ≡ some r → result_number r ≡ n
unfolding result_try_from
result_number-result_try_from n r h = ground arith

version_number-version_try_from :
    (n : ℕ) (v : UsbMuxVersion) → version_try_from n ≡ some v → version_number v ≡ n
unfolding version_try_from
version_number-version_try_from n v h = ground arith

msg_type_number-msg_type_try_from :
    (n : ℕ) (m : UsbMuxMsgType) → msg_type_try_from n ≡ some m → msg_type_number m ≡ n
unfolding msg_type_try_from
msg_type_number-msg_type_try_from n m h = ground arith

display-message_try_from :
    (s : String) (m : PayloadMessageType) → message_try_from s ≡ some m → display m ≡ s
unfolding message_try_from
display-message_try_from s m h = ground (
  arith,
  eq_iff s "Listen",
  eq_iff s "ListDevices",
  eq_iff s "ListListeners",
  eq_iff s "ReadBUID",
  eq_iff s "ReadPairRecord",
  eq_iff s "SavePairRecord",
  eq_iff s "DeletePairRecord",
  eq_iff s "Connect",
)

-- The number of every enumeration is read back as its variant, and a number or a name is accepted
-- only if it is that of the variant that it gives: the four tables are partial inverses.
pub kinds_inverse :
    (v : UsbMuxVersion) (m : UsbMuxMsgType) (r : UsbMuxResult) (t : PayloadMessageType) (n : ℕ)
    (s : String)
    → ((version_try_from n ≡ some v) ↔ (version_number v ≡ n))
      × ((msg_type_try_from n ≡ some m) ↔ (msg_type_number m ≡ n))
      × ((result_try_from n ≡ some r) ↔ (result_number r ≡ n))
      × ((message_try_from s ≡ some t) ↔ (display t ≡ s))
kinds_inverse v m r t n s = (
  (version_number-version_try_from n v, λ e. rw (← e) (version_try_from-version_number v)),
  (msg_type_number-msg_type_try_from n m, λ e. rw (← e) (msg_type_try_from-msg_type_number m)),
  (result_number-result_try_from n r, λ e. rw (← e) (result_try_from-result_number r)),
  (display-message_try_from s t, λ e. rw (← e) (message_try_from-display t)),
)
