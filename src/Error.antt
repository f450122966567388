-- ===== src/Error.antt =====
-- error/mod.rs: the errors of the daemon and the result codes that they are reported by.
use rusbmux.Base.{ℕ}
use rusbmux.Base.Parser.{IoErrorKind, ParseError}

-- handler/mod.rs: `ResultCode`.
pub data ResultCode : Type 0 where
  ok bad_command bad_device_or_no_such_file connection_refused bad_version invalid_input :
      ResultCode

-- `code as u16`
abbrev pub result_code_number : ResultCode → ℕ
result_code_number ok = 0
result_code_number bad_command = 1
result_code_number bad_device_or_no_such_file = 2
result_code_number connection_refused = 3
result_code_number bad_version = 6
result_code_number invalid_input = 22

pub data MissingFields : Type 0 where
  pair_record_id pair_record_data device_id port_number system_buid : MissingFields

abbrev pub result_code : MissingFields → ResultCode
result_code pair_record_id = invalid_input
result_code pair_record_data = invalid_input
result_code system_buid = invalid_input
result_code device_id = bad_device_or_no_such_file
result_code port_number = bad_command

-- The texts inside the errors are left out, and so are the errors of other crates.
pub data RusbmuxError : Type 0 where
  usb : RusbmuxError
  io : IoErrorKind → RusbmuxError
  usbmux_interface_not_found bulk_in_endpoint_not_found bulk_out_endpoint_not_found : RusbmuxError
  parse : ParseError → RusbmuxError
  channel unexpected_packet invalid_data : RusbmuxError
  value_not_found : MissingFields → RusbmuxError
  device_not_found : ℕ → RusbmuxError
  hot_plug_not_supported plist ran_out_of_source_port power_assertion idevice : RusbmuxError

pub data Result {ℓ} (A : Type ℓ) : Type ℓ where
  ok : A → Result A
  err : RusbmuxError → Result A
