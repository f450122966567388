-- ===== src/Utils.antt =====
-- utils.rs: serial numbers, speeds and the tests for a lost peer. A string is the list of its bytes; the
-- serial numbers of devices are ASCII, so that a cut falls between characters.
use rusbmux.Base.{ℕ, Bool, true, false, List, ◌∷◌, ◌++◌, length, take, drop, ◌==◌, if◌then◌else◌}
use rusbmux.Base.Parser.{
  IoErrorKind, unexpected_eof, connection_reset, connection_aborted, broken_pipe,
}
use rusbmux.Error.{RusbmuxError}

-- The speeds of both USB crates; `other` is any that the source does not name.
pub data Speed : Type 0 where
  low full high super super_plus other : Speed

abbrev pub speed_to_number : Speed → ℕ
speed_to_number low = 1500000
speed_to_number full = 12000000
speed_to_number high = 480000000
speed_to_number super = 5000000000
speed_to_number super_plus = 10000000000
speed_to_number other = 0

-- A serial number of 24 characters gets a dash behind the first eight.
unfoldable pub get_serial_number : List ℕ → List ℕ
get_serial_number serial_num =
    if length serial_num == 24 then take 8 serial_num ++ b'-' ∷ drop 8 serial_num else serial_num

-- The errors that mean that the other side is gone.
unfoldable pub is_disconnect_io : IoErrorKind → Bool
is_disconnect_io unexpected_eof = true
is_disconnect_io connection_reset = true
is_disconnect_io connection_aborted = true
is_disconnect_io broken_pipe = true
is_disconnect_io _ = false

unfoldable pub is_disconnect : RusbmuxError → Bool
is_disconnect (RusbmuxError.io kind) = is_disconnect_io kind
is_disconnect _ = false
