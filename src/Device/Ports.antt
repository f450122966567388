-- ===== src/Device/Ports.antt =====
-- device/usb.rs: the source ports that a device gives out.
use rusbmux.Base.{ℕ, zero, suc, ◌+◌, ◌%◌, ◌^◌, ◌≡◌, ◌<◌, ap, arith, ◌==◌, if◌then◌else◌}
use rusbmux.Base.Words.{IsU16}
use rusbmux.Error.{Result, ok, err, ran_out_of_source_port}
use rusbmux.Device.{UsbDevice, get_next_source_port}

-- The device after `n` calls of `get_next_source_port`.
pub after_calls : ℕ → UsbDevice → UsbDevice
after_calls zero d = d
after_calls (suc n) d = (get_next_source_port (after_calls n d)).0

after_calls-port :
    (n : ℕ) (d : UsbDevice)
    → IsU16 d.next_source_port
    → (after_calls n d).next_source_port ≡ (d.next_source_port + n) % 2 ^ 16
unfolding after_calls get_next_source_port
after_calls-port zero d h = omega arith
after_calls-port (suc n) d h = omega (arith, after_calls-port n d h)

-- What the next call returns.
abbrev pub port_at : ℕ → UsbDevice → Result ℕ
port_at n d = (get_next_source_port (after_calls n d)).1

abbrev port_or_error : ℕ → Result ℕ
port_or_error p = if p == 0 then err ran_out_of_source_port else ok p

port_at_lem :
    (n : ℕ) (d : UsbDevice)
    → IsU16 d.next_source_port
    → port_at n d ≡ port_or_error ((d.next_source_port + n) % 2 ^ 16)
unfolding get_next_source_port
port_at_lem n d h = ap port_or_error (after_calls-port n d h)

-- A device that starts at port 1 gives out 1 to 65535, each once and in order, and the call after
-- these fails. From then on the ports come again from 1: after 65536 calls more every call returns
-- what it returned before.
pub source_ports :
    (n : ℕ) (d : UsbDevice)
    → d.next_source_port ≡ 1
    → n < 65535
    → (port_at n d ≡ ok (n + 1))
      × (port_at 65535 d ≡ err ran_out_of_source_port)
      × (port_at (n + 65536) d ≡ ok (n + 1))
source_ports n d e h = (
  ground (arith, port_at_lem n d (omega arith)),
  ground (arith, port_at_lem 65535 d (omega arith)),
  ground (arith, port_at_lem (n + 65536) d (omega arith)),
)
