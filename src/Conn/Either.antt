-- ===== src/Conn/Either.antt =====
-- conn/mod.rs: `DeviceConn`, a connection to a USB or to a network device.
use rusbmux.Base.{ℕ, Option, none, some}
use rusbmux.Extern.{Extern}
use rusbmux.Channel.{Channel}
use rusbmux.Router.{PacketRouter}
use rusbmux.DeviceMux.Packet.{UsbDevicePacket}
use rusbmux.Conn
use rusbmux.Conn.{UsbDeviceConn, Progress, done, failed, pending}
use rusbmux.Devices.{ConnectionType, over_usb, over_network}
use rusbmux.Conn.Network.{NetworkDeviceConn}

pub data DeviceConn (Stream : Type 0) : Type 0 where
  network : NetworkDeviceConn Stream → DeviceConn Stream
  usb : UsbDeviceConn → DeviceConn Stream

module _ {Stream : Type 0} where
  abbrev pub device_id : DeviceConn Stream → ℕ
  device_id (usb c) = c.device_id
  device_id (network c) = c.device_id

  abbrev pub dst_port : DeviceConn Stream → ℕ
  dst_port (usb c) = c.destination_port
  dst_port (network c) = c.destination_port

  abbrev pub as_network : DeviceConn Stream → Option (NetworkDeviceConn Stream)
  as_network (network c) = some c
  as_network (usb c) = none

  abbrev pub as_usb : DeviceConn Stream → Option UsbDeviceConn
  as_usb (network c) = none
  as_usb (usb c) = some c

  abbrev pub connection_type : DeviceConn Stream → ConnectionType
  connection_type (usb c) = over_usb
  connection_type (network c) = over_network

  abbrev of_usb :
      Progress (UsbDeviceConn × Option PacketRouter × Channel UsbDevicePacket)
      → Progress (DeviceConn Stream × Option PacketRouter × Channel UsbDevicePacket)
  of_usb (done (c, r, tx)) = done (usb c, r, tx)
  of_usb (failed e) = failed e
  of_usb pending = pending

  -- A connection to a network device is closed by dropping it.
  unfoldable pub close :
      Extern
      → DeviceConn Stream
      → Option PacketRouter
      → Channel UsbDevicePacket
      → Progress (DeviceConn Stream × Option PacketRouter × Channel UsbDevicePacket)
  unfolding Conn.close
  close x (usb c) r tx = of_usb (Conn.close x c r tx)
  close x (network c) r tx = done (network c, r, tx)
