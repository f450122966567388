-- ===== src/Devices/Connecting.antt =====
-- device/mod.rs: `Device::connect`. The handshake with a USB device and the TCP streams are parameters.
use rusbmux.Base.{ℕ}
use rusbmux.Error.{Result, ok, err}
use rusbmux.NetworkDevice.{SocketAddr}
use rusbmux.Device.{UsbDevice}
use rusbmux.Devices.{Device}
use rusbmux.Devices
use rusbmux.Conn.{UsbDeviceConn}
use rusbmux.Conn.Network
use rusbmux.Conn.Network.{NetworkDeviceConn}
use rusbmux.Conn.Either
use rusbmux.Conn.Either.{DeviceConn}

module _ {Stream World : Type 0}
    (usb_connect : ℕ → UsbDevice → World → World × Result UsbDeviceConn)
    (tcp_connect : SocketAddr → World → World × Result Stream) where
  abbrev over_usb : World × Result UsbDeviceConn → World × Result (DeviceConn Stream)
  over_usb (w, ok c) = (w, ok (Either.usb c))
  over_usb (w, err e) = (w, err e)

  abbrev over_network :
      World × Result (NetworkDeviceConn Stream) → World × Result (DeviceConn Stream)
  over_network (w, ok c) = (w, ok (Either.network c))
  over_network (w, err e) = (w, err e)

  unfoldable pub connect : ℕ → Device → World → World × Result (DeviceConn Stream)
  unfolding Network.connect
  connect port (Devices.usb d) w = over_usb (usb_connect port d w)
  connect port (Devices.network d) w = over_network (Network.connect tcp_connect port d w)
