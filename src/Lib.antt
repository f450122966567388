-- ===== src/Lib.antt =====
-- rusbmux is a multiplexer daemon for iOS devices: clients speak the usbmux protocol to it over a
-- socket, and it speaks TCP-like packets, framed by a device header, over the bulk endpoints of a
-- USB device. This library models the packet codecs, the router, the connections and the loops of
-- a device.
--
-- The parts and the files that model them (paths from the repository's root):
--
-- - Base, Base/*: lists over the native numbers, machine words as bytes, the parser monad (a reply
--   is a value, an error of error/mod.rs with the bytes that are left, a panic, or undefined
--   behaviour) and the association list that stands for a DashMap. Sharding of a DashMap shows
--   only in `Router.route`.
-- - Extern: what is used of the crate etherparse (TCP headers) and of lossy UTF-8 decoding, as a
--   record of functions, with the behaviour that the proofs rely on in a second record,
--   `ExternLaws`. Tests/Codec fills both.
-- - Error: src/error/mod.rs and the result codes of src/handler/mod.rs, without texts.
-- - Channel: the bounded channels of the crate crossfire, a queue of at most 256. A send that
--   would wait is a value of its own.
-- - DeviceMux/*: src/parser/device_mux/mod.rs (Protocol, Header, Payload, Packet) and builder.rs
--   (Builder). `from_slice` takes bytes from the front of a list, as the source advances its
--   slice; `from_reader` reads a stream that gives a list of bytes and then fails with a given
--   kind of error. Packet/Parts says what a well-formed packet is; RoundTrip, Reading, Leaving and
--   Faults hold what the readers do on such packets, on any input, and on malformed input.
-- - UsbMux/*: src/parser/usbmux.rs. The plist crate is a parameter, `PlistCodec`; the host is
--   little-endian.
-- - Router: src/device/packet_router.rs. A packet is routed by the destination port of its TCP
--   header to the sending end of a connection's channel.
-- - Conn: src/conn/usb.rs. An operation takes the connection and the channel to the device, and
--   returns both; an operation that would wait says so. `new` is two functions, before and after
--   the wait. Conn/Network: src/conn/network.rs, over a stream that is a parameter; Conn/Either:
--   src/conn/mod.rs, the choice between the two kinds. Sequence takes the operations together, as
--   a step relation.
-- - Device: src/device/usb.rs: the counters; Writer, the loop that numbers and writes the packets
--   of all connections; Reader, the loop that reads packets and gives them to the router; Opening,
--   the exchange of versions that comes first; Table, the connections by port with connect, close
--   and shutdown, and Table/Runs what can happen to it as a step relation; Attached, the message
--   that tells a client of the device. The endpoint that is written to is a log of writes, flushes
--   and ends of transfers, and what a device answers is a function of that log.
-- - Utils: src/utils.rs.
-- - Backend: src/usb_backend/mod.rs, the identifiers of a device on Linux; Hotplug,
--   `watch_devices` of rusb.rs and nusb.rs; Descriptors, `device_endpoints` of both; Rusb/Polling,
--   Rusb/Reader and Rusb/Writer, the three state machines of src/usb_backend/rusb.rs; Rusb/Memory,
--   the buffers and transfers behind its raw pointers, as a heap in which a wrong free or read is
--   a fault of its own; Opening, the choice of the configuration and its switch; Endpoints, the
--   values of an opened device. What libusb answers (listings, whether it takes a transfer, what a
--   transfer comes to) is an argument of each step.
-- - NetworkDevice: src/device/network.rs, with `new`; Power: src/device/power_assertion.rs, and
--   Power/Renewal its task; Heartbeat, the rounds of its task; Attached, its message, with the
--   socket address in the layout of Linux on a little-endian host.
-- - Driver: windows/rusbmux-usb-win-driver/src: Text and Listing, the parser of the listing of
--   pnputil; Uninstall and Install, the two commands over calls of pnputil and wdi_rs that are
--   parameters. Listing/Blocks and Uninstall/Rounds are proofs.
-- - Devices: src/device/mod.rs, a USB or a network device, and Devices/Connecting its connections.
-- - Watcher: src/watcher: the table of devices, and each branch of the two watchers as a function
--   from the table to the table and the events that are broadcast. Search and Registry have the
--   lemmas and the invariant of the table, Steps its step relation; View says what a client that
--   gets the events knows, Unplugged and Plugged what it learns of USB devices; Stream is
--   `watch_usb`, the USB devices that could be opened; Resolve is the choice of a device for a
--   service that mDNS has resolved; Services, the events of mDNS that `watch_network` goes by;
--   Loops, the loops of both watchers as a fold over what happens, with the tasks that wait for a
--   network device between their check of the table and their entry in it; Unordered and Table,
--   the table up to the order of its entries, as a relation and as a quotient.
-- - Handler: src/handler/mod.rs: the loop over a client's packets, the dispatch and the error
--   answers. The loop takes the handlers as the field `handle` of a `Session`, as are the writes
--   to the client and the derived parser of requests.
-- - Handler/PairRecords: src/handler/save_pair_record.rs, read_pair_record.rs and
--   delete_pair_record.rs over a file system that is a parameter, `Store`; Guarded has what their
--   guard gives.
-- - Handler/DeviceList: device_list.rs and listeners_list.rs of src/handler; Listen: listen.rs;
--   Connect: connect.rs, with the forwarding loop as a step on the branch of its `select!`, and
--   Connect/Wireless for network devices; ReadBuid: read_buid.rs, over a file that is a parameter;
--   Dispatch: the choice of a handler in mod.rs, with these handlers put in. Answers has what the
--   handlers share.
-- - Daemon: src/daemon.rs on Linux: the socket, the accept loop, the end by a signal and the
--   cleanup of the devices, over calls of the operating system that are parameters.
--
-- The watchers change the table that the handlers read: a listening client gets the devices of the
-- table and then the events, and a client that connects finds its device there. A connection sends
-- into the channel that the writer loop empties; the reader loop calls the router, which fills the
-- channels that connections receive from. A panic of a task and a wait are values.
--
-- Fuel: `reader_loop`, `version_loop` and `handle_client` take a number of rounds. A round that
-- goes on takes at least the eight bytes of a header's front half (sixteen bytes for a client's
-- packet), so that one round more than an eighth (a sixteenth) of the bytes is enough. `scan` of
-- Driver/Listing takes one round more than the number of lines, and each round takes a line.
-- `writer_loop` recurses on the packets of the channel.
--
-- The recursive functions of Backend, Watcher and Handler go over lists: of polls, listings,
-- events or branches, which stand for what happens in the order in which it happens.
--
-- Not modelled: the listeners and the cleanup of the daemon on macOS and Windows and the addresses
-- of network devices there (calls of other systems), the thread that runs the events of libusb,
-- the texts of errors and the conversions from errors of other crates, src/main.rs and src/lib.rs
-- (the start of the runtime and re-exports), the serde derives, which are generated code, and the
-- wait for the Enter key in the driver tool. The copy of bytes between a client and a network
-- device is a parameter. Logging is left out everywhere.
pub mod Base
pub mod Extern
pub mod Error
pub mod Utils
pub mod Backend
pub mod Channel
pub mod DeviceMux
pub mod UsbMux
pub mod Router
pub mod Conn
pub mod Device
pub mod NetworkDevice
pub mod Driver
pub mod Devices
pub mod Watcher
pub mod Handler
pub mod Daemon
pub mod Tests
