-- ===== src/Lib.antt =====
-- Verification library of ds4-translator, a daemon that reads a physical DualShock 4, hides it, and
-- shows the host an emulated DualShock 4 or DualSense in its place.
--
-- The program. `main` in src/main.cpp is one poll loop. It scans for a physical controller, reads
-- its input reports over USB or Bluetooth (hidraw, or one of the transports of
-- src/usb-hid-transport.cpp over libusb and src/hid-bpf-transport.cpp over a BPF ring buffer), and
-- emits them in the format of the emulated type through uhid or the USB gadget of
-- src/functionfs-backend.c; it takes rumble and light bar reports from the host and sends them back to the
-- physical controller, Bluetooth ones paced by a thread of their own; it answers commands on a Unix
-- socket, which src/ipc-client.cpp builds and src/ctl.cpp and ui/ send; and it keeps its settings in
-- a small configuration file. src/hid-unbind-detect.cpp finds devices on the HID
-- bus and reads their ids and events.
--
-- The files, and what each models.
--   Base: tests, casts, lists, texts, bit operations, `strtoul`, `sscanf` and `snprintf`, which all
--     parts share. Base/Resources has the resources that a run opens and releases.
--   Emulation: the enumerations `ControllerType`, `HideMethod`, `BackendType` and their names.
--   Crc: `calculate_crc32`, with the bit-serial definition of the checksum in Crc/Reference.
--   Report: the packed structures of input reports; Report/Physical reads a physical report as the
--     loop does, Report/Emit is `emit_input_report`, Report/Battery the two battery functions.
--   Output: `write_physical_output_report` and the case `UHID_OUTPUT` of the loop; Output/Errors is
--     the log of failed writes.
--   Pacer: the class `BtOutputPacer` and `send_physical_output_report`.
--   Buttons, Synth: the client's `decode_buttons`, and the synthetic state of the daemon.
--   Config: the readers and the writer of the configuration file.
--   HidId: `parse_hid_id`; HidId/Nodes has the scans for a physical controller in src/main.cpp and
--     src/hid-unbind-detect.cpp, HidId/Uevent reads the events of the kernel, and HidId/Physical,
--     HidId/Events and HidId/Agree hold what is proved of them.
--   Daemon: the globals of the daemon and the locals of `main` as one record, with what it does to
--     the world as a list of effects. Daemon/Virtual, Daemon/Physical, Daemon/Scan and
--     Daemon/Changes are the functions and the blocks of the loop on it; Daemon/Commands reads a
--     command and Daemon/Execute carries it out; Daemon/Steps is the step relation of the loop, and
--     Daemon/Coherent, Daemon/Grace, Daemon/Reconnect, Daemon/Cable, Daemon/Requests, Daemon/Parting,
--     Daemon/Applied and Daemon/Tokens hold what is proved of it.
--   Broadcast: the subscribers of the test commands, the event log and what every tick sends them,
--     with the window of timing in Broadcast/Timing.
--   Uhid: the events of the virtual device and the replies to feature report requests, with the
--     descriptors of src/descriptors.h in Uhid/Descriptors.
--   FunctionFs: src/functionfs-backend.c. FunctionFs itself has the device and the control requests,
--     FunctionFs/Tables the feature reports, FunctionFs/Blobs the descriptors and strings,
--     FunctionFs/Outputs and FunctionFs/Mailbox the two endpoint threads, FunctionFs/Gadget and
--     FunctionFs/Startup what is set up and taken down; FunctionFs/Replies and FunctionFs/Ends hold
--     what is proved of them.
--   HidBpf: src/hid-bpf-transport.cpp; HidBpf/Pump is its thread, HidBpf/Releases what its opening and
--     closing release.
--   UsbHid: src/usb-hid-transport.cpp; the choice of device and interface, with the transport and its
--     threads in UsbHid/Transport and what they release in UsbHid/Releases.
--   Client: the builders of commands in src/ipc-client.cpp; Client/Lines and Client/State write and
--     read the lines of the live stream, Client/Led builds `led`, Client/Stream cuts what arrives into lines, and
--     Client/Status reads the answer to status.
--   Ctl: the tables of src/ctl.cpp, the button tester and `tap`; Ctl/Dispatch is what `main` does with
--     a command line, Ctl/Monitor the live monitor, and Ctl/Shows, Ctl/Tick, Ctl/Sent, Ctl/Lights,
--     Ctl/Built and Ctl/Understood join them with the daemon.
--   Ui: the commands of the window in ui/src/ipcclient.cpp and ui/src/daemoncontroller.cpp, with what
--     is proved of them in Ui/Between and Ui/Replies.
--   Tests: the theorems at concrete inputs.
--
-- How the code corresponds. A struct is a record, an enum a data type, a buffer a list of bytes; a
-- function that writes globals takes and gives back the record that holds them. A file descriptor is
-- an option, `none` for -1. Machine integers are natural numbers below their width, and a wrap-around
-- is a remainder. What the kernel, libusb and the loader of the BPF program answer (an open, a write,
-- a scan) is an argument, and so are the constants of the kernel header of FunctionFS. Times are
-- nanoseconds of one clock that does not go back. Every loop is a recursion on its data or
-- on fuel. The fuel for the digits of a number is the number itself, since a division makes it less;
-- the fuel of the loops over received bytes and over word lists is the length of the text, since each
-- round takes a byte at least.
--
-- Not modelled: the texts of answers, sockets, poll, permissions and event grabs, sysfs writes beyond
-- their occurrence, the detached threads, what src/ctl.cpp draws, src/udev-spoof.c, the BPF program of
-- the kernel, tools/, and of ui/ the monitor, the views and the fields that `applyStatus` shows. The threads of the transports run in whole rounds. The lines that an
-- output report adds to the event log are a result of Output/Handler and of Uhid; Broadcast takes such
-- lines as they come.
pub mod Base
pub mod Emulation
pub mod Crc
pub mod Report
pub mod Output
pub mod Pacer
pub mod Buttons
pub mod Synth
pub mod Config
pub mod HidId
pub mod Daemon
pub mod Client
pub mod Broadcast
pub mod Ctl
pub mod FunctionFs
pub mod HidBpf
pub mod UsbHid
pub mod Ui
pub mod Uhid
pub mod Tests
