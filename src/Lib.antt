-- ===== src/Lib.antt =====
-- A model of marlin_binary_transfer, the host side of Marlin's Binary File Transfer Mark II
-- protocol, with the theorems that make it correct.
--
-- The program has three layers without I/O, and adapters that run them over a transport. The codec
-- turns packets into frames and back. The session gives each packet a sync number, keeps one packet
-- in flight and the others in a queue, sends again what is not acknowledged, and reads the device's
-- lines `ok<n>`, `rs<n>`, `ss...` and `fe`. The file transfer drives a session through QUERY, OPEN,
-- WRITE, CLOSE and ABORT and reads the device's lines `PFT:...` from the session's events. An adapter
-- moves the bytes between the transfer and a transport, round by round, until the event it waits for
-- has come, and uploads a file with these.
--
-- * src/codec.rs is Codec: the functions carry the names of the source (`new` is `Packet::new`), and
--   the bodies of `encode` and `decode` are cut in two at the header.
-- * src/session.rs is Session: the struct and its queues in Session/State, the byte lines in
--   Session/Lines, the operations in Session/Operations. An operation takes the session and returns
--   the new one; `handle_ok_from`, `tick_from` and the like are the operation of their name on the
--   option that the source matches first.
-- * src/file_transfer.rs is Transfer: its types in Transfer/State, the negotiation of compression in
--   Transfer/Compression, the methods in Transfer/Operations (`open_file` is `open`). The session
--   that the source borrows is a field. The lifecycle at the head of the file is Transfer/Diagram.
-- * src/adapters/common.rs is Adapters/Types, with the size of the chunks in Adapters/Chunks.
-- * src/adapters/blocking.rs is Adapters/Upload, over any transport, and Adapters/Blocking, which
--   gives the transport that it makes of its port. The body that its four driving loops share is
--   Adapters/Driver, over the transport and over the machine that is driven (a session or a transfer,
--   Adapters/Machines); what a loop does with an event is in Adapters/Upload.
-- * src/adapters/tokio.rs is Adapters/Tokio, with its own `upload`, loops and matches (`async_loop` is
--   the body that its loops share); Adapters/AsyncLoop and Adapters/Agreement compare it with
--   src/adapters/blocking.rs.
-- * src/compression.rs is Heatshrink, with the crate embedded_heatshrink as a parameter.
-- * tests/fixtures/fake_device.rs is Device, and the transport that tests/blocking_adapter_e2e.rs
--   makes of it is Device/Wire. The files below Device follow an upload over it packet by packet;
--   Device/Patience, Device/Again and Device/Answers are about a packet that it asks for again, and
--   Device/Silence follows an upload over a port on which no device answers.
-- * src/adapters/serialport.rs is Adapters/Serial, with the crate serialport as a parameter
--   (`open_port` is `open`).
-- * examples/inspect.rs is Examples/Inspect; the lines that it prints are values. examples/upload.rs
--   is Examples/Arguments, its command line, and Examples/Upload, its `main` over the ports, the
--   files and the console, which are parameters.
-- * Text has the functions of Rust's strings that the source calls, and Common the numbers, the
--   lists and the outcomes of calls.
--
-- A number of `w` bits is a ℕ below 2 ^ w, and the wrap of the sync number and of every cast is
-- written out. Bytes are numbers below 256, a `String` is a list of code points, and an `Instant` or
-- a `Duration` is a number of nanoseconds. A call that can reach a panic (an assertion, an `expect`,
-- an index or a slice out of range) returns `Checked`. A queue is a list, its front first.
--
-- The transport, the clock, the source and the progress callback of an upload are parameters: they
-- act on a state of any type, and may fail in any way.
--
-- The loop of `Session::feed` has fuel: it takes one line out of the buffer in each round, and a line
-- has at least its newline, so that one more round than the buffer has bytes is enough. The loops of
-- the adapters over `poll_outbound` and `poll` have one round more than the queue has items, and the
-- cutting of the payload into chunks one round for each byte. The fake device takes a byte or more
-- out of its buffer in each round, so that one more round than it has bytes is enough. The loop of
-- examples/inspect.rs goes on by a byte or more, so that a round for each byte is enough. The 200
-- rounds of the driving loops are those of the source.
--
-- src/lib.rs and src/adapters/mod.rs declare modules and are not modelled, nor is the cancellation of
-- the futures of src/adapters/tokio.rs. The texts of the error messages and of what the examples
-- print are left out, and the `main` of examples/upload.rs in a build without its features.
pub mod Common
pub mod Text
pub mod Codec
pub mod Session
pub mod Transfer
pub mod Heatshrink
pub mod Adapters
pub mod Device
pub mod Examples
