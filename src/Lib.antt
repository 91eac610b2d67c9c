-- ===== src/Lib.antt =====
-- esp32-universal-control: a Mac's keyboard and trackpad drive up to four devices over BLE. The
-- host program (host/) captures input on the Mac and sends messages over a serial line; the
-- firmware (firmware/) keeps the peers, routes input to the active one as HID reports, and tells
-- the host what has changed; protocol/ holds what both share.
--
-- Protocol: protocol/src. `Input`, `Wire` and `Keyboard` are the types of input.rs, wire.rs and
-- keyboard.rs. `Ptp` is ptp.rs: `encode` is `TouchReportEncoder::encode`, its three loops
-- `report_current`, `report_lifted` and `report_new` over the arrays and counters of the source;
-- `Ptp.Spec` says with lists what a report should hold, and `Ptp.Receiver` what a receiver of the
-- reports holds to be on the pad; `Following` and `Settling` relate the two over runs of frames.
--
-- Firmware: firmware/src. `Session` is session.rs. Each handler (`handle_ble_event`,
-- `handle_host_msg`, `flush_touch_if_due`) takes the state and returns the new state and the
-- effects, in order: messages to the host and reports to connections. `none` is a panic, of an
-- index out of range. `Session.Stream` puts the session and a receiver of its touch reports
-- together, `Session.Keys` the session and what a peer gets of its keyboard and consumer reports:
-- `send_keyboard_to` and `send_consumer_to` of ble_hid.rs only log an error of the notification, and
-- whether it was sent is kept beside what the peer has last got. `Main` is the loop of main.rs over any sequence of turns, `Main.Start` the calls before
-- it, and `Main.Uart` its UART task, with the driver and postcard's encoder as parameters. `Ble`
-- has the callbacks of ble_hid.rs and what the session reads of it; NimBLE's open connections,
-- answers and error codes are parameters. `Ble.Setup` is `init`, as the calls of NimBLE that it
-- makes, and `Ble.Blob` the feature values that it loads. `Reports` has the bytes that ble_hid.rs
-- notifies, and the notifications of the keys. `Descriptor` is hid_descriptor.rs: its fragments in `Tags`, `Fragments` and `Keyboard`,
-- and the functions that put them together at compile time; `Descriptor.Parser` is a reader of
-- report descriptors written from the HID standard, which `Layout`, `KeyLayout` and
-- `ConsumerLayout` run on the bytes of the three reports.
--
-- Host: host/src. `Slots` is slots.rs (its printed lines in `Slots.Status`), `Events` the handlers
-- of firmware messages in capture/mod.rs and debug.rs, `Debug` the commands and the loop of
-- debug.rs, `Outbox` capture/outbox.rs with each call one step, `Cursor` capture/cursor.rs,
-- `Keymap` capture/keymap.rs, and `Keyboard` the callback of the event tap in capture/keyboard.rs,
-- its effects as a list; what core_graphics gives (event fields, flag bits) are parameters.
-- `Trackpad` is the callback of capture/trackpad.rs, with the scaling of floats a parameter, and
-- `Trackpad.Start` the calls that register it. `Serial` is the handshake of serial.rs, with the
-- answers of each attempt an input, `Serial.Reader` its reader thread, with postcard's accumulator
-- a parameter, `Serial.Port` its writing and `Serial.Address` the printed addresses. `Startup` has
-- the calls by which capture/mod.rs starts, and main.rs.
--
-- A function that makes one call after another, and leaves at the first that fails, is the list of
-- its calls under `run_calls` of Base.Calls: `Ble.Setup`, `Main.Start`, `Startup`,
-- `Trackpad.Start`. The modules named Conformance state the unit tests of the source about the
-- model.
--
-- Link: the firmware and the host together. The host's handlers read the messages among the
-- firmware's effects in order; `Link.Line` is the serial line between the firmware's UART task and
-- the host's reader. `Link.Typing` goes the other way: from the event tap through the session to
-- the reports that the peer gets, of the notifications that are sent.
--
-- Base: shared tests, list functions over the native ℕ and their lemmas. Option is the monad of
-- code that may panic.
--
-- Numbers: u8, u16, u32 and u64 fields are natural numbers. The conversions that wrap are written
-- with %: the slot as u8, the scan time as u16, the report's count as u8, the send times as u64.
-- Arrays are lists of the array's length, which is an invariant. Loops are structural: the
-- firmware's loop by the list of its turns, the handshake by its five attempts, the loops over
-- arrays by the array or its length. Three have a bound on their rounds: the UART's `write_from`
-- and the reader's `read_window` one for each byte, since each round takes at least one, and the
-- monitor's touch sweep the 51 positions from 5000 to 15000 in steps of 200.
--
-- Not modelled: log lines, and what is printed except the status of the slots; postcard and COBS
-- (the results of the decoder are inputs of the firmware's loop); NimBLE, UART, macOS frameworks. A
-- mutex makes the section that it guards one step. `Events.Threads` has the two locks of the host
-- (slot table, then cursor) as two steps; `on_firmware_msg` and `on_write_error` are whole
-- handlers, with no other step in between.
pub mod Base
pub mod Protocol
pub mod Firmware
pub mod Host
pub mod Link
