-- ===== src/Host.antt =====
-- The crate host/: what runs on the Mac.
pub mod Slots
pub mod Cursor
pub mod Events
pub mod Debug
pub mod Outbox
pub mod Keymap
pub mod Keyboard
pub mod Serial
pub mod Trackpad
pub mod Startup
