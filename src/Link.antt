-- ===== src/Link.antt =====
-- Firmware and host together: the messages of firmware/src/session.rs, read by host/src/slots.rs.
pub mod Mirror
pub mod Messages
pub mod Run
pub mod Handshake
pub mod Line
pub mod Typing
mod Tests
