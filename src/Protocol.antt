-- ===== src/Protocol.antt =====
-- The crate protocol/: the types that host and firmware share.
pub mod Input
pub mod Keyboard
pub mod Wire
pub mod Ptp
