-- ===== src/Firmware.antt =====
-- The crate firmware/: the BLE peers, and the session between them and the host.
pub mod Ble
pub mod Session
pub mod Main
pub mod Descriptor
pub mod Reports
