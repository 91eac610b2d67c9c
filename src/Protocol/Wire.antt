-- ===== src/Protocol/Wire.antt =====
-- protocol/src/wire.rs: the messages between host and firmware. Their encoding is postcard's.
use esp32_universal_control.Base.{ℕ, List, Option}
use esp32_universal_control.Protocol.Input.{KeyboardSnapshot, TouchFrame}

abbrev pub protocol_version : ℕ
protocol_version = 1

abbrev pub max_peers : ℕ
max_peers = 4

-- A BLE address, six bytes, the least significant first.
abbrev pub Address : Type 0
Address = List ℕ

pub record HelloAck : Type 0 where
  pub version : ℕ
  pub peer_limit : ℕ

pub record PeerDescriptor : Type 0 where
  pub slot : ℕ
  pub addr : Address

pub record PeerSnapshot : Type 0 where
  pub peers : List (Option PeerDescriptor)
  pub active_slot : Option ℕ

pub data ProtocolError : Type 0 where
  unsupported_protocol_version : (expected received : ℕ) → ProtocolError
  invalid_peer_slot : ℕ → ProtocolError

-- `hello` carries the version that the host asks for.
pub data HostMsg : Type 0 where
  hello : ℕ → HostMsg
  select_peer : Option ℕ → HostMsg
  keyboard_state : KeyboardSnapshot → HostMsg
  consumer_state : ℕ → HostMsg
  touch_frame : TouchFrame → HostMsg

pub data FirmwareMsg : Type 0 where
  hello_ack : HelloAck → FirmwareMsg
  peer_snapshot : PeerSnapshot → FirmwareMsg
  peer_connected : PeerDescriptor → FirmwareMsg
  peer_disconnected : ℕ → FirmwareMsg
  active_peer_changed : Option ℕ → FirmwareMsg
  led_state : ℕ → FirmwareMsg
  protocol_error : ProtocolError → FirmwareMsg
