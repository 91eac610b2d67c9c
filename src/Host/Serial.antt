-- ===== src/Host/Serial.antt =====
-- host/src/serial.rs: the handshake. What the port and the reader thread give is an input.
pub mod Reader
pub mod Framing
pub mod Address
pub mod Port
use esp32_universal_control.Base.{
  ℕ, zero, suc, ◌+◌, Bool, true, false, Option, none, some, List, [], ◌∷◌, ◌==◌,
}
use esp32_universal_control.Protocol.Wire.{
  PeerSnapshot, ProtocolError, FirmwareMsg, hello_ack, peer_snapshot, peer_connected,
  peer_disconnected, active_peer_changed, led_state, protocol_error, protocol_version,
}

abbrev pub handshake_retries : ℕ
handshake_retries = 5

pub data HandshakeError : Type 0 where
  send_failed : HandshakeError
  protocol_mismatch : (firmware host : ℕ) → HandshakeError
  rejected : ProtocolError → HandshakeError
  not_completed : HandshakeError

pub data HandshakeResult : Type 0 where
  completed : PeerSnapshot → HandshakeResult
  failed : HandshakeError → HandshakeResult

-- Whether the hello of an attempt is written, and what is received before a receive times out.
pub record Attempt : Type 0 where
  pub sends : Bool
  pub answers : List FirmwareMsg

-- The inner `loop`, `none` where it ends with a timeout.
unfoldable pub await_snapshot : Bool → List FirmwareMsg → Option HandshakeResult
await_snapshot hello_ok [] = none
await_snapshot hello_ok (hello_ack ack ∷ answers) = elim (ack.version == protocol_version) [
  | true ↦ await_snapshot true answers
  | false ↦ some (failed (protocol_mismatch ack.version protocol_version))
]
await_snapshot true (peer_snapshot snapshot ∷ answers) = some (completed snapshot)
await_snapshot false (peer_snapshot snapshot ∷ answers) = await_snapshot false answers
await_snapshot hello_ok (protocol_error error ∷ answers) = some (failed (rejected error))
await_snapshot hello_ok (peer_connected peer ∷ answers) = await_snapshot hello_ok answers
await_snapshot hello_ok (peer_disconnected slot ∷ answers) = await_snapshot hello_ok answers
await_snapshot hello_ok (active_peer_changed slot ∷ answers) = await_snapshot hello_ok answers
await_snapshot hello_ok (led_state bits ∷ answers) = await_snapshot hello_ok answers

-- The attempts from number `n`, of which `left` are left.
unfoldable pub attempts_from : (left n : ℕ) → (ℕ → Attempt) → HandshakeResult
unfolding await_snapshot
attempts_from zero n attempts = failed not_completed
attempts_from (suc left) n attempts = elim ((attempts n).sends) [
  | false ↦ failed send_failed
  | true ↦ elim (await_snapshot false ((attempts n).answers)) [
    | some result ↦ result
    | none ↦ attempts_from left (n + 1) attempts
  ]
]

-- `handshake`, by the attempts 1, 2, ….
unfoldable pub handshake : (ℕ → Attempt) → HandshakeResult
unfolding attempts_from
handshake attempts = attempts_from handshake_retries 1 attempts
