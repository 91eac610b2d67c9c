-- ===== src/Firmware/Session.antt =====
-- firmware/src/session.rs. A handler returns the new state and what it sends, in order; `none` is
-- the panic of an index out of range. The clock is an argument, read once by each handler.
pub mod State
pub mod Snapshot
pub mod Valid
pub mod Touch
pub mod Stream
pub mod Keys
pub mod Routing
pub mod Peers
pub mod Tests
use esp32_universal_control.Base.{
  ℕ, zero, suc, ◌+◌, ◌-◌, ◌/◌, ◌%◌, ◌^◌, ◌≡◌, Bool, true, false, Option, none, some, List, [], ◌∷◌,
  ◌++◌, replicate, position, get_elem?, set_elem?, length, leb, ltb, ◌==◌, ◌||◌, if◌then◌else◌,
  is_some, is_number, ◌>>=◌, u8, not,
}
use esp32_universal_control.Protocol.Input.{
  KeyboardSnapshot, TouchFrame, default_keyboard_snapshot, default_touch_frame,
}
use esp32_universal_control.Protocol.Keyboard.{
  KeyboardReport, default_keyboard_report, from_snapshot,
}
use esp32_universal_control.Protocol.Wire.{
  Address, PeerDescriptor, PeerSnapshot, HelloAck, ProtocolError, unsupported_protocol_version,
  invalid_peer_slot, HostMsg, hello, select_peer, keyboard_state, consumer_state, touch_frame,
  FirmwareMsg, hello_ack, peer_snapshot, peer_connected, peer_disconnected, active_peer_changed,
  led_state, protocol_error, protocol_version, max_peers,
}
use esp32_universal_control.Protocol.Ptp.{
  PtpReport, default_report, TouchReportEncoder, new_encoder, encode,
}
use esp32_universal_control.Firmware.Ble.{
  BleEvent, connected, disconnected, led_changed, BleStack, has_connection,
}
unfoldable pub use State.{new_session}
pub use State.*

unfoldable pub connect_at : Session → ℕ → Address → Option ℕ → Outcome
connect_at s conn_handle addr none = some (s, [])
connect_at s conn_handle addr (some slot) = do
  peers ← set_elem? s.peers slot (some (record { conn_handle = conn_handle; addr = addr }))
  some (
    record s { peers = peers },
    if_ready s (peer_connected (record { slot = u8 slot; addr = addr }) ∷ []),
  )

unfoldable pub disconnect_at : Session → Option ℕ → Outcome
disconnect_at s none = some (s, [])
disconnect_at s (some slot) = do
  peers ← set_elem? s.peers slot none
  let s' : Session = record s { peers = peers }
  some (
      if is_number s.active_slot (u8 slot)
      then (
        reset_input_state (record s' { active_slot = none }),
        if_ready s (peer_disconnected (u8 slot) ∷ active_peer_changed none ∷ []),
      )
      else (s', if_ready s (peer_disconnected (u8 slot) ∷ [])))

unfoldable pub handle_ble_event : Session → BleEvent → Outcome
unfolding connect_at disconnect_at
handle_ble_event s (connected conn_handle addr) = connect_at s conn_handle addr (first_free_slot s)
handle_ble_event s (disconnected conn_handle) = disconnect_at s (slot_for_conn_handle s conn_handle)
handle_ble_event s (led_changed bits) = some (s, if_ready s (led_state bits ∷ []))

-- The `while slot < MAX_PEERS` of `snapshot`; the first argument counts the rounds left.
snapshot_loop :
    ℕ
    → ℕ
    → List (Option PeerSlot)
    → List (Option PeerDescriptor)
    → Option (List (Option PeerDescriptor))
snapshot_loop zero slot own peers = some peers
snapshot_loop (suc rounds) slot own peers = do
  entry ← get_elem? own slot
  elim entry [
    | none ↦ snapshot_loop rounds (slot + 1) own peers
    | some peer ↦
        set_elem? peers slot (some (record { slot = u8 slot; addr = peer.addr })) >>= λ peers'.
        snapshot_loop rounds (slot + 1) own peers'
  ]

unfoldable pub snapshot : Session → Option PeerSnapshot
unfolding snapshot_loop
snapshot s = do
  peers ← snapshot_loop max_peers 0 s.peers (replicate max_peers none)
  some (record { peers = peers; active_slot = s.active_slot })

unfoldable pub greet : Session → ℕ → Outcome
greet s version = elim (version == protocol_version) [
  | false ↦
      some
        (s, to_host (protocol_error (unsupported_protocol_version protocol_version version)) ∷ [])
  | true ↦ snapshot s >>= λ peers. some (
    record s { host_ready = true },
    to_host (hello_ack (record { version = protocol_version; peer_limit = u8 max_peers }))
        ∷ to_host (peer_snapshot peers)
        ∷ [],
  )
]

unfoldable pub deselect : ℕ → Session → Outcome
deselect now s = do
  active ← active_conn_handle s
  let (s', cleared) = clear_active now s active
  some (
    reset_input_state (record s' { active_slot = none }),
    cleared ++ if_ready s (active_peer_changed none ∷ []),
  )

unfoldable pub refuse_slot : Session → ℕ → Outcome
refuse_slot s slot = some (s, if_ready s (protocol_error (invalid_peer_slot slot) ∷ []))

unfoldable pub activate : ℕ → Session → ℕ → Outcome
activate now s slot = do
  active ← active_conn_handle s
  let (s', cleared) = clear_active now s active
  some (
    reset_input_state (record s' { active_slot = some slot }),
    cleared ++ if_ready s (active_peer_changed (some slot) ∷ []),
  )

-- `next_idx >= MAX_PEERS || self.peers[next_idx].is_none()`: the test on the entry comes second.
unfoldable pub switch_to : ℕ → Session → ℕ → Outcome
switch_to now s slot = elim (leb max_peers slot) [
  | true ↦ refuse_slot s slot
  | false ↦ get_elem? s.peers slot >>= λ entry.
      if is_free entry
      then refuse_slot s slot
      else if is_number s.active_slot slot
      then some (s, [])
      else activate now s slot
]

unfoldable pub switch_peer : ℕ → Session → Option ℕ → Outcome
switch_peer now s none = deselect now s
switch_peer now s (some slot) = switch_to now s slot

-- The three input messages, at the handle of the active peer.
unfoldable pub type_keys : Session → KeyboardSnapshot → Option ℕ → Session × List Effect
type_keys s keys none = (s, [])
type_keys s keys (some conn_handle) =
    (record s { keyboard = keys }, keyboard_report conn_handle (from_snapshot keys) ∷ [])

unfoldable pub press_consumer : Session → ℕ → Option ℕ → Session × List Effect
press_consumer s bits none = (s, [])
press_consumer s bits (some conn_handle) =
    (record s { consumer = bits }, consumer_report conn_handle bits ∷ [])

unfoldable pub store_touch : Session → TouchFrame → Option ℕ → Session × List Effect
store_touch s frame none = (s, [])
store_touch s frame (some conn_handle) = (record s { latest_touch = frame; touch_dirty = true }, [])

unfoldable pub handle_host_msg : ℕ → Session → HostMsg → Outcome
unfolding greet snapshot switch_peer deselect switch_to refuse_slot activate type_keys
    press_consumer store_touch
handle_host_msg now s (hello version) = greet s version
handle_host_msg now s (select_peer slot) = switch_peer now s slot
handle_host_msg now s (keyboard_state keys) =
    active_conn_handle s >>= λ active. some (type_keys s keys active)
handle_host_msg now s (consumer_state bits) =
    active_conn_handle s >>= λ active. some (press_consumer s bits active)
handle_host_msg now s (touch_frame frame) =
    active_conn_handle s >>= λ active. some (store_touch s frame active)

abbrev pub has_pending_touch : Session → Bool
has_pending_touch s = s.touch_dirty

-- The state in which no touch frame waits to be sent.
abbrev pub settled : Session → Session
settled s = record s { touch_dirty = false; next_touch_send_at_us = 0 }

-- What follows the notification, by its result. `s` holds the encoder after `encode`.
unfoldable pub after_notify : BleStack → ℕ → Session → Option ℕ → Session
after_notify ble now s none = record s {
  touch_dirty = false;
  next_touch_send_at_us = add_u64 now touch_report_interval_us;
}
after_notify ble now s (some code) =
    if code == ble.enomem || code == ble.ebusy
    then record s {
      next_touch_send_at_us = add_u64 now touch_retry_interval_us;
      last_touch_backpressure_log_at_us =
          if leb touch_backpressure_log_interval_us (now - s.last_touch_backpressure_log_at_us)
          then now
          else s.last_touch_backpressure_log_at_us;
    }
    else record (settled s) { touch = new_encoder }

unfoldable pub send_report : BleStack → ℕ → ℕ → Session → Option PtpReport → Session × List Effect
send_report ble now conn_handle s none = (settled s, [])
send_report ble now conn_handle s (some report) = (
  after_notify ble now s (ble.notify_touch conn_handle report),
  touch_report conn_handle report ∷ [],
)

-- `flush_touch_if_due` for a peer with a frame that waits.
unfoldable pub flush_to : BleStack → ℕ → Session → ℕ → Outcome
flush_to ble now s conn_handle = elim (has_connection ble conn_handle) [
  | false ↦ some (record (settled s) { touch = new_encoder }, [])
  | true ↦ elim (ltb now s.next_touch_send_at_us) [
    | true ↦ some (s, [])
    | false ↦ encode s.touch s.latest_touch (scan_time_from_us now) >>= λ result.
        some (send_report ble now conn_handle (record s { touch = result.0 }) result.1)
  ]
]

unfoldable pub flush_active : BleStack → ℕ → Session → Option ℕ → Outcome
flush_active ble now s none = some (s, [])
flush_active ble now s (some conn_handle) = elim s.touch_dirty [
  | true ↦ flush_to ble now s conn_handle
  | false ↦ some (s, [])
]

unfoldable pub flush_touch_if_due : BleStack → ℕ → Session → Outcome
unfolding flush_active flush_to send_report after_notify
flush_touch_if_due ble now s = active_conn_handle s >>= λ active. flush_active ble now s active
