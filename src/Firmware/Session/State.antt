-- ===== src/Firmware/Session/State.antt =====
-- The state of firmware/src/session.rs, what its handlers send, and its small helpers.
use esp32_universal_control.Base.{
  ℕ, ◌+◌, ◌/◌, ◌%◌, ◌^◌, Bool, true, false, Option, none, some, List, [], ◌∷◌, replicate, position,
  get_elem?, ◌==◌, if◌then◌else◌, ◌>>=◌,
}
use esp32_universal_control.Protocol.Input.{
  KeyboardSnapshot, TouchFrame, default_keyboard_snapshot, default_touch_frame,
}
use esp32_universal_control.Protocol.Keyboard.{KeyboardReport, default_keyboard_report}
use esp32_universal_control.Protocol.Wire.{Address, FirmwareMsg, max_peers}
use esp32_universal_control.Protocol.Ptp.{
  PtpReport, default_report, TouchReportEncoder, new_encoder,
}

abbrev pub touch_report_interval_us : ℕ
touch_report_interval_us = 8000

abbrev pub touch_retry_interval_us : ℕ
touch_retry_interval_us = 1000

abbrev pub touch_backpressure_log_interval_us : ℕ
touch_backpressure_log_interval_us = 250000

pub record PeerSlot : Type 0 where
  pub conn_handle : ℕ
  pub addr : Address

pub record Session : Type 0 where
  pub host_ready : Bool
  pub peers : List (Option PeerSlot)
  pub active_slot : Option ℕ
  pub keyboard : KeyboardSnapshot
  pub consumer : ℕ
  pub latest_touch : TouchFrame
  pub touch_dirty : Bool
  pub touch : TouchReportEncoder
  pub next_touch_send_at_us : ℕ
  pub last_touch_backpressure_log_at_us : ℕ

-- What a handler sends: a message to the host, or a report for a connection. A report stands for the
-- call of `send_keyboard_to`, `send_consumer_to` or `send_touch_to`, whatever the stack answers; the
-- first two log an error and return nothing, so that the session does not depend on it.
pub data Effect : Type 0 where
  to_host : FirmwareMsg → Effect
  keyboard_report : ℕ → KeyboardReport → Effect
  consumer_report : ℕ → ℕ → Effect
  touch_report : ℕ → PtpReport → Effect

abbrev pub Outcome : Type 0
Outcome = Option (Session × List Effect)

unfoldable pub new_session : Session
new_session = record {
  host_ready = false;
  peers = replicate max_peers none;
  active_slot = none;
  keyboard = default_keyboard_snapshot;
  consumer = 0;
  latest_touch = default_touch_frame;
  touch_dirty = false;
  touch = new_encoder;
  next_touch_send_at_us = 0;
  last_touch_backpressure_log_at_us = 0;
}

abbrev pub if_ready : Session → List FirmwareMsg → List Effect
if_ready s [] = []
if_ready s (msg ∷ msgs) = if s.host_ready then to_host msg ∷ if_ready s msgs else if_ready s msgs

-- The `u64` sum. The timer is an `i64`, so that it does not wrap in practice.
abbrev pub add_u64 : ℕ → ℕ → ℕ
add_u64 a b = (a + b) % 2 ^ 64

abbrev pub scan_time_from_us : ℕ → ℕ
scan_time_from_us us = us / 100 % 65536

abbrev pub is_free : Option PeerSlot → Bool
is_free none = true
is_free (some peer) = false

abbrev pub has_handle : ℕ → Option PeerSlot → Bool
has_handle conn_handle none = false
has_handle conn_handle (some peer) = peer.conn_handle == conn_handle

abbrev pub first_free_slot : Session → Option ℕ
first_free_slot s = position is_free s.peers

abbrev pub slot_for_conn_handle : Session → ℕ → Option ℕ
slot_for_conn_handle s conn_handle = position (has_handle conn_handle) s.peers

abbrev pub handle_of : Option PeerSlot → Option ℕ
handle_of none = none
handle_of (some peer) = some peer.conn_handle

abbrev pub handle_at : List (Option PeerSlot) → Option ℕ → Option (Option ℕ)
handle_at peers none = some none
handle_at peers (some slot) = get_elem? peers slot >>= λ peer. some (handle_of peer)

abbrev pub active_conn_handle : Session → Option (Option ℕ)
active_conn_handle s = handle_at s.peers s.active_slot

abbrev pub reset_input_state : Session → Session
reset_input_state s = record s {
  keyboard = default_keyboard_snapshot;
  consumer = 0;
  touch = new_encoder;
  latest_touch = default_touch_frame;
  touch_dirty = false;
  next_touch_send_at_us = 0;
}

abbrev pub cleared_outputs : ℕ → ℕ → List Effect
cleared_outputs now conn_handle =
    keyboard_report conn_handle default_keyboard_report
    ∷ consumer_report conn_handle 0
    ∷ touch_report conn_handle (record default_report { scan_time = scan_time_from_us now })
    ∷ []

abbrev pub clear_outputs_for : ℕ → Session → ℕ → Session × List Effect
clear_outputs_for now s conn_handle = (
  record s {
    touch = new_encoder;
    latest_touch = default_touch_frame;
    touch_dirty = false;
    next_touch_send_at_us = 0;
  },
  cleared_outputs now conn_handle,
)

-- `if let Some(conn_handle) = self.active_conn_handle() { self.clear_outputs_for(…) }`.
abbrev pub clear_active : ℕ → Session → Option ℕ → Session × List Effect
clear_active now s none = (s, [])
clear_active now s (some conn_handle) = clear_outputs_for now s conn_handle
