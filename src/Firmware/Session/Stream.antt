-- ===== src/Firmware/Session/Stream.antt =====
-- The session of firmware/src/session.rs together with the encoder of protocol/src/ptp.rs: what the
-- active peer holds to be on the pad, over any mix of host messages and flushes.
pub mod Steps
pub mod Ghosts
pub mod Away
pub mod Switch
mod Tests
use esp32_universal_control.Base.{
  ℕ, ◌+◌, ◌^◌, ◌≤◌, ◌<◌, ◌≡◌, refl, sym, ap, subst, ◌∙◌, Bool, true, false, Option, none, some, inl,
  inr, List, [], ◌∷◌, ◌++◌, ◌==◌, ltb, arith, ◌>>=◌, Bool-cases, ==_iff, All,
}
use esp32_universal_control.Protocol.Input.{KeyboardSnapshot, TouchFrame, populated}
use esp32_universal_control.Protocol.Wire.{
  HostMsg, hello, select_peer, keyboard_state, consumer_state, touch_frame, protocol_version,
}
use esp32_universal_control.Protocol.Ptp.{PtpReport, TouchReportEncoder}
use esp32_universal_control.Protocol.Ptp.Spec.{reported, report_if_any}
use esp32_universal_control.Protocol.Ptp.Encode.{contacts_of, encode_lem}
use esp32_universal_control.Protocol.Ptp.Receiver.{receive, touches}
use esp32_universal_control.Protocol.Ptp.Delivery.{tracks, AreDistinct}
use esp32_universal_control.Protocol.Ptp.Followed.{followed_touching}
use esp32_universal_control.Protocol.Ptp.Following.{
  Follows, after, contacts_of-after, receive-Follows,
}
use esp32_universal_control.Firmware.Ble.{BleStack, has_connection}
use esp32_universal_control.Firmware.Session.{
  Outcome, Session, Effect, to_host, keyboard_report, consumer_report, touch_report,
  handle_host_msg, greet, flush_touch_if_due, flush_active, send_report, after_notify,
  active_conn_handle, scan_time_from_us,
}
use esp32_universal_control.Firmware.Session.Valid.{
  IsValid, Returns, handle_host_msg-IsValid, flush_touch_if_due-IsValid,
}
use esp32_universal_control.Firmware.Session.Snapshot.{snapshot_lem}
use esp32_universal_control.Firmware.Session.Touch.{IsDue, flush_early, flush_encoded}

-- What the loop does with the session: it handles a message of the host, or flushes.
pub data Action : Type 0 where
  from_host : (now : ℕ) → HostMsg → Action
  flush_at : (now : ℕ) → BleStack → Action

abbrev pub handle_action : Session → Action → Outcome
handle_action s (from_host now msg) = handle_host_msg now s msg
handle_action s (flush_at now ble) = flush_touch_if_due ble now s

unfoldable pub handle_actions : Session → List Action → Outcome
handle_actions s [] = some (s, [])
handle_actions s (action ∷ actions) =
    handle_action s action >>= λ r. handle_actions r.0 actions >>= λ q. some (q.0, r.1 ++ q.1)

-- The fingers that the peer at a handle holds to be down, after some effects.
abbrev pub receive_at : (conn_handle : ℕ) → List Effect → (ℕ → Bool) → ℕ → Bool
receive_at conn_handle [] down = down
receive_at conn_handle (to_host msg ∷ effects) down = receive_at conn_handle effects down
receive_at conn_handle (keyboard_report handle r ∷ effects) down =
    receive_at conn_handle effects down
receive_at conn_handle (consumer_report handle bits ∷ effects) down =
    receive_at conn_handle effects down
receive_at conn_handle (touch_report handle r ∷ effects) down =
    receive_at conn_handle effects
      (elim (handle == conn_handle) [ true ↦ receive (some r) down | false ↦ down ])

-- The host selects no peer and sends no identifier twice in a frame; flushes are made up to some
-- time, and the stack has the connection open and sends.
abbrev pub IsSteady : (conn_handle latest : ℕ) → Action → Type 0
IsSteady conn_handle latest (from_host now (hello version)) = Unit {0}
IsSteady conn_handle latest (from_host now (select_peer slot)) = ⊥
IsSteady conn_handle latest (from_host now (keyboard_state keys)) = Unit {0}
IsSteady conn_handle latest (from_host now (consumer_state bits)) = Unit {0}
IsSteady conn_handle latest (from_host now (touch_frame frame)) = AreDistinct (populated frame)
IsSteady conn_handle latest (flush_at now ble) =
    (now ≤ latest)
    × (has_connection ble conn_handle ≡ true)
    × ((r : PtpReport) → ble.notify_touch conn_handle r ≡ none)

-- The session and the peer at the active handle are in step: the peer holds down exactly the
-- fingers that the encoder follows, and while no frame waits, only fingers that touch in the
-- latest frame.
pub record InStep (conn_handle latest : ℕ) (s : Session) (down : ℕ → Bool) : Type 0 where
  pub valid : IsValid s
  pub active : active_conn_handle s ≡ some (some conn_handle)
  pub follows : Follows s.touch down
  pub distinct : AreDistinct (populated s.latest_touch)
  pub paced : s.next_touch_send_at_us ≤ latest + 8000
  pub no_ghost :
      s.touch_dirty ≡ false → (id : ℕ) → down id ≡ true → touches s.latest_touch id ≡ true

pub receive_at-append :
    (conn_handle : ℕ) (xs ys : List Effect) (down : ℕ → Bool)
    → receive_at conn_handle (xs ++ ys) down
      ≡ receive_at conn_handle ys (receive_at conn_handle xs down)
receive_at-append conn_handle [] ys down = refl
receive_at-append conn_handle (to_host msg ∷ xs) ys down = receive_at-append conn_handle xs ys down
receive_at-append conn_handle (keyboard_report handle r ∷ xs) ys down =
    receive_at-append conn_handle xs ys down
receive_at-append conn_handle (consumer_report handle bits ∷ xs) ys down =
    receive_at-append conn_handle xs ys down
receive_at-append conn_handle (touch_report handle r ∷ xs) ys down =
    receive_at-append conn_handle xs ys _

pub action-IsValid :
    (action : Action) (s : Session)
    → IsValid s
    → Returns (handle_action s action) (λ s' _. IsValid s')
action-IsValid (flush_at now stack) s v = flush_touch_if_due-IsValid stack now s v
action-IsValid (from_host now msg) s v = handle_host_msg-IsValid now s msg v

pub Returns-bind :
    (P Q : Session → List Effect → Type 0) (o : Outcome) (k : Session × List Effect → Outcome)
    → Returns o P
    → ((s : Session) (effects : List Effect) → P s effects → Returns (k (s, effects)) Q)
    → Returns (o >>= k) Q
Returns-bind P Q none k p f = absurd p
Returns-bind P Q (some (s, effects)) k p f = f s effects p

pub Returns-weaken :
    (P Q : Session → List Effect → Type 0) (o : Outcome)
    → Returns o P
    → ((s : Session) (effects : List Effect) → P s effects → Q s effects)
    → Returns o Q
Returns-weaken P Q none p f = absurd p
Returns-weaken P Q (some (s, effects)) p f = f s effects p

pub Returns-both :
    (P Q : Session → List Effect → Type 0) (o : Outcome)
    → Returns o P
    → Returns o Q
    → Returns o (λ s effects. P s effects × Q s effects)
Returns-both P Q none p q = p
Returns-both P Q (some (s, effects)) p q = (p, q)
