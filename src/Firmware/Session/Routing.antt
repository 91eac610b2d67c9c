-- ===== src/Firmware/Session/Routing.antt =====
-- Which peer the session of firmware/src/session.rs reports to.
use esp32_universal_control.Base.{
  ℕ, ◌≡◌, ◌≢◌, ◌<◌, false, Option, none, some, List, [], ◌∷◌, inl, inr, arith, All, ◌==◌,
  Bool-cases, get_elem?,
}
use esp32_universal_control.Protocol.Input.{default_keyboard_snapshot, default_touch_frame}
use esp32_universal_control.Protocol.Wire.{
  HostMsg, hello, select_peer, keyboard_state, consumer_state, touch_frame, FirmwareMsg,
  active_peer_changed, protocol_error, invalid_peer_slot, max_peers, protocol_version,
}
use esp32_universal_control.Protocol.Ptp.{new_encoder, default_report}
use esp32_universal_control.Protocol.Keyboard.{default_keyboard_report}
use esp32_universal_control.Protocol.Ptp.Lifts.{encode-IsEncoder}
use esp32_universal_control.Firmware.Ble.{BleStack}
use esp32_universal_control.Firmware.Session.{
  PeerSlot, Session, Effect, to_host, keyboard_report, consumer_report, touch_report, Outcome,
  handle_host_msg, flush_touch_if_due, active_conn_handle, flush_to, flush_active, send_report,
  scan_time_from_us, greet, deselect, activate, if_ready,
}
use esp32_universal_control.Firmware.Session.Snapshot.{snapshot_lem}
use esp32_universal_control.Firmware.Session.Valid.{IsValid, Returns, switch_to_cases}

-- A message that carries input.
abbrev pub IsInput : HostMsg → Type 0
IsInput (hello version) = ⊥
IsInput (select_peer slot) = ⊥
IsInput (keyboard_state keys) = Unit {0}
IsInput (consumer_state bits) = Unit {0}
IsInput (touch_frame frame) = Unit {0}

-- With no active peer, a message with keys, consumer bits or touch is ignored: nothing is sent,
-- and the session is as before.
pub local_ignores_input :
    (now : ℕ) (s : Session) (msg : HostMsg)
    → s.active_slot ≡ none
    → IsInput msg
    → handle_host_msg now s msg ≡ some (s, [])
unfolding handle_host_msg
local_ignores_input now s (hello version) e i = absurd i
local_ignores_input now s (select_peer slot) e i = absurd i
local_ignores_input now s (keyboard_state keys) e i = ground arith
local_ignores_input now s (consumer_state bits) e i = ground arith
local_ignores_input now s (touch_frame frame) e i = ground arith

-- A report goes to the given handle; a message to the host may go out at any time.
abbrev pub ReportsTo : Option ℕ → Effect → Type 0
ReportsTo active (to_host msg) = Unit {0}
ReportsTo active (keyboard_report conn_handle report) = active ≡ some conn_handle
ReportsTo active (consumer_report conn_handle bits) = active ≡ some conn_handle
ReportsTo active (touch_report conn_handle report) = active ≡ some conn_handle

abbrev pub RoutesTo : Option ℕ → Outcome → Type 0
RoutesTo active o = Returns o (λ s effects. All (ReportsTo active) effects)

if_ready-ReportsTo :
    (s : Session) (active : Option ℕ) (msgs : List FirmwareMsg)
    → All (ReportsTo active) (if_ready s msgs)
if_ready-ReportsTo s active [] = tt
if_ready-ReportsTo s active (msg ∷ msgs) = ground (arith, if_ready-ReportsTo s active msgs)

greet-RoutesTo :
    (s : Session) (version : ℕ) (active : Option ℕ) → IsValid s → RoutesTo active (greet s version)
unfolding greet
greet-RoutesTo s version active v = elim (Bool-cases (version == protocol_version)) [
  | inl same ↦ rw (same, greet, snapshot_lem s v.four) (tt, (tt, tt))
  | inr other ↦ rw (other, greet) (tt, tt)
]

deselect-RoutesTo :
    (now : ℕ) (s : Session) (active : Option ℕ)
    → active_conn_handle s ≡ some active
    → RoutesTo active (deselect now s)
unfolding deselect
deselect-RoutesTo now s none e =
    ground (arith, if_ready-ReportsTo s none (active_peer_changed none ∷ []))
deselect-RoutesTo now s (some h) e =
    ground (arith, if_ready-ReportsTo s (some h) (active_peer_changed none ∷ []))

activate-RoutesTo :
    (now : ℕ) (s : Session) (slot : ℕ) (active : Option ℕ)
    → active_conn_handle s ≡ some active
    → RoutesTo active (activate now s slot)
unfolding activate
activate-RoutesTo now s slot none e =
    ground (arith, if_ready-ReportsTo s none (active_peer_changed (some slot) ∷ []))
activate-RoutesTo now s slot (some h) e =
    ground (arith, if_ready-ReportsTo s (some h) (active_peer_changed (some slot) ∷ []))

-- On a well-formed session, handling a host message does not panic, and sends reports to the
-- peer that was active before it, if there was one, and to no other.
pub handle_host_msg-RoutesTo :
    (now : ℕ) (s : Session) (msg : HostMsg) (active : Option ℕ)
    → IsValid s
    → active_conn_handle s ≡ some active
    → RoutesTo active (handle_host_msg now s msg)
unfolding handle_host_msg
handle_host_msg-RoutesTo now s (hello version) active v e = greet-RoutesTo s version active v
handle_host_msg-RoutesTo now s (select_peer none) active v e = deselect-RoutesTo now s active e
handle_host_msg-RoutesTo now s (select_peer (some slot)) active v e =
    switch_to_cases (RoutesTo active) now s slot v
      (if_ready-ReportsTo s active (protocol_error (invalid_peer_slot slot) ∷ [])) tt
      (λ _. activate-RoutesTo now s slot active e)
handle_host_msg-RoutesTo now s (keyboard_state keys) active v e = ground arith
handle_host_msg-RoutesTo now s (consumer_state bits) active v e = ground arith
handle_host_msg-RoutesTo now s (touch_frame frame) active v e = ground arith

flush_to-RoutesTo :
    (ble : BleStack) (now : ℕ) (s : Session) (conn_handle : ℕ)
    → IsValid s
    → RoutesTo (some conn_handle) (flush_to ble now s conn_handle)
unfolding flush_to send_report
flush_to-RoutesTo ble now s conn_handle v =
    let (e', report, runs, _, _, _) =
      encode-IsEncoder s.touch s.latest_touch (scan_time_from_us now) v.encoder in
    ground (arith, runs)

flush_active-RoutesTo :
    (ble : BleStack) (now : ℕ) (s : Session) (active : Option ℕ)
    → IsValid s
    → RoutesTo active (flush_active ble now s active)
unfolding flush_active
flush_active-RoutesTo ble now s none v = tt
flush_active-RoutesTo ble now s (some conn_handle) v =
    ground (arith, flush_to-RoutesTo ble now s conn_handle v)

-- On a well-formed session, sending a touch frame does not panic, and sends a report to the
-- active peer, if there is one, and to no other, whatever the stack answers.
pub flush_touch_if_due-RoutesTo :
    (ble : BleStack) (now : ℕ) (s : Session) (active : Option ℕ)
    → IsValid s
    → active_conn_handle s ≡ some active
    → RoutesTo active (flush_touch_if_due ble now s)
unfolding flush_touch_if_due
flush_touch_if_due-RoutesTo ble now s active v e = rw e (flush_active-RoutesTo ble now s active v)

-- The session holds no input, and nothing waits to be sent.
pub record IsIdle (s : Session) : Type 0 where
  pub no_keys : s.keyboard ≡ default_keyboard_snapshot
  pub no_consumer : s.consumer ≡ 0
  pub no_touch : s.latest_touch ≡ default_touch_frame
  pub nothing_waits : s.touch_dirty ≡ false
  pub nothing_tracked : s.touch ≡ new_encoder

-- Selecting a slot that holds a peer, other than the active one, first sends the old peer a report
-- with no key, one with no consumer bit and one with no contact, in this order, then tells a host
-- that is ready. The session then has the new slot active, the same peers, no input and nothing that
-- waits.
pub switch_releases :
    (now : ℕ) (s : Session) (old new conn_handle : ℕ) (peer : PeerSlot)
    → s.active_slot ≡ some old
    → active_conn_handle s ≡ some (some conn_handle)
    → old ≢ new
    → new < max_peers
    → get_elem? s.peers new ≡ some (some peer)
    → Returns (handle_host_msg now s (select_peer (some new))) (λ s' effects.
      (effects
        ≡ keyboard_report conn_handle default_keyboard_report
          ∷ consumer_report conn_handle 0
          ∷ touch_report conn_handle (record default_report { scan_time = scan_time_from_us now })
          ∷ if_ready s (active_peer_changed (some new) ∷ []))
      × (s'.active_slot ≡ some new)
      × (s'.peers ≡ s.peers)
      × IsIdle s')
unfolding handle_host_msg
switch_releases now s old new conn_handle peer was active other small there = ground arith
