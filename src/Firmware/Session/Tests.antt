-- ===== src/Firmware/Session/Tests.antt =====
-- Runs of the session of firmware/src/session.rs on small states.
use esp32_universal_control.Base.{
  ◌≡◌, ◌≢◌, refl, true, false, none, some, [], ◌∷◌, arith, replicate, inl,
}
use esp32_universal_control.Protocol.Input.{
  TouchContact, default_touch_contact, TouchFrame, default_touch_frame,
}
use esp32_universal_control.Protocol.Wire.{select_peer, keyboard_state, active_peer_changed}
use esp32_universal_control.Protocol.Ptp.Spec.{report_with, as_reported, as_lifted}
use esp32_universal_control.Protocol.Ptp.{
  encode, PtpReport, default_report, from_contact, new_encoder,
}
use esp32_universal_control.Protocol.Ptp.Encode.{contacts_of}
use esp32_universal_control.Protocol.Keyboard.{default_keyboard_report}
use esp32_universal_control.Firmware.Ble.{BleStack}
use esp32_universal_control.Firmware.Session.{
  PeerSlot, Session, new_session, keyboard_report, consumer_report, touch_report, if_ready,
  scan_time_from_us, handle_host_msg, flush_touch_if_due, snapshot,
}
use esp32_universal_control.Firmware.Session.Valid.{IsValid, Returns}
use esp32_universal_control.Firmware.Session.Snapshot.{describe, snapshot_lem}
use esp32_universal_control.Firmware.Session.Routing.{
  RoutesTo, IsIdle, local_ignores_input, handle_host_msg-RoutesTo, flush_touch_if_due-RoutesTo,
  switch_releases,
}
use esp32_universal_control.Firmware.Session.Touch.{IsDue, flush_paced, busy_loses_lift}

abbrev pub peer_a : PeerSlot
peer_a = record { conn_handle = 7; addr = 1 ∷ 2 ∷ 3 ∷ 4 ∷ 5 ∷ 6 ∷ [] }

abbrev pub peer_b : PeerSlot
peer_b = record { conn_handle = 9; addr = 6 ∷ 5 ∷ 4 ∷ 3 ∷ 2 ∷ 1 ∷ [] }

-- Two peers, of which the first is active.
abbrev pub two_peers : Session
two_peers = record new_session {
  host_ready = true;
  peers = some peer_a ∷ some peer_b ∷ none ∷ none ∷ [];
  active_slot = some 0;
}

pub two_peers-IsValid : IsValid two_peers
unfolding new_session
two_peers-IsValid = record { four = refl; active = (peer_a, refl); encoder = refl }

abbrev pub finger : TouchContact
finger = record { contact_id = 4; x = 10; y = 20; touching = true; confident = true }

abbrev pub touching_frame : TouchFrame
touching_frame = record {
  contacts = finger ∷ replicate 4 default_touch_contact;
  contact_count = 1;
  button = false;
}

-- A stack that sends, and one that is busy.
abbrev pub sending_stack : BleStack
sending_stack = record {
  connections = 7 ∷ 9 ∷ [];
  notify_touch = λ conn_handle report. none;
  enomem = 6;
  ebusy = 15;
}

abbrev busy_stack : BleStack
busy_stack = record sending_stack { notify_touch = λ conn_handle report. some 6 }

-- A frame with a finger waits to be sent.
abbrev touched : Session
touched = record two_peers { latest_touch = touching_frame; touch_dirty = true }

touched-IsValid : IsValid touched
unfolding new_session
touched-IsValid = record { four = refl; active = (peer_a, refl); encoder = refl }

touched-IsDue : IsDue sending_stack 100 touched 7
unfolding new_session
touched-IsDue = record { active = refl; waiting = refl; alive = refl; due = omega arith }

-- The finger is followed, and the frame in which it has left waits.
abbrev lifted : Session
lifted = record two_peers {
  touch_dirty = true;
  touch = record { tracked = some (from_contact finger) ∷ replicate 4 none };
}

lifted-IsValid : IsValid lifted
unfolding new_session
lifted-IsValid = record { four = refl; active = (peer_a, refl); encoder = refl }

lifted-IsDue : IsDue busy_stack 100 lifted 7
unfolding new_session
lifted-IsDue = record { active = refl; waiting = refl; alive = refl; due = omega arith }

keys_ignored :
    handle_host_msg 5 new_session (keyboard_state (new_session.keyboard)) ≡ some (new_session, [])
unfolding new_session
keys_ignored = local_ignores_input 5 new_session (keyboard_state (new_session.keyboard)) refl tt

handle_host_msg-RoutesTo_example :
    RoutesTo (some 7) (handle_host_msg 5 two_peers (select_peer none))
unfolding new_session
handle_host_msg-RoutesTo_example =
    handle_host_msg-RoutesTo 5 two_peers (select_peer none) (some 7) two_peers-IsValid refl

touched-RoutesTo : RoutesTo (some 7) (flush_touch_if_due sending_stack 100 touched)
unfolding new_session
touched-RoutesTo =
    flush_touch_if_due-RoutesTo sending_stack 100 touched (some 7) touched-IsValid refl

two_peers_switched : Returns (handle_host_msg 5 two_peers (select_peer (some 1))) (λ s' effects.
    (effects
      ≡ keyboard_report 7 default_keyboard_report
        ∷ consumer_report 7 0
        ∷ touch_report 7 (record default_report { scan_time = scan_time_from_us 5 })
        ∷ if_ready two_peers (active_peer_changed (some 1) ∷ []))
    × (s'.active_slot ≡ some 1)
    × (s'.peers ≡ two_peers.peers)
    × IsIdle s')
unfolding new_session
two_peers_switched =
    switch_releases 5 two_peers 0 1 7 peer_b refl refl (omega arith) (omega arith) refl

snapshot_at_two_peers :
    snapshot two_peers ≡ some (record { peers = describe 0 two_peers.peers; active_slot = some 0 })
unfolding new_session
snapshot_at_two_peers = snapshot_lem two_peers refl

-- The report for the finger, and the state after it is sent.
abbrev touch_down : PtpReport
touch_down = report_with touching_frame 1 (as_reported (from_contact finger) ∷ [])

abbrev after_touch : Session
after_touch = record touched {
  touch_dirty = false;
  touch = record { tracked = some (from_contact finger) ∷ replicate 4 none };
  next_touch_send_at_us = 8100;
}

touch_sent :
    flush_touch_if_due sending_stack 100 touched
    ≡ some (after_touch, touch_report 7 touch_down ∷ [])
unfolding flush_touch_if_due encode new_session
touch_sent = refl

flush_paced_example :
    let waiting : Session = record after_touch {
      latest_touch = default_touch_frame;
      touch_dirty = true;
    } in
    flush_touch_if_due sending_stack 8099 waiting ≡ some (waiting, [])
flush_paced_example =
    flush_paced sending_stack sending_stack 100 8099 touched after_touch
      (touch_report 7 touch_down ∷ []) 7 default_touch_frame touched-IsValid touched-IsDue
      (omega arith) (λ r. refl) touch_sent (λ e. cc) refl (omega arith)

-- The report that lifts the finger, and the state after the stack was too busy for it.
abbrev touch_up : PtpReport
touch_up = report_with default_touch_frame 1 (as_lifted (from_contact finger) ∷ [])

abbrev after_busy : Session
after_busy = record lifted { touch = new_encoder; next_touch_send_at_us = 1100 }

lift_tried :
    flush_touch_if_due busy_stack 100 lifted ≡ some (after_busy, touch_report 7 touch_up ∷ [])
unfolding flush_touch_if_due encode new_session
lift_tried = refl

after_busy-IsDue : IsDue sending_stack 1100 after_busy 7
unfolding new_session
after_busy-IsDue = record { active = refl; waiting = refl; alive = refl; due = omega arith }

busy_loses_lift_example :
    (after_busy.touch_dirty ≡ true)
    × (touch_report 7 touch_up ∷ [] ≢ [])
    × Returns
        (flush_touch_if_due sending_stack 1100 after_busy)
        (λ s₂ retry. (retry ≡ []) × (s₂.touch_dirty ≡ false) × (contacts_of s₂.touch ≡ []))
unfolding new_session
busy_loses_lift_example =
    busy_loses_lift busy_stack sending_stack 100 1100 lifted after_busy
      (touch_report 7 touch_up ∷ []) 7 lifted-IsValid lifted-IsDue refl (λ e. cc) (λ r. inl refl)
      lift_tried after_busy-IsDue
