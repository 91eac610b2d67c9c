-- ===== src/Host/Outbox/Conformance.antt =====
-- The unit tests of host/src/capture/outbox.rs, as statements about the model. Both ask for messages
-- only where some are there, so that no call waits.
use esp32_universal_control.Base.{
  ℕ, ◌≡◌, refl, Bool, true, false, some, [], ◌∷◌, replicate, get_elem?, ◌>>=◌,
}
use esp32_universal_control.Protocol.Input.{
  default_touch_contact, TouchFrame, default_touch_frame, KeyboardSnapshot,
}
use esp32_universal_control.Protocol.Wire.{select_peer, keyboard_state, touch_frame}
use esp32_universal_control.Host.Outbox.{new_outbox, push, recv, recv_from, take_touch}

abbrev frame_at : (x y : ℕ) → Bool → TouchFrame
frame_at x y button = record {
  contacts =
      record { contact_id = 1; x = x; y = y; touching = true; confident = true }
      ∷ replicate 4 default_touch_contact;
  contact_count = 1;
  button = button;
}

abbrev CoalescesTouchFramesToLatestOne : Type 0
CoalescesTouchFramesToLatestOne =
    let outbox =
      push (push new_outbox (touch_frame (frame_at 10 20 false)))
        (touch_frame (frame_at 30 40 true)) in
    (frame : TouchFrame) × ((recv outbox >>= λ r. some r.0) ≡ some (touch_frame frame))
    × ((get_elem? frame.contacts 0 >>= λ contact. some contact.x) ≡ some 30)
    × (frame.button ≡ true)

coalesces_touch_frames_to_latest_one : CoalescesTouchFramesToLatestOne
unfolding push recv recv_from take_touch
coalesces_touch_frames_to_latest_one = (frame_at 30 40 true, refl, refl, refl)

abbrev PrioritizesControlMessagesAndClearsTouchOnSelect : Type 0
PrioritizesControlMessagesAndClearsTouchOnSelect =
    let keys : KeyboardSnapshot = record { modifiers = 1; keys = 4 ∷ 0 ∷ 0 ∷ 0 ∷ 0 ∷ 0 ∷ [] } in
    let outbox =
      push (push (push new_outbox (touch_frame default_touch_frame)) (select_peer (some 2)))
        (keyboard_state keys) in
    ((recv outbox >>= λ first. some first.0) ≡ some (select_peer (some 2)))
    × ((recv outbox >>= λ first. recv first.1 >>= λ second. some second.0)
        ≡ some (keyboard_state keys))

prioritizes_control_messages_and_clears_touch_on_select :
    PrioritizesControlMessagesAndClearsTouchOnSelect
unfolding push recv recv_from take_touch
prioritizes_control_messages_and_clears_touch_on_select = (refl, refl)
