-- ===== src/Host/Keyboard/Tests.antt =====
-- Runs of the event tap of host/src/capture/keyboard.rs.
use esp32_universal_control.Base.{
  ◌^◌, ℕ, ◌≡◌, refl, true, false, none, some, List, [], ◌∷◌, arith, All, replicate,
}
use esp32_universal_control.Protocol.Input.{default_keyboard_snapshot}
use esp32_universal_control.Protocol.Wire.{select_peer, keyboard_state}
use esp32_universal_control.Host.Keymap.{mac_to_hid, mac_to_hid_table}
use esp32_universal_control.Host.Slots.{SlotTable, has_slot}
use esp32_universal_control.Host.Keyboard.{
  apply_modifier_transition, mac_escape, mac_2, EventFlags, drop, CaptureState, default_capture,
  pushed, press_key, release_key, on_event, on_key_down, on_key_up, finish_escape,
  update_hid_key_state,
}
use esp32_universal_control.Host.Keyboard.Keys.{
  array_of, press_key_lem, release_key_lem, press-release,
}
use esp32_universal_control.Host.Keyboard.Tap.{IsLocal, forwarding_suppresses, on_event-IsLocal}
use esp32_universal_control.Host.Keyboard.Modifiers.{
  holds_key, held_after, apply_modifier_transition_lem,
}
use esp32_universal_control.Host.Keyboard.Chord.{key_event, on_events, chord_selects}

abbrev mac_flags : EventFlags
mac_flags = record { control = 0x40000; shift = 0x20000; alternate = 0x80000; command = 0x100000 }

abbrev one_slot : SlotTable
one_slot = record {
  slots = some (1 ∷ 2 ∷ 3 ∷ 4 ∷ 5 ∷ 6 ∷ []) ∷ none ∷ none ∷ none ∷ [];
  active = none;
  forwarding = false;
}

abbrev holding_a : CaptureState
holding_a = record default_capture {
  keyboard = record { modifiers = 2; keys = 0x04 ∷ replicate 5 0 };
}

chord_selects_example :
    on_events mac_flags holding_a (
      (true, one_slot, key_event true mac_escape)
      ∷ (true, one_slot, key_event true mac_2)
      ∷ (false, one_slot, key_event false mac_2)
      ∷ (false, one_slot, key_event false mac_escape)
      ∷ [])
    ≡ (default_capture, pushed (select_peer (some 0)) ∷ [], drop ∷ drop ∷ drop ∷ drop ∷ [])
unfolding has_slot
chord_selects_example =
    chord_selects mac_flags holding_a true true false false one_slot one_slot one_slot one_slot
      mac_2 (some 0) refl

forwarding_suppresses_example :
    (on_event mac_flags default_capture true one_slot (key_event true 0x00)).2 ≡ drop
forwarding_suppresses_example =
    forwarding_suppresses mac_flags default_capture one_slot (key_event true 0x00) refl tt

on_event-IsLocal_example :
    let (s', effects, result) = on_event mac_flags holding_a false one_slot (key_event true 0x01) in
    (s'.keyboard ≡ default_keyboard_snapshot) × (s'.consumer ≡ 0) × All IsLocal effects
on_event-IsLocal_example =
    on_event-IsLocal mac_flags holding_a one_slot (key_event true 0x01) refl refl

press_key_lem_example : press_key (array_of (0x04 ∷ [])) 0x05 ≡ some (array_of (0x04 ∷ 0x05 ∷ []))
press_key_lem_example = press_key_lem (0x04 ∷ []) 0x05 (omega arith, tt) (omega arith) (omega arith)

release_key_lem_example :
    release_key (array_of (0x04 ∷ 0x05 ∷ 0x06 ∷ [])) 0x04 ≡ some (array_of (0x05 ∷ 0x06 ∷ []))
release_key_lem_example = release_key_lem (0x04 ∷ 0x05 ∷ 0x06 ∷ []) 0x04 (omega arith) (omega arith)

press_then_release :
    (keys : List ℕ) × (press_key (array_of (0x04 ∷ [])) 0x05 ≡ some keys)
    × (release_key keys 0x05 ≡ some (array_of (0x04 ∷ [])))
press_then_release =
    press-release (0x04 ∷ []) 0x05 (omega arith, tt) (omega arith) (omega arith) refl

-- Escape alone goes to the peer when it is released, not before.
escape_tap :
    on_events mac_flags default_capture (
      (true, one_slot, key_event true mac_escape)
      ∷ (true, one_slot, key_event false mac_escape)
      ∷ [])
    ≡ (
      default_capture,
      pushed (keyboard_state (record default_keyboard_snapshot { keys = 0x29 ∷ replicate 5 0 }))
          ∷ pushed (keyboard_state default_keyboard_snapshot)
          ∷ [],
      drop ∷ drop ∷ [],
    )
unfolding on_events on_event on_key_down on_key_up finish_escape update_hid_key_state mac_to_hid
    mac_to_hid_table
escape_tap = refl

-- The left Shift goes up while the right one is held.
abbrev both_shifts : ℕ
both_shifts = 0x22

shift_up : apply_modifier_transition both_shifts 0x02 true ≡ 0x20
unfolding apply_modifier_transition
shift_up = refl

apply_modifier_transition_lem_example :
    holds_key (apply_modifier_transition both_shifts (2 ^ 1) true) 5
    ≡ held_after both_shifts 1 true 5
apply_modifier_transition_lem_example =
    apply_modifier_transition_lem both_shifts 1 5 true (omega arith) (omega arith) (omega arith)
