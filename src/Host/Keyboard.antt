-- ===== src/Host/Keyboard.antt =====
-- host/src/capture/keyboard.rs: the event tap. An event is what the callback reads of it; what the
-- callback does besides changing its state is a list of effects.
pub mod State
pub mod Keys
pub mod Tap
pub mod Chord
pub mod Modifiers
pub mod Escape
pub mod Telling
mod Conformance
mod Tests
use esp32_universal_control.Base.{
  ℕ, suc, zero, ◌+◌, ◌-◌, ◌≡◌, Bool, true, false, not, Option, none, some, List, [], ◌∷◌, ◌++◌, any,
  position, set, length, bit_and, bit_or, leb, ltb, ◌==◌, ◌&&◌, ◌||◌, if◌then◌else◌, is_some,
  is_number, replicate,
}
use esp32_universal_control.Protocol.Input.{KeyboardSnapshot, default_keyboard_snapshot}
use esp32_universal_control.Protocol.Wire.{HostMsg, select_peer, keyboard_state, consumer_state}
use esp32_universal_control.Host.Keymap.{
  mac_to_hid, mac_to_consumer, modifier_mask, modifier_mask_from_hid,
}
use esp32_universal_control.Host.Slots.{SlotTable, has_slot}
unfoldable pub use State.{
  press_key, release_key, update_hid_key_state, handle_key, apply_modifier_transition,
  handle_flags_changed, flags_with_mask,
}
pub use State.*

-- `if let Some(msg) = … { tx.push(msg); }`.
abbrev pub pushing : Option HostMsg → List Effect
pushing none = []
pushing (some msg) = pushed msg ∷ []

abbrev pub escape_usage : CaptureState → Bool → Update
escape_usage s pressed = update_hid_key_state s (mac_to_hid mac_escape) pressed

unfoldable pub flush_pending_escape : CaptureState → Bool → CaptureState × List Effect
flush_pending_escape s false = (record s { escape_state = forwarded }, local_escape true ∷ [])
flush_pending_escape s true =
    let (s', msg) = escape_usage s true in (record s' { escape_state = forwarded }, pushing msg)

-- The body of `finish_escape` before it goes back to idle.
unfoldable pub release_escape : EscapeState → CaptureState → Bool → CaptureState × List Effect
release_escape pending s true =
    let (s₁, down) = escape_usage s true in
    let (s₂, up) = escape_usage s₁ false in (s₂, pushing down ++ pushing up)
release_escape pending s false = (s, local_escape true ∷ local_escape false ∷ [])
release_escape forwarded s true = let (s', msg) = escape_usage s false in (s', pushing msg)
release_escape forwarded s false = (s, local_escape false ∷ [])
release_escape chord_used s fwd = (s, [])
release_escape idle s fwd = (s, [])

unfoldable pub finish_escape : CaptureState → Bool → CaptureState × List Effect
unfolding release_escape
finish_escape s fwd =
    let (s', effects) = release_escape s.escape_state s fwd in
    (record s' { escape_state = idle }, effects)

-- The slot that a number key selects, if it may be selected now.
abbrev pub hotkey_target : SlotTable → ℕ → Option (Option ℕ)
hotkey_target table keycode =
    if keycode == mac_1
    then some none
    else (if keycode == mac_2 && has_slot table 0
        then some (some 0)
        else (if keycode == mac_3 && has_slot table 1
            then some (some 1)
            else (if keycode == mac_4 && has_slot table 2
                then some (some 2)
                else (if keycode == mac_5 && has_slot table 3 then some (some 3) else none))))

-- `handle_slot_hotkey`: the message that it pushes, `none` where it returns false.
unfoldable pub handle_slot_hotkey : CaptureState → SlotTable → ℕ → Option HostMsg
handle_slot_hotkey s table keycode =
    if is_pending s.escape_state
    then elim (hotkey_target table keycode) [ none ↦ none | some slot ↦ some (select_peer slot) ]
    else none

abbrev pub Reaction : Type 0
Reaction = CaptureState × List Effect × CallbackResult

abbrev pub drop_if : Bool → CallbackResult
drop_if true = drop
drop_if false = keep

-- A key goes to the peer, or stays on the Mac.
type_key : CaptureState → Bool → ℕ → Bool → Reaction
type_key s true keycode pressed =
    let (s', msg) = handle_key s keycode pressed in (s', pushing msg, drop)
type_key s false keycode pressed = (s, [], keep)

abbrev pub after_effects : List Effect → Reaction → Reaction
after_effects effects (s, more, result) = (s, effects ++ more, result)

unfoldable pub on_key_down : CaptureState → Bool → SlotTable → ℕ → Reaction
unfolding type_key
on_key_down s fwd table keycode =
    if keycode == mac_escape
    then (record s { escape_state = pending }, [], drop)
    else elim (handle_slot_hotkey s table keycode) [
      | some msg ↦ (
        record s { hotkey_keyup = some keycode; escape_state = chord_used },
        pushed msg ∷ [],
        drop,
      )
      | none ↦
          let flushed : CaptureState × List Effect =
            if is_pending s.escape_state then flush_pending_escape s fwd else (s, []) in
          after_effects flushed.1 (type_key flushed.0 fwd keycode true)
    ]

unfoldable pub on_key_up : CaptureState → Bool → ℕ → Reaction
unfolding type_key
on_key_up s fwd keycode =
    if keycode == mac_escape
    then (let (s', effects) = finish_escape s fwd in (s', effects, drop))
    else (if is_number s.hotkey_keyup keycode
        then (record s { hotkey_keyup = none }, [], drop)
        else type_key s fwd keycode false)

unfoldable pub on_flags_changed : EventFlags → CaptureState → Bool → Event → Reaction
on_flags_changed flags s true event =
    let (s', msg) = handle_flags_changed flags s event in (s', pushing msg, keep)
on_flags_changed flags s false event = (s, [], keep)

on_button : CaptureState → Bool → Option Bool → Reaction
on_button s fwd none = (s, [], drop_if fwd)
on_button s fwd (some pressed) = (s, click pressed ∷ [], drop_if fwd)

-- The callback for an event that is not this program's own; `s` is reset already where nothing is
-- forwarded.
dispatch : EventFlags → EventType → CaptureState → Bool → SlotTable → Event → Reaction
unfolding on_button
dispatch flags key_down s fwd table event = on_key_down s fwd table event.keycode
dispatch flags key_up s fwd table event = on_key_up s fwd event.keycode
dispatch flags flags_changed s fwd table event = on_flags_changed flags s fwd event
dispatch flags tap_disabled_by_timeout s fwd table event = (s, [], drop_if fwd)
dispatch flags tap_disabled_by_user_input s fwd table event = (s, [], drop_if fwd)
dispatch flags left_mouse_down s fwd table event = on_button s fwd (some true)
dispatch flags left_mouse_up s fwd table event = on_button s fwd (some false)
dispatch flags right_mouse_down s fwd table event = on_button s fwd (some true)
dispatch flags right_mouse_up s fwd table event = on_button s fwd (some false)
dispatch flags (other kind) s fwd table event = on_button s fwd (ptp_button_transition (other kind))

abbrev pub is_tap_disabled : EventType → Bool
is_tap_disabled tap_disabled_by_timeout = true
is_tap_disabled tap_disabled_by_user_input = true
is_tap_disabled key_down = false
is_tap_disabled key_up = false
is_tap_disabled flags_changed = false
is_tap_disabled left_mouse_down = false
is_tap_disabled left_mouse_up = false
is_tap_disabled right_mouse_down = false
is_tap_disabled right_mouse_up = false
is_tap_disabled (other kind) = false

-- The callback of the event tap. `fwd` and `table` are what it reads of the shared state.
unfoldable pub on_event : EventFlags → CaptureState → Bool → SlotTable → Event → Reaction
unfolding dispatch
on_event flags s fwd table event =
    if is_tap_disabled event.event_type
    then (s, tap_enabled ∷ [], keep)
    else (if event.tagged
        then (s, [], keep)
        else dispatch flags event.event_type (if fwd then s else reset_remote_input s) fwd table
            event)
