-- ===== src/Host/Keyboard/Tap.antt =====
-- What the event tap of host/src/capture/keyboard.rs lets through to the Mac and to the peer.
use esp32_universal_control.Base.{
  ℕ, ◌≡◌, refl, subst, inl, inr, Bool, true, false, Option, none, some, arith, if◌then◌else◌,
  Option-cases, All, get_elem?,
}
use esp32_universal_control.Protocol.Input.{default_keyboard_snapshot}
use esp32_universal_control.Protocol.Wire.{
  HostMsg, hello, touch_frame, select_peer, keyboard_state, consumer_state,
}
use esp32_universal_control.Host.Slots.{SlotTable}
use esp32_universal_control.Host.Keyboard.{
  EventType, key_down, key_up, flags_changed, left_mouse_down, left_mouse_up, right_mouse_down,
  right_mouse_up, other, mouse_moved, left_mouse_dragged, right_mouse_dragged, other_mouse_down,
  other_mouse_up, other_mouse_dragged, scroll_wheel, tablet_pointer, tablet_proximity,
  tapped_events, tap_disabled_by_timeout, tap_disabled_by_user_input, Event, EventFlags, drop,
  CaptureState, Effect, pushed, local_escape, click, tap_enabled, reset_remote_input, is_pending,
  is_tap_disabled, Reaction, on_event, on_key_down, on_key_up, on_flags_changed, on_button,
  dispatch, handle_slot_hotkey, flush_pending_escape, finish_escape, hotkey_target,
}

-- The event is a key or a mouse event: not a modifier change, and not a notice about the tap.
abbrev pub IsInputEvent : EventType → Type 0
IsInputEvent flags_changed = ⊥
IsInputEvent tap_disabled_by_timeout = ⊥
IsInputEvent tap_disabled_by_user_input = ⊥
IsInputEvent key_down = Unit {0}
IsInputEvent key_up = Unit {0}
IsInputEvent left_mouse_down = Unit {0}
IsInputEvent left_mouse_up = Unit {0}
IsInputEvent right_mouse_down = Unit {0}
IsInputEvent right_mouse_up = Unit {0}
IsInputEvent (other kind) = Unit {0}

on_key_down-drops :
    (s : CaptureState) (table : SlotTable) (keycode : ℕ)
    → (on_key_down s true table keycode).2 ≡ drop
unfolding on_key_down
on_key_down-drops s table keycode = ground arith

on_key_up-drops : (s : CaptureState) (keycode : ℕ) → (on_key_up s true keycode).2 ≡ drop
unfolding on_key_up
on_key_up-drops s keycode = ground arith

dispatch-drops :
    (flags : EventFlags) (type : EventType) (s : CaptureState) (table : SlotTable) (event : Event)
    → IsInputEvent type
    → (dispatch flags type s true table event).2 ≡ drop
unfolding dispatch on_button
dispatch-drops flags key_down s table event i = on_key_down-drops s table event.keycode
dispatch-drops flags key_up s table event i = on_key_up-drops s event.keycode
dispatch-drops flags flags_changed s table event i = absurd i
dispatch-drops flags tap_disabled_by_timeout s table event i = absurd i
dispatch-drops flags tap_disabled_by_user_input s table event i = absurd i
dispatch-drops flags left_mouse_down s table event i = refl
dispatch-drops flags left_mouse_up s table event i = refl
dispatch-drops flags right_mouse_down s table event i = refl
dispatch-drops flags right_mouse_up s table event i = refl
dispatch-drops flags (other kind) s table event i = refl

not_disabled : (type : EventType) → IsInputEvent type → is_tap_disabled type ≡ false
not_disabled flags_changed i = absurd i
not_disabled tap_disabled_by_timeout i = absurd i
not_disabled tap_disabled_by_user_input i = absurd i
not_disabled key_down i = refl
not_disabled key_up i = refl
not_disabled left_mouse_down i = refl
not_disabled left_mouse_up i = refl
not_disabled right_mouse_down i = refl
not_disabled right_mouse_up i = refl
not_disabled (other kind) i = refl

-- While input is forwarded, the callback keeps from the Mac every event that this program has
-- not posted itself, other than a modifier change and a notice that the tap was disabled.
pub forwarding_suppresses :
    (flags : EventFlags) (s : CaptureState) (table : SlotTable) (event : Event)
    → event.tagged ≡ false
    → IsInputEvent event.event_type
    → (on_event flags s true table event).2 ≡ drop
unfolding on_event
forwarding_suppresses flags s table event own i =
    simp (not_disabled event.event_type i, own)
      (dispatch-drops flags event.event_type s table event i)

-- The tap is created for every event that is suppressed while input is forwarded.
pub input-IsTapped :
    (type : EventType) → IsInputEvent type → (i : ℕ) × (get_elem? tapped_events i ≡ some type)
input-IsTapped flags_changed e = absurd e
input-IsTapped tap_disabled_by_timeout e = absurd e
input-IsTapped tap_disabled_by_user_input e = absurd e
input-IsTapped key_down e = (0, refl)
input-IsTapped key_up e = (1, refl)
input-IsTapped left_mouse_down e = (3, refl)
input-IsTapped left_mouse_up e = (4, refl)
input-IsTapped right_mouse_down e = (5, refl)
input-IsTapped right_mouse_up e = (6, refl)
input-IsTapped (other mouse_moved) e = (7, refl)
input-IsTapped (other left_mouse_dragged) e = (8, refl)
input-IsTapped (other right_mouse_dragged) e = (9, refl)
input-IsTapped (other other_mouse_down) e = (10, refl)
input-IsTapped (other other_mouse_up) e = (11, refl)
input-IsTapped (other other_mouse_dragged) e = (12, refl)
input-IsTapped (other scroll_wheel) e = (13, refl)
input-IsTapped (other tablet_pointer) e = (14, refl)
input-IsTapped (other tablet_proximity) e = (15, refl)

-- No message with input; a request to select a peer is none.
abbrev pub IsLocal : Effect → Type 0
IsLocal (pushed (select_peer slot)) = Unit {0}
IsLocal (pushed (hello version)) = ⊥
IsLocal (pushed (keyboard_state keys)) = ⊥
IsLocal (pushed (consumer_state bits)) = ⊥
IsLocal (pushed (touch_frame frame)) = ⊥
IsLocal (local_escape down) = Unit {0}
IsLocal (click pressed) = Unit {0}
IsLocal tap_enabled = Unit {0}

-- Nothing is held for the peer, and nothing goes to it.
abbrev pub StaysLocal : CaptureState → Reaction → Type 0
StaysLocal s (s', effects, result) =
    (s'.keyboard ≡ s.keyboard) × (s'.consumer ≡ s.consumer) × All IsLocal effects

pub hotkey-IsLocal :
    (s : CaptureState) (table : SlotTable) (keycode : ℕ) (msg : HostMsg)
    → handle_slot_hotkey s table keycode ≡ some msg
    → IsLocal (pushed msg)
unfolding handle_slot_hotkey
hotkey-IsLocal s table keycode msg h =
    go (is_pending s.escape_state) (hotkey_target table keycode) h
  where
    go :
        (b : Bool) (target : Option (Option ℕ))
        → (if b then (elim target [ none ↦ none | some slot ↦ some (select_peer slot) ]) else none)
          ≡ some msg
        → IsLocal (pushed msg)
    go false target e = absurd (cc)
    go true none e = absurd (cc)
    go true (some slot) e =
        let same : select_peer slot ≡ msg = ground arith in subst (λ m. IsLocal (pushed m)) same tt

on_key_down-StaysLocal :
    (s : CaptureState) (table : SlotTable) (keycode : ℕ)
    → StaysLocal s (on_key_down s false table keycode)
unfolding on_key_down flush_pending_escape
on_key_down-StaysLocal s table keycode = elim (Option-cases (handle_slot_hotkey s table keycode)) [
  | inl e ↦ ground (arith, e)
  | inr (msg, e) ↦ ground (arith, e, hotkey-IsLocal s table keycode msg e)
]

on_key_up-StaysLocal : (s : CaptureState) (keycode : ℕ) → StaysLocal s (on_key_up s false keycode)
unfolding on_key_up finish_escape
on_key_up-StaysLocal s keycode = ground arith

dispatch-StaysLocal :
    (flags : EventFlags) (type : EventType) (s : CaptureState) (table : SlotTable) (event : Event)
    → StaysLocal s (dispatch flags type s false table event)
unfolding dispatch on_button on_flags_changed
dispatch-StaysLocal flags key_down s table event = on_key_down-StaysLocal s table event.keycode
dispatch-StaysLocal flags key_up s table event = on_key_up-StaysLocal s event.keycode
dispatch-StaysLocal flags _ s table event = ground arith

-- While nothing is forwarded, an event that this program has not posted, and that is no notice
-- that the tap was disabled, sends no input to the firmware, and leaves the capture with no key,
-- no modifier and no consumer bit.
pub on_event-IsLocal :
    (flags : EventFlags) (s : CaptureState) (table : SlotTable) (event : Event)
    → event.tagged ≡ false
    → is_tap_disabled event.event_type ≡ false
    → let (s', effects, result) = on_event flags s false table event in
      (s'.keyboard ≡ default_keyboard_snapshot) × (s'.consumer ≡ 0) × All IsLocal effects
unfolding on_event
on_event-IsLocal flags s table event own enabled =
    simp (enabled, own)
      (dispatch-StaysLocal flags event.event_type (reset_remote_input s) table event)
