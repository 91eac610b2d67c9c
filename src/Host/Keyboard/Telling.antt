-- ===== src/Host/Keyboard/Telling.antt =====
-- What the messages of host/src/capture/keyboard.rs tell of the keys that are held.
use esp32_universal_control.Base.{
  ℕ, ◌≡◌, refl, ap, ◌∙◌, Bool, true, false, Option, none, some, inl, inr, List, [], ◌∷◌, ◌++◌, ◌==◌,
  Bool-cases, Option-cases, is_number,
}
use esp32_universal_control.Protocol.Input.{Held}
use esp32_universal_control.Protocol.Wire.{
  HostMsg, hello, select_peer, keyboard_state, consumer_state, touch_frame,
}
use esp32_universal_control.Host.Slots.{SlotTable}
use esp32_universal_control.Host.Keymap.{
  mac_to_consumer, mac_to_hid, modifier_mask, modifier_mask_from_hid,
}
use esp32_universal_control.Host.Keyboard.{
  EventType, Event, EventFlags, CaptureState, EscapeState, Effect, pushed, local_escape, click,
  tap_enabled, Update, set_consumer, set_modifiers, changed_keys, update_hid_key_state, handle_key,
  handle_flags_changed, flags_with_mask, apply_mask, pushing, escape_usage, flush_pending_escape,
  release_escape, finish_escape, handle_slot_hotkey, type_key, on_key_down, on_key_up,
  on_flags_changed, on_button, dispatch, on_event, is_pending, is_tap_disabled, mac_escape, idle,
  pending, forwarded, chord_used, key_down, key_up, flags_changed, left_mouse_down, left_mouse_up,
  right_mouse_down, right_mouse_up, other, tap_disabled_by_timeout, tap_disabled_by_user_input,
}
use esp32_universal_control.Host.Keyboard.Tap.{IsLocal, hotkey-IsLocal}
use esp32_universal_control.Host.Keyboard.Chord.{on_events}

abbrev pub held_by : CaptureState → Held
held_by s = (s.keyboard, s.consumer)

-- What is held after a message, by what was held before.
abbrev pub tell : HostMsg → Held → Held
tell (keyboard_state keys) held = (keys, held.1)
tell (consumer_state bits) held = (held.0, bits)
tell (hello version) held = held
tell (select_peer slot) held = held
tell (touch_frame frame) held = held

abbrev pub tell_all : List HostMsg → Held → Held
tell_all [] held = held
tell_all (msg ∷ msgs) held = tell_all msgs (tell msg held)

abbrev pub messages : List Effect → List HostMsg
messages [] = []
messages (pushed msg ∷ effects) = msg ∷ messages effects
messages (local_escape down ∷ effects) = messages effects
messages (click pressed ∷ effects) = messages effects
messages (tap_enabled ∷ effects) = messages effects

tell_all-append :
    (xs ys : List Effect) (held : Held)
    → tell_all (messages (xs ++ ys)) held ≡ tell_all (messages ys) (tell_all (messages xs) held)
tell_all-append [] ys held = refl
tell_all-append (pushed msg ∷ xs) ys held = tell_all-append xs ys (tell msg held)
tell_all-append (local_escape down ∷ xs) ys held = tell_all-append xs ys held
tell_all-append (click pressed ∷ xs) ys held = tell_all-append xs ys held
tell_all-append (tap_enabled ∷ xs) ys held = tell_all-append xs ys held

-- The effects tell what the new state holds.
abbrev pub Tells : CaptureState → CaptureState → List Effect → Type 0
Tells s s' effects = tell_all (messages effects) (held_by s) ≡ held_by s'

abbrev UpdateTells : CaptureState → Update → Type 0
UpdateTells s (s', msg) = Tells s s' (pushing msg)

set_consumer-Tells : (s : CaptureState) (next : ℕ) → UpdateTells s (set_consumer s next)
set_consumer-Tells s next = elim (Bool-cases (next == s.consumer)) [
  | inl same ↦ rw same refl
  | inr new ↦ rw new refl
]

set_modifiers-Tells : (s : CaptureState) (next : ℕ) → UpdateTells s (set_modifiers s next)
set_modifiers-Tells s next = elim (Bool-cases (next == s.keyboard.modifiers)) [
  | inl same ↦ rw same refl
  | inr new ↦ rw new refl
]

changed_keys-Tells :
    (s : CaptureState) (keys : Option (List ℕ)) → UpdateTells s (changed_keys s keys)
changed_keys-Tells s none = refl
changed_keys-Tells s (some keys) = refl

update_hid_key_state-Tells :
    (s : CaptureState) (hid : ℕ) (down : Bool) → UpdateTells s (update_hid_key_state s hid down)
unfolding update_hid_key_state
update_hid_key_state-Tells s hid down = elim (Bool-cases (hid == 0)) [
  | inl no_key ↦ rw no_key refl
  | inr key ↦ elim (Option-cases (modifier_mask_from_hid hid)) [
    | inl e ↦ rw (key, e) (changed_keys-Tells s _)
    | inr (mask, e) ↦
        rw (key, e) (set_modifiers-Tells s (apply_mask down s.keyboard.modifiers mask))
  ]
]

handle_key-Tells :
    (s : CaptureState) (keycode : ℕ) (down : Bool) → UpdateTells s (handle_key s keycode down)
unfolding handle_key
handle_key-Tells s keycode down = elim (Option-cases (mac_to_consumer keycode)) [
  | inl e ↦ rw (e, handle_key) (update_hid_key_state-Tells s (mac_to_hid keycode) down)
  | inr (bit, e) ↦ rw (e, handle_key) (set_consumer-Tells s _)
]

handle_flags_changed-Tells :
    (flags : EventFlags) (s : CaptureState) (event : Event)
    → UpdateTells s (handle_flags_changed flags s event)
unfolding handle_flags_changed flags_with_mask
handle_flags_changed-Tells flags s event = elim (Option-cases (modifier_mask event.keycode)) [
  | inl e ↦ rw e refl
  | inr (mask, e) ↦ rw e (set_modifiers-Tells s _)
]

type_key-Tells :
    (s : CaptureState) (keycode : ℕ) (down : Bool)
    → let (s', effects, result) = type_key s true keycode down in Tells s s' effects
unfolding type_key
type_key-Tells s keycode down = handle_key-Tells s keycode down

-- One part of a handler after another.
Tells-append :
    (s s₁ s₂ : CaptureState) (xs ys : List Effect)
    → Tells s s₁ xs
    → Tells s₁ s₂ ys
    → Tells s s₂ (xs ++ ys)
Tells-append s s₁ s₂ xs ys first second =
    tell_all-append xs ys (held_by s) ∙ ap (tell_all (messages ys)) first ∙ second

escape_usage-Tells : (s : CaptureState) (down : Bool) → UpdateTells s (escape_usage s down)
escape_usage-Tells s down = update_hid_key_state-Tells s (mac_to_hid mac_escape) down

release_escape-Tells :
    (escape : EscapeState) (s : CaptureState)
    → let (s', effects) = release_escape escape s true in Tells s s' effects
unfolding release_escape
release_escape-Tells pending s =
    let s₁ = (escape_usage s true).0 in
    Tells-append s s₁ (escape_usage s₁ false).0 (pushing (escape_usage s true).1)
      (pushing (escape_usage s₁ false).1) (escape_usage-Tells s true) (escape_usage-Tells s₁ false)
release_escape-Tells forwarded s = escape_usage-Tells s false
release_escape-Tells chord_used s = refl
release_escape-Tells idle s = refl

finish_escape-Tells :
    (s : CaptureState) → let (s', effects) = finish_escape s true in Tells s s' effects
unfolding finish_escape
finish_escape-Tells s = release_escape-Tells s.escape_state s

flush_pending_escape-Tells :
    (s : CaptureState) → let (s', effects) = flush_pending_escape s true in Tells s s' effects
unfolding flush_pending_escape
flush_pending_escape-Tells s = escape_usage-Tells s true

on_key_up-Tells :
    (s : CaptureState) (keycode : ℕ)
    → let (s', effects, result) = on_key_up s true keycode in Tells s s' effects
unfolding on_key_up
on_key_up-Tells s keycode = elim (Bool-cases (keycode == mac_escape)) [
  | inl escape ↦ rw (escape, on_key_up) (finish_escape-Tells s)
  | inr key ↦ elim (Bool-cases (is_number s.hotkey_keyup keycode)) [
    | inl number ↦ rw (key, number, on_key_up) refl
    | inr typed ↦ rw (key, typed, on_key_up) (type_key-Tells s keycode false)
  ]
]

tell-IsLocal : (msg : HostMsg) (held : Held) → IsLocal (pushed msg) → tell msg held ≡ held
tell-IsLocal (select_peer slot) held l = refl
tell-IsLocal (hello version) held l = absurd l
tell-IsLocal (keyboard_state keys) held l = absurd l
tell-IsLocal (consumer_state bits) held l = absurd l
tell-IsLocal (touch_frame frame) held l = absurd l

on_key_down-Tells :
    (s : CaptureState) (table : SlotTable) (keycode : ℕ)
    → let (s', effects, result) = on_key_down s true table keycode in Tells s s' effects
unfolding on_key_down
on_key_down-Tells s table keycode = elim (Bool-cases (keycode == mac_escape)) [
  | inl escape ↦ rw (escape, on_key_down) refl
  | inr key ↦ elim (Option-cases (handle_slot_hotkey s table keycode)) [
    | inr (msg, e) ↦
        rw (key, e, on_key_down)
          (tell-IsLocal msg (held_by s) (hotkey-IsLocal s table keycode msg e))
    | inl e ↦ elim (Bool-cases (is_pending s.escape_state)) [
      | inl waits ↦
          let s₁ = (flush_pending_escape s true).0 in
          rw (key, e, waits, on_key_down)
            (Tells-append s s₁ (type_key s₁ true keycode true).0 (flush_pending_escape s true).1
              (pushing (handle_key s₁ keycode true).1) (flush_pending_escape-Tells s)
              (type_key-Tells s₁ keycode true))
      | inr typed ↦ rw (key, e, typed, on_key_down) (type_key-Tells s keycode true)
    ]
  ]
]

dispatch-Tells :
    (flags : EventFlags) (type : EventType) (s : CaptureState) (table : SlotTable) (event : Event)
    → let (s', effects, result) = dispatch flags type s true table event in Tells s s' effects
unfolding dispatch on_button on_flags_changed
dispatch-Tells flags key_down s table event = on_key_down-Tells s table event.keycode
dispatch-Tells flags key_up s table event = on_key_up-Tells s event.keycode
dispatch-Tells flags flags_changed s table event = handle_flags_changed-Tells flags s event
dispatch-Tells flags left_mouse_down s table event = refl
dispatch-Tells flags left_mouse_up s table event = refl
dispatch-Tells flags right_mouse_down s table event = refl
dispatch-Tells flags right_mouse_up s table event = refl
dispatch-Tells flags (other kind) s table event = refl
dispatch-Tells flags tap_disabled_by_timeout s table event = refl
dispatch-Tells flags tap_disabled_by_user_input s table event = refl

on_event-Tells :
    (flags : EventFlags) (s : CaptureState) (table : SlotTable) (event : Event)
    → let (s', effects, result) = on_event flags s true table event in Tells s s' effects
unfolding on_event
on_event-Tells flags s table event = elim (Bool-cases (is_tap_disabled event.event_type)) [
  | inl disabled ↦ rw (disabled, on_event) refl
  | inr input ↦ elim (Bool-cases event.tagged) [
    | inl own ↦ rw (input, own, on_event) refl
    | inr hardware ↦ simp (input, hardware) (dispatch-Tells flags event.event_type s table event)
  ]
]

-- The events of a time in which input is forwarded.
abbrev pub forwarding_all : List (SlotTable × Event) → List (Bool × SlotTable × Event)
forwarding_all [] = []
forwarding_all ((table, event) ∷ events) = (true, table, event) ∷ forwarding_all events

pub on_events-Tells :
    (flags : EventFlags) (events : List (SlotTable × Event)) (s : CaptureState)
    → let (s', effects, results) = on_events flags s (forwarding_all events) in Tells s s' effects
unfolding on_events
on_events-Tells flags [] s = refl
on_events-Tells flags ((table, event) ∷ events) s =
    let (s₁, effects, result) = on_event flags s true table event in
    let (s₂, more, results) = on_events flags s₁ (forwarding_all events) in
    Tells-append s s₁ s₂ effects more (on_event-Tells flags s table event)
      (on_events-Tells flags events s₁)
