-- ===== src/Host/Keyboard/Chord.antt =====
-- The chord Esc and a number in host/src/capture/keyboard.rs.
use esp32_universal_control.Base.{
  ℕ, ◌≡◌, ◌≢◌, refl, Bool, true, false, Option, none, some, List, [], ◌∷◌, ◌++◌, arith,
  if◌then◌else◌,
}
use esp32_universal_control.Protocol.Wire.{select_peer}
use esp32_universal_control.Host.Slots.{SlotTable}
use esp32_universal_control.Host.Keyboard.{
  mac_escape, key_down, key_up, Event, EventFlags, CallbackResult, drop, idle, pending, chord_used,
  CaptureState, Effect, pushed, on_event, on_key_down, on_key_up, handle_slot_hotkey, finish_escape,
  hotkey_target, reset_remote_input,
}

-- A key event of the hardware.
abbrev pub key_event : Bool → ℕ → Event
key_event true keycode = record {
  event_type = key_down;
  keycode = keycode;
  flags = 0;
  tagged = false;
}
key_event false keycode = record {
  event_type = key_up;
  keycode = keycode;
  flags = 0;
  tagged = false;
}

-- The callback on a run of events, each with the shared state at its time.
unfoldable pub on_events :
    EventFlags
    → CaptureState
    → List (Bool × SlotTable × Event)
    → CaptureState × List Effect × List CallbackResult
on_events flags s [] = (s, [], [])
on_events flags s ((fwd, table, event) ∷ events) =
    let (s₁, effects, result) = on_event flags s fwd table event in
    let (s₂, more, results) = on_events flags s₁ events in (s₂, effects ++ more, result ∷ results)

-- What the callback sees of a key event: the state, reset where nothing is forwarded.
abbrev pub seen : CaptureState → Bool → CaptureState
seen s fwd = if fwd then s else reset_remote_input s

escape_down :
    (flags : EventFlags) (s : CaptureState) (fwd : Bool) (table : SlotTable)
    → on_event flags s fwd table (key_event true mac_escape)
      ≡ (record (seen s fwd) { escape_state = pending }, [], drop)
unfolding on_event on_key_down
escape_down flags s fwd table = refl

number_down :
    (flags : EventFlags) (s : CaptureState) (fwd : Bool) (table : SlotTable) (number : ℕ)
    (slot : Option ℕ)
    → s.escape_state ≡ pending
    → hotkey_target table number ≡ some slot
    → on_event flags s fwd table (key_event true number) ≡ (
      record (seen s fwd) { hotkey_keyup = some number; escape_state = chord_used },
      pushed (select_peer slot) ∷ [],
      drop,
    )
unfolding on_event on_key_down handle_slot_hotkey
number_down flags s fwd table number slot armed h = ground (arith)

number_up :
    (flags : EventFlags) (s : CaptureState) (fwd : Bool) (table : SlotTable) (number : ℕ)
    → s.hotkey_keyup ≡ some number
    → number ≢ mac_escape
    → on_event flags s fwd table (key_event false number)
      ≡ (record (seen s fwd) { hotkey_keyup = none }, [], drop)
unfolding on_event on_key_up
number_up flags s fwd table number armed ne = ground arith

escape_up :
    (flags : EventFlags) (s : CaptureState) (fwd : Bool) (table : SlotTable)
    → s.escape_state ≡ chord_used
    → on_event flags s fwd table (key_event false mac_escape)
      ≡ (record (seen s fwd) { escape_state = idle }, [], drop)
unfolding on_event on_key_up finish_escape
escape_up flags s fwd table used = ground arith

not_escape :
    (table : SlotTable) (number : ℕ) (slot : Option ℕ)
    → hotkey_target table number ≡ some slot
    → number ≢ mac_escape
not_escape table number slot h e = ground arith

-- Esc down, a number whose target may be selected, and both up again: from any state, whatever is
-- forwarded at each event, all four events are kept from the Mac, the one request for the target
-- is all that is sent, and the capture is back to idle with no key-up left to swallow. Its keys are
-- as before, but for the reset at each event that is not forwarded.
pub chord_selects :
    (flags : EventFlags) (s : CaptureState) (f₁ f₂ f₃ f₄ : Bool) (t₁ t₂ t₃ t₄ : SlotTable)
    (number : ℕ) (slot : Option ℕ)
    → hotkey_target t₂ number ≡ some slot
    → on_events flags s (
        (f₁, t₁, key_event true mac_escape)
        ∷ (f₂, t₂, key_event true number)
        ∷ (f₃, t₃, key_event false number)
        ∷ (f₄, t₄, key_event false mac_escape)
        ∷ [])
      ≡ (
        record (seen (seen (seen (seen s f₁) f₂) f₃) f₄) {
          hotkey_keyup = none;
          escape_state = idle;
        },
        pushed (select_peer slot) ∷ [],
        drop ∷ drop ∷ drop ∷ drop ∷ [],
      )
unfolding on_events
chord_selects flags s f₁ f₂ f₃ f₄ t₁ t₂ t₃ t₄ number slot h =
    let s₁ : CaptureState = record (seen s f₁) { escape_state = pending } in
    let s₂ : CaptureState = record (seen s₁ f₂) {
      hotkey_keyup = some number;
      escape_state = chord_used;
    } in
    let s₃ : CaptureState = record (seen s₂ f₃) { hotkey_keyup = none } in
    ground (
      arith,
      escape_down flags s f₁ t₁,
      number_down flags s₁ f₂ t₂ number slot refl h,
      number_up flags s₂ f₃ t₃ number refl (not_escape t₂ number slot h),
      escape_up flags s₃ f₄ t₄ (ground arith),
    )
