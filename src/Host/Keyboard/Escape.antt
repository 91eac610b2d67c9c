-- ===== src/Host/Keyboard/Escape.antt =====
-- The synthetic Escape of host/src/capture/keyboard.rs: posted on the Mac, it comes back to the tap.
use esp32_universal_control.Base.{
  ℕ, ◌≡◌, refl, Bool, true, false, Option, none, some, inl, inr, List, [], ◌∷◌, ◌>>=◌, All,
  Option-cases, arith,
}
use esp32_universal_control.Host.Slots.{SlotTable}
use esp32_universal_control.Host.Keyboard.{
  Event, EventFlags, keep, CaptureState, mac_escape, is_tap_disabled, on_event,
}

-- `local_escape_event`. macOS creates the source or does not, and creates an event for a keycode
-- and a direction or does not.
unfoldable pub local_escape_event :
    (source_created : Bool) → (new_keyboard_event : ℕ → Bool → Option Event) → Bool → Option Event
local_escape_event false new_keyboard_event keydown = none
local_escape_event true new_keyboard_event keydown =
    new_keyboard_event mac_escape keydown >>= λ event. some (record event { tagged = true })

abbrev pub is_local_escape_passthrough : Event → Bool
is_local_escape_passthrough event = event.tagged

-- `emit_local_escape`: the events that are posted.
unfoldable pub emit_local_escape :
    (source_created : Bool) → (new_keyboard_event : ℕ → Bool → Option Event) → Bool → List Event
unfolding local_escape_event
emit_local_escape source_created new_keyboard_event keydown =
    elim (local_escape_event source_created new_keyboard_event keydown) [
      | none ↦ []
      | some event ↦ event ∷ []
    ]

-- macOS creates key events, not notices that the tap was disabled.
abbrev pub CreatesKeys : (ℕ → Bool → Option Event) → Type 0
CreatesKeys new_keyboard_event =
    (keycode : ℕ) (keydown : Bool) (event : Event)
    → new_keyboard_event keycode keydown ≡ some event
    → is_tap_disabled event.event_type ≡ false

local_escape_event-passes :
    (source_created : Bool) (new_keyboard_event : ℕ → Bool → Option Event) (keydown : Bool)
    (flags : EventFlags) (s : CaptureState) (fwd : Bool) (table : SlotTable) (event : Event)
    → CreatesKeys new_keyboard_event
    → local_escape_event source_created new_keyboard_event keydown ≡ some event
    → on_event flags s fwd table event ≡ (s, [], keep)
unfolding local_escape_event on_event
local_escape_event-passes false new_keyboard_event keydown flags s fwd table event creates e =
    absurd (cc)
local_escape_event-passes true new_keyboard_event keydown flags s fwd table event creates e =
    elim (Option-cases (new_keyboard_event mac_escape keydown)) [
      | inl n ↦ absurd (ground arith)
      | inr (created, c) ↦ ground (arith, c, creates mac_escape keydown created c)
    ]

-- A synthetic Escape is never taken for the user's: where macOS creates key events as asked, every
-- event that is posted for a local Escape is kept for the Mac when it comes back to the tap,
-- whatever the state then is, forwarding or not, with no change of the state and no effect.
pub emit_local_escape-passes :
    (source_created : Bool) (new_keyboard_event : ℕ → Bool → Option Event) (keydown : Bool)
    (flags : EventFlags) (s : CaptureState) (fwd : Bool) (table : SlotTable)
    → CreatesKeys new_keyboard_event
    → All
        (λ event. on_event flags s fwd table event ≡ (s, [], keep))
        (emit_local_escape source_created new_keyboard_event keydown)
unfolding emit_local_escape
emit_local_escape-passes source_created new_keyboard_event keydown flags s fwd table creates =
    by_event (local_escape_event source_created new_keyboard_event keydown) (λ event e.
      local_escape_event-passes source_created new_keyboard_event keydown flags s fwd table event
        creates e)
  where
    by_event :
        (o : Option Event)
        → ((event : Event) → o ≡ some event → on_event flags s fwd table event ≡ (s, [], keep))
        → All
            (λ event. on_event flags s fwd table event ≡ (s, [], keep))
            (elim o [ none ↦ [] | some event ↦ event ∷ [] ])
    by_event none passes = tt
    by_event (some event) passes = (passes event refl, tt)
