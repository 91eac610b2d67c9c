-- ===== src/Host/Keyboard/State.antt =====
-- The state of host/src/capture/keyboard.rs: events, the capture's state, and how keys and modifiers
-- change it.
use esp32_universal_control.Base.{
  ℕ, suc, zero, ◌-◌, Bool, true, false, not, Option, none, some, List, [], ◌∷◌, any, position, set,
  length, bit_and, bit_or, ◌==◌, ◌&&◌, ◌||◌, if◌then◌else◌,
}
use esp32_universal_control.Protocol.Input.{KeyboardSnapshot, default_keyboard_snapshot}
use esp32_universal_control.Protocol.Wire.{HostMsg, keyboard_state, consumer_state}
use esp32_universal_control.Host.Keymap.{
  mac_to_hid, mac_to_consumer, modifier_mask, modifier_mask_from_hid,
}

-- macOS virtual keycodes.
abbrev pub mac_1 : ℕ
mac_1 = 0x12

abbrev pub mac_2 : ℕ
mac_2 = 0x13

abbrev pub mac_3 : ℕ
mac_3 = 0x14

abbrev pub mac_4 : ℕ
mac_4 = 0x15

abbrev pub mac_5 : ℕ
mac_5 = 0x17

abbrev pub mac_escape : ℕ
mac_escape = 0x35

-- The mouse and tablet events of `CGEventType` for which the callback has no case of its own.
pub data OtherEvent : Type 0 where
  mouse_moved left_mouse_dragged right_mouse_dragged : OtherEvent
  other_mouse_down other_mouse_up other_mouse_dragged : OtherEvent
  scroll_wheel tablet_pointer tablet_proximity : OtherEvent

-- The `CGEventType` that the tap asks for, and the two notices that it gets unasked.
pub data EventType : Type 0 where
  key_down key_up flags_changed : EventType
  left_mouse_down left_mouse_up right_mouse_down right_mouse_up : EventType
  other : OtherEvent → EventType
  tap_disabled_by_timeout tap_disabled_by_user_input : EventType

-- The events that the tap is created for.
abbrev pub tapped_events : List EventType
tapped_events =
    key_down
    ∷ key_up
    ∷ flags_changed
    ∷ left_mouse_down
    ∷ left_mouse_up
    ∷ right_mouse_down
    ∷ right_mouse_up
    ∷ other mouse_moved
    ∷ other left_mouse_dragged
    ∷ other right_mouse_dragged
    ∷ other other_mouse_down
    ∷ other other_mouse_up
    ∷ other other_mouse_dragged
    ∷ other scroll_wheel
    ∷ other tablet_pointer
    ∷ other tablet_proximity
    ∷ []

-- The keycode is the field's low 16 bits. `tagged` says that the user data is
-- LOCAL_ESCAPE_EVENT_TAG, that is, that this program posted the event.
pub record Event : Type 0 where
  pub event_type : EventType
  pub keycode : ℕ
  pub flags : ℕ
  pub tagged : Bool

-- The bits of `CGEventFlags` for the four modifiers, which core_graphics defines.
pub record EventFlags : Type 0 where
  pub control : ℕ
  pub shift : ℕ
  pub alternate : ℕ
  pub command : ℕ

pub data CallbackResult : Type 0 where
  keep drop : CallbackResult

pub data EscapeState : Type 0 where
  idle pending forwarded chord_used : EscapeState

pub record CaptureState : Type 0 where
  pub keyboard : KeyboardSnapshot
  pub consumer : ℕ
  pub hotkey_keyup : Option ℕ
  pub escape_state : EscapeState

abbrev pub default_capture : CaptureState
default_capture = record {
  keyboard = default_keyboard_snapshot;
  consumer = 0;
  hotkey_keyup = none;
  escape_state = idle;
}

-- A message pushed to the outbox, a synthetic Escape posted on the Mac (true for down), the button
-- stored for the trackpad, the tap enabled again.
pub data Effect : Type 0 where
  pushed : HostMsg → Effect
  local_escape : Bool → Effect
  click : Bool → Effect
  tap_enabled : Effect

abbrev pub ptp_button_transition : EventType → Option Bool
ptp_button_transition left_mouse_down = some true
ptp_button_transition right_mouse_down = some true
ptp_button_transition left_mouse_up = some false
ptp_button_transition right_mouse_up = some false
ptp_button_transition key_down = none
ptp_button_transition key_up = none
ptp_button_transition flags_changed = none
ptp_button_transition (other kind) = none
ptp_button_transition tap_disabled_by_timeout = none
ptp_button_transition tap_disabled_by_user_input = none

abbrev pub is_pending : EscapeState → Bool
is_pending pending = true
is_pending idle = false
is_pending forwarded = false
is_pending chord_used = false

abbrev pub reset_remote_input : CaptureState → CaptureState
reset_remote_input s = record s { keyboard = default_keyboard_snapshot; consumer = 0 }

-- `!mask` of a u8 and of a u16.
abbrev pub not_u8 : ℕ → ℕ
not_u8 mask = 255 - mask

abbrev pub not_u16 : ℕ → ℕ
not_u16 bits = 65535 - bits

-- The new state, and the message if something changed.
abbrev pub Update : Type 0
Update = CaptureState × Option HostMsg

abbrev pub set_consumer : CaptureState → ℕ → Update
set_consumer s next =
    if next == s.consumer
    then (s, none)
    else (record s { consumer = next }, some (consumer_state next))

abbrev pub with_keyboard : CaptureState → KeyboardSnapshot → Update
with_keyboard s keyboard = (record s { keyboard = keyboard }, some (keyboard_state keyboard))

abbrev pub set_modifiers : CaptureState → ℕ → Update
set_modifiers s next =
    if next == s.keyboard.modifiers
    then (s, none)
    else with_keyboard s (record (s.keyboard) { modifiers = next })

abbrev pub with_keys : CaptureState → List ℕ → Update
with_keys s keys = with_keyboard s (record (s.keyboard) { keys = keys })

abbrev pub contains : List ℕ → ℕ → Bool
contains keys hid = any (λ key. key == hid) keys

-- `keys.copy_within((idx + 1).., idx)`.
abbrev pub copy_down : ℕ → List ℕ → List ℕ
copy_down i [] = []
copy_down zero (k ∷ []) = k ∷ []
copy_down zero (k ∷ l ∷ keys) = l ∷ copy_down zero (l ∷ keys)
copy_down (suc i) (k ∷ keys) = k ∷ copy_down i keys

-- The array after a press: the first empty entry takes the key. `none` where nothing changes.
unfoldable pub press_key : List ℕ → ℕ → Option (List ℕ)
press_key keys hid = if contains keys hid then none else elim (position (λ slot. slot == 0) keys) [
  | none ↦ none
  | some slot ↦ some (set keys slot hid)
]

-- The array after a release: the entries behind the key move up.
unfoldable pub release_key : List ℕ → ℕ → Option (List ℕ)
release_key keys hid = elim (position (λ current. current == hid) keys) [
  | none ↦ none
  | some idx ↦ some (set (copy_down idx keys) (length keys - 1) 0)
]

abbrev pub changed_keys : CaptureState → Option (List ℕ) → Update
changed_keys s none = (s, none)
changed_keys s (some keys) = with_keys s keys

abbrev pub apply_mask : Bool → ℕ → ℕ → ℕ
apply_mask true modifiers mask = bit_or modifiers mask
apply_mask false modifiers mask = bit_and modifiers (not_u8 mask)

unfoldable pub update_hid_key_state : CaptureState → ℕ → Bool → Update
unfolding press_key release_key
update_hid_key_state s hid pressed =
    if hid == 0 then (s, none) else elim (modifier_mask_from_hid hid) [
      | some mask ↦ set_modifiers s (apply_mask pressed s.keyboard.modifiers mask)
      | none ↦
          changed_keys s
            (if pressed then press_key s.keyboard.keys hid else release_key s.keyboard.keys hid)
    ]

-- `handle_key_down` for true, `handle_key_up` for false.
unfoldable pub handle_key : CaptureState → ℕ → Bool → Update
unfolding update_hid_key_state
handle_key s keycode pressed = elim (mac_to_consumer keycode) [
  | some bit ↦
      set_consumer s (if pressed then bit_or s.consumer bit else bit_and s.consumer (not_u16 bit))
  | none ↦ update_hid_key_state s (mac_to_hid keycode) pressed
]

abbrev pub generic_modifier_flag : EventFlags → ℕ → ℕ
generic_modifier_flag flags mask =
    if mask == 0x01 || mask == 0x10
    then flags.control
    else (if mask == 0x02 || mask == 0x20
        then flags.shift
        else (if mask == 0x04 || mask == 0x40
            then flags.alternate
            else (if mask == 0x08 || mask == 0x80 then flags.command else 0)))

abbrev pub modifier_pair_mask : ℕ → ℕ
modifier_pair_mask mask =
    if mask == 0x01 || mask == 0x10
    then 0x11
    else (if mask == 0x02 || mask == 0x20
        then 0x22
        else (if mask == 0x04 || mask == 0x40
            then 0x44
            else (if mask == 0x08 || mask == 0x80 then 0x88 else mask)))

abbrev pub has_bits : ℕ → ℕ → Bool
has_bits current mask = not (bit_and current mask == 0)

unfoldable pub apply_modifier_transition : ℕ → ℕ → Bool → ℕ
apply_modifier_transition current mask generic_pressed =
    let exact_pressed = has_bits current mask in
    let sibling_pressed = has_bits current (bit_and (modifier_pair_mask mask) (not_u8 mask)) in
    if generic_pressed
    then (if exact_pressed && sibling_pressed
        then bit_and current (not_u8 mask)
        else bit_or current mask)
    else bit_and current (not_u8 mask)

unfoldable pub flags_with_mask : EventFlags → CaptureState → ℕ → Option ℕ → Update
flags_with_mask flags s bits none = (s, none)
flags_with_mask flags s bits (some mask) = set_modifiers s (
    apply_modifier_transition s.keyboard.modifiers mask
      (has_bits bits (generic_modifier_flag flags mask)))

unfoldable pub handle_flags_changed : EventFlags → CaptureState → Event → Update
unfolding flags_with_mask apply_modifier_transition
handle_flags_changed flags s event =
    flags_with_mask flags s event.flags (modifier_mask event.keycode)
