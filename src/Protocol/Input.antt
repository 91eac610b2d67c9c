-- ===== src/Protocol/Input.antt =====
-- protocol/src/input.rs: the input snapshots that the host sends. An array of n entries is a list
-- of length n; u8, u16 and u32 fields are plain numbers.
use esp32_universal_control.Base.{ℕ, Bool, false, List, take, replicate, min}

abbrev pub max_keys : ℕ
max_keys = 6

-- `ptp::MAX_CONTACTS as usize`.
abbrev pub max_touch_contacts : ℕ
max_touch_contacts = 5

-- The bits of a consumer control state, a u16.
abbrev pub consumer_mute : ℕ
consumer_mute = 16

abbrev pub consumer_volume_up : ℕ
consumer_volume_up = 32

abbrev pub consumer_volume_down : ℕ
consumer_volume_down = 64

pub record KeyboardSnapshot : Type 0 where
  pub modifiers : ℕ
  pub keys : List ℕ

-- The derived default: no modifier, and six empty keys.
abbrev pub default_keyboard_snapshot : KeyboardSnapshot
default_keyboard_snapshot = record { modifiers = 0; keys = replicate max_keys 0 }

pub record TouchContact : Type 0 where
  pub contact_id : ℕ
  pub x : ℕ
  pub y : ℕ
  pub touching : Bool
  pub confident : Bool

abbrev pub default_touch_contact : TouchContact
default_touch_contact = record { contact_id = 0; x = 0; y = 0; touching = false; confident = false }

pub record TouchFrame : Type 0 where
  pub contacts : List TouchContact
  pub contact_count : ℕ
  pub button : Bool

abbrev pub default_touch_frame : TouchFrame
default_touch_frame = record {
  contacts = replicate max_touch_contacts default_touch_contact;
  contact_count = 0;
  button = false;
}

-- `TouchFrame::contacts`: the populated entries, the count cut off at the array's length.
abbrev pub populated : TouchFrame → List TouchContact
populated frame = take (min frame.contact_count max_touch_contacts) frame.contacts

-- What is held on a keyboard: the keys with the modifiers, and the consumer bits.
abbrev pub Held : Type 0
Held = KeyboardSnapshot × ℕ

abbrev pub nothing_held : Held
nothing_held = (default_keyboard_snapshot, 0)
