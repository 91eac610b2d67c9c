-- ===== src/Host/Trackpad.antt =====
-- host/src/capture/trackpad.rs: the callback of MultitouchSupport. A position is a float of the
-- framework; what the source's scaling makes of it is a parameter.
pub mod Frames
pub mod Start
mod Tests
use esp32_universal_control.Base.{
  ℕ, ◌+◌, ◌%◌, Bool, true, false, Option, none, some, List, [], ◌∷◌, length, leb, ◌==◌, set_elem?,
  ◌>>=◌,
}
use esp32_universal_control.Protocol.Input.{TouchContact, TouchFrame, default_touch_frame}
use esp32_universal_control.Protocol.Wire.{HostMsg, touch_frame}

abbrev pub touching_state : ℕ
touching_state = 4

-- The fields of `MTTouch` that are read. An i32 is the number of its bits, as in `as u32`.
pub record MtTouch (F : Type 0) : Type 0 where
  pub identifier : ℕ
  pub state : ℕ
  pub position_x : F
  pub position_y : F

-- `(x * LOGICAL_X_MAX) as u16` and `((1.0 - y) * LOGICAL_Y_MAX) as u16`, on floats.
pub record Scaling (F : Type 0) : Type 0 where
  pub to_logical_x : F → ℕ
  pub to_logical_y : F → ℕ

module _ {F : Type 0} (scaling : Scaling F) where
  abbrev pub contact_from : MtTouch F → TouchContact
  contact_from touch = record {
    contact_id = touch.identifier;
    x = scaling.to_logical_x touch.position_x;
    y = scaling.to_logical_y touch.position_y;
    touching = true;
    confident = true;
  }

  -- The loop over the touches: the array, and how many of its entries are filled. `none` is the
  -- panic of an index out of range.
  unfoldable pub fill_contacts :
      List (MtTouch F) → List TouchContact → ℕ → Option (List TouchContact × ℕ)
  fill_contacts [] contacts active = some (contacts, active)
  fill_contacts (touch ∷ touches) contacts active = elim (leb (length contacts) active) [
    | true ↦ some (contacts, active)
    | false ↦ elim (touch.state == touching_state) [
      | true ↦ set_elem? contacts active (contact_from touch) >>= λ contacts'.
          fill_contacts touches contacts' (active + 1)
      | false ↦ fill_contacts touches contacts active
    ]
  ]

  unfoldable pub build_touch_frame : List (MtTouch F) → Bool → Option TouchFrame
  unfolding fill_contacts
  build_touch_frame touches clicked = do
    filled ← fill_contacts touches default_touch_frame.contacts 0
    some (record { contacts = filled.0; contact_count = filled.1 % 256; button = clicked })

-- What is pushed after the frame is built, and the flag HAD_CONTACTS.
abbrev pub send_frame : Bool → TouchFrame → Bool × Option HostMsg
send_frame had_contacts frame = elim (leb 1 frame.contact_count) [
  | true ↦ (true, some (touch_frame frame))
  | false ↦ elim had_contacts [ true ↦ (false, some (touch_frame frame)) | false ↦ (false, none) ]
]

module _ {F : Type 0} (scaling : Scaling F) where
  -- `mt_callback` once the outbox is set: HAD_CONTACTS, the message pushed, and the result, 0 for
  -- passing the touches on to the Mac. `touches` is empty where the pointer is null.
  unfoldable pub mt_callback :
      Bool → Bool → List (MtTouch F) → Bool → Option (Bool × Option HostMsg × ℕ)
  unfolding build_touch_frame
  mt_callback had_contacts false touches clicked = some (false, none, 0)
  mt_callback had_contacts true touches clicked = do
    frame ← build_touch_frame scaling touches clicked
    let (had_contacts', msg) = send_frame had_contacts frame
    some (had_contacts', msg, 1)
