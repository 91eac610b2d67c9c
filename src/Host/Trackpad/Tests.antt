-- ===== src/Host/Trackpad/Tests.antt =====
-- Runs of the callback of host/src/capture/trackpad.rs, with numbers as positions.
use esp32_universal_control.Base.{
  ℕ, ◌≡◌, Bool, true, false, Option, none, some, is_some, List, [], ◌∷◌, pad,
}
use esp32_universal_control.Protocol.Input.{TouchFrame, default_touch_contact, max_touch_contacts}
use esp32_universal_control.Host.Trackpad.{MtTouch, Scaling, build_touch_frame}
use esp32_universal_control.Host.Trackpad.Frames.{
  first_contacts, build_touch_frame_lem, callbacks, seen_at_end, view, callbacks-Agrees,
}

abbrev as_is : Scaling ℕ
as_is = record { to_logical_x = λ x. x; to_logical_y = λ y. y }

abbrev touch_at : ℕ → ℕ → MtTouch ℕ
touch_at identifier state = record {
  identifier = identifier;
  state = state;
  position_x = 10;
  position_y = 20;
}

-- One finger rests, one only hovers.
abbrev two_touches : List (MtTouch ℕ)
two_touches = touch_at 3 2 ∷ touch_at 8 4 ∷ []

abbrev tap : List (List (MtTouch ℕ) × Bool)
tap = (two_touches, false) ∷ ([], false) ∷ (two_touches, true) ∷ []

build_touch_frame_lem_example :
    build_touch_frame as_is two_touches true
    ≡ some (record {
      contacts = pad max_touch_contacts default_touch_contact (first_contacts as_is two_touches);
      contact_count = 1;
      button = true;
    })
build_touch_frame_lem_example = build_touch_frame_lem as_is two_touches true

callbacks-Agrees_example :
    (last' : Option TouchFrame) × (callbacks as_is (is_some (view none)) none tap
      ≡ some (is_some (seen_at_end as_is (view none) tap), last'))
    × (view last' ≡ seen_at_end as_is (view none) tap)
callbacks-Agrees_example = callbacks-Agrees as_is none tap
