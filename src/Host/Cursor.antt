-- ===== src/Host/Cursor.antt =====
-- host/src/capture/cursor.rs: hiding the Mac's cursor while input goes to a remote peer. A position
-- is a pair of floats that is stored and given back, so its type is a parameter.
pub mod Balance
mod Conformance
mod Tests
use esp32_universal_control.Base.{
  Bool, true, false, Option, none, some, List, [], ◌∷◌, if◌then◌else◌, is_some,
}

pub data CursorAction (P : Type 0) : Type 0 where
  nothing : CursorAction P
  hide : CursorAction P
  restore_and_show : P → CursorAction P
  show : CursorAction P

pub record CursorSession (P : Type 0) : Type 0 where
  pub forwarding : Bool
  pub restore_point : Option P

-- What the controller asks of macOS, in order.
pub data CursorCommand (P : Type 0) : Type 0 where
  hide_mac_cursor : CursorCommand P
  warp_cursor_position : P → CursorCommand P
  show_mac_cursor : CursorCommand P

-- `self.forwarding == next_forwarding`.
abbrev pub same_flag : Bool → Bool → Bool
same_flag true next = next
same_flag false true = false
same_flag false false = true

module _ {P : Type 0} where
  abbrev pub default_cursor : CursorSession P
  default_cursor = record { forwarding = false; restore_point = none }

  abbrev pub or_position : Option P → Option P → Option P
  or_position none current = current
  or_position (some point) current = some point

  abbrev pub restoring : Option P → CursorAction P
  restoring none = show
  restoring (some point) = restore_and_show point

  unfoldable pub transition : CursorSession P → Bool → Option P → CursorSession P × CursorAction P
  transition s next current =
      if same_flag s.forwarding next
      then (s, nothing)
      else (if next
          then (
            record { forwarding = true; restore_point = or_position s.restore_point current },
            hide,
          )
          else (record { forwarding = false; restore_point = none }, restoring s.restore_point))

  abbrev pub perform : CursorAction P → List (CursorCommand P)
  perform nothing = []
  perform hide = hide_mac_cursor ∷ []
  perform (restore_and_show point) = warp_cursor_position point ∷ show_mac_cursor ∷ []
  perform show = show_mac_cursor ∷ []

  -- `current` is where the cursor is, `none` if macOS does not tell. It is read on the way to
  -- forwarding only.
  unfoldable pub sync_forwarding :
      CursorSession P → Bool → Option P → CursorSession P × List (CursorCommand P)
  unfolding transition
  sync_forwarding s next current =
      let (s', action) = transition s next (if next then current else none) in (s', perform action)
