-- ===== src/Host/Keyboard/Conformance.antt =====
-- The unit tests of host/src/capture/keyboard.rs that make no event of macOS, as statements about the
-- model.
use esp32_universal_control.Base.{◌≡◌, refl, true, false, some, bit_or}
use esp32_universal_control.Host.Keyboard.{
  apply_modifier_transition, ptp_button_transition, right_mouse_down, right_mouse_up,
}

abbrev ReleasingLeftCtrlKeepsRightCtrlPressed : Type 0
ReleasingLeftCtrlKeepsRightCtrlPressed =
    apply_modifier_transition (bit_or 0x01 0x10) 0x01 true ≡ 0x10

releasing_left_ctrl_keeps_right_ctrl_pressed : ReleasingLeftCtrlKeepsRightCtrlPressed
unfolding apply_modifier_transition
releasing_left_ctrl_keeps_right_ctrl_pressed = refl

abbrev PressingRightShiftWhileLeftShiftIsDownKeepsBoth : Type 0
PressingRightShiftWhileLeftShiftIsDownKeepsBoth =
    apply_modifier_transition 0x02 0x20 true ≡ bit_or 0x02 0x20

pressing_right_shift_while_left_shift_is_down_keeps_both :
    PressingRightShiftWhileLeftShiftIsDownKeepsBoth
unfolding apply_modifier_transition
pressing_right_shift_while_left_shift_is_down_keeps_both = refl

abbrev ReleasingLastCommandClearsThatSide : Type 0
ReleasingLastCommandClearsThatSide = apply_modifier_transition 0x08 0x08 false ≡ 0

releasing_last_command_clears_that_side : ReleasingLastCommandClearsThatSide
unfolding apply_modifier_transition
releasing_last_command_clears_that_side = refl

abbrev RightClickEventsDrivePtpButton : Type 0
RightClickEventsDrivePtpButton =
    (ptp_button_transition right_mouse_down ≡ some true)
    × (ptp_button_transition right_mouse_up ≡ some false)

right_click_events_drive_ptp_button : RightClickEventsDrivePtpButton
right_click_events_drive_ptp_button = (refl, refl)
