-- ===== src/Host/Cursor/Conformance.antt =====
-- The unit tests of host/src/capture/cursor.rs, as statements about the model. A position is a pair
-- of numbers here.
use esp32_universal_control.Base.{ℕ, ◌≡◌, refl, true, false, none, some}
use esp32_universal_control.Host.Cursor.{
  nothing, hide, restore_and_show, CursorSession, default_cursor, transition,
}

abbrev CursorPosition : Type 0
CursorPosition = ℕ × ℕ

-- The session after forwarding has begun at a position.
abbrev begun_at : CursorPosition → CursorSession CursorPosition
begun_at position = (transition default_cursor true (some position)).0

abbrev EnteringForwardingSavesPositionAndHidesCursor : Type 0
EnteringForwardingSavesPositionAndHidesCursor =
    let (session, action) = transition {P = CursorPosition} default_cursor true (some (100, 200)) in
    (action ≡ hide) × (session.restore_point ≡ some (100, 200))

entering_forwarding_saves_position_and_hides_cursor : EnteringForwardingSavesPositionAndHidesCursor
unfolding transition
entering_forwarding_saves_position_and_hides_cursor = (refl, refl)

abbrev SwitchingBetweenRemoteTargetsKeepsOriginalRestorePoint : Type 0
SwitchingBetweenRemoteTargetsKeepsOriginalRestorePoint =
    let (session, action) = transition (begun_at (10, 20)) true (some (30, 40)) in
    (action ≡ nothing) × (session.restore_point ≡ some (10, 20))

switching_between_remote_targets_keeps_original_restore_point :
    SwitchingBetweenRemoteTargetsKeepsOriginalRestorePoint
unfolding transition
switching_between_remote_targets_keeps_original_restore_point = (refl, refl)

abbrev ReturningToLocalRestoresOnceAndClearsSavedPosition : Type 0
ReturningToLocalRestoresOnceAndClearsSavedPosition =
    let (session, action) = transition (begun_at (1, 2)) false none in
    (action ≡ restore_and_show (1, 2))
    × (session.restore_point ≡ none)
    × ((transition session false none).1 ≡ nothing)

returning_to_local_restores_once_and_clears_saved_position :
    ReturningToLocalRestoresOnceAndClearsSavedPosition
unfolding transition
returning_to_local_restores_once_and_clears_saved_position = (refl, refl, refl)

abbrev NonTransitionWhileForwardingDoesNotRestoreCursor : Type 0
NonTransitionWhileForwardingDoesNotRestoreCursor =
    let (session, action) = transition (begun_at (5, 6)) true (some (7, 8)) in
    (action ≡ nothing) × (session.restore_point ≡ some (5, 6))

non_transition_while_forwarding_does_not_restore_cursor :
    NonTransitionWhileForwardingDoesNotRestoreCursor
unfolding transition
non_transition_while_forwarding_does_not_restore_cursor = (refl, refl)

abbrev StartupForwardingSeedsRestorePoint : Type 0
StartupForwardingSeedsRestorePoint = (begun_at (42, 24)).restore_point ≡ some (42, 24)

startup_forwarding_seeds_restore_point : StartupForwardingSeedsRestorePoint
unfolding transition
startup_forwarding_seeds_restore_point = refl
