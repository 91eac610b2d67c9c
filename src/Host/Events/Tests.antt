-- ===== src/Host/Events/Tests.antt =====
-- The host on a message of the firmware, with numbers as positions of the cursor.
use esp32_universal_control.Base.{ℕ, ◌≡◌, refl, true, false, none, some, List, [], ◌∷◌}
use esp32_universal_control.Protocol.Wire.{active_peer_changed}
use esp32_universal_control.Host.Cursor.{default_cursor, CursorCommand}
use esp32_universal_control.Host.Events.{Shared, on_firmware_msg, on_write_error}
use esp32_universal_control.Host.Events.Threads.{
  Threads, running, stopped, ThreadStep, events_update, events_sync, writer_fails, writer_sync,
  run_threads,
}
use esp32_universal_control.Host.Events.Race.{
  idle, Stays, run_threads-IsOnTheWay, stale_flag_hides_cursor, forwards_without_writer,
}
use esp32_universal_control.Host.Events.Sync.{
  IsInSync, on_firmware_msg-IsInSync, on_write_error_lem,
}

-- One peer, not selected.
abbrev at_home : Shared ℕ
at_home = record {
  table = record {
    slots = some (1 ∷ 2 ∷ 3 ∷ 4 ∷ 5 ∷ 6 ∷ []) ∷ none ∷ none ∷ none ∷ [];
    active = none;
    forwarding = false;
  };
  cursor = default_cursor;
}

abbrev away : Shared ℕ
away = record at_home {
  table = record (at_home.table) { active = some 0; forwarding = true };
  cursor = record { forwarding = true; restore_point = some 12 };
}

selected_away-IsInSync :
    IsInSync (on_firmware_msg at_home (some 12) (active_peer_changed (some 0))).0
selected_away-IsInSync =
    on_firmware_msg-IsInSync at_home (some 12) (active_peer_changed (some 0))
      (record { flagged_table = refl; same = refl })

write_error_away :
    let shared' = (on_write_error away (some 50)).0 in
    (shared'.table.active ≡ none)
    × (shared'.table.forwarding ≡ false)
    × (shared'.cursor.forwarding ≡ false)
    × (shared'.table.slots ≡ away.table.slots)
write_error_away = on_write_error_lem away (some 50)

-- One selection, in its two sections.
abbrev quiet_steps : List (ThreadStep ℕ)
quiet_steps = events_update (active_peer_changed (some 0)) ∷ events_sync (some 3) ∷ []

run_threads-IsOnTheWay_example : Stays (run_threads (idle at_home running) quiet_steps)
run_threads-IsOnTheWay_example =
    run_threads-IsOnTheWay quiet_steps (idle at_home running) (tt, (tt, tt))
      (record { writes = refl; agrees = refl })

stale_flag_hides_cursor_example :
    (t : Threads ℕ) × (commands : List (CursorCommand ℕ)) × (run_threads (idle at_home running) (
        events_update (active_peer_changed (some 0))
        ∷ writer_fails
        ∷ writer_sync (some 7)
        ∷ events_sync (some 8)
        ∷ [])
      ≡ some (t, commands))
    × (t.writer ≡ stopped)
    × (t.events_flag ≡ none)
    × (t.shared.table.active ≡ none)
    × (t.shared.table.forwarding ≡ false)
    × (t.shared.cursor.forwarding ≡ true)
stale_flag_hides_cursor_example = stale_flag_hides_cursor at_home 0 (some 7) (some 8) refl

forwards_without_writer_example :
    (t : Threads ℕ) × (commands : List (CursorCommand ℕ)) × (run_threads
        (idle at_home stopped)
        (events_update (active_peer_changed (some 0)) ∷ events_sync (some 7) ∷ [])
      ≡ some (t, commands))
    × (t.writer ≡ stopped)
    × (t.shared.table.active ≡ some 0)
    × (t.shared.table.forwarding ≡ true)
    × (t.shared.cursor.forwarding ≡ true)
forwards_without_writer_example = forwards_without_writer at_home 0 (some 7) refl
