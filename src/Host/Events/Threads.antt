-- ===== src/Host/Events/Threads.antt =====
-- The threads fw-events and serial-writer of host/src/capture/mod.rs, step by step: each takes the
-- lock of the slot table, gives it back, and then takes the lock of the cursor.
use esp32_universal_control.Base.{Bool, Option, none, some, List, [], ◌∷◌, ◌++◌}
use esp32_universal_control.Protocol.Wire.{FirmwareMsg}
use esp32_universal_control.Host.Slots.{set_active}
use esp32_universal_control.Host.Cursor.{CursorCommand}
use esp32_universal_control.Host.Events.{Shared, update_table, sync_cursor}

-- The writer stops after its first write that fails.
pub data Writer : Type 0 where
  running : Writer
  syncing : Bool → Writer
  stopped : Writer

-- Each thread between its two locks holds the flag that it has read.
pub record Threads (P : Type 0) : Type 0 where
  pub shared : Shared P
  pub events_flag : Option Bool
  pub writer : Writer

pub data ThreadStep (P : Type 0) : Type 0 where
  events_update : FirmwareMsg → ThreadStep P
  events_sync : Option P → ThreadStep P
  writer_fails : ThreadStep P
  writer_sync : Option P → ThreadStep P

module _ {P : Type 0} where
  -- The commands go to macOS under the lock of the cursor.
  abbrev pub after_sync :
      Shared P × List (CursorCommand P) → Option Bool → Writer → Threads P × List (CursorCommand P)
  after_sync (shared, commands) events_flag writer =
      (record { shared = shared; events_flag = events_flag; writer = writer }, commands)

  abbrev pub events_update_at :
      Threads P → Option Bool → FirmwareMsg → Option (Threads P × List (CursorCommand P))
  events_update_at t none msg =
      let (table, flag) = update_table t.shared.table msg in
      some (record t { shared = record (t.shared) { table = table }; events_flag = flag }, [])
  events_update_at t (some flag) msg = none

  abbrev pub events_sync_at :
      Threads P → Option Bool → Option P → Option (Threads P × List (CursorCommand P))
  events_sync_at t none position = none
  events_sync_at t (some flag) position =
      some (after_sync (sync_cursor t.shared position (some flag)) none t.writer)

  abbrev pub writer_fails_at : Threads P → Writer → Option (Threads P × List (CursorCommand P))
  writer_fails_at t running =
      let table = set_active t.shared.table none in
      some (
        record t {
          shared = record (t.shared) { table = table };
          writer = syncing table.forwarding;
        },
        [],
      )
  writer_fails_at t (syncing flag) = none
  writer_fails_at t stopped = none

  abbrev pub writer_sync_at :
      Threads P → Writer → Option P → Option (Threads P × List (CursorCommand P))
  writer_sync_at t running position = none
  writer_sync_at t (syncing flag) position =
      some (after_sync (sync_cursor t.shared position (some flag)) t.events_flag stopped)
  writer_sync_at t stopped position = none

  -- One step, `none` if the thread is not there.
  abbrev pub thread_step : Threads P → ThreadStep P → Option (Threads P × List (CursorCommand P))
  thread_step t (events_update msg) = events_update_at t t.events_flag msg
  thread_step t (events_sync position) = events_sync_at t t.events_flag position
  thread_step t writer_fails = writer_fails_at t t.writer
  thread_step t (writer_sync position) = writer_sync_at t t.writer position

  -- The steps of both threads in the order in which they happen.
  unfoldable pub run_threads :
      Threads P → List (ThreadStep P) → Option (Threads P × List (CursorCommand P))
  run_threads t [] = some (t, [])
  run_threads t (step ∷ steps) = elim (thread_step t step) [
    | none ↦ none
    | some (t', commands) ↦ elim (run_threads t' steps) [
      | none ↦ none
      | some (t'', more) ↦ some (t'', commands ++ more)
    ]
  ]
