-- ===== src/Host/Events/Race.antt =====
-- The threads of host/src/capture/mod.rs over any order of their steps.
use esp32_universal_control.Base.{
  ℕ, ◌≡◌, refl, sym, ap, subst, ◌∙◌, Bool, true, false, Option, none, some, inl, inr, List, [], ◌∷◌,
  ◌++◌, is_some, Option-cases, All,
}
use esp32_universal_control.Protocol.Wire.{
  PeerSnapshot, FirmwareMsg, hello_ack, peer_snapshot, peer_connected, peer_disconnected,
  active_peer_changed, led_state, protocol_error,
}
use esp32_universal_control.Host.Slots.{usable, set_active, connect}
use esp32_universal_control.Host.Cursor.{default_cursor, CursorCommand}
use esp32_universal_control.Host.Events.{start_capture, Shared, update_table}
use esp32_universal_control.Host.Events.Sync.{sync_forwarding-sets}
use esp32_universal_control.Host.Events.Threads.{
  Threads, Writer, running, stopped, ThreadStep, events_update, events_sync, writer_fails,
  writer_sync, events_update_at, thread_step, run_threads,
}

module _ {P : Type 0} where
  -- Nothing is between the locks.
  abbrev pub idle : Shared P → Writer → Threads P
  idle shared writer = record { shared = shared; events_flag = none; writer = writer }

  -- What the cursor is, or is about to be, when fw-events has its second lock.
  abbrev pub will_forward : Threads P → Option Bool → Bool
  will_forward t none = t.shared.cursor.forwarding
  will_forward t (some flag) = flag

  pub record IsOnTheWay (t : Threads P) : Type 0 where
    pub writes : t.writer ≡ running
    pub agrees : will_forward t t.events_flag ≡ t.shared.table.forwarding

  abbrev pub IsQuiet : ThreadStep P → Type 0
  IsQuiet (events_update msg) = Unit {0}
  IsQuiet (events_sync position) = Unit {0}
  IsQuiet writer_fails = ⊥
  IsQuiet (writer_sync position) = Unit {0}

  -- The invariant where a run goes on.
  abbrev pub Stays : Option (Threads P × List (CursorCommand P)) → Type 0
  Stays none = Unit {0}
  Stays (some (t, commands)) = IsOnTheWay t

  -- It holds when the threads start.
  pub start_capture-IsOnTheWay :
      (snapshot : PeerSnapshot) (position : Option P)
      → IsOnTheWay (idle (start_capture snapshot position).0 running)
  unfolding start_capture
  start_capture-IsOnTheWay snapshot position = record {
    writes = refl;
    agrees = sync_forwarding-sets default_cursor _ position;
  }

  update-IsOnTheWay :
      (t : Threads P) (msg : FirmwareMsg)
      → t.writer ≡ running
      → t.shared.cursor.forwarding ≡ t.shared.table.forwarding
      → Stays (events_update_at t none msg)
  unfolding update_table connect
  update-IsOnTheWay t (peer_snapshot snapshot) w h = record { writes = w; agrees = refl }
  update-IsOnTheWay t (peer_connected peer) w h = record { writes = w; agrees = h }
  update-IsOnTheWay t (peer_disconnected slot) w h = record { writes = w; agrees = refl }
  update-IsOnTheWay t (active_peer_changed slot) w h = record { writes = w; agrees = refl }
  update-IsOnTheWay t (led_state bits) w h = record { writes = w; agrees = h }
  update-IsOnTheWay t (hello_ack ack) w h = record { writes = w; agrees = h }
  update-IsOnTheWay t (protocol_error error) w h = record { writes = w; agrees = h }

  thread_step-IsOnTheWay :
      (t : Threads P) (step : ThreadStep P)
      → IsQuiet step
      → IsOnTheWay t
      → Stays (thread_step t step)
  thread_step-IsOnTheWay t (events_update msg) quiet h = elim (Option-cases t.events_flag) [
    | inl e ↦
        let same : t.shared.cursor.forwarding ≡ t.shared.table.forwarding =
          ap (will_forward t) (sym e) ∙ h.agrees in
        rw e (update-IsOnTheWay t msg h.writes same)
    | inr (flag, e) ↦ rw e tt
  ]
  thread_step-IsOnTheWay t (events_sync position) quiet h = elim (Option-cases t.events_flag) [
    | inl e ↦ rw e tt
    | inr (flag, e) ↦
        let same : flag ≡ t.shared.table.forwarding = ap (will_forward t) (sym e) ∙ h.agrees in
        rw e (record {
          writes = h.writes;
          agrees = sync_forwarding-sets t.shared.cursor flag position ∙ same;
        })
  ]
  thread_step-IsOnTheWay t writer_fails quiet h = absurd quiet
  thread_step-IsOnTheWay t (writer_sync position) quiet h = rw (h.writes) tt

  prefixed :
      (commands : List (CursorCommand P)) (o : Option (Threads P × List (CursorCommand P)))
      → Stays o
      → Stays (elim o [ none ↦ none | some (t, more) ↦ some (t, commands ++ more) ])
  prefixed commands none h = tt
  prefixed commands (some (t, more)) h = h

  -- As long as no write fails, the table and the cursor stay together over any order of the steps of
  -- the threads, and whatever the messages: after them the cursor's session is forwarding if and
  -- only if the table's flag is on, unless fw-events is between its locks, and then the flag that
  -- it holds is the table's.
  pub run_threads-IsOnTheWay :
      (steps : List (ThreadStep P)) (t : Threads P)
      → All IsQuiet steps
      → IsOnTheWay t
      → Stays (run_threads t steps)
  unfolding run_threads
  run_threads-IsOnTheWay [] t quiet h = h
  run_threads-IsOnTheWay (step ∷ steps) t (q, quiet) h = elim (Option-cases (thread_step t step)) [
    | inl e ↦ rw (run_threads, e) tt
    | inr ((t', commands), e) ↦
        let h' : Stays (thread_step t step) = thread_step-IsOnTheWay t step q h in
        let there : IsOnTheWay t' = subst Stays e h' in
        rw (run_threads, e)
          (prefixed commands (run_threads t' steps) (run_threads-IsOnTheWay steps t' quiet there))
  ]

  -- The order of the two locks matters. From any state in which no thread is between its locks:
  -- fw-events learns that a connected slot is active, then a write fails, the writer goes back to
  -- the Mac and stops, and then fw-events uses the flag that it has read. In the end no thread is
  -- between its locks, no slot is active and the table's flag is off, but the cursor's session is
  -- forwarding.
  pub stale_flag_hides_cursor :
      (shared : Shared P) (slot : ℕ) (p q : Option P)
      → usable shared.table (some slot) ≡ some slot
      → (t : Threads P) × (commands : List (CursorCommand P)) × (run_threads (idle shared running) (
            events_update (active_peer_changed (some slot))
            ∷ writer_fails
            ∷ writer_sync p
            ∷ events_sync q
            ∷ [])
          ≡ some (t, commands))
        × (t.writer ≡ stopped)
        × (t.events_flag ≡ none)
        × (t.shared.table.active ≡ none)
        × (t.shared.table.forwarding ≡ false)
        × (t.shared.cursor.forwarding ≡ true)
  unfolding run_threads update_table set_active
  stale_flag_hides_cursor shared slot p q h =
      (_, _, refl, refl, refl, refl, refl, sync_forwarding-sets _ _ q ∙ ap is_some h)

  -- The writer goes back to the Mac only once. From any state in which it has stopped and fw-events is
  -- not between its locks, a message that a connected slot is active forwards input again, and the
  -- cursor's session with it, although nothing is written any more.
  pub forwards_without_writer :
      (shared : Shared P) (slot : ℕ) (p : Option P)
      → usable shared.table (some slot) ≡ some slot
      → (t : Threads P) × (commands : List (CursorCommand P)) × (run_threads
            (idle shared stopped)
            (events_update (active_peer_changed (some slot)) ∷ events_sync p ∷ [])
          ≡ some (t, commands))
        × (t.writer ≡ stopped)
        × (t.shared.table.active ≡ some slot)
        × (t.shared.table.forwarding ≡ true)
        × (t.shared.cursor.forwarding ≡ true)
  unfolding run_threads update_table set_active
  forwards_without_writer shared slot p h =
      (_, _, refl, refl, h, ap is_some h, sync_forwarding-sets _ _ p ∙ ap is_some h)
