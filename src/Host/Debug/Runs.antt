-- ===== src/Host/Debug/Runs.antt =====
-- The loop of the monitor of host/src/debug.rs.
use esp32_universal_control.Base.{
  ℕ, zero, suc, ◌-◌, ◌≤◌, ◌≡◌, refl, ◌∙◌, false, some, inl, inr, List, [], ◌∷◌, ◌++◌, take, length,
  leb, ◌>>=◌, Bool-cases, All, All-append, arith, length-append, length-take, true, sym, subst,
  Option,
}
use esp32_universal_control.Protocol.Wire.{HostMsg, FirmwareMsg}
use esp32_universal_control.Host.Debug.{
  drain_messages, cmd_of, Command, Monitor, Line, words, end_of_input, line_error, Turn, RunEnd,
  left_by_command, input_ended, not_flushed, not_read, not_written, open_ended, run,
}
use esp32_universal_control.Host.Debug.Commands.{
  IsBounded, keys_held, fingers_down, IsHarmless, on_cmd-IsHarmless, keys_held-append,
  fingers_down-append,
}

abbrev pub NothingHeld : List HostMsg → Type 0
NothingHeld msgs = (keys_held false msgs ≡ false) × (fingers_down false msgs ≡ false)

-- Nothing is held at the end of the messages, or a write has failed, behind as many as could be.
abbrev pub IsReleased : (writes : ℕ) → List HostMsg → RunEnd → Type 0
IsReleased writes msgs not_written = length msgs ≡ writes
IsReleased writes msgs left_by_command = NothingHeld msgs
IsReleased writes msgs input_ended = NothingHeld msgs
IsReleased writes msgs not_flushed = NothingHeld msgs
IsReleased writes msgs not_read = NothingHeld msgs
IsReleased writes msgs open_ended = NothingHeld msgs

All-take : (n : ℕ) (msgs : List HostMsg) → All IsBounded msgs → All IsBounded (take n msgs)
All-take zero msgs h = tt
All-take (suc n) [] h = tt
All-take (suc n) (msg ∷ msgs) h = (h.0, All-take n msgs h.1)

append-NothingHeld :
    (c : Command) (more : List HostMsg)
    → IsHarmless c
    → NothingHeld more
    → NothingHeld (c.messages ++ more)
append-NothingHeld c more h (keys, fingers) = (
  keys_held-append c.messages more false ∙ rw (h.keys_up) keys,
  fingers_down-append c.messages more false ∙ rw (h.fingers_up) fingers,
)

append-IsReleased :
    (writes : ℕ) (c : Command) (more : List HostMsg) (ended : RunEnd)
    → length c.messages ≤ writes
    → IsHarmless c
    → IsReleased (writes - length c.messages) more ended
    → IsReleased writes (c.messages ++ more) ended
append-IsReleased writes c more not_written fits h full =
    omega (arith, length-append c.messages more, full)
append-IsReleased writes c more left_by_command fits h up = append-NothingHeld c more h up
append-IsReleased writes c more input_ended fits h up = append-NothingHeld c more h up
append-IsReleased writes c more not_flushed fits h up = append-NothingHeld c more h up
append-IsReleased writes c more not_read fits h up = append-NothingHeld c more h up
append-IsReleased writes c more open_ended fits h up = append-NothingHeld c more h up

-- Of the messages of a command of which not all can be written, as many are as can be.
cut_short :
    (writes : ℕ) (msgs : List HostMsg)
    → leb (length msgs) writes ≡ false
    → length (take writes msgs) ≡ writes
cut_short writes msgs cut = ground (arith, length-take writes msgs)

abbrev Ends : (writes : ℕ) → Option (List HostMsg × RunEnd) → Type 0
Ends writes o =
    (msgs : List HostMsg) × (ended : RunEnd) × (o ≡ some (msgs, ended))
    × All IsBounded msgs
    × IsReleased writes msgs ended

-- A turn whose prompt is flushed, by what is read, if the loop is right from there on.
line-Ends :
    (received : List FirmwareMsg) (line : Line) (turns : List Turn) (writes : ℕ) (m : Monitor)
    → ((left : ℕ) (m' : Monitor) → Ends left (run left m' turns))
    → Ends writes
        (run writes m (record { received = received; flushed = true; line = line } ∷ turns))
unfolding run
line-Ends received end_of_input turns writes m next = ([], input_ended, refl, tt, (refl, refl))
line-Ends received line_error turns writes m next = ([], not_read, refl, tt, (refl, refl))
line-Ends received (words parts) turns writes m next =
    let (c, e, h) = on_cmd-IsHarmless m.key_counter parts (cmd_of parts) in
    elim (Bool-cases (leb (length c.messages) writes)) [
      | inr cut ↦ (
        take writes c.messages,
        not_written,
        rw (e, ◌>>=◌, cut) refl,
        All-take writes c.messages h.bounded,
        cut_short writes c.messages cut,
      )
      | inl fits ↦ elim (Bool-cases c.quits) [
        | inl leaves ↦ (
          c.messages,
          left_by_command,
          rw (e, ◌>>=◌, fits, leaves) refl,
          h.bounded,
          (h.keys_up, h.fingers_up),
        )
        | inr stays ↦
            let (more, ended, runs, fit, released) =
              next (writes - length c.messages)
                (record { slots = drain_messages m.slots received; key_counter = c.key_counter }) in
            (
              c.messages ++ more,
              ended,
              rw (e, ◌>>=◌, fits, stays, runs) refl,
              All-append IsBounded c.messages more h.bounded fit,
              append-IsReleased writes c more ended (ground arith) h released,
            )
      ]
    ]

-- Whatever lines are typed, whatever the firmware sends, and whichever flush, read or write fails, the
-- monitor's loop does not get stuck in a command. All that it writes are requests of the Mac or of
-- one of the four slots, arrays of six keys that the report descriptor has, and frames of at most
-- one contact, at x up to 15000 and y up to 6000. Where it ends, no key is held and no finger is
-- down, by what it has written, unless the end is the error of a write; then exactly the messages
-- that could be written before it have been.
pub run-IsReleased :
    (turns : List Turn) (writes : ℕ) (m : Monitor)
    → (msgs : List HostMsg) × (ended : RunEnd) × (run writes m turns ≡ some (msgs, ended))
      × All IsBounded msgs
      × IsReleased writes msgs ended
unfolding run
run-IsReleased [] writes m = ([], open_ended, refl, tt, (refl, refl))
run-IsReleased (turn ∷ turns) writes m = elim (Bool-cases turn.flushed) [
  | inr failed ↦ ([], not_flushed, rw (run, failed) refl, tt, (refl, refl))
  | inl shown ↦
      subst (λ flushed. Ends writes (run writes m (record turn { flushed = flushed } ∷ turns)))
        (sym shown)
        (line-Ends turn.received turn.line turns writes m (λ left m'. run-IsReleased turns left m'))
]
