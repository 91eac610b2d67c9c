-- ===== src/Host/Debug/Tests.antt =====
-- Runs of the monitor of host/src/debug.rs.
use esp32_universal_control.Base.{◌≡◌, refl, true, none, some, List, [], ◌∷◌, All, replicate}
use esp32_universal_control.Protocol.Input.{default_keyboard_snapshot}
use esp32_universal_control.Protocol.Wire.{HostMsg, select_peer, keyboard_state}
use esp32_universal_control.Host.Slots.{new_table}
use esp32_universal_control.Host.Debug.{
  Word, Command, on_cmd, parse_usize, Monitor, Turn, words, RunEnd, left_by_command, run, select,
}
use esp32_universal_control.Host.Debug.Commands.{IsBounded, IsHarmless, on_cmd-IsHarmless}
use esp32_universal_control.Host.Debug.Runs.{IsReleased, run-IsReleased}

-- `s 2`.
abbrev select_two : List Word
select_two = (115 ∷ []) ∷ (50 ∷ []) ∷ []

-- `+7` is a number, `+` and `7x` are not.
parse_plus : parse_usize (43 ∷ 55 ∷ []) ≡ some 7
parse_plus = refl

parse_sign : parse_usize (43 ∷ []) ≡ none
parse_sign = refl

parse_letter : parse_usize (55 ∷ 120 ∷ []) ≡ none
parse_letter = refl

abbrev at_start : Monitor
at_start = record { slots = new_table; key_counter = 255 }

abbrev typed : List Word → Turn
typed parts = record { received = []; flushed = true; line = words parts }

-- `s 2`, `k`, `q`.
abbrev session : List Turn
session = typed select_two ∷ typed ((107 ∷ []) ∷ []) ∷ typed ((113 ∷ []) ∷ []) ∷ []

run-session :
    run 100 at_start session
    ≡ some (
      select_peer (some 2)
          ∷ keyboard_state (record { modifiers = 0; keys = 25 ∷ replicate 5 0 })
          ∷ keyboard_state default_keyboard_snapshot
          ∷ [],
      left_by_command,
    )
unfolding run
run-session = refl

select_two-IsHarmless : (c : Command) × (on_cmd 3 select_two select ≡ some c) × IsHarmless c
select_two-IsHarmless = on_cmd-IsHarmless 3 select_two select

run-IsReleased_example :
    (msgs : List HostMsg) × (ended : RunEnd) × (run 2 at_start session ≡ some (msgs, ended))
    × All IsBounded msgs
    × IsReleased 2 msgs ended
run-IsReleased_example = run-IsReleased session 2 at_start
