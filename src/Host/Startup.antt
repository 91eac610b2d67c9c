-- ===== src/Host/Startup.antt =====
-- How capture starts: `run` of host/src/capture/mod.rs, and the choice of the subcommand in
-- host/src/main.rs. What the calls do is modelled in Serial, Events, Keyboard and Trackpad; here it
-- is their order, and which of them are made when one fails.
mod Tests
use Prim.Native.String.{String}
use text.Mathlib.Text.{◌==◌ as equal_text}
use esp32_universal_control.Base.{
  ℕ, ◌≡◌, refl, Bool, true, false, not, Option, none, some, List, [], ◌∷◌, ◌++◌, get_elem?, any,
  All, run_calls, made_after,
}

pub data StartCall : Type 0 where
  opens_port clones_port spawns_reader shakes_hands syncs_cursor : StartCall
  spawns_writer spawns_events spawns_keyboard runs_trackpad : StartCall

-- The calls of `run`, in order.
abbrev pub start_calls : List StartCall
start_calls =
    opens_port ∷ clones_port ∷ spawns_reader ∷ shakes_hands ∷ syncs_cursor ∷ spawns_writer
    ∷ spawns_events ∷ spawns_keyboard ∷ runs_trackpad ∷ []

-- The calls with the operator ?.
abbrev pub start_is_fallible : StartCall → Bool
start_is_fallible opens_port = true
start_is_fallible clones_port = true
start_is_fallible spawns_reader = false
start_is_fallible shakes_hands = true
start_is_fallible syncs_cursor = false
start_is_fallible spawns_writer = true
start_is_fallible spawns_events = true
start_is_fallible spawns_keyboard = true
start_is_fallible runs_trackpad = true

-- The calls that `run` makes, and whether it returns without an error.
abbrev pub run_capture : (succeeds : StartCall → Bool) → List StartCall × Bool
run_capture succeeds = run_calls start_is_fallible succeeds start_calls

-- The call begins to take input from the Mac.
abbrev pub takes_input : StartCall → Bool
takes_input spawns_keyboard = true
takes_input runs_trackpad = true
takes_input opens_port = false
takes_input clones_port = false
takes_input spawns_reader = false
takes_input shakes_hands = false
takes_input syncs_cursor = false
takes_input spawns_writer = false
takes_input spawns_events = false

-- Input is taken only behind a link that works: where `run` has begun to take the keyboard's or the
-- trackpad's input, the port was opened and cloned, the handshake was completed, and the two threads
-- that write to the firmware and read its events were started.
pub input_after_link :
    (succeeds : StartCall → Bool)
    → any takes_input (run_capture succeeds).0 ≡ true
    → All
        (λ call. succeeds call ≡ true)
        (opens_port ∷ clones_port ∷ shakes_hands ∷ spawns_writer ∷ spawns_events ∷ [])
input_after_link succeeds taken =
    let behind = made_after start_is_fallible succeeds takes_input in
    (
      behind [] opens_port _ refl refl taken,
      (
        behind (opens_port ∷ []) clones_port _ refl refl taken,
        (
          behind (opens_port ∷ clones_port ∷ spawns_reader ∷ []) shakes_hands _ refl refl taken,
          (
            behind (opens_port ∷ clones_port ∷ spawns_reader ∷ shakes_hands ∷ syncs_cursor ∷ [])
                spawns_writer _ refl refl taken,
            (
              behind
                  (opens_port ∷ clones_port ∷ spawns_reader ∷ shakes_hands ∷ syncs_cursor
                    ∷ spawns_writer ∷ [])
                  spawns_events _ refl refl taken,
              tt,
            ),
          ),
        ),
      ),
    )

pub data Subcommand : Type 0 where
  debug_command run_command : Subcommand

-- What `main` prints besides what the subcommands do, and its exit status.
pub data Exit : Type 0 where
  success usage error : Exit

abbrev pub status : Exit → ℕ
status success = 0
status usage = 1
status error = 1

abbrev pub subcommand : String → Option Subcommand
subcommand cmd = elim (equal_text cmd "debug") [
  | true ↦ some debug_command
  | false ↦ elim (equal_text cmd "run") [ true ↦ some run_command | false ↦ none ]
]

-- The `match (cmd, port)`.
abbrev pub choose : Option String → Option String → Option (Subcommand × String)
choose none port = none
choose (some cmd) none = none
choose (some cmd) (some port) = elim (subcommand cmd) [
  | none ↦ none
  | some chosen ↦ some (chosen, port)
]

abbrev pub exit_of : Bool → Exit
exit_of true = success
exit_of false = error

-- `main`; `runs` says whether a subcommand on a port returns without an error.
unfoldable pub main : (runs : Subcommand → String → Bool) → (args : List String) → Exit
main runs args = elim (choose (get_elem? args 1) (get_elem? args 2)) [
  | none ↦ usage
  | some (chosen, port) ↦ exit_of (runs chosen port)
]
