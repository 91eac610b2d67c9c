-- ===== src/Host/Startup/Tests.antt =====
-- Starts of the host, with and without a firmware.
use esp32_universal_control.Base.{◌≡◌, refl, Bool, true, false, [], ◌∷◌, All, run_calls}
use esp32_universal_control.Host.Startup.{
  StartCall, opens_port, clones_port, spawns_reader, shakes_hands, syncs_cursor, spawns_writer,
  spawns_events, spawns_keyboard, runs_trackpad, run_capture, input_after_link, main, usage, error,
  success,
}

abbrev no_firmware : StartCall → Bool
no_firmware shakes_hands = false
no_firmware opens_port = true
no_firmware clones_port = true
no_firmware spawns_reader = true
no_firmware syncs_cursor = true
no_firmware spawns_writer = true
no_firmware spawns_events = true
no_firmware spawns_keyboard = true
no_firmware runs_trackpad = true

stops_at_handshake :
    run_capture no_firmware ≡ (opens_port ∷ clones_port ∷ spawns_reader ∷ shakes_hands ∷ [], false)
unfolding run_calls
stops_at_handshake = refl

without_port : main (λ chosen port. true) ("esp32-uc-host" ∷ "run" ∷ []) ≡ usage
unfolding main
without_port = refl

with_port : main (λ chosen port. true) ("esp32-uc-host" ∷ "run" ∷ "/dev/cu.usb" ∷ []) ≡ success
unfolding main
with_port = refl

port_missing : main (λ chosen port. false) ("esp32-uc-host" ∷ "debug" ∷ "/dev/null" ∷ []) ≡ error
unfolding main
port_missing = refl

unknown_command : main (λ chosen port. true) ("esp32-uc-host" ∷ "stop" ∷ "/dev/null" ∷ []) ≡ usage
unfolding main
unknown_command = refl

input_after_link_example :
    All {A = StartCall}
      (λ call. true ≡ true)
      (opens_port ∷ clones_port ∷ shakes_hands ∷ spawns_writer ∷ spawns_events ∷ [])
unfolding run_calls
input_after_link_example = input_after_link (λ call. true) refl
