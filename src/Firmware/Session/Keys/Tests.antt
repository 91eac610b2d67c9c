-- ===== src/Firmware/Session/Keys/Tests.antt =====
-- What peers are shown of the keys over a small run of firmware/src/session.rs.
use esp32_universal_control.Base.{◌≡◌, refl, true, false, none, some, List, [], ◌∷◌}
use esp32_universal_control.Protocol.Input.{KeyboardSnapshot}
use esp32_universal_control.Protocol.Keyboard.{default_keyboard_report}
use esp32_universal_control.Protocol.Wire.{keyboard_state, consumer_state, select_peer}
use esp32_universal_control.Firmware.Reports.{Notifier}
use esp32_universal_control.Firmware.Session.{
  new_session, handle_host_msg, switch_peer, switch_to, refuse_slot, activate, type_keys,
  press_consumer,
}
use esp32_universal_control.Firmware.Session.Valid.{IsValid}
use esp32_universal_control.Firmware.Session.Tests.{two_peers, two_peers-IsValid}
use esp32_universal_control.Firmware.Session.Stream.{Action, from_host}
use esp32_universal_control.Firmware.Session.Keys.{Shown, serve, Ends, held_for, Shows}
use esp32_universal_control.Firmware.Session.Keys.Runs.{serve-Shows}

abbrev keys_sent_only : Notifier
keys_sent_only = record {
  notify_keyboard = λ bytes conn_handle. none;
  notify_consumer = λ bytes conn_handle. some 6;
}

abbrev shift_a : KeyboardSnapshot
shift_a = record { modifiers = 2; keys = 4 ∷ 0 ∷ 0 ∷ 0 ∷ 0 ∷ 0 ∷ [] }

-- A key and a consumer bit, an empty slot, and the other peer.
abbrev moves : List (Action × Notifier)
moves =
    (from_host 1 (keyboard_state shift_a), keys_sent_only)
    ∷ (from_host 2 (consumer_state 1), keys_sent_only)
    ∷ (from_host 3 (select_peer (some 2)), keys_sent_only)
    ∷ (from_host 4 (select_peer (some 1)), keys_sent_only)
    ∷ (from_host 5 (keyboard_state shift_a), keys_sent_only)
    ∷ []

abbrev nothing_shown : Shown
nothing_shown = record {
  keys = default_keyboard_report;
  keys_sent = true;
  bits = 0;
  bits_sent = true;
}

nothing_shown-Shows : Shows (held_for 7 two_peers) nothing_shown
unfolding new_session
nothing_shown-Shows = (λ sent. refl, λ sent. refl)

serve-Shows_example :
    Ends
      (serve 7 two_peers nothing_shown moves)
      (λ s' shown'. IsValid s' × Shows (held_for 7 s') shown')
serve-Shows_example =
    serve-Shows 7 moves two_peers nothing_shown two_peers-IsValid nothing_shown-Shows

-- The first peer has no key any more; the report without the bit was not sent.
first_peer_released : Ends (serve 7 two_peers nothing_shown moves) (λ s' shown'.
    shown'
    ≡ record { keys = default_keyboard_report; keys_sent = true; bits = 0; bits_sent = false })
unfolding serve handle_host_msg switch_peer switch_to refuse_slot activate type_keys press_consumer
    new_session
first_peer_released = refl
