-- ===== src/Link/Tests.antt =====
-- A run of the firmware with its host.
use esp32_universal_control.Base.{
  ℕ, ◌<◌, ◌≤◌, ◌≡◌, refl, subst, arith, true, false, ◌==◌, some, List, [], ◌∷◌, ◌++◌,
}
use esp32_universal_control.Protocol.Wire.{
  hello, select_peer, protocol_version, hello_ack, peer_snapshot, led_state, PeerSnapshot,
}
use esp32_universal_control.Firmware.Ble.{connected, disconnected}
use esp32_universal_control.Firmware.Session.{
  Session, Effect, to_host, new_session, handle_host_msg, snapshot,
}
use esp32_universal_control.Firmware.Session.Valid.{IsValid, Returns, new_session-IsValid}
use esp32_universal_control.Firmware.Session.Tests.{sending_stack, two_peers, two_peers-IsValid}
use esp32_universal_control.Firmware.Main.{Turn, success, run, then}
use esp32_universal_control.Firmware.Main.Invariant.{run-IsValid}
use esp32_universal_control.Host.Slots.{new_table, from_snapshot}
use esp32_universal_control.Firmware.Session.Snapshot.{describe}
use esp32_universal_control.Host.Serial.{Attempt, handshake, completed}
use esp32_universal_control.Link.Handshake.{IsSilent, host_messages, handshake-Mirrors}
use esp32_universal_control.Link.Mirror.{Mirrors, received}
use esp32_universal_control.Link.Run.{run-Mirrors}

-- A peer connects, is selected, and leaves.
abbrev session_turns : List Turn
session_turns =
    record {
      events = connected 7 (1 ∷ 2 ∷ 3 ∷ 4 ∷ 5 ∷ 6 ∷ []) ∷ [];
      ble = sending_stack;
      now = 10;
      results =
          (
            success (select_peer (some 0)),
            record { handled_at = 11; ble = sending_stack; flushed_at = 12 },
          )
          ∷ [];
    }
    ∷ record { events = disconnected 7 ∷ []; ble = sending_stack; now = 20; results = [] }
    ∷ []

run-IsValid_example : Returns (run new_session session_turns) (λ s _. IsValid s)
run-IsValid_example = run-IsValid session_turns

run-Mirrors_example :
    Returns
      (then (handle_host_msg 5 new_session (hello protocol_version)) (λ s'. run s' session_turns))
      (λ s' effects. IsValid s' × Mirrors s' (received new_table effects))
run-Mirrors_example = run-Mirrors 5 new_session new_table session_turns new_session-IsValid

-- The first attempt times out, the second is answered.
abbrev greeted : Session
greeted = record two_peers { host_ready = true }

abbrev greeting_effects : List Effect
greeting_effects =
    to_host (hello_ack (record { version = protocol_version; peer_limit = 4 }))
    ∷ to_host (peer_snapshot (record { peers = describe 0 two_peers.peers; active_slot = some 0 }))
    ∷ []

abbrev second_answers : ℕ → Attempt
second_answers k = elim (k == 1) [
  | true ↦ record { sends = true; answers = led_state 2 ∷ [] }
  | false ↦ record { sends = true; answers = host_messages greeting_effects ++ led_state 3 ∷ [] }
]

hello_runs : handle_host_msg 5 two_peers (hello protocol_version) ≡ some (greeted, greeting_effects)
unfolding handle_host_msg snapshot new_session
hello_runs = refl

first-IsSilent : (k : ℕ) → k < 2 → 1 ≤ k → IsSilent (second_answers k)
first-IsSilent k below from =
    let one : 1 ≡ k = omega arith in subst (λ j. IsSilent (second_answers j)) one (refl, (tt, tt))

handshake-Mirrors_example :
    (snapshot : PeerSnapshot) × (handshake second_answers ≡ completed snapshot)
    × Mirrors greeted (from_snapshot snapshot)
handshake-Mirrors_example =
    handshake-Mirrors 5 1 two_peers greeted greeting_effects second_answers [] (led_state 3 ∷ [])
      two_peers-IsValid hello_runs (omega arith) first-IsSilent refl tt refl
