-- ===== src/Link/Handshake.antt =====
-- The handshake of host/src/serial.rs with the session of firmware/src/session.rs.
use esp32_universal_control.Base.{
  ℕ, zero, suc, ◌+◌, ◌≤◌, ◌<◌, ◌≡◌, refl, sym, ap, ◌∙◌, Bool, true, false, none, some, List, [],
  ◌∷◌, ◌++◌, subst, All, append-nil, arith,
}
use esp32_universal_control.Protocol.Wire.{
  PeerSnapshot, FirmwareMsg, hello, hello_ack, peer_snapshot, peer_connected, peer_disconnected,
  active_peer_changed, led_state, protocol_error, protocol_version,
}
use esp32_universal_control.Firmware.Session.{
  Session, Effect, to_host, keyboard_report, consumer_report, touch_report, handle_host_msg, greet,
}
use esp32_universal_control.Firmware.Session.Valid.{IsValid, Returns}
use esp32_universal_control.Firmware.Session.Snapshot.{describe, snapshot_lem}
use esp32_universal_control.Host.Slots.{new_table, from_snapshot}
use esp32_universal_control.Host.Serial.{
  HandshakeResult, completed, Attempt, await_snapshot, attempts_from, handshake, handshake_retries,
}
use esp32_universal_control.Host.Events.{update_table}
use esp32_universal_control.Link.Mirror.{Mirrors, Linked}
use esp32_universal_control.Link.Messages.{hello-Linked}

-- A message that the firmware sends of its own accord.
abbrev pub IsNotice : FirmwareMsg → Type 0
IsNotice (hello_ack ack) = ⊥
IsNotice (peer_snapshot snapshot) = ⊥
IsNotice (protocol_error error) = ⊥
IsNotice (peer_connected peer) = Unit {0}
IsNotice (peer_disconnected slot) = Unit {0}
IsNotice (active_peer_changed slot) = Unit {0}
IsNotice (led_state bits) = Unit {0}

-- The messages to the host among the effects.
abbrev pub host_messages : List Effect → List FirmwareMsg
host_messages [] = []
host_messages (to_host msg ∷ effects) = msg ∷ host_messages effects
host_messages (keyboard_report h r ∷ effects) = host_messages effects
host_messages (consumer_report h b ∷ effects) = host_messages effects
host_messages (touch_report h r ∷ effects) = host_messages effects

skip_notices :
    (notices more : List FirmwareMsg) (hello_ok : Bool)
    → All IsNotice notices
    → await_snapshot hello_ok (notices ++ more) ≡ await_snapshot hello_ok more
unfolding await_snapshot
skip_notices [] more h a = refl
skip_notices (hello_ack ack ∷ ms) more h a = absurd (a.0)
skip_notices (peer_snapshot snapshot ∷ ms) more h a = absurd (a.0)
skip_notices (protocol_error error ∷ ms) more h a = absurd (a.0)
skip_notices (peer_connected peer ∷ ms) more h a = skip_notices ms more h a.1
skip_notices (peer_disconnected slot ∷ ms) more h a = skip_notices ms more h a.1
skip_notices (active_peer_changed slot ∷ ms) more h a = skip_notices ms more h a.1
skip_notices (led_state bits ∷ ms) more h a = skip_notices ms more h a.1

-- An attempt whose hello is written, and that times out among notices.
abbrev pub IsSilent : Attempt → Type 0
IsSilent attempt = (attempt.sends ≡ true) × All IsNotice attempt.answers

silent_times_out : (ms : List FirmwareMsg) → All IsNotice ms → await_snapshot false ms ≡ none
unfolding await_snapshot
silent_times_out ms a = ap (await_snapshot false) (sym (append-nil ms)) ∙ skip_notices ms [] false a

after_silence :
    (left n silent : ℕ) (attempts : ℕ → Attempt) (result : HandshakeResult)
    → silent < left
    → ((k : ℕ) → k < n + silent → n ≤ k → IsSilent (attempts k))
    → (attempts (n + silent)).sends ≡ true
    → await_snapshot false ((attempts (n + silent)).answers) ≡ some result
    → attempts_from left n attempts ≡ result
unfolding attempts_from
after_silence zero n silent attempts result lt quiet sends answered = absurd (omega arith)
after_silence (suc left) n zero attempts result lt quiet sends answered =
    let here : n + 0 ≡ n = omega arith in
    let sends' : (attempts n).sends ≡ true = ap (λ k. (attempts k).sends) (sym here) ∙ sends in
    let answered' : await_snapshot false ((attempts n).answers) ≡ some result =
      ap (λ k. await_snapshot false ((attempts k).answers)) (sym here) ∙ answered in
    rw (attempts_from, sends', answered') refl
after_silence (suc left) n (suc silent) attempts result lt quiet sends answered =
    let (sent, notices) = quiet n (omega arith) (omega arith) in
    let next : n + 1 + silent ≡ n + suc silent = omega arith in
    rw (attempts_from, sent, silent_times_out ((attempts n).answers) notices)
      (after_silence left (n + 1) silent attempts result (omega arith)
        (λ k below from. quiet k (omega arith) (omega arith))
        (ap (λ k. (attempts k).sends) next ∙ sends)
        (ap (λ k. await_snapshot false ((attempts k).answers)) next ∙ answered))

abbrev acknowledged : FirmwareMsg
acknowledged = hello_ack (record { version = protocol_version; peer_limit = 4 })

greeting :
    (now : ℕ) (s : Session)
    → IsValid s
    → Returns (handle_host_msg now s (hello protocol_version)) (λ s' effects.
      (snapshot : PeerSnapshot) × (effects
        ≡ to_host acknowledged ∷ to_host (peer_snapshot snapshot) ∷ []))
unfolding handle_host_msg greet
greeting now s v =
    rw (snapshot_lem s v.four)
      (record { peers = describe 0 s.peers; active_slot = s.active_slot }, refl)

shown :
    (s' : Session) (effects : List Effect) (snapshot : PeerSnapshot)
    → effects ≡ to_host acknowledged ∷ to_host (peer_snapshot snapshot) ∷ []
    → Linked new_table s' effects
    → Mirrors s' (from_snapshot snapshot)
unfolding from_snapshot update_table
shown s' effects snapshot e linked = (subst (Linked new_table s') e linked).1

-- The handshake with a well-formed firmware session completes, if at one of the five attempts the
-- hello is written and the answers are the messages with which the firmware handles it, after any
-- notices and before anything else, and the attempts before it time out among notices. The host's
-- new table then shows exactly the session's peers and its active slot.
pub handshake-Mirrors :
    (now silent : ℕ) (s s' : Session) (effects : List Effect) (attempts : ℕ → Attempt)
    (notices later : List FirmwareMsg)
    → IsValid s
    → handle_host_msg now s (hello protocol_version) ≡ some (s', effects)
    → silent < handshake_retries
    → ((k : ℕ) → k < 1 + silent → 1 ≤ k → IsSilent (attempts k))
    → (attempts (1 + silent)).sends ≡ true
    → All IsNotice notices
    → (attempts (1 + silent)).answers ≡ notices ++ (host_messages effects ++ later)
    → (snapshot : PeerSnapshot) × (handshake attempts ≡ completed snapshot)
      × Mirrors s' (from_snapshot snapshot)
unfolding handshake await_snapshot
handshake-Mirrors now silent s s' effects attempts notices later v runs lt quiet sends a answered =
    let linked : Linked new_table s' effects =
      subst (λ o. Returns o (Linked new_table)) runs (hello-Linked now s new_table v) in
    let (snapshot, e) =
      subst
        (λ o. Returns o (λ _ effects.
          (snapshot : PeerSnapshot) × (effects
            ≡ to_host acknowledged ∷ to_host (peer_snapshot snapshot) ∷ [])))
        runs (greeting now s v) in
    let told : await_snapshot false (host_messages effects ++ later) ≡ some (completed snapshot) =
      ap (λ es. await_snapshot false (host_messages es ++ later)) e in
    (
      snapshot,
      after_silence handshake_retries 1 silent attempts (completed snapshot) lt quiet sends (
          ap (await_snapshot false) answered
          ∙ skip_notices notices (host_messages effects ++ later) false a
          ∙ told),
      shown s' effects snapshot e linked,
    )
