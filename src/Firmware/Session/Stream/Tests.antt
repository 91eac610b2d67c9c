-- ===== src/Firmware/Session/Stream/Tests.antt =====
-- A finger comes and goes at the active peer of firmware/src/session.rs.
use esp32_universal_control.Base.{
  ℕ, zero, suc, ◌≡◌, some, none, replicate, ◌==◌, refl, Bool, true, false, List, [], ◌∷◌, ◌++◌, All,
  arith,
}
use esp32_universal_control.Protocol.Input.{default_keyboard_snapshot, default_touch_frame}
use esp32_universal_control.Protocol.Wire.{keyboard_state, touch_frame, select_peer}
use esp32_universal_control.Protocol.Ptp.{from_contact}
use esp32_universal_control.Firmware.Session.Stream.Switch.{switch_keeps_fingers}
use esp32_universal_control.Protocol.Ptp.Receiver.{touches}
use esp32_universal_control.Firmware.Session.{new_session, Session, handle_at}
use esp32_universal_control.Firmware.Session.Valid.{Returns}
use esp32_universal_control.Firmware.Session.Tests.{
  two_peers, two_peers-IsValid, finger, peer_a, peer_b, touching_frame, sending_stack,
}
use esp32_universal_control.Firmware.Session.Stream.{
  Action, from_host, flush_at, handle_actions, receive_at, IsSteady, InStep,
}
use esp32_universal_control.Firmware.Session.Stream.Ghosts.{
  handle_actions-InStep, flushed_frame_holds,
}

abbrev nothing_down : ℕ → Bool
nothing_down id = false

two_peers-InStep : InStep 7 100 two_peers nothing_down
unfolding new_session
two_peers-InStep = record {
  valid = two_peers-IsValid;
  active = refl;
  follows = (refl, tt, λ id. refl);
  distinct = tt;
  paced = omega arith;
  no_ghost = λ clean id there. absurd (cc);
}

-- A key, a finger, and a flush.
abbrev press : List Action
press =
    from_host 1 (keyboard_state default_keyboard_snapshot)
    ∷ from_host 2 (touch_frame touching_frame)
    ∷ flush_at 100 sending_stack
    ∷ []

press-IsSteady : All (IsSteady 7 100) press
press-IsSteady = (tt, ((refl, tt), ((omega arith, refl, λ r. refl), tt)))

handle_actions-InStep_example :
    Returns
      (handle_actions two_peers press)
      (λ s' effects. InStep 7 100 s' (receive_at 7 effects nothing_down))
handle_actions-InStep_example =
    handle_actions-InStep 7 100 press two_peers nothing_down (omega arith) press-IsSteady
      two_peers-InStep

flushed_frame_holds_example :
    Returns
      (handle_actions two_peers (
        press ++ from_host 50 (touch_frame default_touch_frame) ∷ flush_at 9000 sending_stack ∷ []))
      (λ s' effects.
        (s'.touch_dirty ≡ false)
        × ((id : ℕ)
            → receive_at 7 effects nothing_down id ≡ true
            → touches default_touch_frame id ≡ true))
flushed_frame_holds_example =
    flushed_frame_holds 7 100 50 9000 press sending_stack default_touch_frame two_peers nothing_down
      (omega arith) (omega arith) press-IsSteady tt (omega arith, refl, λ r. refl) two_peers-InStep

-- The active peer holds the finger 4 down.
abbrev holding : Session
holding = record two_peers {
  latest_touch = touching_frame;
  touch = record { tracked = some (from_contact finger) ∷ replicate 4 none };
}

abbrev finger_four : ℕ → Bool
finger_four id = 4 == id

holding-InStep : InStep 7 100 holding finger_four
unfolding new_session
holding-InStep = record {
  valid = record { four = refl; active = (peer_a, refl); encoder = refl };
  active = refl;
  follows = (refl, (refl, tt), λ id. ground arith);
  distinct = (refl, tt);
  paced = omega arith;
  no_ghost = λ clean id there. ground arith;
}

handle_seven : (slot : ℕ) → handle_at holding.peers (some slot) ≡ some (some 7) → 0 ≡ slot
unfolding new_session
handle_seven zero e = refl
handle_seven (suc zero) e = absurd (ground (arith, e))
handle_seven (suc (suc zero)) e = absurd (cc)
handle_seven (suc (suc (suc zero))) e = absurd (cc)
handle_seven (suc (suc (suc (suc slot)))) e = absurd (cc)

switch_keeps_fingers_example :
    Returns
      (handle_actions holding (from_host 200 (select_peer (some 1)) ∷ press))
      (λ s' effects. (id : ℕ) → receive_at 7 effects finger_four id ≡ finger_four id)
unfolding new_session
switch_keeps_fingers_example =
    switch_keeps_fingers 200 0 7 (some 1) press holding finger_four holding-InStep.valid refl refl
      handle_seven ((λ same. omega (arith, same)), omega arith, (peer_b, refl)) (tt, (tt, (tt, tt)))
