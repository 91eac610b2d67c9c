-- ===== src/Firmware/Main/Invariant.antt =====
-- What each handler keeps, the loop of firmware/src/main.rs keeps.
use esp32_universal_control.Base.{
  ℕ, sym, subst, none, some, List, [], ◌∷◌, ◌++◌, append-nil, append_assoc,
}
use esp32_universal_control.Protocol.Wire.{HostMsg}
use esp32_universal_control.Firmware.Ble.{BleEvent, BleStack}
use esp32_universal_control.Firmware.Session.{
  Session, Effect, Outcome, new_session, handle_ble_event, handle_host_msg, flush_touch_if_due,
}
use esp32_universal_control.Firmware.Session.Valid.{
  IsValid, Returns, new_session-IsValid, handle_ble_event-IsValid, handle_host_msg-IsValid,
  flush_touch_if_due-IsValid,
}
use esp32_universal_control.Firmware.Main.{
  FeedResult, consumed, over_full, deser_error, success, Moment, Turn, sending, then, drain_events,
  feed_window, turn, run,
}

-- `K` relates the state to all that has been sent.
module _ (K : Session → List Effect → Type 0) where
  abbrev pub Keeps : List Effect → Outcome → Type 0
  Keeps sent o = Returns o (λ s effects. K s (sent ++ effects))

  keep_here : (sent : List Effect) (s : Session) → K s sent → Keeps sent (some (s, []))
  keep_here sent s k = subst (K s) (sym (append-nil sent)) k

  keep_sending :
      (sent effects : List Effect) (o : Outcome)
      → Keeps (sent ++ effects) o
      → Keeps sent (sending effects o)
  keep_sending sent effects none k = k
  keep_sending sent effects (some (s, more)) k = subst (K s) (append_assoc sent effects more) k

  pub keep_then :
      (sent : List Effect) (o : Outcome) (f : Session → Outcome)
      → Keeps sent o
      → ((s : Session) (all : List Effect) → K s all → Keeps all (f s))
      → Keeps sent (then o f)
  keep_then sent none f k next = k
  keep_then sent (some (s, effects)) f k next =
      keep_sending sent effects (f s) (next s (sent ++ effects) k)

-- The three handlers keep `K`.
pub record HandlersKeep (K : Session → List Effect → Type 0) : Type 0 where
  pub event :
      (e : BleEvent) (s : Session) (sent : List Effect)
      → K s sent
      → Keeps K sent (handle_ble_event s e)
  pub message :
      (now : ℕ) (msg : HostMsg) (s : Session) (sent : List Effect)
      → K s sent
      → Keeps K sent (handle_host_msg now s msg)
  pub flush :
      (ble : BleStack) (now : ℕ) (s : Session) (sent : List Effect)
      → K s sent
      → Keeps K sent (flush_touch_if_due ble now s)

module _ (K : Session → List Effect → Type 0) (h : HandlersKeep K) where
  drain_events-Keeps :
      (events : List BleEvent) (s : Session) (sent : List Effect)
      → K s sent
      → Keeps K sent (drain_events s events)
  unfolding drain_events
  drain_events-Keeps [] s sent k = keep_here K sent s k
  drain_events-Keeps (e ∷ events) s sent k =
      keep_then K sent (handle_ble_event s e) (λ s'. drain_events s' events) (h.event e s sent k)
        (drain_events-Keeps events)

  feed_window-Keeps :
      (results : List (FeedResult × Moment)) (s : Session) (sent : List Effect)
      → K s sent
      → Keeps K sent (feed_window s results)
  unfolding feed_window
  feed_window-Keeps [] s sent k = keep_here K sent s k
  feed_window-Keeps ((consumed, m) ∷ results) s sent k = keep_here K sent s k
  feed_window-Keeps ((over_full, m) ∷ results) s sent k = feed_window-Keeps results s sent k
  feed_window-Keeps ((deser_error, m) ∷ results) s sent k = feed_window-Keeps results s sent k
  feed_window-Keeps ((success msg, m) ∷ results) s sent k =
      keep_then K sent (handle_host_msg m.handled_at s msg) _ (h.message m.handled_at msg s sent k)
        λ s₁ all₁ k₁.
          keep_then K all₁ (flush_touch_if_due m.ble m.flushed_at s₁) (λ s₂. feed_window s₂ results)
            (h.flush m.ble m.flushed_at s₁ all₁ k₁) (feed_window-Keeps results)

  turn-Keeps : (t : Turn) (s : Session) (sent : List Effect) → K s sent → Keeps K sent (turn s t)
  unfolding turn
  turn-Keeps t s sent k =
      keep_then K sent (drain_events s t.events) _ (drain_events-Keeps t.events s sent k)
        λ s₁ all₁ k₁.
          keep_then K all₁ (flush_touch_if_due t.ble t.now s₁) (λ s₂. feed_window s₂ t.results)
            (h.flush t.ble t.now s₁ all₁ k₁) (feed_window-Keeps t.results)

  pub run-Keeps :
      (turns : List Turn) (s : Session) (sent : List Effect) → K s sent → Keeps K sent (run s turns)
  unfolding run
  run-Keeps [] s sent k = keep_here K sent s k
  run-Keeps (t ∷ turns) s sent k =
      keep_then K sent (turn s t) (λ s'. run s' turns) (turn-Keeps t s sent k) (run-Keeps turns)

IsValid-handlers : HandlersKeep (λ s _. IsValid s)
IsValid-handlers = record {
  event = λ e s _ v. handle_ble_event-IsValid s e v;
  message = λ now msg s _ v. handle_host_msg-IsValid now s msg v;
  flush = λ ble now s _ v. flush_touch_if_due-IsValid ble now s v;
}

-- From the start, no handler of the firmware's loop indexes out of range, whatever events,
-- messages, times and answers of the BLE stack come, and the session stays well-formed: four
-- slots, an active slot that holds a peer, and an encoder of five entries.
pub run-IsValid : (turns : List Turn) → Returns (run new_session turns) (λ s _. IsValid s)
run-IsValid turns =
    run-Keeps (λ s _. IsValid s) IsValid-handlers turns new_session [] new_session-IsValid
