-- ===== src/Firmware/Main.antt =====
-- firmware/src/main.rs: the loop that drains BLE events, sends touch frames and handles messages.
-- What the decoder (postcard) makes of the bytes of a read is an input, one result for each call.
pub mod Start
pub mod Invariant
pub mod Uart
pub mod Connections
pub mod Peers
mod Tests
use esp32_universal_control.Base.{ℕ, Option, none, some, List, [], ◌∷◌, ◌++◌}
use esp32_universal_control.Protocol.Wire.{HostMsg}
use esp32_universal_control.Firmware.Ble.{BleEvent, BleStack}
use esp32_universal_control.Firmware.Session.{
  Session, Effect, Outcome, handle_ble_event, handle_host_msg, flush_touch_if_due,
}

-- `FeedResult`; what remains of the bytes shows in the results that follow.
pub data FeedResult : Type 0 where
  consumed over_full deser_error : FeedResult
  success : HostMsg → FeedResult

-- The clock when a message is handled, and the stack and the clock when touch is sent after it.
pub record Moment : Type 0 where
  pub handled_at : ℕ
  pub ble : BleStack
  pub flushed_at : ℕ

-- One turn of the loop: the events that waited, the stack and the clock when touch is sent, and
-- the results of the decoder, none if the read timed out.
pub record Turn : Type 0 where
  pub events : List BleEvent
  pub ble : BleStack
  pub now : ℕ
  pub results : List (FeedResult × Moment)

-- The second handler runs if the first does not panic, and sends after it.
abbrev pub sending : List Effect → Outcome → Outcome
sending effects none = none
sending effects (some (s, more)) = some (s, effects ++ more)

abbrev pub then : Outcome → (Session → Outcome) → Outcome
then none f = none
then (some (s, effects)) f = sending effects (f s)

-- `while let Ok(event) = ble_event_rx.try_recv()`.
unfoldable pub drain_events : Session → List BleEvent → Outcome
drain_events s [] = some (s, [])
drain_events s (event ∷ events) = then (handle_ble_event s event) (λ s'. drain_events s' events)

-- `while !window.is_empty()`; `consumed` leaves the loop.
unfoldable pub feed_window : Session → List (FeedResult × Moment) → Outcome
feed_window s [] = some (s, [])
feed_window s ((consumed, moment) ∷ results) = some (s, [])
feed_window s ((over_full, moment) ∷ results) = feed_window s results
feed_window s ((deser_error, moment) ∷ results) = feed_window s results
feed_window s ((success msg, moment) ∷ results) =
    then (handle_host_msg moment.handled_at s msg) (λ s₁.
      then (flush_touch_if_due moment.ble moment.flushed_at s₁) (λ s₂. feed_window s₂ results))

unfoldable pub turn : Session → Turn → Outcome
unfolding drain_events feed_window
turn s t =
    then (drain_events s t.events)
      (λ s₁. then (flush_touch_if_due t.ble t.now s₁) (λ s₂. feed_window s₂ t.results))

-- The `loop` of `run`, as far as the turns go.
unfoldable pub run : Session → List Turn → Outcome
unfolding turn
run s [] = some (s, [])
run s (t ∷ turns) = then (turn s t) (λ s'. run s' turns)
