-- ===== src/Host/Outbox.antt =====
-- host/src/capture/outbox.rs: the queue to the serial writer. The mutex makes each call one step;
-- `recv` is `none` where the source waits for the condition variable.
pub mod Order
mod Conformance
mod Tests
use esp32_universal_control.Base.{Option, none, some, List, [], ◌∷◌, ◌++◌}
use esp32_universal_control.Protocol.Input.{TouchFrame}
use esp32_universal_control.Protocol.Wire.{
  HostMsg, hello, select_peer, keyboard_state, consumer_state, touch_frame,
}

pub record Outbox : Type 0 where
  pub control : List HostMsg
  pub latest_touch : Option TouchFrame

abbrev pub new_outbox : Outbox
new_outbox = record { control = []; latest_touch = none }

abbrev pub push_back : Outbox → HostMsg → Outbox
push_back box msg = record box { control = box.control ++ msg ∷ [] }

unfoldable pub push : Outbox → HostMsg → Outbox
push box (touch_frame frame) = record box { latest_touch = some frame }
push box (select_peer slot) = push_back (record box { latest_touch = none }) (select_peer slot)
push box (hello version) = push_back box (hello version)
push box (keyboard_state keys) = push_back box (keyboard_state keys)
push box (consumer_state bits) = push_back box (consumer_state bits)

take_touch : Option TouchFrame → Option (HostMsg × Outbox)
take_touch none = none
take_touch (some frame) = some (touch_frame frame, new_outbox)

recv_from : List HostMsg → Option TouchFrame → Option (HostMsg × Outbox)
recv_from [] latest = take_touch latest
recv_from (msg ∷ rest) latest = some (msg, record { control = rest; latest_touch = latest })

unfoldable pub recv : Outbox → Option (HostMsg × Outbox)
unfolding recv_from take_touch
recv box = recv_from box.control box.latest_touch
