-- ===== src/Host/Outbox/Tests.antt =====
-- Runs of the outbox of host/src/capture/outbox.rs.
use esp32_universal_control.Base.{◌≡◌, refl, true, some, List, [], ◌∷◌, ◌++◌}
use mathlib.Core.List.{Memᴰ}
use esp32_universal_control.Protocol.Input.{
  TouchFrame, default_touch_frame, default_keyboard_snapshot,
}
use esp32_universal_control.Protocol.Wire.{keyboard_state, touch_frame}
use esp32_universal_control.Host.Outbox.{Outbox, new_outbox, push, recv}
use esp32_universal_control.Host.Outbox.Order.{
  Op, pushed, received, run, controls, pushes, run-controls, no_stale_touch,
}

abbrev clicked : TouchFrame
clicked = record default_touch_frame { button = true }

-- A frame that a newer one replaces, and a key that overtakes it.
abbrev some_ops : List Op
some_ops =
    pushed (touch_frame default_touch_frame)
    ∷ pushed (touch_frame clicked)
    ∷ pushed (keyboard_state default_keyboard_snapshot)
    ∷ received
    ∷ received
    ∷ received
    ∷ []

received_messages :
    run new_outbox some_ops
    ≡ (new_outbox, keyboard_state default_keyboard_snapshot ∷ touch_frame clicked ∷ [])
unfolding run push recv
received_messages = refl

run-controls_example :
    let (last, msgs) = run new_outbox some_ops in
    controls msgs ++ controls last.control ≡ controls [] ++ controls (pushes some_ops)
run-controls_example = run-controls new_outbox some_ops

abbrev old_frame : Outbox
old_frame = record { control = []; latest_touch = some default_touch_frame }

no_stale_touch_example : Memᴰ (touch_frame clicked) (pushes some_ops)
unfolding run push recv
no_stale_touch_example =
    no_stale_touch old_frame (some 1) some_ops clicked tt (Memᴰ.tail (Memᴰ.tail (Memᴰ.head refl)))
