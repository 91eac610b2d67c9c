-- ===== src/Link/Run.antt =====
-- The host's slot table over a whole run of the firmware's loop (firmware/src/main.rs).
use esp32_universal_control.Base.{ℕ, ◌≡◌, refl, sym, subst, none, some, List, [], ◌∷◌, ◌++◌}
use esp32_universal_control.Protocol.Wire.{hello, protocol_version}
use esp32_universal_control.Firmware.Session.{
  Session, Effect, to_host, keyboard_report, consumer_report, touch_report, Outcome,
  handle_ble_event, handle_host_msg, flush_touch_if_due,
}
use esp32_universal_control.Firmware.Session.Valid.{
  IsValid, Returns, handle_ble_event-IsValid, handle_host_msg-IsValid, flush_touch_if_due-IsValid,
}
use esp32_universal_control.Firmware.Main.{Turn, run, then}
use esp32_universal_control.Firmware.Main.Invariant.{Keeps, HandlersKeep, run-Keeps, keep_then}
use esp32_universal_control.Host.Slots.{SlotTable}
use esp32_universal_control.Host.Events.{update_table}
use esp32_universal_control.Link.Mirror.{Mirrors, received, Linked, handle_ble_event-Linked}
use esp32_universal_control.Link.Messages.{
  hello-Linked, handle_host_msg-Linked, flush_touch_if_due-Linked,
}

received-append :
    (table : SlotTable) (xs ys : List Effect)
    → received table (xs ++ ys) ≡ received (received table xs) ys
received-append table [] ys = refl
received-append table (to_host msg ∷ xs) ys = received-append (update_table table msg).0 xs ys
received-append table (keyboard_report h r ∷ xs) ys = received-append table xs ys
received-append table (consumer_report h b ∷ xs) ys = received-append table xs ys
received-append table (touch_report h r ∷ xs) ys = received-append table xs ys

-- All that is known of a session, its host and what was sent in between.
abbrev pub InStep : SlotTable → Session → List Effect → Type 0
InStep table s sent = IsValid s × Linked table s sent

join :
    (table : SlotTable) (sent : List Effect) (o : Outcome)
    → Returns o (λ s _. IsValid s)
    → Returns o (Linked (received table sent))
    → Keeps (InStep table) sent o
join table sent none v k = v
join table sent (some (s, effects)) v (ready, m) =
    (v, (ready, subst (Mirrors s) (sym (received-append table sent effects)) m))

InStep-handlers : (table : SlotTable) → HandlersKeep (InStep table)
InStep-handlers table = record {
  event = λ e s sent k.
      join table sent (handle_ble_event s e) (handle_ble_event-IsValid s e k.0)
        (handle_ble_event-Linked s (received table sent) e k.0 (k.1).0 (k.1).1);
  message = λ now msg s sent k.
      join table sent (handle_host_msg now s msg) (handle_host_msg-IsValid now s msg k.0)
        (handle_host_msg-Linked now s (received table sent) msg k.0 (k.1).0 (k.1).1);
  flush = λ ble now s sent k.
      join table sent (flush_touch_if_due ble now s) (flush_touch_if_due-IsValid ble now s k.0)
        (flush_touch_if_due-Linked ble now s (received table sent) k.0 (k.1).0 (k.1).1);
}

-- From a well-formed session and any slot table: after a hello of the right version and any run of
-- the loop, the firmware has not panicked, and a host that has read all messages shows exactly the
-- connected peers at their slots and the active slot, and forwards if and only if there is one.
pub run-Mirrors :
    (now : ℕ) (s : Session) (table : SlotTable) (turns : List Turn)
    → IsValid s
    → Returns
        (then (handle_host_msg now s (hello protocol_version)) (λ s'. run s' turns))
        (λ s' effects. IsValid s' × Mirrors s' (received table effects))
run-Mirrors now s table turns v = weaken _ (
    keep_then (InStep table) [] (handle_host_msg now s (hello protocol_version))
      (λ s'. run s' turns)
      (join table [] (handle_host_msg now s (hello protocol_version))
        (handle_host_msg-IsValid now s (hello protocol_version) v) (hello-Linked now s table v))
      (λ s' sent k. run-Keeps (InStep table) (InStep-handlers table) turns s' sent k))
  where
    weaken :
        (o : Outcome)
        → Keeps (InStep table) [] o
        → Returns o (λ s' effects. IsValid s' × Mirrors s' (received table effects))
    weaken none k = k
    weaken (some (s', effects)) k = (k.0, (k.1).1)
