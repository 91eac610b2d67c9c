-- ===== src/Link/Typing/Steps.antt =====
-- Typing through one step of firmware/src/session.rs.
use esp32_universal_control.Base.{ℕ, ◌≡◌, refl, ap, ◌∙◌, true, false, [], ◌∷◌, ==_iff}
use esp32_universal_control.Protocol.Input.{Held, nothing_held}
use esp32_universal_control.Protocol.Wire.{
  hello, select_peer, keyboard_state, consumer_state, touch_frame,
}
use esp32_universal_control.Firmware.Session.{
  Outcome, Session, handle_host_msg, greet, flush_touch_if_due,
}
use esp32_universal_control.Firmware.Session.Valid.{
  IsValid, Returns, handle_host_msg-IsValid, flush_touch_if_due-IsValid,
}
use esp32_universal_control.Firmware.Session.Stream.{
  Action, from_host, flush_at, handle_action, Returns-weaken, Returns-both,
}
use esp32_universal_control.Firmware.Session.Keys.{held_if, held_for}
use esp32_universal_control.Firmware.Session.Keys.Quiet.{Quiet, flush-Quiet, greet-Quiet}
use esp32_universal_control.Host.Keyboard.Telling.{tell_all}
use esp32_universal_control.Link.Typing.{typed, KeepsPeer, Holds}

-- What is held for the active connection is what the session holds.
pub held_for-active :
    (conn_handle : ℕ) (held : Held) (s : Session)
    → Holds conn_handle held s
    → held_for conn_handle s ≡ held
held_for-active conn_handle held s (v, active, same) =
    ap (λ a. held_if a conn_handle (s.keyboard, s.consumer)) active
    ∙ ap {B = Held} (λ own. elim own [ true ↦ (s.keyboard, s.consumer) | false ↦ nothing_held ])
        ((==_iff conn_handle conn_handle).1 refl)
    ∙ same

-- A step that is quiet and keeps the session well-formed.
step-Holds :
    (conn_handle : ℕ) (held : Held) (s : Session) (o : Outcome)
    → Returns o (λ s' _. IsValid s')
    → Returns o (Quiet s)
    → Holds conn_handle held s
    → Returns o (λ s' effects. Holds conn_handle held s')
step-Holds conn_handle held s o keeps quiet (v, active, same) =
    Returns-weaken (λ s' effects. IsValid s' × Quiet s s' effects) _ o
      (Returns-both (λ s' _. IsValid s') (Quiet s) o keeps quiet)
      (λ s' effects (v', (kept, keys, unseen)). (v', kept ∙ active, keys ∙ same))

-- One action of the firmware.
pub action-Holds :
    (conn_handle : ℕ) (action : Action) (held : Held) (s : Session)
    → KeepsPeer action
    → Holds conn_handle held s
    → Returns
        (handle_action s action)
        (λ s' effects. Holds conn_handle (tell_all (typed (action ∷ [])) held) s')
unfolding handle_host_msg
action-Holds conn_handle (flush_at now ble) held s k h =
    step-Holds conn_handle held s (flush_touch_if_due ble now s)
      (flush_touch_if_due-IsValid ble now s h.0) (flush-Quiet ble now s h.0) h
action-Holds conn_handle (from_host now (hello version)) held s k h =
    step-Holds conn_handle held s (greet s version)
      (handle_host_msg-IsValid now s (hello version) h.0) (greet-Quiet s version h.0) h
action-Holds conn_handle (from_host now (select_peer slot)) held s k h = absurd k
action-Holds conn_handle (from_host now (keyboard_state keys)) held s k (v, active, same) =
    rw active (
      record { four = v.four; active = v.active; encoder = v.encoder },
      active,
      ap (λ h. (keys, h.1)) same,
    )
action-Holds conn_handle (from_host now (consumer_state bits)) held s k (v, active, same) =
    rw active (
      record { four = v.four; active = v.active; encoder = v.encoder },
      active,
      ap (λ h. (h.0, bits)) same,
    )
action-Holds conn_handle (from_host now (touch_frame frame)) held s k (v, active, same) =
    rw active (record { four = v.four; active = v.active; encoder = v.encoder }, active, same)
