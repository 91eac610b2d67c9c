-- ===== src/Link/Typing/Delivered.antt =====
-- What is typed on the Mac, host/src/capture/keyboard.rs, and what the peer of
-- firmware/src/session.rs is shown.
use esp32_universal_control.Base.{ℕ, ◌≡◌, refl, ap, ◌∙◌, subst, sym, List, [], ◌∷◌, All}
use esp32_universal_control.Protocol.Input.{Held}
use esp32_universal_control.Protocol.Wire.{
  hello, select_peer, keyboard_state, consumer_state, touch_frame,
}
use esp32_universal_control.Firmware.Reports.{Notifier}
use esp32_universal_control.Firmware.Session.{Session}
use esp32_universal_control.Firmware.Session.Valid.{IsValid, Returns}
use esp32_universal_control.Firmware.Session.Stream.{
  Action, from_host, flush_at, handle_action, Returns-both,
}
use esp32_universal_control.Firmware.Session.Keys.{
  Shown, show_at, serve, Ends, Ends-bind, held_for, Shows,
}
use esp32_universal_control.Firmware.Session.Keys.Steps.{action-Shows}
use esp32_universal_control.Host.Slots.{SlotTable}
use esp32_universal_control.Host.Keyboard.{Event, EventFlags, CaptureState}
use esp32_universal_control.Host.Keyboard.Chord.{on_events}
use esp32_universal_control.Host.Keyboard.Telling.{
  held_by, tell_all, messages, forwarding_all, on_events-Tells,
}
use esp32_universal_control.Link.Typing.{typed, done, KeepsPeer, Holds}
use esp32_universal_control.Link.Typing.Steps.{action-Holds, held_for-active}

typed_first :
    (action : Action) (actions : List Action) (held : Held)
    → tell_all (typed actions) (tell_all (typed (action ∷ [])) held)
      ≡ tell_all (typed (action ∷ actions)) held
typed_first (flush_at now ble) actions held = refl
typed_first (from_host now (keyboard_state keys)) actions held = refl
typed_first (from_host now (consumer_state bits)) actions held = refl
typed_first (from_host now (hello version)) actions held = refl
typed_first (from_host now (select_peer slot)) actions held = refl
typed_first (from_host now (touch_frame frame)) actions held = refl

-- One action, and the peer at the connection.
told-Shows :
    (conn_handle : ℕ) (action : Action) (ble : Notifier) (held : Held) (s : Session) (shown : Shown)
    → KeepsPeer action
    → Holds conn_handle held s
    → Shows (held_for conn_handle s) shown
    → Returns (handle_action s action) (λ s' effects.
      Holds conn_handle (tell_all (typed (action ∷ [])) held) s'
      × (IsValid s' × Shows (held_for conn_handle s') (show_at ble conn_handle effects shown)))
told-Shows conn_handle action ble held s shown k h showing =
    Returns-both _ _ (handle_action s action) (action-Holds conn_handle action held s k h)
      (action-Shows ble conn_handle action s shown h.0 showing)

serve-Holds :
    (conn_handle : ℕ) (actions : List (Action × Notifier)) (held : Held) (s : Session)
    (shown : Shown)
    → All KeepsPeer (done actions)
    → Holds conn_handle held s
    → Shows (held_for conn_handle s) shown
    → Ends (serve conn_handle s shown actions) (λ s' shown'.
      let held' = tell_all (typed (done actions)) held in
      Holds conn_handle held' s' × Shows held' shown')
unfolding serve
serve-Holds conn_handle [] held s shown k h showing =
    (h, subst (λ k. Shows k shown) (held_for-active conn_handle held s h) showing)
serve-Holds conn_handle ((action, ble) ∷ actions) held s shown (k, ks) h showing =
    Ends-bind _ _ (handle_action s action) _
      (told-Shows conn_handle action ble held s shown k h showing)
      (λ s' effects (h', (v', showing')).
        let shown' = show_at ble conn_handle effects shown in
        subst
          (λ end.
            Ends (serve conn_handle s' shown' actions)
              (λ s'' shown''. Holds conn_handle end s'' × Shows end shown''))
          (typed_first action (done actions) held)
          (serve-Holds conn_handle actions (tell_all (typed (action ∷ [])) held) s' shown' ks h'
            showing'))

-- Typing while input is forwarded. The event tap runs over any events; the firmware handles the
-- keyboard's messages that it pushes, in order, in between any touch frames, hellos and flushes, and
-- none of the messages selects a peer. Each notification is sent or fails as it may. At first the
-- session is well-formed and holds the same keys, modifiers and consumer bits as the capture, and
-- the peer at its active connection is shown them. Then no handler panics, the session is
-- well-formed, the connection is still its active one, and the session holds what the capture holds
-- after the events; the peer's last keyboard report and last consumer bits are these too. What the
-- peer has of the keys, or of the consumer bits, is assumed and claimed only if the last
-- notification of that kind to it was sent.
pub typing-Holds :
    (flags : EventFlags) (events : List (SlotTable × Event)) (capture : CaptureState)
    (conn_handle : ℕ) (actions : List (Action × Notifier)) (s : Session) (shown : Shown)
    → All KeepsPeer (done actions)
    → typed (done actions) ≡ messages (on_events flags capture (forwarding_all events)).1
    → Holds conn_handle (held_by capture) s
    → Shows (held_by capture) shown
    → Ends (serve conn_handle s shown actions) (λ s' shown'.
      let held = held_by (on_events flags capture (forwarding_all events)).0 in
      Holds conn_handle held s' × Shows held shown')
typing-Holds flags events capture conn_handle actions s shown keeps pushes h showing =
    let held = held_by capture in
    subst
      (λ held.
        Ends (serve conn_handle s shown actions)
          (λ s' shown'. Holds conn_handle held s' × Shows held shown'))
      (ap (λ msgs. tell_all msgs held) pushes ∙ on_events-Tells flags events capture)
      (serve-Holds conn_handle actions held s shown keeps h
        (subst (λ k. Shows k shown) (sym (held_for-active conn_handle held s h)) showing))
