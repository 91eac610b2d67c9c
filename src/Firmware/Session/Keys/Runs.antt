-- ===== src/Firmware/Session/Keys/Runs.antt =====
-- What a peer is shown of the keys over any run of the handlers of firmware/src/session.rs.
use esp32_universal_control.Base.{ℕ, List, [], ◌∷◌}
use esp32_universal_control.Firmware.Reports.{Notifier}
use esp32_universal_control.Firmware.Session.{Session}
use esp32_universal_control.Firmware.Session.Valid.{IsValid}
use esp32_universal_control.Firmware.Session.Stream.{Action, handle_action}
use esp32_universal_control.Firmware.Session.Keys.{
  Shown, show_at, serve, Ends, Ends-bind, held_for, Shows,
}
use esp32_universal_control.Firmware.Session.Keys.Steps.{action-Shows}

-- The session handles any host messages, refused and accepted selections of peers included, with
-- touch flushes in between, and each notification of keys or consumer bits is sent or fails as it may.
-- The session is well-formed at first, and a peer is shown what is held for it: the keyboard and the
-- consumer bits of the session while the peer is the active one, no key and no bit while it is not. Then no
-- handler panics, the session is well-formed at the end, and the peer is shown what is then held for
-- it. What it is shown of the keys, or of the bits, is claimed both times only if the last
-- notification of that kind to it was sent.
pub serve-Shows :
    (conn_handle : ℕ) (actions : List (Action × Notifier)) (s : Session) (shown : Shown)
    → IsValid s
    → Shows (held_for conn_handle s) shown
    → Ends
        (serve conn_handle s shown actions)
        (λ s' shown'. IsValid s' × Shows (held_for conn_handle s') shown')
unfolding serve
serve-Shows conn_handle [] s shown v h = (v, h)
serve-Shows conn_handle ((action, ble) ∷ actions) s shown v h =
    Ends-bind _ _ (handle_action s action) _ (action-Shows ble conn_handle action s shown v h)
      (λ s' effects (v', h').
        serve-Shows conn_handle actions s' (show_at ble conn_handle effects shown) v' h')
