-- ===== src/Firmware/Session/Keys.antt =====
-- What the peers are shown of the keys, over the reports of firmware/src/session.rs and what becomes of
-- them in firmware/src/ble_hid.rs.
pub mod Quiet
pub mod Steps
pub mod Runs
mod Tests
use esp32_universal_control.Base.{
  ℕ, ◌≡◌, Bool, true, false, Option, none, some, List, [], ◌∷◌, ◌==◌, ◌>>=◌,
}
use esp32_universal_control.Protocol.Input.{Held, nothing_held}
use esp32_universal_control.Protocol.Keyboard.{KeyboardReport, from_snapshot}
use esp32_universal_control.Firmware.Reports.{Notifier, send_keyboard_to, send_consumer_to}
use esp32_universal_control.Firmware.Session.{
  Session, Outcome, Effect, to_host, keyboard_report, consumer_report, touch_report,
  active_conn_handle,
}
use esp32_universal_control.Firmware.Session.Valid.{Returns}
use esp32_universal_control.Firmware.Session.Stream.{Action, handle_action}

-- The last keyboard report and the last consumer bits that a peer has got, and whether the last
-- notification of each kind to it was sent.
pub record Shown : Type 0 where
  pub keys : KeyboardReport
  pub keys_sent : Bool
  pub bits : ℕ
  pub bits_sent : Bool

abbrev pub show_keys : KeyboardReport → Option ℕ → Shown → Shown
show_keys report none shown = record shown { keys = report; keys_sent = true }
show_keys report (some error) shown = record shown { keys_sent = false }

abbrev pub show_bits : ℕ → Option ℕ → Shown → Shown
show_bits bits none shown = record shown { bits = bits; bits_sent = true }
show_bits bits (some error) shown = record shown { bits_sent = false }

-- What the peer at a handle is shown after some effects, by NimBLE's answers.
abbrev pub show_at : Notifier → (conn_handle : ℕ) → List Effect → Shown → Shown
show_at ble conn_handle [] shown = shown
show_at ble conn_handle (to_host msg ∷ effects) shown = show_at ble conn_handle effects shown
show_at ble conn_handle (touch_report handle r ∷ effects) shown =
    show_at ble conn_handle effects shown
show_at ble conn_handle (keyboard_report handle r ∷ effects) shown =
    show_at ble conn_handle effects (elim (handle == conn_handle) [
      | true ↦ show_keys r (send_keyboard_to ble handle r) shown
      | false ↦ shown
    ])
show_at ble conn_handle (consumer_report handle bits ∷ effects) shown =
    show_at ble conn_handle effects (elim (handle == conn_handle) [
      | true ↦ show_bits bits (send_consumer_to ble handle bits) shown
      | false ↦ shown
    ])

-- The session and the peer at a handle over some actions, each with NimBLE's answers at its time.
unfoldable pub serve :
    (conn_handle : ℕ) → Session → Shown → List (Action × Notifier) → Option (Session × Shown)
serve conn_handle s shown [] = some (s, shown)
serve conn_handle s shown ((action, ble) ∷ actions) = handle_action s action >>= λ r.
    serve conn_handle r.0 (show_at ble conn_handle r.1 shown) actions

-- No handler panics, and the end is so.
abbrev pub Ends : Option (Session × Shown) → (Session → Shown → Type 0) → Type 0
Ends none P = ⊥
Ends (some (s, shown)) P = P s shown

abbrev pub held_in : Session → Held
held_in s = (s.keyboard, s.consumer)

-- Only the active connection holds anything.
abbrev pub held_if : (active : Option (Option ℕ)) → (conn_handle : ℕ) → Held → Held
held_if none conn_handle held = nothing_held
held_if (some none) conn_handle held = nothing_held
held_if (some (some handle)) conn_handle held = elim (handle == conn_handle) [
  | true ↦ held
  | false ↦ nothing_held
]

-- What the session holds for the connection with a handle.
abbrev pub held_for : (conn_handle : ℕ) → Session → Held
held_for conn_handle s = held_if (active_conn_handle s) conn_handle (held_in s)

-- Where the last notification of a kind was sent, the peer is shown what is held.
abbrev pub Shows : Held → Shown → Type 0
Shows held shown =
    (shown.keys_sent ≡ true → shown.keys ≡ from_snapshot held.0)
    × (shown.bits_sent ≡ true → shown.bits ≡ held.1)

pub Ends-bind :
    (P : Session → List Effect → Type 0) (Q : Session → Shown → Type 0) (o : Outcome)
    (k : Session × List Effect → Option (Session × Shown))
    → Returns o P
    → ((s : Session) (effects : List Effect) → P s effects → Ends (k (s, effects)) Q)
    → Ends (o >>= k) Q
Ends-bind P Q none k p f = absurd p
Ends-bind P Q (some (s, effects)) k p f = f s effects p
