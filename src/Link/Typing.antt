-- ===== src/Link/Typing.antt =====
-- From the Mac's keyboard to the peer's: the event tap of host/src/capture/keyboard.rs, and the
-- session of firmware/src/session.rs, which turns its messages into reports.
pub mod Steps
pub mod Delivered
mod Tests
use esp32_universal_control.Base.{ℕ, ◌≡◌, Option, none, some, List, [], ◌∷◌, map}
use esp32_universal_control.Protocol.Input.{Held}
use esp32_universal_control.Protocol.Wire.{
  HostMsg, hello, select_peer, keyboard_state, consumer_state, touch_frame,
}
use esp32_universal_control.Firmware.Reports.{Notifier}
use esp32_universal_control.Firmware.Session.{Session, active_conn_handle}
use esp32_universal_control.Firmware.Session.Valid.{IsValid}
use esp32_universal_control.Firmware.Session.Stream.{Action, from_host, flush_at}
use esp32_universal_control.Firmware.Session.Keys.{held_in}

-- What the firmware does, without NimBLE's answers.
abbrev pub done : List (Action × Notifier) → List Action
done actions = map (λ a. a.0) actions

-- The messages of the keyboard among what the firmware does, in order.
abbrev pub typed : List Action → List HostMsg
typed [] = []
typed (flush_at now ble ∷ actions) = typed actions
typed (from_host now (keyboard_state keys) ∷ actions) = keyboard_state keys ∷ typed actions
typed (from_host now (consumer_state bits) ∷ actions) = consumer_state bits ∷ typed actions
typed (from_host now (hello version) ∷ actions) = typed actions
typed (from_host now (select_peer slot) ∷ actions) = typed actions
typed (from_host now (touch_frame frame) ∷ actions) = typed actions

-- No peer is selected.
abbrev pub KeepsPeer : Action → Type 0
KeepsPeer (flush_at now ble) = Unit {0}
KeepsPeer (from_host now (hello version)) = Unit {0}
KeepsPeer (from_host now (select_peer slot)) = ⊥
KeepsPeer (from_host now (keyboard_state keys)) = Unit {0}
KeepsPeer (from_host now (consumer_state bits)) = Unit {0}
KeepsPeer (from_host now (touch_frame frame)) = Unit {0}

-- The session is well-formed, the connection is its active one, and it holds this.
abbrev pub Holds : ℕ → Held → Session → Type 0
Holds conn_handle held s =
    IsValid s × (active_conn_handle s ≡ some (some conn_handle)) × (held_in s ≡ held)
