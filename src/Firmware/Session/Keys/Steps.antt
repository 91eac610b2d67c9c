-- ===== src/Firmware/Session/Keys/Steps.antt =====
-- One handler of firmware/src/session.rs, and what the peer at a handle is shown of the keys.
use esp32_universal_control.Firmware.Session.Keys.Quiet.{
  Quiet, show-if_ready, refuse_slot-Quiet, flush-Quiet, greet-Quiet,
}
use esp32_universal_control.Base.{
  ℕ, ◌≡◌, refl, subst, sym, Bool, true, false, Option, none, some, List, [], ◌∷◌, ◌++◌, ◌==◌,
}
use esp32_universal_control.Protocol.Input.{KeyboardSnapshot, Held, nothing_held}
use esp32_universal_control.Protocol.Keyboard.{
  KeyboardReport, from_snapshot, default_keyboard_report,
}
use esp32_universal_control.Protocol.Wire.{
  FirmwareMsg, HostMsg, hello, select_peer, keyboard_state, consumer_state, touch_frame,
  active_peer_changed,
}
use esp32_universal_control.Firmware.Reports.{Notifier, send_keyboard_to, send_consumer_to}
use esp32_universal_control.Firmware.Session.{
  Outcome, Session, Effect, keyboard_report, consumer_report, active_conn_handle, handle_host_msg,
  greet, deselect, activate, refuse_slot, flush_touch_if_due, if_ready, clear_active,
}
use esp32_universal_control.Firmware.Session.Valid.{
  IsValid, Returns, switch_to_cases, active_conn_handle_total,
}
use esp32_universal_control.Firmware.Session.Routing.{IsInput}
use esp32_universal_control.Firmware.Session.Stream.{
  Action, from_host, flush_at, handle_action, action-IsValid, Returns-weaken, Returns-both,
}
use esp32_universal_control.Firmware.Session.Keys.{
  Shown, show_keys, show_bits, show_at, held_in, held_if, held_for, Shows,
}

-- A report that is sent, and one that is not.
show_keys-Shows :
    (keys : KeyboardReport) (answer : Option ℕ) (held : Held) (shown : Shown)
    → keys ≡ from_snapshot held.0
    → (shown.bits_sent ≡ true → shown.bits ≡ held.1)
    → Shows held (show_keys keys answer shown)
show_keys-Shows keys none held shown e b = (λ _. e, b)
show_keys-Shows keys (some error) held shown e b = (λ f. absurd (cc), b)

show_bits-Shows :
    (bits : ℕ) (answer : Option ℕ) (held : Held) (shown : Shown)
    → bits ≡ held.1
    → (shown.keys_sent ≡ true → shown.keys ≡ from_snapshot held.0)
    → Shows held (show_bits bits answer shown)
show_bits-Shows bits none held shown e k = (k, λ _. e)
show_bits-Shows bits (some error) held shown e k = (k, λ f. absurd (cc))

show_keys_sent :
    (keys : KeyboardReport) (answer : Option ℕ) (shown : Shown)
    → (show_keys keys answer shown).keys_sent ≡ true
    → (show_keys keys answer shown).keys ≡ keys
show_keys_sent keys none shown sent = refl
show_keys_sent keys (some error) shown sent = absurd (cc)

-- The reports of `clear_outputs_for`, at the peer that they go to and at any other.
cleared_by :
    (ble : Notifier) (handle : ℕ) (own : Bool) (held : Held) (shown : Shown)
    → Shows (elim own [ true ↦ held | false ↦ nothing_held ]) shown
    → let shown' : Shown = elim own [
      | true ↦
          show_keys default_keyboard_report
            (send_keyboard_to ble handle default_keyboard_report)
            shown
      | false ↦ shown
    ] in
      Shows nothing_held
        (elim own [ true ↦ show_bits 0 (send_consumer_to ble handle 0) shown' | false ↦ shown' ])
cleared_by ble handle false held shown h = h
cleared_by ble handle true held shown h =
    let answer = send_keyboard_to ble handle default_keyboard_report in
    show_bits-Shows 0 (send_consumer_to ble handle 0) nothing_held
      (show_keys default_keyboard_report answer shown) refl
      (show_keys_sent default_keyboard_report answer shown)

-- After the reports of `clear_outputs_for` the peer holds nothing, if it held at most what was held
-- for it.
cleared-Shows :
    (ble : Notifier) (conn_handle now : ℕ) (s s' : Session) (active : Option ℕ) (held : Held)
    (shown : Shown) (msg : FirmwareMsg)
    → Shows (held_if (some active) conn_handle held) shown
    → Shows nothing_held
        (show_at ble conn_handle ((clear_active now s active).1 ++ if_ready s' (msg ∷ [])) shown)
cleared-Shows ble conn_handle now s s' none held shown msg h =
    subst (Shows nothing_held) (sym (show-if_ready ble conn_handle s' (msg ∷ []) shown)) h
cleared-Shows ble conn_handle now s s' (some handle) held shown msg h =
    subst (Shows nothing_held) (sym (show-if_ready ble conn_handle s' (msg ∷ []) _))
      (cleared_by ble handle (handle == conn_handle) held shown h)

held_if-nothing :
    (active : Option (Option ℕ)) (conn_handle : ℕ)
    → held_if active conn_handle nothing_held ≡ nothing_held
held_if-nothing none conn_handle = refl
held_if-nothing (some none) conn_handle = refl
held_if-nothing (some (some handle)) conn_handle = either (handle == conn_handle)
  where
    either : (own : Bool) → elim own [ true ↦ nothing_held | false ↦ nothing_held ] ≡ nothing_held
    either false = refl
    either true = refl

Quiet-Shows :
    (ble : Notifier) (conn_handle : ℕ) (s s' : Session) (effects : List Effect) (shown : Shown)
    → Quiet s s' effects
    → Shows (held_for conn_handle s) shown
    → Shows (held_for conn_handle s') (show_at ble conn_handle effects shown)
Quiet-Shows ble conn_handle s s' effects shown (kept, keys, unseen) h =
    subst (Shows (held_for conn_handle s')) (sym (unseen ble conn_handle shown)) (
      subst (λ a. Shows (held_if a conn_handle (held_in s')) shown) (sym kept)
        (subst (λ k. Shows (held_if (active_conn_handle s) conn_handle k) shown) (sym keys) h))

-- What the handlers promise of the peer at a handle.
abbrev Keeps : Notifier → ℕ → Session → Shown → Outcome → Type 0
Keeps ble conn_handle s shown o =
    Shows (held_for conn_handle s) shown
    → Returns o
        (λ s' effects. Shows (held_for conn_handle s') (show_at ble conn_handle effects shown))

Quiet-Keeps :
    (ble : Notifier) (conn_handle : ℕ) (s : Session) (shown : Shown) (o : Outcome)
    → Returns o (Quiet s)
    → Keeps ble conn_handle s shown o
Quiet-Keeps ble conn_handle s shown o q h =
    Returns-weaken (Quiet s) _ o q
      (λ s' effects quiet. Quiet-Shows ble conn_handle s s' effects shown quiet h)

deselect-Keeps :
    (ble : Notifier) (conn_handle now : ℕ) (s : Session) (shown : Shown) (active : Option ℕ)
    → active_conn_handle s ≡ some active
    → Keeps ble conn_handle s shown (deselect now s)
unfolding deselect
deselect-Keeps ble conn_handle now s shown active e h =
    let before = subst (λ a. Shows (held_if a conn_handle (held_in s)) shown) e h in
    rw e (
      cleared-Shows ble conn_handle now s s active (held_in s) shown (active_peer_changed none)
        before)

activate-Keeps :
    (ble : Notifier) (conn_handle now : ℕ) (s : Session) (slot : ℕ) (shown : Shown)
    (active : Option ℕ)
    → active_conn_handle s ≡ some active
    → Keeps ble conn_handle s shown (activate now s slot)
unfolding activate
activate-Keeps ble conn_handle now s slot shown active e h =
    let before = subst (λ a. Shows (held_if a conn_handle (held_in s)) shown) e h in
    let sent = (clear_active now s active).1 ++ if_ready s (active_peer_changed (some slot) ∷ []) in
    rw e (
      subst (λ held. Shows held (show_at ble conn_handle sent shown))
        (sym (held_if-nothing _ conn_handle))
        (cleared-Shows ble conn_handle now s s active (held_in s) shown
          (active_peer_changed (some slot)) before))

-- A report at the peer that it goes to and at any other.
typed_by :
    (ble : Notifier) (handle : ℕ) (own : Bool) (keys : KeyboardSnapshot) (held : Held)
    (shown : Shown)
    → Shows (elim own [ true ↦ held | false ↦ nothing_held ]) shown
    → Shows
        (elim own [ true ↦ (keys, held.1) | false ↦ nothing_held ])
        (elim own [
          | true ↦
              show_keys
                (from_snapshot keys)
                (send_keyboard_to ble handle (from_snapshot keys))
                shown
          | false ↦ shown
        ])
typed_by ble handle false keys held shown h = h
typed_by ble handle true keys held shown h =
    show_keys-Shows (from_snapshot keys) (send_keyboard_to ble handle (from_snapshot keys))
      (keys, held.1) shown refl h.1

pressed_by :
    (ble : Notifier) (handle : ℕ) (own : Bool) (bits : ℕ) (held : Held) (shown : Shown)
    → Shows (elim own [ true ↦ held | false ↦ nothing_held ]) shown
    → Shows
        (elim own [ true ↦ (held.0, bits) | false ↦ nothing_held ])
        (elim own [
          | true ↦ show_bits bits (send_consumer_to ble handle bits) shown
          | false ↦ shown
        ])
pressed_by ble handle false bits held shown h = h
pressed_by ble handle true bits held shown h =
    show_bits-Shows bits (send_consumer_to ble handle bits) (held.0, bits) shown refl h.0

input-Keeps :
    (ble : Notifier) (conn_handle now : ℕ) (s : Session) (shown : Shown) (msg : HostMsg)
    (active : Option ℕ)
    → active_conn_handle s ≡ some active
    → IsInput msg
    → Keeps ble conn_handle s shown (handle_host_msg now s msg)
unfolding handle_host_msg
input-Keeps ble conn_handle now s shown (hello version) active e i h = absurd i
input-Keeps ble conn_handle now s shown (select_peer slot) active e i h = absurd i
input-Keeps ble conn_handle now s shown (keyboard_state keys) none e i h = rw e h
input-Keeps ble conn_handle now s shown (keyboard_state keys) (some handle) e i h =
    let before = subst (λ a. Shows (held_if a conn_handle (held_in s)) shown) e h in
    let after = show_at ble conn_handle (keyboard_report handle (from_snapshot keys) ∷ []) shown in
    rw e (
      subst (λ a. Shows (held_if a conn_handle (keys, s.consumer)) after) (sym e)
        (typed_by ble handle (handle == conn_handle) keys (held_in s) shown before))
input-Keeps ble conn_handle now s shown (consumer_state bits) none e i h = rw e h
input-Keeps ble conn_handle now s shown (consumer_state bits) (some handle) e i h =
    let before = subst (λ a. Shows (held_if a conn_handle (held_in s)) shown) e h in
    let after = show_at ble conn_handle (consumer_report handle bits ∷ []) shown in
    rw e (
      subst (λ a. Shows (held_if a conn_handle (s.keyboard, bits)) after) (sym e)
        (pressed_by ble handle (handle == conn_handle) bits (held_in s) shown before))
input-Keeps ble conn_handle now s shown (touch_frame frame) none e i h = rw e h
input-Keeps ble conn_handle now s shown (touch_frame frame) (some handle) e i h = rw e h

handler-Keeps :
    (ble : Notifier) (conn_handle : ℕ) (action : Action) (s : Session) (shown : Shown)
    → IsValid s
    → Keeps ble conn_handle s shown (handle_action s action)
unfolding handle_host_msg
handler-Keeps ble conn_handle (flush_at now stack) s shown v =
    Quiet-Keeps ble conn_handle s shown (flush_touch_if_due stack now s) (flush-Quiet stack now s v)
handler-Keeps ble conn_handle (from_host now (hello version)) s shown v =
    Quiet-Keeps ble conn_handle s shown (greet s version) (greet-Quiet s version v)
handler-Keeps ble conn_handle (from_host now (select_peer none)) s shown v =
    let (active, e) = active_conn_handle_total s v in
    deselect-Keeps ble conn_handle now s shown active e
handler-Keeps ble conn_handle (from_host now (select_peer (some slot))) s shown v =
    let (active, e) = active_conn_handle_total s v in
    switch_to_cases (Keeps ble conn_handle s shown) now s slot v
      (Quiet-Keeps ble conn_handle s shown (refuse_slot s slot) (refuse_slot-Quiet s slot)) (λ h. h)
      (λ _. activate-Keeps ble conn_handle now s slot shown active e)
handler-Keeps ble conn_handle (from_host now (keyboard_state keys)) s shown v =
    let (active, e) = active_conn_handle_total s v in
    input-Keeps ble conn_handle now s shown (keyboard_state keys) active e tt
handler-Keeps ble conn_handle (from_host now (consumer_state bits)) s shown v =
    let (active, e) = active_conn_handle_total s v in
    input-Keeps ble conn_handle now s shown (consumer_state bits) active e tt
handler-Keeps ble conn_handle (from_host now (touch_frame frame)) s shown v =
    let (active, e) = active_conn_handle_total s v in
    input-Keeps ble conn_handle now s shown (touch_frame frame) active e tt

-- A handler keeps the session well-formed, and the peer at a handle is shown what is held for it.
pub action-Shows :
    (ble : Notifier) (conn_handle : ℕ) (action : Action) (s : Session) (shown : Shown)
    → IsValid s
    → Shows (held_for conn_handle s) shown
    → Returns (handle_action s action) (λ s' effects.
      IsValid s' × Shows (held_for conn_handle s') (show_at ble conn_handle effects shown))
action-Shows ble conn_handle action s shown v h =
    Returns-both _ _ (handle_action s action) (action-IsValid action s v)
      (handler-Keeps ble conn_handle action s shown v h)
