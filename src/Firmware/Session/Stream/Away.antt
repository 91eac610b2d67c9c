-- ===== src/Firmware/Session/Stream/Away.antt =====
-- The session of firmware/src/session.rs while a slot is not the active one.
use esp32_universal_control.Base.{
  ℕ, ◌≡◌, ◌≢◌, ap, ◌∙◌, Bool, Option, none, some, [], ◌∷◌, arith, refl, sym, subst, Bool-cases, inl,
  inr, ◌==◌, List, All, false,
}
use esp32_universal_control.Protocol.Wire.{
  protocol_version, hello, keyboard_state, consumer_state, touch_frame, select_peer,
}
use esp32_universal_control.Firmware.Session.{
  PeerSlot, Session, keyboard_report, consumer_report, touch_report, scan_time_from_us,
  active_conn_handle, handle_host_msg, Effect, to_host, flush_to, send_report, after_notify, greet,
  activate, deselect, handle_at,
}
use esp32_universal_control.Firmware.Session.Valid.{
  IsValid, Returns, flush_cases, switch_to_cases, active_conn_handle_total,
}
use esp32_universal_control.Firmware.Session.Snapshot.{snapshot_lem}
use esp32_universal_control.Firmware.Ble.{BleStack, has_connection}
use esp32_universal_control.Protocol.Ptp.Lifts.{encode-IsEncoder}
use esp32_universal_control.Firmware.Session.Routing.{
  RoutesTo, ReportsTo, handle_host_msg-RoutesTo, flush_touch_if_due-RoutesTo,
}
use esp32_universal_control.Firmware.Session.Stream.{
  Action, from_host, flush_at, handle_action, handle_actions, receive_at, receive_at-append,
  action-IsValid, Returns-both, Returns-bind,
}

-- The peers are the same, and the slot is not the active one.
abbrev pub IsAway : (old : ℕ) → Session → Session → Type 0
IsAway old s s' = (s'.peers ≡ s.peers) × (s'.active_slot ≢ some old)

-- The host does not select the slot.
abbrev pub IsApart : (old : ℕ) → Action → Type 0
IsApart old (flush_at now ble) = Unit {0}
IsApart old (from_host now (hello version)) = Unit {0}
IsApart old (from_host now (select_peer none)) = Unit {0}
IsApart old (from_host now (select_peer (some slot))) = old ≢ slot
IsApart old (from_host now (keyboard_state keys)) = Unit {0}
IsApart old (from_host now (consumer_state bits)) = Unit {0}
IsApart old (from_host now (touch_frame frame)) = Unit {0}

flush_to-IsAway :
    (ble : BleStack) (now old : ℕ) (s : Session) (conn_handle : ℕ)
    → IsValid s
    → s.active_slot ≢ some old
    → Returns (flush_to ble now s conn_handle) (λ s' _. IsAway old s s')
unfolding flush_to send_report after_notify
flush_to-IsAway ble now old s conn_handle v away =
    let (e', report, runs, _, _, _) =
      encode-IsEncoder s.touch s.latest_touch (scan_time_from_us now) v.encoder in
    elim (Bool-cases (has_connection ble conn_handle)) [
      | inl alive ↦ ground (arith, runs)
      | inr closed ↦ rw (closed, flush_to) (refl, away)
    ]

greet-IsAway :
    (version old : ℕ) (s : Session)
    → IsValid s
    → s.active_slot ≢ some old
    → Returns (greet s version) (λ s' _. IsAway old s s')
unfolding greet
greet-IsAway version old s v away = elim (Bool-cases (version == protocol_version)) [
  | inl same ↦ rw (same, greet, snapshot_lem s v.four) (refl, away)
  | inr other ↦ rw (other, greet) (refl, away)
]

activate-IsAway :
    (now old : ℕ) (s : Session) (slot : ℕ)
    → IsValid s
    → old ≢ slot
    → Returns (activate now s slot) (λ s' _. IsAway old s s')
unfolding activate
activate-IsAway now old s slot v other = ground (arith, active_conn_handle_total s v)

action-IsAway :
    (old : ℕ) (action : Action) (s : Session)
    → IsApart old action
    → IsValid s
    → s.active_slot ≢ some old
    → Returns (handle_action s action) (λ s' _. IsAway old s s')
unfolding handle_host_msg deselect
action-IsAway old (flush_at now ble) s i v away =
    flush_cases (λ o. Returns o (λ s' _. IsAway old s s')) ble now s v (refl, away)
      (λ conn_handle. flush_to-IsAway ble now old s conn_handle v away)
action-IsAway old (from_host now (hello version)) s i v away = greet-IsAway version old s v away
action-IsAway old (from_host now (select_peer none)) s i v away =
    ground (arith, active_conn_handle_total s v)
action-IsAway old (from_host now (select_peer (some slot))) s i v away =
    switch_to_cases (λ o. Returns o (λ s' _. IsAway old s s')) now s slot v (refl, away)
      (refl, away) (λ _. activate-IsAway now old s slot v i)
action-IsAway old (from_host now (keyboard_state keys)) s i v away =
    ground (arith, active_conn_handle_total s v)
action-IsAway old (from_host now (consumer_state bits)) s i v away =
    ground (arith, active_conn_handle_total s v)
action-IsAway old (from_host now (touch_frame frame)) s i v away =
    ground (arith, active_conn_handle_total s v)

-- Reports that go elsewhere do not reach the peer.
unseen :
    (conn_handle : ℕ) (active : Option ℕ) (effects : List Effect) (down : ℕ → Bool) (id : ℕ)
    → active ≢ some conn_handle
    → All (ReportsTo active) effects
    → receive_at conn_handle effects down id ≡ down id
unseen conn_handle active [] down id away sent = refl
unseen conn_handle active (to_host msg ∷ effects) down id away (_, sent) =
    unseen conn_handle active effects down id away sent
unseen conn_handle active (keyboard_report handle r ∷ effects) down id away (_, sent) =
    unseen conn_handle active effects down id away sent
unseen conn_handle active (consumer_report handle bits ∷ effects) down id away (_, sent) =
    unseen conn_handle active effects down id away sent
unseen conn_handle active (touch_report handle r ∷ effects) down id away (to, sent) =
    let other : (handle == conn_handle) ≡ false = ground arith in
    rw other (unseen conn_handle active effects down id away sent)

-- The slots in which no other one has the handle.
abbrev pub IsOnlyAt : (old conn_handle : ℕ) → List (Option PeerSlot) → Type 0
IsOnlyAt old conn_handle peers =
    (slot : ℕ) → handle_at peers (some slot) ≡ some (some conn_handle) → old ≡ slot

active_elsewhere :
    (old conn_handle : ℕ) (s : Session) (active : Option ℕ)
    → IsOnlyAt old conn_handle s.peers
    → s.active_slot ≢ some old
    → active_conn_handle s ≡ some active
    → active ≢ some conn_handle
active_elsewhere old conn_handle s active only away e = go s.active_slot refl
  where
    go : (slot : Option ℕ) → slot ≡ s.active_slot → active ≢ some conn_handle
    go none was same = ground arith
    go (some slot) was same =
        let found : handle_at s.peers (some slot) ≡ some (some conn_handle) =
          ap (handle_at s.peers) was ∙ e ∙ ap some same in
        away (sym was ∙ ap some (sym (only slot found)))

action-RoutesTo :
    (action : Action) (s : Session) (active : Option ℕ)
    → IsValid s
    → active_conn_handle s ≡ some active
    → RoutesTo active (handle_action s action)
action-RoutesTo (flush_at now ble) s active v e = flush_touch_if_due-RoutesTo ble now s active v e
action-RoutesTo (from_host now msg) s active v e = handle_host_msg-RoutesTo now s msg active v e

-- What the peer in a slot that is not selected has of the fingers does not change.
pub away_keeps :
    (old conn_handle : ℕ) (actions : List Action) (s : Session) (down : ℕ → Bool)
    → All (IsApart old) actions
    → IsValid s
    → IsOnlyAt old conn_handle s.peers
    → s.active_slot ≢ some old
    → Returns
        (handle_actions s actions)
        (λ s' effects. (id : ℕ) → receive_at conn_handle effects down id ≡ down id)
unfolding handle_actions
away_keeps old conn_handle [] s down apart v only away = λ id. refl
away_keeps old conn_handle (action ∷ actions) s down (first, apart) v only away =
    let (active, e) = active_conn_handle_total s v in
    let elsewhere = active_elsewhere old conn_handle s active only away e in
    Returns-bind _ _ (handle_action s action) _
      (Returns-both _ _ (handle_action s action) (action-IsValid action s v) (
        Returns-both _ _ (handle_action s action) (action-IsAway old action s first v away)
          (action-RoutesTo action s active v e)))
      (λ s₁ sent (v₁, ((peers, away₁), routed)).
        Returns-bind _ _ (handle_actions s₁ actions) _
          (away_keeps old conn_handle actions s₁ (receive_at conn_handle sent down) apart v₁
            (subst (IsOnlyAt old conn_handle) (sym peers) only) away₁)
          (λ s₂ later kept id.
            ap (λ f. f id) (receive_at-append conn_handle sent later down)
            ∙ kept id
            ∙ unseen conn_handle active sent down id elsewhere routed))
