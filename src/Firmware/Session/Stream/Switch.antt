-- ===== src/Firmware/Session/Stream/Switch.antt =====
-- What becomes of the fingers at the old peer when `switch_peer` of firmware/src/session.rs selects
-- another.
use esp32_universal_control.Base.{
  ℕ, ◌≡◌, ◌≢◌, ◌<◌, ap, ◌∙◌, Bool, Option, none, some, [], ◌∷◌, get_elem?, arith, sym, subst, List,
  All,
}
use esp32_universal_control.Protocol.Keyboard.{default_keyboard_report}
use esp32_universal_control.Protocol.Wire.{FirmwareMsg, select_peer, active_peer_changed, max_peers}
use esp32_universal_control.Protocol.Ptp.{default_report}
use esp32_universal_control.Firmware.Session.{
  PeerSlot, Session, keyboard_report, consumer_report, touch_report, if_ready, scan_time_from_us,
  active_conn_handle, handle_host_msg,
}
use esp32_universal_control.Firmware.Session.Valid.{IsValid, Returns, handle_host_msg-IsValid}
use esp32_universal_control.Firmware.Session.Stream.Away.{IsAway, IsApart, IsOnlyAt, away_keeps}
use esp32_universal_control.Firmware.Session.Routing.{switch_releases}
use esp32_universal_control.Firmware.Session.Stream.{
  Action, from_host, handle_actions, receive_at, receive_at-append, Returns-weaken, Returns-both,
  Returns-bind,
}

-- A report whose contact count is 0 says nothing of any finger.
cleared_lem :
    (now conn_handle : ℕ) (s : Session) (msg : FirmwareMsg) (down : ℕ → Bool) (id : ℕ)
    → receive_at conn_handle
        (keyboard_report conn_handle default_keyboard_report
          ∷ consumer_report conn_handle 0
          ∷ touch_report conn_handle (record default_report { scan_time = scan_time_from_us now })
          ∷ if_ready s (msg ∷ []))
        down
        id
      ≡ down id
cleared_lem now conn_handle s msg down id = ground arith

-- The Mac, or a slot other than the active one that holds a peer.
abbrev pub IsElsewhere : Session → (old : ℕ) → Option ℕ → Type 0
IsElsewhere s old none = Unit {0}
IsElsewhere s old (some new) =
    (old ≢ new)
    × (new < max_peers)
    × ((peer : PeerSlot) × (get_elem? s.peers new ≡ some (some peer)))

-- Back to the Mac, the old peer gets the same reports as when another peer is selected.
deselect_releases :
    (now conn_handle : ℕ) (s : Session)
    → active_conn_handle s ≡ some (some conn_handle)
    → Returns (handle_host_msg now s (select_peer none)) (λ s' effects.
      (effects
        ≡ keyboard_report conn_handle default_keyboard_report
          ∷ consumer_report conn_handle 0
          ∷ touch_report conn_handle (record default_report { scan_time = scan_time_from_us now })
          ∷ if_ready s (active_peer_changed none ∷ []))
      × (s'.active_slot ≡ none)
      × (s'.peers ≡ s.peers))
unfolding handle_host_msg
deselect_releases now conn_handle s active = ground arith

-- The first step, away from the old peer.
leaves :
    (now old conn_handle : ℕ) (target : Option ℕ) (s : Session) (down : ℕ → Bool)
    → s.active_slot ≡ some old
    → active_conn_handle s ≡ some (some conn_handle)
    → IsElsewhere s old target
    → Returns (handle_host_msg now s (select_peer target)) (λ s' effects.
      IsAway old s s' × ((id : ℕ) → receive_at conn_handle effects down id ≡ down id))
leaves now old conn_handle none s down was active elsewhere =
    Returns-weaken _ _ (handle_host_msg now s (select_peer none))
      (deselect_releases now conn_handle s active)
      (λ s' effects (sent, slot, peers). (
        (peers, λ same. absurd (cc)),
        λ id.
            ap (λ es. receive_at conn_handle es down id) sent
            ∙ cleared_lem now conn_handle s (active_peer_changed none) down id,
      ))
leaves now old conn_handle (some new) s down was active (other, small, (peer, there)) =
    Returns-weaken _ _ (handle_host_msg now s (select_peer (some new)))
      (switch_releases now s old new conn_handle peer was active other small there)
      (λ s' effects (sent, slot, peers, idle). (
        (peers, λ same. ground arith),
        λ id.
            ap (λ es. receive_at conn_handle es down id) sent
            ∙ cleared_lem now conn_handle s (active_peer_changed (some new)) down id,
      ))

-- Leaving a peer lifts no finger there, for as long as it is not selected again. The session is
-- well-formed and has an active slot, whose handle is in no other slot. The host selects the Mac or another slot that
-- holds a peer, and then sends any messages, with flushes in between, none of which selects the old
-- slot. No handler panics, and by a receiver that takes the contacts of a report up to its contact
-- count, the old peer holds exactly the fingers to be down at the end that it did before: the report
-- that it gets when it is left has a contact count of 0.
pub switch_keeps_fingers :
    (now old conn_handle : ℕ) (target : Option ℕ) (actions : List Action) (s : Session)
    (down : ℕ → Bool)
    → IsValid s
    → s.active_slot ≡ some old
    → active_conn_handle s ≡ some (some conn_handle)
    → IsOnlyAt old conn_handle s.peers
    → IsElsewhere s old target
    → All (IsApart old) actions
    → Returns
        (handle_actions s (from_host now (select_peer target) ∷ actions))
        (λ s' effects. (id : ℕ) → receive_at conn_handle effects down id ≡ down id)
unfolding handle_actions
switch_keeps_fingers now old conn_handle target actions s down v was active only elsewhere apart =
    let first = handle_host_msg now s (select_peer target) in
    Returns-bind _ _ first _
      (Returns-both _ _ first (handle_host_msg-IsValid now s (select_peer target) v)
        (leaves now old conn_handle target s down was active elsewhere))
      (λ s₁ sent (v₁, ((peers, away), same)).
        Returns-bind _ _ (handle_actions s₁ actions) _
          (away_keeps old conn_handle actions s₁ (receive_at conn_handle sent down) apart v₁
            (subst (IsOnlyAt old conn_handle) (sym peers) only) away)
          (λ s₂ later kept id.
            ap (λ f. f id) (receive_at-append conn_handle sent later down) ∙ kept id ∙ same id))
