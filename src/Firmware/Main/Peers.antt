-- ===== src/Firmware/Main/Peers.antt =====
-- The slots of the session against the open connections of NimBLE, by the callbacks of
-- firmware/src/ble_hid.rs.
use esp32_universal_control.Base.{
  ℕ, suc, ◌<◌, ◌≡◌, refl, sym, ap, subst, ◌∙◌, none, some, inl, inr, List, [], ◌∷◌, ◌++◌, set,
  somes, length, length-set, set_elem?-lt, position-lt, is_number, u8, ltb, ◌==◌, if◌then◌else◌,
  Bool-cases, Option-cases, arith,
}
use esp32_universal_control.Protocol.Wire.{Address, max_peers}
use esp32_universal_control.Firmware.Ble.{
  connected, disconnected, led_changed, Callback, opened, closed, written, on_callback, events_of,
  channel,
}
use esp32_universal_control.Firmware.Session.{
  PeerSlot, Session, Outcome, is_free, has_handle, slot_for_conn_handle, connect_at, disconnect_at,
  handle_ble_event,
}
use esp32_universal_control.Firmware.Session.Valid.{Returns}
use esp32_universal_control.Firmware.Session.Peers.{
  address_in, IsOnce, free_slot, address_in-put, put-IsOnce, length-put, not_in, is_in,
  address_in-clear, clear-IsOnce, length-clear,
}
use esp32_universal_control.Firmware.Main.{drain_events, then, sending}
use esp32_universal_control.Firmware.Main.Connections.{
  address_of, without, open_after, open_after_all, AllCanHappen, AreOnce, address_of-without,
  length-without_absent, length-without, without-AreOnce, without_absent,
}

-- The slots hold exactly the open connections, each once.
pub record IsMirror (s : Session) (conns : List PeerSlot) : Type 0 where
  pub four : length s.peers ≡ max_peers
  pub once : IsOnce s.peers
  pub same : (handle : ℕ) → address_in s.peers handle ≡ address_of conns handle
  pub as_many : length (somes s.peers) ≡ length conns
  pub are_once : AreOnce conns

connected-IsMirror :
    (s : Session) (conns : List PeerSlot) (conn_handle : ℕ) (addr : Address)
    → address_of conns conn_handle ≡ none
    → length conns < max_peers
    → IsMirror s conns
    → Returns
        (handle_ble_event s (connected conn_handle addr))
        (λ s' _. IsMirror s' (record { conn_handle = conn_handle; addr = addr } ∷ conns))
unfolding handle_ble_event connect_at
connected-IsMirror s conns conn_handle addr fresh room m =
    let peer : PeerSlot = record { conn_handle = conn_handle; addr = addr } in
    let (slot, e) = free_slot s.peers (omega (arith, m.four, m.as_many)) in
    let lt = position-lt is_free s.peers slot e in
    let absent = m.same conn_handle ∙ fresh in
    rw (handle_ble_event, e, connect_at, set_elem?-lt s.peers slot (some peer) lt)
      (record {
        four = length-set s.peers slot (some peer) ∙ m.four;
        once = put-IsOnce s.peers slot peer e absent m.once;
        same = λ handle.
            address_in-put s.peers slot peer handle e absent
            ∙ ap (λ o. if conn_handle == handle then some addr else o) (m.same handle);
        as_many = length-put s.peers slot peer e ∙ ap suc m.as_many;
        are_once = (fresh, m.are_once);
      })

-- A slot that is cleared, where the rest of the session does not matter.
cleared-IsMirror :
    (s s' : Session) (conns : List PeerSlot) (conn_handle slot : ℕ)
    → IsMirror s conns
    → slot_for_conn_handle s conn_handle ≡ some slot
    → s'.peers ≡ set s.peers slot none
    → IsMirror s' (without conn_handle conns)
cleared-IsMirror s s' conns conn_handle slot m e c =
    let (addr, there) = is_in s.peers conn_handle slot e in
    let known = sym (m.same conn_handle) ∙ there in
    let fewer = length-clear s.peers slot conn_handle e in
    let fewer' = length-without conns conn_handle addr m.are_once known in
    record {
      four = ap length c ∙ length-set s.peers slot none ∙ m.four;
      once = rw c (clear-IsOnce s.peers slot conn_handle e m.once);
      same = λ handle.
          rw (c, address_in-clear s.peers slot conn_handle handle e m.once, m.same handle)
            (sym (address_of-without conns conn_handle handle));
      as_many = rw c (omega (arith, m.as_many));
      are_once = without-AreOnce conns conn_handle m.are_once;
    }

disconnected-IsMirror :
    (s : Session) (conns : List PeerSlot) (conn_handle : ℕ)
    → IsMirror s conns
    → Returns
        (handle_ble_event s (disconnected conn_handle))
        (λ s' _. IsMirror s' (without conn_handle conns))
unfolding handle_ble_event disconnect_at
disconnected-IsMirror s conns conn_handle m =
    elim (Option-cases (slot_for_conn_handle s conn_handle)) [
      | inl e ↦
          let absent = sym (m.same conn_handle) ∙ not_in s.peers conn_handle e in
          rw (handle_ble_event, e, disconnect_at)
            (record {
              four = m.four;
              once = m.once;
              same = λ handle. m.same handle ∙ sym (without_absent conns conn_handle handle absent);
              as_many = m.as_many ∙ sym (length-without_absent conns conn_handle absent);
              are_once = without-AreOnce conns conn_handle m.are_once;
            })
      | inr (slot, e) ↦
          let lt = position-lt (has_handle conn_handle) s.peers slot e in
          rw (handle_ble_event, e, disconnect_at, set_elem?-lt s.peers slot none lt)
            (elim (Bool-cases (is_number s.active_slot (u8 slot))) [
              | inl was_active ↦
                  rw was_active (cleared-IsMirror s _ conns conn_handle slot m e refl)
              | inr other ↦ rw other (cleared-IsMirror s _ conns conn_handle slot m e refl)
            ])
    ]

returns-then :
    (o : Outcome) (f : Session → Outcome) (P Q : Session → Type 0)
    → Returns o (λ s _. P s)
    → ((s : Session) → P s → Returns (f s) (λ s' _. Q s'))
    → Returns ((then) o f) (λ s' _. Q s')
returns-then none f P Q r next = r
returns-then (some (s, effects)) f P Q r next = go (f s) (next s r)
  where
    go : (o : Outcome) → Returns o (λ s' _. Q s') → Returns (sending effects o) (λ s' _. Q s')
    go none q = q
    go (some (s', more)) q = q

opened_event :
    (max count conn_handle : ℕ) (addr : Address)
    → events_of (on_callback max (opened count conn_handle addr)) ≡ connected conn_handle addr ∷ []
opened_event max count conn_handle addr = elim (Bool-cases (ltb count max)) [
  | inl more ↦ rw more refl
  | inr full ↦ rw full refl
]

-- The slots of the session mirror NimBLE's connections: whatever connections are opened and closed,
-- as long as an open connection's handle is not given again and no more than four are open, draining
-- the events that the callbacks put into the channel does not panic, and leaves the slots with
-- exactly the open connections, each in one slot and with its address, if they held them before.
pub callbacks-IsMirror :
    (max : ℕ) (callbacks : List Callback) (s : Session) (conns : List PeerSlot)
    → AllCanHappen conns callbacks
    → IsMirror s conns
    → Returns
        (drain_events s (channel max callbacks))
        (λ s' _. IsMirror s' (open_after_all conns callbacks))
unfolding drain_events handle_ble_event
callbacks-IsMirror max [] s conns can m = m
callbacks-IsMirror max (opened count conn_handle addr ∷ callbacks) s conns ((fresh, room), can) m =
    let conns' = open_after conns (opened count conn_handle addr) in
    subst
      (λ events.
        Returns (drain_events s events) (λ s' _. IsMirror s' (open_after_all conns' callbacks)))
      (ap (λ events. events ++ channel max callbacks)
        (sym (opened_event max count conn_handle addr)))
      (returns-then (handle_ble_event s (connected conn_handle addr)) _ (λ s'. IsMirror s' conns')
        (λ s'. IsMirror s' (open_after_all conns' callbacks))
        (connected-IsMirror s conns conn_handle addr fresh room m)
        (λ s' m'. callbacks-IsMirror max callbacks s' conns' can m'))
callbacks-IsMirror max (closed conn_handle ∷ callbacks) s conns (h, can) m =
    let conns' = without conn_handle conns in
    returns-then (handle_ble_event s (disconnected conn_handle)) _ (λ s'. IsMirror s' conns')
      (λ s'. IsMirror s' (open_after_all conns' callbacks))
      (disconnected-IsMirror s conns conn_handle m)
      (λ s' m'. callbacks-IsMirror max callbacks s' conns' can m')
callbacks-IsMirror max (written [] ∷ callbacks) s conns (h, can) m =
    callbacks-IsMirror max callbacks s conns can m
callbacks-IsMirror max (written (bits ∷ more) ∷ callbacks) s conns (h, can) m =
    returns-then (handle_ble_event s (led_changed bits)) _ (λ s'. IsMirror s' conns)
      (λ s'. IsMirror s' (open_after_all conns callbacks)) m
      (λ s' m'. callbacks-IsMirror max callbacks s' conns can m')
