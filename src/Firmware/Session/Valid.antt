-- ===== src/Firmware/Session/Valid.antt =====
-- No handler of firmware/src/session.rs panics on a well-formed session, and each keeps it so.
use esp32_universal_control.Base.{
  ℕ, ◌≡◌, ◌<◌, refl, sym, ◌∙◌, Bool, false, Option, none, some, List, [], inl, inr, arith, position,
  get_elem?, set, length, leb, ◌==◌, is_number, u8, Bool-cases, position-lt, set_elem?-lt,
  get_elem?-set, length-set, get_elem?-lt,
}
use esp32_universal_control.Protocol.Wire.{
  Address, HostMsg, hello, select_peer, keyboard_state, consumer_state, touch_frame, max_peers,
  protocol_version,
}
use esp32_universal_control.Protocol.Ptp.Encode.{IsEncoder}
use esp32_universal_control.Protocol.Ptp.Lifts.{encode-IsEncoder}
use esp32_universal_control.Firmware.Ble.{
  BleEvent, connected, disconnected, led_changed, BleStack, has_connection,
}
use esp32_universal_control.Firmware.Session.Snapshot.{snapshot_lem}
use esp32_universal_control.Firmware.Session.{
  PeerSlot, Session, Effect, Outcome, new_session, handle_ble_event, handle_host_msg,
  flush_touch_if_due, is_free, has_handle, first_free_slot, slot_for_conn_handle,
  active_conn_handle, handle_at, connect_at, disconnect_at, greet, refuse_slot, flush_active,
  flush_to, send_report, switch_to, activate, deselect, after_notify, scan_time_from_us,
}

-- The active slot, if there is one, holds a peer.
abbrev pub IsActiveIn : List (Option PeerSlot) → Option ℕ → Type 0
IsActiveIn peers none = Unit {0}
IsActiveIn peers (some slot) = (peer : PeerSlot) × (get_elem? peers slot ≡ some (some peer))

pub record IsValid (s : Session) : Type 0 where
  pub four : length s.peers ≡ max_peers
  pub active : IsActiveIn s.peers s.active_slot
  pub encoder : IsEncoder s.touch

-- The handler did not panic, and what it returned satisfies `P`.
abbrev pub Returns : Outcome → (Session → List Effect → Type 0) → Type 0
Returns none P = ⊥
Returns (some (s, effects)) P = P s effects

pub new_session-IsValid : IsValid new_session
unfolding new_session
new_session-IsValid = record { four = refl; active = tt; encoder = refl }

IsActiveIn-set :
    (peers : List (Option PeerSlot)) (i : ℕ) (peer : PeerSlot) (active : Option ℕ)
    → i < length peers
    → IsActiveIn peers active
    → IsActiveIn (set peers i (some peer)) active
IsActiveIn-set peers i peer none h a = tt
IsActiveIn-set peers i peer (some slot) h (there, e) = elim (Bool-cases (i == slot)) [
  | inl same ↦ (peer, rw (get_elem?-set peers i slot (some peer) h, same))
  | inr other ↦ (there, rw (get_elem?-set peers i slot (some peer) h, other) e)
]

IsActiveIn-set-none :
    (peers : List (Option PeerSlot)) (i : ℕ) (active : Option ℕ)
    → i < length peers
    → is_number active i ≡ false
    → IsActiveIn peers active
    → IsActiveIn (set peers i none) active
IsActiveIn-set-none peers i none h n a = tt
IsActiveIn-set-none peers i (some slot) h n (there, e) =
    (there, ground (arith, get_elem?-set peers i slot none h))

pub slot-lt :
    (s : Session) (p : Option PeerSlot → Bool) (slot : ℕ)
    → IsValid s
    → some slot ≡ position p s.peers
    → slot < length s.peers
slot-lt s p slot v e = position-lt p s.peers slot (sym e)

pub u8_slot : (s : Session) (slot : ℕ) → IsValid s → slot < length s.peers → u8 slot ≡ slot
u8_slot s slot v h = omega arith

connect_at-IsValid :
    (s : Session) (conn_handle : ℕ) (addr : Address) (slot : Option ℕ)
    → IsValid s
    → slot ≡ first_free_slot s
    → Returns (connect_at s conn_handle addr slot) (λ s' _. IsValid s')
unfolding connect_at
connect_at-IsValid s conn_handle addr none v e = v
connect_at-IsValid s conn_handle addr (some slot) v e =
    let lt = slot-lt s is_free slot v e in
    let peer : PeerSlot = record { conn_handle = conn_handle; addr = addr } in
    rw (set_elem?-lt s.peers slot (some peer) lt) (record {
      four = length-set s.peers slot (some peer) ∙ v.four;
      active = IsActiveIn-set s.peers slot peer s.active_slot lt v.active;
      encoder = v.encoder;
    })

disconnect_at-IsValid :
    (s : Session) (conn_handle : ℕ) (slot : Option ℕ)
    → IsValid s
    → slot ≡ slot_for_conn_handle s conn_handle
    → Returns (disconnect_at s slot) (λ s' _. IsValid s')
unfolding disconnect_at
disconnect_at-IsValid s conn_handle none v e = v
disconnect_at-IsValid s conn_handle (some slot) v e =
    let lt = slot-lt s (has_handle conn_handle) slot v e in
    let four = length-set s.peers slot none ∙ v.four in
    rw (set_elem?-lt s.peers slot none lt, u8_slot s slot v lt)
      (elim (Bool-cases (is_number s.active_slot slot)) [
        | inl was_active ↦ rw was_active (record { four = four; active = tt; encoder = refl })
        | inr other ↦ rw other (record {
          four = four;
          active = IsActiveIn-set-none s.peers slot s.active_slot lt other v.active;
          encoder = v.encoder;
        })
      ])

-- On a well-formed session a BLE event is handled with no panic, and leaves it well-formed.
pub handle_ble_event-IsValid :
    (s : Session) (event : BleEvent)
    → IsValid s
    → Returns (handle_ble_event s event) (λ s' _. IsValid s')
unfolding handle_ble_event
handle_ble_event-IsValid s (connected conn_handle addr) v =
    connect_at-IsValid s conn_handle addr (first_free_slot s) v refl
handle_ble_event-IsValid s (disconnected conn_handle) v =
    disconnect_at-IsValid s conn_handle (slot_for_conn_handle s conn_handle) v refl
handle_ble_event-IsValid s (led_changed bits) v = v

-- The handle of the active peer is read with no panic.
pub active_conn_handle_total :
    (s : Session) → IsValid s → (handle : Option ℕ) × (active_conn_handle s ≡ some handle)
active_conn_handle_total s v = go s.active_slot v.active
  where
    go :
        (active : Option ℕ)
        → IsActiveIn s.peers active
        → (handle : Option ℕ) × (handle_at s.peers active ≡ some handle)
    go none a = (none, refl)
    go (some slot) (peer, e) = (some peer.conn_handle, rw e)

greet-IsValid :
    (s : Session) (version : ℕ) → IsValid s → Returns (greet s version) (λ s' _. IsValid s')
unfolding greet
greet-IsValid s version v = elim (Bool-cases (version == protocol_version)) [
  | inl same ↦
      rw (same, greet, snapshot_lem s v.four)
        (record { four = v.four; active = v.active; encoder = v.encoder })
  | inr other ↦ rw (other, greet) v
]

deselect-IsValid :
    (now : ℕ) (s : Session) → IsValid s → Returns (deselect now s) (λ s' _. IsValid s')
unfolding deselect
deselect-IsValid now s v = ground (arith, active_conn_handle_total s v)

activate-IsValid :
    (now : ℕ) (s : Session) (slot : ℕ)
    → IsValid s
    → IsActiveIn s.peers (some slot)
    → Returns (activate now s slot) (λ s' _. IsValid s')
unfolding activate
activate-IsValid now s slot v a = ground (arith, active_conn_handle_total s v)

-- `switch_to` refuses the slot, leaves all as it is, or activates a slot that holds a peer.
pub switch_to_cases :
    (P : Outcome → Type 0) (now : ℕ) (s : Session) (slot : ℕ)
    → IsValid s
    → P (refuse_slot s slot)
    → P (some (s, []))
    → (IsActiveIn s.peers (some slot) → P (activate now s slot))
    → P (switch_to now s slot)
unfolding switch_to
switch_to_cases P now s slot v refused same activated = elim (Bool-cases (leb max_peers slot)) [
  | inl out ↦ rw (out, switch_to) refused
  | inr within ↦
      let (entry, e) = get_elem?-lt s.peers slot (ground arith) in at_entry within entry e
]
  where
    at_entry :
        leb max_peers slot ≡ false
        → (entry : Option PeerSlot) → get_elem? s.peers slot ≡ some entry
        → P (switch_to now s slot)
    at_entry within none e = rw (within, switch_to, e) refused
    at_entry within (some peer) e = elim (Bool-cases (is_number s.active_slot slot)) [
      | inl already ↦ rw (within, switch_to, e, already) same
      | inr other ↦ rw (within, switch_to, e, other) (activated (peer, e))
    ]

switch_to-IsValid :
    (now : ℕ) (s : Session) (slot : ℕ)
    → IsValid s
    → Returns (switch_to now s slot) (λ s' _. IsValid s')
unfolding refuse_slot
switch_to-IsValid now s slot v =
    switch_to_cases (λ o. Returns o (λ s' _. IsValid s')) now s slot v v v
      (activate-IsValid now s slot v)

-- On a well-formed session a host message is handled with no panic, and leaves it well-formed.
pub handle_host_msg-IsValid :
    (now : ℕ) (s : Session) (msg : HostMsg)
    → IsValid s
    → Returns (handle_host_msg now s msg) (λ s' _. IsValid s')
unfolding handle_host_msg
handle_host_msg-IsValid now s (hello version) v = greet-IsValid s version v
handle_host_msg-IsValid now s (select_peer none) v = deselect-IsValid now s v
handle_host_msg-IsValid now s (select_peer (some slot)) v = switch_to-IsValid now s slot v
handle_host_msg-IsValid now s (keyboard_state keys) v = ground (arith, active_conn_handle_total s v)
handle_host_msg-IsValid now s (consumer_state bits) v = ground (arith, active_conn_handle_total s v)
handle_host_msg-IsValid now s (touch_frame frame) v = ground (arith, active_conn_handle_total s v)

flush_to-IsValid :
    (ble : BleStack) (now : ℕ) (s : Session) (conn_handle : ℕ)
    → IsValid s
    → Returns (flush_to ble now s conn_handle) (λ s' _. IsValid s')
unfolding flush_to send_report after_notify
flush_to-IsValid ble now s conn_handle v =
    let (e', report, runs, keeps, _, _) =
      encode-IsEncoder s.touch s.latest_touch (scan_time_from_us now) v.encoder in
    elim (Bool-cases (has_connection ble conn_handle)) [
      | inl alive ↦ ground (arith, runs, keeps)
      | inr closed ↦
          rw (closed, flush_to) (record { four = v.four; active = v.active; encoder = refl })
    ]

-- `flush_touch_if_due` does nothing, or is `flush_to` for the active peer.
pub flush_cases :
    (P : Outcome → Type 0) (ble : BleStack) (now : ℕ) (s : Session)
    → IsValid s
    → P (some (s, []))
    → ((conn_handle : ℕ) → P (flush_to ble now s conn_handle))
    → P (flush_touch_if_due ble now s)
unfolding flush_touch_if_due
flush_cases P ble now s v idle sent =
    let (handle, e) = active_conn_handle_total s v in rw e (at_handle handle)
  where
    at_handle : (handle : Option ℕ) → P (flush_active ble now s handle)
    at_handle none = idle
    at_handle (some conn_handle) = elim (Bool-cases s.touch_dirty) [
      | inl dirty ↦ rw (dirty, flush_active) (sent conn_handle)
      | inr clean ↦ rw (clean, flush_active) idle
    ]

-- So it is when a touch frame that waits is sent, or is not, whatever the stack answers.
pub flush_touch_if_due-IsValid :
    (ble : BleStack) (now : ℕ) (s : Session)
    → IsValid s
    → Returns (flush_touch_if_due ble now s) (λ s' _. IsValid s')
flush_touch_if_due-IsValid ble now s v =
    flush_cases (λ o. Returns o (λ s' _. IsValid s')) ble now s v v
      (λ conn_handle. flush_to-IsValid ble now s conn_handle v)
