-- ===== src/Link/Messages.antt =====
-- The mirror under the messages that the host sends, and when touch frames go out:
-- `handle_host_msg` and `flush_touch_if_due` of firmware/src/session.rs.
use esp32_universal_control.Base.{
  ℕ, ◌≡◌, refl, sym, ap, subst, true, false, Option, none, some, List, [], ◌∷◌, inl, inr, arith,
  replicate, length, ◌==◌, is_some, somes, Bool-cases, ==_iff,
}
use esp32_universal_control.Protocol.Wire.{
  HostMsg, hello, select_peer, keyboard_state, consumer_state, touch_frame, max_peers,
  protocol_version,
}
use esp32_universal_control.Protocol.Ptp.Lifts.{encode-IsEncoder}
use esp32_universal_control.Firmware.Ble.{BleStack}
use esp32_universal_control.Firmware.Session.Snapshot.{describe, snapshot_lem}
use esp32_universal_control.Firmware.Session.Valid.{
  IsValid, IsActiveIn, Returns, active_conn_handle_total, switch_to_cases, flush_cases,
}
use esp32_universal_control.Firmware.Session.{
  PeerSlot, Session, handle_host_msg, flush_touch_if_due, flush_to, send_report, after_notify,
  scan_time_from_us, greet, deselect, switch_to, activate, refuse_slot,
}
use esp32_universal_control.Host.Slots.{SlotTable, max_slots, put_peers, set_active, apply_snapshot}
use esp32_universal_control.Link.Mirror.{addresses, Mirrors, Linked, usable-active, put_described}
use esp32_universal_control.Host.Events.{update_table}

activate-Linked :
    (now : ℕ) (s : Session) (table : SlotTable) (slot : ℕ)
    → IsValid s
    → s.host_ready ≡ true
    → Mirrors s table
    → IsActiveIn s.peers (some slot)
    → Returns (activate now s slot) (Linked table)
unfolding activate update_table set_active
activate-Linked now s table slot v ready m a =
    ground (arith, active_conn_handle_total s v, usable-active s table (some slot) v.four m.slots a)

deselect-Linked :
    (now : ℕ) (s : Session) (table : SlotTable)
    → IsValid s
    → s.host_ready ≡ true
    → Mirrors s table
    → Returns (deselect now s) (Linked table)
unfolding deselect update_table set_active
deselect-Linked now s table v ready m = ground (arith, active_conn_handle_total s v)

refuse_slot-Linked :
    (s : Session) (table : SlotTable) (slot : ℕ)
    → s.host_ready ≡ true
    → Mirrors s table
    → Returns (refuse_slot s slot) (Linked table)
unfolding refuse_slot update_table
refuse_slot-Linked s table slot ready m = ground arith

switch_to-Linked :
    (now : ℕ) (s : Session) (table : SlotTable) (slot : ℕ)
    → IsValid s
    → s.host_ready ≡ true
    → Mirrors s table
    → Returns (switch_to now s slot) (Linked table)
switch_to-Linked now s table slot v ready m =
    switch_to_cases (λ o. Returns o (Linked table)) now s slot v
      (refuse_slot-Linked s table slot ready m) (ready, m)
      (activate-Linked now s table slot v ready m)

described :
    (peers : List (Option PeerSlot))
    → length peers ≡ max_peers
    → put_peers (replicate max_slots none) (somes (describe 0 peers)) ≡ addresses peers
described [] h = absurd (omega arith)
described (a ∷ []) h = absurd (omega arith)
described (a ∷ b ∷ []) h = absurd (omega arith)
described (a ∷ b ∷ c ∷ []) h = absurd (omega arith)
described (a ∷ b ∷ c ∷ d ∷ []) h = put_described a b c d
described (a ∷ b ∷ c ∷ d ∷ e ∷ rest) h = absurd (omega arith)

greet-Linked :
    (s : Session) (table : SlotTable)
    → IsValid s
    → Returns (greet s protocol_version) (Linked table)
unfolding greet update_table apply_snapshot set_active
greet-Linked s table v =
    let shown = described s.peers v.four in
    let slots = put_peers (replicate max_slots none) (somes (describe 0 s.peers)) in
    let kept =
      usable-active s (record table { slots = slots }) s.active_slot v.four shown v.active in
    rw (snapshot_lem s v.four)
      (refl, record { slots = shown; active = kept; flag = ap is_some kept })

-- A handshake of the right version makes the host's table a mirror, whatever it held before.
pub hello-Linked :
    (now : ℕ) (s : Session) (table : SlotTable)
    → IsValid s
    → Returns (handle_host_msg now s (hello protocol_version)) (Linked table)
unfolding handle_host_msg
hello-Linked now s table v = greet-Linked s table v

-- A hello of another version is refused and changes nothing.
greet_other-Linked :
    (s : Session) (table : SlotTable) (version : ℕ)
    → (version == protocol_version) ≡ false
    → s.host_ready ≡ true
    → Mirrors s table
    → Returns (greet s version) (Linked table)
unfolding greet update_table
greet_other-Linked s table version other ready m = rw (other, greet) (ready, m)

hello_any-Linked :
    (s : Session) (table : SlotTable) (version : ℕ)
    → IsValid s
    → s.host_ready ≡ true
    → Mirrors s table
    → Returns (greet s version) (Linked table)
hello_any-Linked s table version v ready m = elim (Bool-cases (version == protocol_version)) [
  | inl same ↦
      subst (λ n. Returns (greet s n) (Linked table))
        (sym ((==_iff version protocol_version).0 same)) (greet-Linked s table v)
  | inr other ↦ greet_other-Linked s table version other ready m
]

-- Every host message keeps the mirror.
pub handle_host_msg-Linked :
    (now : ℕ) (s : Session) (table : SlotTable) (msg : HostMsg)
    → IsValid s
    → s.host_ready ≡ true
    → Mirrors s table
    → Returns (handle_host_msg now s msg) (Linked table)
unfolding handle_host_msg
handle_host_msg-Linked now s table (hello version) v ready m =
    hello_any-Linked s table version v ready m
handle_host_msg-Linked now s table (select_peer none) v ready m =
    deselect-Linked now s table v ready m
handle_host_msg-Linked now s table (select_peer (some slot)) v ready m =
    switch_to-Linked now s table slot v ready m
handle_host_msg-Linked now s table (keyboard_state keys) v ready m =
    ground (arith, active_conn_handle_total s v)
handle_host_msg-Linked now s table (consumer_state bits) v ready m =
    ground (arith, active_conn_handle_total s v)
handle_host_msg-Linked now s table (touch_frame frame) v ready m =
    ground (arith, active_conn_handle_total s v)

flush_to-Linked :
    (ble : BleStack) (now : ℕ) (s : Session) (table : SlotTable) (conn_handle : ℕ)
    → IsValid s
    → s.host_ready ≡ true
    → Mirrors s table
    → Returns (flush_to ble now s conn_handle) (Linked table)
unfolding flush_to send_report after_notify
flush_to-Linked ble now s table conn_handle v ready m =
    let (e', report, runs, _, _, _) =
      encode-IsEncoder s.touch s.latest_touch (scan_time_from_us now) v.encoder in
    ground (arith, runs)

-- Sending touch frames keeps the mirror.
pub flush_touch_if_due-Linked :
    (ble : BleStack) (now : ℕ) (s : Session) (table : SlotTable)
    → IsValid s
    → s.host_ready ≡ true
    → Mirrors s table
    → Returns (flush_touch_if_due ble now s) (Linked table)
flush_touch_if_due-Linked ble now s table v ready m =
    flush_cases (λ o. Returns o (Linked table)) ble now s v (ready, m)
      (λ conn_handle. flush_to-Linked ble now s table conn_handle v ready m)
