-- ===== src/Link/Mirror.antt =====
-- The host's slot table (host/src/slots.rs) mirrors the firmware's session
-- (firmware/src/session.rs) once the handshake is done.
use esp32_universal_control.Base.{
  ℕ, ◌≡◌, ◌<◌, refl, true, Option, none, some, List, [], ◌∷◌, arith, map, replicate, length,
  is_some, somes, set_elem?-lt, lt_of_get_elem?, get_elem?-map, map-set,
}
use esp32_universal_control.Protocol.Wire.{Address, max_peers}
use esp32_universal_control.Firmware.Ble.{BleEvent, connected, disconnected, led_changed}
use esp32_universal_control.Firmware.Session.Snapshot.{describe}
use esp32_universal_control.Firmware.Session.Valid.{IsValid, IsActiveIn, Returns, slot-lt, u8_slot}
use esp32_universal_control.Firmware.Session.{
  PeerSlot, Session, Effect, to_host, keyboard_report, consumer_report, touch_report,
  handle_ble_event, connect_at, disconnect_at, first_free_slot, is_free, has_handle,
  slot_for_conn_handle,
}
use esp32_universal_control.Host.Slots.{
  SlotTable, max_slots, put_peers, usable, set_active, connect, disconnect,
}
use esp32_universal_control.Host.Events.{update_table}

abbrev pub address_of : Option PeerSlot → Option Address
address_of none = none
address_of (some peer) = some peer.addr

abbrev pub addresses : List (Option PeerSlot) → List (Option Address)
addresses = map address_of

-- The host's table shows the firmware's peers and its active slot, and the flag says whether there
-- is one.
pub record Mirrors (s : Session) (table : SlotTable) : Type 0 where
  pub slots : table.slots ≡ addresses s.peers
  pub active : table.active ≡ s.active_slot
  pub flag : table.forwarding ≡ is_some s.active_slot

-- The table after the messages among the effects, in their order.
abbrev pub received : SlotTable → List Effect → SlotTable
received table [] = table
received table (to_host msg ∷ effects) = received (update_table table msg).0 effects
received table (keyboard_report conn_handle report ∷ effects) = received table effects
received table (consumer_report conn_handle bits ∷ effects) = received table effects
received table (touch_report conn_handle report ∷ effects) = received table effects

pub put_described :
    (a b c d : Option PeerSlot)
    → put_peers (replicate max_slots none) (somes (describe 0 (a ∷ b ∷ c ∷ d ∷ [])))
      ≡ addresses (a ∷ b ∷ c ∷ d ∷ [])
put_described a b c d = ground arith

pub usable-active :
    (s : Session) (table : SlotTable) (slot : Option ℕ)
    → length s.peers ≡ max_peers
    → table.slots ≡ addresses s.peers
    → IsActiveIn s.peers slot
    → usable table slot ≡ slot
usable-active s table none four e a = refl
usable-active s table (some slot) four e (peer, there) =
    let lt : slot < max_slots = omega (arith, lt_of_get_elem? s.peers slot there) in
    ground (arith, get_elem?-map address_of s.peers slot there)

-- The state after a handler mirrors the table after its messages, and the host stays ready.
abbrev pub Linked : SlotTable → Session → List Effect → Type 0
Linked table s effects = (s.host_ready ≡ true) × Mirrors s (received table effects)

connect_at-Linked :
    (s : Session) (table : SlotTable) (conn_handle : ℕ) (addr : Address) (slot : Option ℕ)
    → IsValid s
    → s.host_ready ≡ true
    → Mirrors s table
    → slot ≡ first_free_slot s
    → Returns (connect_at s conn_handle addr slot) (Linked table)
unfolding connect_at update_table connect
connect_at-Linked s table conn_handle addr none v ready m e = (ready, m)
connect_at-Linked s table conn_handle addr (some slot) v ready m e =
    let lt = slot-lt s is_free slot v e in
    let peer : PeerSlot = record { conn_handle = conn_handle; addr = addr } in
    rw (set_elem?-lt s.peers slot (some peer) lt, u8_slot s slot v lt)
      (ground (arith, map-set address_of s.peers slot (some peer)))

disconnect_at-Linked :
    (s : Session) (table : SlotTable) (conn_handle : ℕ) (slot : Option ℕ)
    → IsValid s
    → s.host_ready ≡ true
    → Mirrors s table
    → slot ≡ slot_for_conn_handle s conn_handle
    → Returns (disconnect_at s slot) (Linked table)
unfolding disconnect_at update_table disconnect set_active
disconnect_at-Linked s table conn_handle none v ready m e = (ready, m)
disconnect_at-Linked s table conn_handle (some slot) v ready m e =
    let lt = slot-lt s (has_handle conn_handle) slot v e in
    rw (set_elem?-lt s.peers slot none lt, u8_slot s slot v lt)
      (ground (arith, map-set address_of s.peers slot none))

-- Every BLE event keeps the mirror.
pub handle_ble_event-Linked :
    (s : Session) (table : SlotTable) (event : BleEvent)
    → IsValid s
    → s.host_ready ≡ true
    → Mirrors s table
    → Returns (handle_ble_event s event) (Linked table)
unfolding handle_ble_event update_table
handle_ble_event-Linked s table (connected conn_handle addr) v ready m =
    connect_at-Linked s table conn_handle addr (first_free_slot s) v ready m refl
handle_ble_event-Linked s table (disconnected conn_handle) v ready m =
    disconnect_at-Linked s table conn_handle (slot_for_conn_handle s conn_handle) v ready m refl
handle_ble_event-Linked s table (led_changed bits) v ready m = ground arith
