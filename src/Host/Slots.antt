-- ===== src/Host/Slots.antt =====
-- host/src/slots.rs: the host's mirror of the firmware's peer slots. `forwarding` is the shared
-- atomic flag. The tables have four entries, and each write is behind the source's range test.
mod Conformance
pub mod Status
use esp32_universal_control.Base.{
  ℕ, Bool, false, Option, none, some, List, [], ◌∷◌, replicate, get_elem?, set, somes, ltb, is_some,
  is_number, if◌then◌else◌, ◌&&◌,
}
use esp32_universal_control.Protocol.Wire.{Address, PeerDescriptor, PeerSnapshot, max_peers}

abbrev pub max_slots : ℕ
max_slots = max_peers

pub record SlotTable : Type 0 where
  pub slots : List (Option Address)
  pub active : Option ℕ
  pub forwarding : Bool

pub new_table : SlotTable
new_table = record { slots = replicate max_slots none; active = none; forwarding = false }

abbrev pub is_populated : Option (Option Address) → Bool
is_populated none = false
is_populated (some entry) = is_some entry

unfoldable pub has_slot : SlotTable → ℕ → Bool
has_slot table slot = ltb slot max_slots && is_populated (get_elem? table.slots slot)

-- `self.slots[slot] = Some(peer.addr)` where the slot is in range.
abbrev pub put_peer : List (Option Address) → PeerDescriptor → List (Option Address)
put_peer slots peer =
    if ltb peer.slot max_slots then set slots peer.slot (some peer.addr) else slots

abbrev pub put_peers : List (Option Address) → List PeerDescriptor → List (Option Address)
put_peers slots [] = slots
put_peers slots (peer ∷ peers) = put_peers (put_peer slots peer) peers

-- The slot, if it is in range and populated.
abbrev pub usable : SlotTable → Option ℕ → Option ℕ
usable table none = none
usable table (some slot) =
    if ltb slot max_slots && is_populated (get_elem? table.slots slot) then some slot else none

unfoldable pub set_active : SlotTable → Option ℕ → SlotTable
set_active table slot = record table {
  active = usable table slot;
  forwarding = is_some (usable table slot);
}

unfoldable pub apply_snapshot : SlotTable → PeerSnapshot → SlotTable
unfolding set_active
apply_snapshot table snapshot =
    set_active
      (record table { slots = put_peers (replicate max_slots none) (somes snapshot.peers) })
      snapshot.active_slot

unfoldable pub from_snapshot : PeerSnapshot → SlotTable
unfolding apply_snapshot new_table
from_snapshot snapshot = apply_snapshot new_table snapshot

unfoldable pub connect : SlotTable → PeerDescriptor → SlotTable
connect table peer = record table { slots = put_peer table.slots peer }

unfoldable pub disconnect : SlotTable → ℕ → SlotTable
disconnect table slot =
    if ltb slot max_slots
    then (if is_number table.active slot
        then record table { slots = set table.slots slot none; active = none; forwarding = false }
        else record table { slots = set table.slots slot none })
    else table
