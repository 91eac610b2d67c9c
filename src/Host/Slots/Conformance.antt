-- ===== src/Host/Slots/Conformance.antt =====
-- The unit tests of host/src/slots.rs, as statements about the model.
use esp32_universal_control.Base.{ℕ, ◌≡◌, refl, true, false, none, some, [], ◌∷◌}
use esp32_universal_control.Protocol.Wire.{PeerDescriptor}
use esp32_universal_control.Host.Slots.{
  new_table, from_snapshot, apply_snapshot, set_active, has_slot, disconnect,
}

abbrev peer : ℕ → PeerDescriptor
peer slot = record { slot = slot; addr = 1 ∷ 2 ∷ 3 ∷ 4 ∷ 5 ∷ 6 ∷ [] }

abbrev MirrorsSnapshotState : Type 0
MirrorsSnapshotState =
    let table =
      from_snapshot
        (record { peers = none ∷ some (peer 1) ∷ none ∷ none ∷ []; active_slot = some 1 }) in
    (has_slot table 1 ≡ true) × (table.forwarding ≡ true) × (table.active ≡ some 1)

mirrors_snapshot_state : MirrorsSnapshotState
unfolding from_snapshot apply_snapshot set_active has_slot new_table
mirrors_snapshot_state = (refl, refl, refl)

abbrev DisconnectingActiveSlotReturnsToLocal : Type 0
DisconnectingActiveSlotReturnsToLocal =
    let table =
      disconnect
        (from_snapshot
          (record { peers = some (peer 0) ∷ none ∷ none ∷ none ∷ []; active_slot = some 0 }))
        0 in
    (table.forwarding ≡ false) × (table.active ≡ none) × (has_slot table 0 ≡ false)

disconnecting_active_slot_returns_to_local : DisconnectingActiveSlotReturnsToLocal
unfolding from_snapshot apply_snapshot set_active has_slot new_table disconnect
disconnecting_active_slot_returns_to_local = (refl, refl, refl)
