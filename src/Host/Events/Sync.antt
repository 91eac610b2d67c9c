-- ===== src/Host/Events/Sync.antt =====
-- The slot table and the cursor of the host stay in step (host/src/capture/mod.rs).
use esp32_universal_control.Base.{ℕ, ◌≡◌, refl, Bool, false, Option, none, arith, is_some}
use esp32_universal_control.Protocol.Wire.{
  FirmwareMsg, hello_ack, peer_snapshot, peer_connected, peer_disconnected, active_peer_changed,
  led_state, protocol_error,
}
use esp32_universal_control.Host.Slots.{SlotTable, apply_snapshot, connect, disconnect, set_active}
use esp32_universal_control.Host.Cursor.{CursorSession, sync_forwarding}
use esp32_universal_control.Host.Events.{Shared, update_table, on_firmware_msg, on_write_error}

-- The flag says whether a slot is active.
abbrev pub IsFlagged : SlotTable → Type 0
IsFlagged table = table.forwarding ≡ is_some table.active

set_active-IsFlagged : (table : SlotTable) (slot : Option ℕ) → IsFlagged (set_active table slot)
unfolding set_active
set_active-IsFlagged table slot = refl

disconnect-IsFlagged :
    (table : SlotTable) (slot : ℕ) → IsFlagged table → IsFlagged (disconnect table slot)
unfolding disconnect
disconnect-IsFlagged table slot f = ground arith

module _ {P : Type 0} where
  -- The cursor is hidden for forwarding if and only if a slot is active.
  pub record IsInSync (shared : Shared P) : Type 0 where
    pub flagged_table : IsFlagged shared.table
    pub same : shared.cursor.forwarding ≡ shared.table.forwarding

  pub sync_forwarding-sets :
      (s : CursorSession P) (next : Bool) (current : Option P)
      → ((sync_forwarding s next current).0).forwarding ≡ next
  unfolding sync_forwarding
  sync_forwarding-sets s next current = ground arith

  -- A message of the firmware keeps the table and the cursor in step: the flag says whether a slot
  -- is active, and the cursor's session is forwarding if and only if the flag is on.
  pub on_firmware_msg-IsInSync :
      (shared : Shared P) (position : Option P) (msg : FirmwareMsg)
      → IsInSync shared
      → IsInSync (on_firmware_msg shared position msg).0
  unfolding on_firmware_msg update_table apply_snapshot connect
  on_firmware_msg-IsInSync shared position (peer_snapshot snapshot) h = record {
    flagged_table = refl;
    same = sync_forwarding-sets shared.cursor _ position;
  }
  on_firmware_msg-IsInSync shared position (peer_connected peer) h = record {
    flagged_table = h.flagged_table;
    same = h.same;
  }
  on_firmware_msg-IsInSync shared position (peer_disconnected slot) h = record {
    flagged_table = disconnect-IsFlagged shared.table slot h.flagged_table;
    same = sync_forwarding-sets shared.cursor _ position;
  }
  on_firmware_msg-IsInSync shared position (active_peer_changed slot) h = record {
    flagged_table = set_active-IsFlagged shared.table slot;
    same = sync_forwarding-sets shared.cursor _ position;
  }
  on_firmware_msg-IsInSync shared position (led_state bits) h = h
  on_firmware_msg-IsInSync shared position (hello_ack ack) h = h
  on_firmware_msg-IsInSync shared position (protocol_error error) h = h

  -- When a write to the serial port fails, input goes back to the Mac from any state: no slot is
  -- active, the flag is off, and the cursor's session is not forwarding. The slots stay.
  pub on_write_error_lem :
      (shared : Shared P) (position : Option P)
      → let shared' = (on_write_error shared position).0 in
        (shared'.table.active ≡ none)
        × (shared'.table.forwarding ≡ false)
        × (shared'.cursor.forwarding ≡ false)
        × (shared'.table.slots ≡ shared.table.slots)
  unfolding on_write_error set_active
  on_write_error_lem shared position =
      (refl, refl, sync_forwarding-sets shared.cursor false position, refl)
