-- ===== src/Host/Events.antt =====
-- What the host does on a message of the firmware: the thread fw-events of host/src/capture/mod.rs,
-- and `handle_fw_event` of host/src/debug.rs. Log lines are left out.
pub mod Sync
pub mod Threads
pub mod Race
mod Tests
use esp32_universal_control.Base.{Bool, Option, none, some, List, []}
use esp32_universal_control.Protocol.Wire.{
  PeerSnapshot, FirmwareMsg, hello_ack, peer_snapshot, peer_connected, peer_disconnected,
  active_peer_changed, led_state, protocol_error,
}
use esp32_universal_control.Host.Slots.{
  SlotTable, from_snapshot, apply_snapshot, connect, disconnect, set_active,
}
use esp32_universal_control.Host.Cursor.{
  CursorSession, CursorCommand, default_cursor, sync_forwarding,
}

-- The slot table and the cursor, which the threads share behind their mutexes.
pub record Shared (P : Type 0) : Type 0 where
  pub table : SlotTable
  pub cursor : CursorSession P

abbrev pub flagged : SlotTable → SlotTable × Option Bool
flagged table = (table, some table.forwarding)

-- The part of a handler that holds the table's lock: the new table, and, where the handler calls
-- `sync_cursor` afterwards, the flag that it read.
unfoldable pub update_table : SlotTable → FirmwareMsg → SlotTable × Option Bool
update_table table (peer_snapshot snapshot) = flagged (apply_snapshot table snapshot)
update_table table (peer_connected peer) = (connect table peer, none)
update_table table (peer_disconnected slot) = flagged (disconnect table slot)
update_table table (active_peer_changed slot) = flagged (set_active table slot)
update_table table (led_state bits) = (table, none)
update_table table (hello_ack ack) = (table, none)
update_table table (protocol_error error) = (table, none)

module _ {P : Type 0} where
  -- `sync_cursor`, which takes the cursor's lock.
  abbrev pub sync_cursor : Shared P → Option P → Option Bool → Shared P × List (CursorCommand P)
  sync_cursor shared position none = (shared, [])
  sync_cursor shared position (some flag) =
      let (cursor, commands) = sync_forwarding shared.cursor flag position in
      (record shared { cursor = cursor }, commands)

  -- The start of `run`, before the threads: the table by the handshake's snapshot, and the cursor.
  unfoldable pub start_capture : PeerSnapshot → Option P → Shared P × List (CursorCommand P)
  unfolding from_snapshot sync_forwarding
  start_capture snapshot position =
      let table = from_snapshot snapshot in
      sync_cursor (record { table = table; cursor = default_cursor }) position
        (some table.forwarding)

  -- A whole handler, with no step of the other threads between the two locks.
  unfoldable pub on_firmware_msg :
      Shared P → Option P → FirmwareMsg → Shared P × List (CursorCommand P)
  unfolding update_table sync_forwarding
  on_firmware_msg shared position msg =
      let (table, flag) = update_table shared.table msg in
      sync_cursor (record shared { table = table }) position flag

  -- The serial writer when a write fails: back to the Mac.
  unfoldable pub on_write_error : Shared P → Option P → Shared P × List (CursorCommand P)
  unfolding sync_forwarding
  on_write_error shared position =
      let (table, flag) = flagged (set_active shared.table none) in
      sync_cursor (record shared { table = table }) position flag

-- `handle_fw_event`.
unfoldable pub handle_fw_event : FirmwareMsg → SlotTable → SlotTable
handle_fw_event (hello_ack ack) table = table
handle_fw_event (peer_snapshot snapshot) table = apply_snapshot table snapshot
handle_fw_event (peer_connected peer) table = connect table peer
handle_fw_event (peer_disconnected slot) table = disconnect table slot
handle_fw_event (active_peer_changed slot) table = set_active table slot
handle_fw_event (led_state bits) table = table
handle_fw_event (protocol_error error) table = table
