-- ===== src/Host/Keymap/Tests.antt =====
-- Entries of the table of host/src/capture/keymap.rs.
use esp32_universal_control.Base.{ℕ, ◌≡◌, refl, any, ◌==◌, some}
use esp32_universal_control.Host.Keymap.{
  mac_to_hid, mac_to_hid_table, mac_to_consumer, modifier_mask,
}
use esp32_universal_control.Host.Keymap.Table.{
  sends_undeclared, undeclared_keys, undeclared_keys_lem,
}

letter_a : mac_to_hid 0x00 ≡ 0x04
unfolding mac_to_hid mac_to_hid_table
letter_a = refl

right_command : modifier_mask 0x36 ≡ some 0x80
unfolding modifier_mask mac_to_hid_table
right_command = refl

volume_is_not_mute : mac_to_consumer 0x48 ≡ some 32
unfolding mac_to_consumer
volume_is_not_mute = refl

abbrev escape : ℕ
escape = 0x35

-- The key F13.
undeclared_keys_lem_example : sends_undeclared 0x69 ≡ any (λ u. u == 0x69) undeclared_keys
undeclared_keys_lem_example = undeclared_keys_lem 0x69
