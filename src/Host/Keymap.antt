-- ===== src/Host/Keymap.antt =====
-- host/src/capture/keymap.rs: macOS virtual keycodes to USB HID usages. Keycodes are u16, usages u8.
pub mod Table
mod Tests
use esp32_universal_control.Base.{
  ℕ, ◌-◌, ◌^◌, Option, none, some, List, [], ◌∷◌, get_elem?, leb, ◌==◌, ◌&&◌, if◌then◌else◌,
}
use esp32_universal_control.Protocol.Input.{consumer_mute, consumer_volume_up, consumer_volume_down}

-- `MAC_TO_HID`: the usage at each keycode, 0 where there is none.
unfoldable pub mac_to_hid_table : List ℕ
mac_to_hid_table =
    0x04 ∷ 0x16 ∷ 0x07 ∷ 0x09 ∷ 0x0b ∷ 0x0a ∷ 0x1d ∷ 0x1b ∷ 0x06 ∷ 0x19 ∷ 0x64 ∷ 0x05 ∷ 0x14 ∷ 0x1a
    ∷ 0x08 ∷ 0x15 ∷ 0x1c ∷ 0x17 ∷ 0x1e ∷ 0x1f ∷ 0x20 ∷ 0x21 ∷ 0x23 ∷ 0x22 ∷ 0x2e ∷ 0x26 ∷ 0x24
    ∷ 0x2d ∷ 0x25 ∷ 0x27 ∷ 0x30 ∷ 0x12 ∷ 0x18 ∷ 0x2f ∷ 0x0c ∷ 0x13 ∷ 0x28 ∷ 0x0f ∷ 0x0d ∷ 0x34
    ∷ 0x0e ∷ 0x33 ∷ 0x31 ∷ 0x36 ∷ 0x38 ∷ 0x11 ∷ 0x10 ∷ 0x37 ∷ 0x2b ∷ 0x2c ∷ 0x35 ∷ 0x2a ∷ 0x00
    ∷ 0x29 ∷ 0xe7 ∷ 0xe3 ∷ 0xe1 ∷ 0x39 ∷ 0xe2 ∷ 0xe0 ∷ 0xe5 ∷ 0xe6 ∷ 0xe4 ∷ 0x00 ∷ 0x6c ∷ 0x63
    ∷ 0x00 ∷ 0x55 ∷ 0x00 ∷ 0x57 ∷ 0x00 ∷ 0x53 ∷ 0x80 ∷ 0x81 ∷ 0x7f ∷ 0x54 ∷ 0x58 ∷ 0x00 ∷ 0x56
    ∷ 0x6d ∷ 0x6e ∷ 0x67 ∷ 0x62 ∷ 0x59 ∷ 0x5a ∷ 0x5b ∷ 0x5c ∷ 0x5d ∷ 0x5e ∷ 0x5f ∷ 0x6f ∷ 0x60
    ∷ 0x61 ∷ 0x89 ∷ 0x87 ∷ 0x85 ∷ 0x3e ∷ 0x3f ∷ 0x40 ∷ 0x3c ∷ 0x41 ∷ 0x42 ∷ 0x92 ∷ 0x44 ∷ 0x90
    ∷ 0x68 ∷ 0x6b ∷ 0x69 ∷ 0x00 ∷ 0x43 ∷ 0x00 ∷ 0x45 ∷ 0x00 ∷ 0x6a ∷ 0x49 ∷ 0x4a ∷ 0x4b ∷ 0x4c
    ∷ 0x3d ∷ 0x4d ∷ 0x3b ∷ 0x4e ∷ 0x3a ∷ 0x50 ∷ 0x4f ∷ 0x51 ∷ 0x52 ∷ 0x00 ∷ []

abbrev pub or_zero : Option ℕ → ℕ
or_zero none = 0
or_zero (some n) = n

unfoldable pub mac_to_hid : ℕ → ℕ
mac_to_hid mac_keycode = or_zero (get_elem? mac_to_hid_table mac_keycode)

unfoldable pub mac_to_consumer : ℕ → Option ℕ
mac_to_consumer mac_keycode =
    if mac_keycode == 0x48
    then some consumer_volume_up
    else (if mac_keycode == 0x49
        then some consumer_volume_down
        else (if mac_keycode == 0x4a then some consumer_mute else none))

-- `(0xE0..=0xE7).contains(&hid).then(|| 1 << (hid - 0xE0))`, as here and in keyboard.rs.
abbrev pub modifier_mask_from_hid : ℕ → Option ℕ
modifier_mask_from_hid hid = if leb 0xe0 hid && leb hid 0xe7 then some (2 ^ (hid - 0xe0)) else none

unfoldable pub modifier_mask : ℕ → Option ℕ
unfolding mac_to_hid
modifier_mask mac_keycode = modifier_mask_from_hid (mac_to_hid mac_keycode)
