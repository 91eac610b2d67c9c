-- ===== src/Firmware/Descriptor/Keyboard.antt =====
-- The items of firmware/src/hid_descriptor.rs for the keyboard and the consumer keys. The macro
-- `hid!` of esp32_nimble, which makes bytes of them, is a parameter.
use esp32_universal_control.Base.{ℕ, List, [], ◌∷◌}
use esp32_universal_control.Protocol.Keyboard.{reportid_keyboard, reportid_consumer}
use esp32_universal_control.Firmware.Descriptor.Tags.{HidTags}

-- A tag, and the bytes of its value.
pub data HidItem : Type 0 where
  item : (tag : ℕ) (bytes : List ℕ) → HidItem

-- The argument of `hid!`.
abbrev pub keyboard_consumer_items : HidTags → List HidItem
keyboard_consumer_items tags =
    item tags.usage_page (0x01 ∷ [])
    ∷ item tags.usage (0x06 ∷ [])
    ∷ item tags.collection (0x01 ∷ [])
    ∷ item tags.report_id (reportid_keyboard ∷ [])
    ∷ item tags.usage_page (0x07 ∷ [])
    ∷ item tags.usage_minimum (0xE0 ∷ [])
    ∷ item tags.usage_maximum (0xE7 ∷ [])
    ∷ item tags.logical_minimum (0x00 ∷ [])
    ∷ item tags.logical_maximum (0x01 ∷ [])
    ∷ item tags.report_size (0x01 ∷ [])
    ∷ item tags.report_count (0x08 ∷ [])
    ∷ item tags.hidinput (0x02 ∷ [])
    ∷ item tags.report_count (0x01 ∷ [])
    ∷ item tags.report_size (0x08 ∷ [])
    ∷ item tags.hidinput (0x01 ∷ [])
    ∷ item tags.report_count (0x05 ∷ [])
    ∷ item tags.report_size (0x01 ∷ [])
    ∷ item tags.usage_page (0x08 ∷ [])
    ∷ item tags.usage_minimum (0x01 ∷ [])
    ∷ item tags.usage_maximum (0x05 ∷ [])
    ∷ item tags.hidoutput (0x02 ∷ [])
    ∷ item tags.report_count (0x01 ∷ [])
    ∷ item tags.report_size (0x03 ∷ [])
    ∷ item tags.hidoutput (0x01 ∷ [])
    ∷ item tags.report_count (0x06 ∷ [])
    ∷ item tags.report_size (0x08 ∷ [])
    ∷ item tags.logical_minimum (0x00 ∷ [])
    ∷ item tags.logical_maximum (0x65 ∷ [])
    ∷ item tags.usage_page (0x07 ∷ [])
    ∷ item tags.usage_minimum (0x00 ∷ [])
    ∷ item tags.usage_maximum (0x65 ∷ [])
    ∷ item tags.hidinput (0x00 ∷ [])
    ∷ item tags.end_collection []
    ∷ item tags.usage_page (0x0C ∷ [])
    ∷ item tags.usage (0x01 ∷ [])
    ∷ item tags.collection (0x01 ∷ [])
    ∷ item tags.report_id (reportid_consumer ∷ [])
    ∷ item tags.usage_page (0x0C ∷ [])
    ∷ item tags.logical_minimum (0x00 ∷ [])
    ∷ item tags.logical_maximum (0x01 ∷ [])
    ∷ item tags.report_size (0x01 ∷ [])
    ∷ item tags.report_count (0x10 ∷ [])
    ∷ item tags.usage (0xB5 ∷ [])
    ∷ item tags.usage (0xB6 ∷ [])
    ∷ item tags.usage (0xB7 ∷ [])
    ∷ item tags.usage (0xCD ∷ [])
    ∷ item tags.usage (0xE2 ∷ [])
    ∷ item tags.usage (0xE9 ∷ [])
    ∷ item tags.usage (0xEA ∷ [])
    ∷ item tags.usage (0x23 ∷ 0x02 ∷ [])
    ∷ item tags.usage (0x94 ∷ 0x01 ∷ [])
    ∷ item tags.usage (0x92 ∷ 0x01 ∷ [])
    ∷ item tags.usage (0x2A ∷ 0x02 ∷ [])
    ∷ item tags.usage (0x21 ∷ 0x02 ∷ [])
    ∷ item tags.usage (0x26 ∷ 0x02 ∷ [])
    ∷ item tags.usage (0x24 ∷ 0x02 ∷ [])
    ∷ item tags.usage (0x83 ∷ 0x01 ∷ [])
    ∷ item tags.usage (0x8A ∷ 0x01 ∷ [])
    ∷ item tags.hidinput (0x02 ∷ [])
    ∷ item tags.end_collection []
    ∷ []
