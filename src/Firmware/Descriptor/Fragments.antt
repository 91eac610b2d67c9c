-- ===== src/Firmware/Descriptor/Fragments.antt =====
-- The byte slices of firmware/src/hid_descriptor.rs for the touchpad, and the constants of
-- protocol/src/ptp.rs that they hold.
use esp32_universal_control.Base.{ℕ, ◌/◌, ◌%◌, List, [], ◌∷◌}
use esp32_universal_control.Protocol.Input.{max_touch_contacts}
use esp32_universal_control.Firmware.Descriptor.Tags.{
  HidTags, usage_page_8, usage_8, logical_minimum_8, logical_maximum_8, physical_maximum_8,
  unit_exponent_8, unit_8, report_size_8, report_id_8, report_count_8, collection_8, hidinput_8,
  feature_8, usage_page_16, logical_maximum_16, physical_maximum_16, report_count_16, unit_16,
  logical_maximum_32, physical_maximum_32,
}

abbrev pub reportid_multitouch : ℕ
reportid_multitouch = 5

abbrev pub reportid_reportmode : ℕ
reportid_reportmode = 4

abbrev pub reportid_funcswitch : ℕ
reportid_funcswitch = 6

abbrev pub reportid_device_caps : ℕ
reportid_device_caps = 7

abbrev pub reportid_ptphqa : ℕ
reportid_ptphqa = 8

abbrev pub logical_x_max : ℕ
logical_x_max = 12480

abbrev pub logical_y_max : ℕ
logical_y_max = 7680

abbrev pub physical_scale_divisor : ℕ
physical_scale_divisor = 10

abbrev pub physical_x_max : ℕ
physical_x_max = logical_x_max / physical_scale_divisor

abbrev pub physical_y_max : ℕ
physical_y_max = logical_y_max / physical_scale_divisor

-- `value & 0x00ff`, and `(value >> 8) as u8`.
abbrev pub lo_u16 : ℕ → ℕ
lo_u16 value = value % 256

abbrev pub hi_u16 : ℕ → ℕ
hi_u16 value = value / 256 % 256

abbrev pub finger_page_switch : HidTags → List ℕ
finger_page_switch tags = (usage_page_8 tags) ∷ 0x0d ∷ []

abbrev pub finger_prefix : HidTags → List ℕ
finger_prefix tags =
    (usage_8 tags)
    ∷ 0x22
    ∷ (collection_8 tags)
    ∷ 0x02
    ∷ (logical_maximum_8 tags)
    ∷ 0x01
    ∷ (usage_8 tags)
    ∷ 0x47
    ∷ (usage_8 tags)
    ∷ 0x42
    ∷ (report_count_8 tags)
    ∷ 0x02
    ∷ (report_size_8 tags)
    ∷ 0x01
    ∷ (hidinput_8 tags)
    ∷ 0x02
    ∷ (report_size_8 tags)
    ∷ 0x01
    ∷ (report_count_8 tags)
    ∷ 0x06
    ∷ (hidinput_8 tags)
    ∷ 0x03
    ∷ (report_count_8 tags)
    ∷ 0x01
    ∷ (report_size_8 tags)
    ∷ 0x20
    ∷ (logical_maximum_32 tags)
    ∷ 0xff
    ∷ 0xff
    ∷ 0xff
    ∷ 0xff
    ∷ (usage_8 tags)
    ∷ 0x51
    ∷ (hidinput_8 tags)
    ∷ 0x02
    ∷ []

abbrev pub finger_spatial_fields : HidTags → List ℕ
finger_spatial_fields tags =
    (usage_page_8 tags)
    ∷ 0x01
    ∷ (logical_maximum_16 tags)
    ∷ (lo_u16 logical_x_max)
    ∷ (hi_u16 logical_x_max)
    ∷ (report_size_8 tags)
    ∷ 0x10
    ∷ (unit_exponent_8 tags)
    ∷ 0x0e
    ∷ (unit_8 tags)
    ∷ 0x11
    ∷ (usage_8 tags)
    ∷ 0x30
    ∷ (physical_maximum_16 tags)
    ∷ (lo_u16 physical_x_max)
    ∷ (hi_u16 physical_x_max)
    ∷ (report_count_8 tags)
    ∷ 0x01
    ∷ (hidinput_8 tags)
    ∷ 0x02
    ∷ (physical_maximum_16 tags)
    ∷ (lo_u16 physical_y_max)
    ∷ (hi_u16 physical_y_max)
    ∷ (logical_maximum_16 tags)
    ∷ (lo_u16 logical_y_max)
    ∷ (hi_u16 logical_y_max)
    ∷ (usage_8 tags)
    ∷ 0x31
    ∷ (hidinput_8 tags)
    ∷ 0x02
    ∷ []

abbrev pub finger_unit_reset : HidTags → List ℕ
finger_unit_reset tags =
    (physical_maximum_8 tags) ∷ 0x00 ∷ (unit_exponent_8 tags) ∷ 0x00 ∷ (unit_8 tags) ∷ 0x00 ∷ []

abbrev pub ptp_header : HidTags → List ℕ
ptp_header tags =
    (usage_page_8 tags)
    ∷ 0x0d
    ∷ (usage_8 tags)
    ∷ 0x05
    ∷ (collection_8 tags)
    ∷ 0x01
    ∷ (report_id_8 tags)
    ∷ reportid_multitouch
    ∷ []

abbrev pub ptp_suffix : HidTags → List ℕ
ptp_suffix tags =
    (usage_page_8 tags)
    ∷ 0x0d
    ∷ (unit_exponent_8 tags)
    ∷ 0x0c
    ∷ (unit_16 tags)
    ∷ 0x01
    ∷ 0x10
    ∷ (physical_maximum_32 tags)
    ∷ 0xff
    ∷ 0xff
    ∷ 0x00
    ∷ 0x00
    ∷ (logical_maximum_32 tags)
    ∷ 0xff
    ∷ 0xff
    ∷ 0x00
    ∷ 0x00
    ∷ (usage_8 tags)
    ∷ 0x56
    ∷ (hidinput_8 tags)
    ∷ 0x02
    ∷ (usage_8 tags)
    ∷ 0x54
    ∷ (logical_maximum_8 tags)
    ∷ 0x7f
    ∷ (report_size_8 tags)
    ∷ 0x08
    ∷ (hidinput_8 tags)
    ∷ 0x02
    ∷ (usage_page_8 tags)
    ∷ 0x09
    ∷ (usage_8 tags)
    ∷ 0x01
    ∷ (logical_maximum_8 tags)
    ∷ 0x01
    ∷ (report_size_8 tags)
    ∷ 0x01
    ∷ (hidinput_8 tags)
    ∷ 0x02
    ∷ (report_count_8 tags)
    ∷ 0x07
    ∷ (hidinput_8 tags)
    ∷ 0x03
    ∷ (usage_page_8 tags)
    ∷ 0x0d
    ∷ (report_id_8 tags)
    ∷ reportid_device_caps
    ∷ (usage_8 tags)
    ∷ 0x55
    ∷ (usage_8 tags)
    ∷ 0x59
    ∷ (logical_minimum_8 tags)
    ∷ 0x00
    ∷ (logical_maximum_16 tags)
    ∷ 0xff
    ∷ 0x00
    ∷ (report_size_8 tags)
    ∷ 0x08
    ∷ (report_count_8 tags)
    ∷ 0x02
    ∷ (feature_8 tags)
    ∷ 0x02
    ∷ (usage_page_16 tags)
    ∷ 0x00
    ∷ 0xff
    ∷ (report_id_8 tags)
    ∷ reportid_ptphqa
    ∷ (usage_8 tags)
    ∷ 0xc5
    ∷ (logical_minimum_8 tags)
    ∷ 0x00
    ∷ (logical_maximum_16 tags)
    ∷ 0xff
    ∷ 0x00
    ∷ (report_size_8 tags)
    ∷ 0x08
    ∷ (report_count_16 tags)
    ∷ 0x00
    ∷ 0x01
    ∷ (feature_8 tags)
    ∷ 0x02
    ∷ tags.end_collection
    ∷ (usage_page_8 tags)
    ∷ 0x0d
    ∷ (usage_8 tags)
    ∷ 0x0e
    ∷ (collection_8 tags)
    ∷ 0x01
    ∷ (report_id_8 tags)
    ∷ reportid_reportmode
    ∷ (usage_8 tags)
    ∷ 0x22
    ∷ (collection_8 tags)
    ∷ 0x02
    ∷ (usage_8 tags)
    ∷ 0x52
    ∷ (logical_minimum_8 tags)
    ∷ 0x00
    ∷ (logical_maximum_8 tags)
    ∷ max_touch_contacts
    ∷ (report_size_8 tags)
    ∷ 0x08
    ∷ (report_count_8 tags)
    ∷ 0x01
    ∷ (feature_8 tags)
    ∷ 0x02
    ∷ tags.end_collection
    ∷ (collection_8 tags)
    ∷ 0x00
    ∷ (report_id_8 tags)
    ∷ reportid_funcswitch
    ∷ (usage_8 tags)
    ∷ 0x57
    ∷ (usage_8 tags)
    ∷ 0x58
    ∷ (report_size_8 tags)
    ∷ 0x01
    ∷ (report_count_8 tags)
    ∷ 0x02
    ∷ (logical_maximum_8 tags)
    ∷ 0x01
    ∷ (feature_8 tags)
    ∷ 0x02
    ∷ (report_count_8 tags)
    ∷ 0x06
    ∷ (feature_8 tags)
    ∷ 0x03
    ∷ tags.end_collection
    ∷ tags.end_collection
    ∷ []
