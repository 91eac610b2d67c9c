-- ===== src/Firmware/Descriptor/Tags.antt =====
-- The tags of firmware/src/hid_descriptor.rs. The base tags are constants of esp32_nimble.
use esp32_universal_control.Base.{ℕ, bit_or}

pub record HidTags : Type 0 where
  pub usage_page : ℕ
  pub usage : ℕ
  pub usage_minimum : ℕ
  pub usage_maximum : ℕ
  pub logical_minimum : ℕ
  pub logical_maximum : ℕ
  pub physical_maximum : ℕ
  pub unit_exponent : ℕ
  pub unit : ℕ
  pub report_size : ℕ
  pub report_id : ℕ
  pub report_count : ℕ
  pub collection : ℕ
  pub end_collection : ℕ
  pub hidinput : ℕ
  pub hidoutput : ℕ
  pub feature : ℕ

abbrev pub usage_page_8 : HidTags → ℕ
usage_page_8 tags = bit_or tags.usage_page 1

abbrev pub usage_8 : HidTags → ℕ
usage_8 tags = bit_or tags.usage 1

abbrev pub logical_minimum_8 : HidTags → ℕ
logical_minimum_8 tags = bit_or tags.logical_minimum 1

abbrev pub logical_maximum_8 : HidTags → ℕ
logical_maximum_8 tags = bit_or tags.logical_maximum 1

abbrev pub physical_maximum_8 : HidTags → ℕ
physical_maximum_8 tags = bit_or tags.physical_maximum 1

abbrev pub unit_exponent_8 : HidTags → ℕ
unit_exponent_8 tags = bit_or tags.unit_exponent 1

abbrev pub unit_8 : HidTags → ℕ
unit_8 tags = bit_or tags.unit 1

abbrev pub report_size_8 : HidTags → ℕ
report_size_8 tags = bit_or tags.report_size 1

abbrev pub report_id_8 : HidTags → ℕ
report_id_8 tags = bit_or tags.report_id 1

abbrev pub report_count_8 : HidTags → ℕ
report_count_8 tags = bit_or tags.report_count 1

abbrev pub collection_8 : HidTags → ℕ
collection_8 tags = bit_or tags.collection 1

abbrev pub hidinput_8 : HidTags → ℕ
hidinput_8 tags = bit_or tags.hidinput 1

abbrev pub feature_8 : HidTags → ℕ
feature_8 tags = bit_or tags.feature 1

abbrev pub usage_page_16 : HidTags → ℕ
usage_page_16 tags = bit_or tags.usage_page 2

abbrev pub logical_maximum_16 : HidTags → ℕ
logical_maximum_16 tags = bit_or tags.logical_maximum 2

abbrev pub physical_maximum_16 : HidTags → ℕ
physical_maximum_16 tags = bit_or tags.physical_maximum 2

abbrev pub report_count_16 : HidTags → ℕ
report_count_16 tags = bit_or tags.report_count 2

abbrev pub unit_16 : HidTags → ℕ
unit_16 tags = bit_or tags.unit 2

abbrev pub logical_maximum_32 : HidTags → ℕ
logical_maximum_32 tags = bit_or tags.logical_maximum 3

abbrev pub physical_maximum_32 : HidTags → ℕ
physical_maximum_32 tags = bit_or tags.physical_maximum 3
