-- ===== src/Firmware/Ble/Setup.antt =====
-- `BleHid::init` of firmware/src/ble_hid.rs, as the calls of NimBLE that it makes, in order. What the
-- calls do is NimBLE's; the closures that it registers are the callbacks of Ble.antt.
use Prim.Native.String.{String}
use esp32_universal_control.Base.{run_calls, ℕ, Bool, true, false, List, [], ◌∷◌}
use esp32_universal_control.Protocol.Keyboard.{reportid_keyboard, reportid_consumer}
use esp32_universal_control.Firmware.Descriptor.Fragments.{
  reportid_multitouch, reportid_reportmode, reportid_funcswitch, reportid_device_caps,
  reportid_ptphqa,
}
use esp32_universal_control.Firmware.Ble.Blob.{device_caps, ptphqa_blob}

abbrev pub device_name : String
device_name = "ESP32 UC"

abbrev pub appearance_hid : ℕ
appearance_hid = 0x03c0

abbrev pub pnp_sig_usb : ℕ
pnp_sig_usb = 0x02

abbrev pub vendor_id : ℕ
vendor_id = 0x05ac

abbrev pub product_id : ℕ
product_id = 0x0001

abbrev pub device_version : ℕ
device_version = 0x0100

abbrev pub hid_country_not_localized : ℕ
hid_country_not_localized = 0x00

abbrev pub hid_flags_normally_connectable : ℕ
hid_flags_normally_connectable = 0x01

abbrev pub battery_level_full : ℕ
battery_level_full = 100

-- What a report characteristic is for.
pub data ReportKind : Type 0 where
  input_report output_report feature_report : ReportKind

pub data SetupCall : Type 0 where
  set_device_name : String → SetupCall
  bond_without_io : SetupCall
  on_connect_set on_disconnect_set : SetupCall
  new_report : ReportKind → (id : ℕ) → SetupCall
  on_write_set : ReportKind → (id : ℕ) → SetupCall
  report_map : List ℕ → SetupCall
  manufacturer : String → SetupCall
  pnp : (sig vendor product version : ℕ) → SetupCall
  hid_info : (country flags : ℕ) → SetupCall
  set_battery_level : ℕ → SetupCall
  set_value : ReportKind → (id : ℕ) → (bytes : List ℕ) → SetupCall
  set_advertising_data : (name : String) (appearance : ℕ) → SetupCall
  start_advertising : SetupCall

-- The calls, where none fails; the argument is `COMPOSITE_REPORT_DESCRIPTOR`.
abbrev pub setup_calls : List ℕ → List SetupCall
setup_calls composite_report_descriptor =
    set_device_name device_name
    ∷ bond_without_io
    ∷ on_connect_set
    ∷ on_disconnect_set
    ∷ new_report input_report reportid_keyboard
    ∷ new_report output_report reportid_keyboard
    ∷ new_report input_report reportid_consumer
    ∷ new_report input_report reportid_multitouch
    ∷ new_report feature_report reportid_reportmode
    ∷ new_report feature_report reportid_funcswitch
    ∷ new_report feature_report reportid_device_caps
    ∷ new_report feature_report reportid_ptphqa
    ∷ on_write_set output_report reportid_keyboard
    ∷ report_map composite_report_descriptor
    ∷ manufacturer "esp32-universal-control"
    ∷ pnp pnp_sig_usb vendor_id product_id device_version
    ∷ hid_info hid_country_not_localized hid_flags_normally_connectable
    ∷ set_battery_level battery_level_full
    ∷ set_value feature_report reportid_device_caps device_caps
    ∷ set_value feature_report reportid_ptphqa ptphqa_blob
    ∷ on_write_set feature_report reportid_reportmode
    ∷ set_advertising_data device_name appearance_hid
    ∷ start_advertising
    ∷ []

-- The calls whose error leaves `init`.
abbrev pub is_fallible : SetupCall → Bool
is_fallible (set_device_name name) = true
is_fallible (set_advertising_data name appearance) = true
is_fallible start_advertising = true
is_fallible bond_without_io = false
is_fallible on_connect_set = false
is_fallible on_disconnect_set = false
is_fallible (new_report kind id) = false
is_fallible (on_write_set kind id) = false
is_fallible (report_map bytes) = false
is_fallible (manufacturer name) = false
is_fallible (pnp sig vendor product version) = false
is_fallible (hid_info country flags) = false
is_fallible (set_battery_level level) = false
is_fallible (set_value kind id bytes) = false

-- The calls that are made, and whether `init` succeeds, by NimBLE's answers.
abbrev pub init :
    (succeeds : SetupCall → Bool) → (composite_report_descriptor : List ℕ) → List SetupCall × Bool
init succeeds composite_report_descriptor =
    run_calls is_fallible succeeds (setup_calls composite_report_descriptor)
