-- ===== src/Firmware/Ble/Tests.antt =====
-- `init` of firmware/src/ble_hid.rs, and the length of a report.
use esp32_universal_control.Base.{
  run_calls, ◌*◌, ◌≡◌, refl, true, false, some, [], ◌∷◌, any, length,
}
use esp32_universal_control.Protocol.Ptp.{default_report}
use esp32_universal_control.Firmware.Descriptor.Parser.{standard_tags}
use esp32_universal_control.Firmware.Ble.Setup.{set_device_name, device_name, init}
use esp32_universal_control.Firmware.Ble.Values.{
  touch_value, kind_of, bytes_of, is_registered, declared_width, every_value_fits,
}

-- Nothing is called after the name is refused.
name_refused : init (λ call. false) [] ≡ (set_device_name device_name ∷ [], false)
unfolding run_calls
name_refused = refl

every_value_fits_example :
    (any (is_registered (kind_of (touch_value default_report)) 5) (init (λ call. true) []).0 ≡ true)
    × (declared_width standard_tags (kind_of (touch_value default_report)) 5
        ≡ some (8 * length (bytes_of (touch_value default_report))))
unfolding run_calls
every_value_fits_example =
    every_value_fits standard_tags (λ call. true) [] (touch_value default_report) refl refl refl
