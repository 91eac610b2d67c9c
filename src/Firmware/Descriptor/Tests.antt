-- ===== src/Firmware/Descriptor/Tests.antt =====
-- The report descriptor of firmware/src/hid_descriptor.rs with the tags of the HID standard.
use esp32_universal_control.Base.{
  ℕ, ◌+◌, ◌≡◌, refl, some, List, [], ◌∷◌, replicate, length, ◌>>=◌, ◌++◌, arith,
}
use esp32_universal_control.Protocol.Ptp.{PtpReport, default_contact}
use esp32_universal_control.Firmware.Reports.{keyboard_bytes, consumer_bytes, touch_bytes}
use esp32_universal_control.Firmware.Descriptor.{
  ptp_descriptor_len, build_ptp_descriptor, composite_report_descriptor,
}
use esp32_universal_control.Firmware.Descriptor.Build.{ptp_bytes, build_ptp_descriptor_lem}
use esp32_universal_control.Firmware.Descriptor.Composite.{composite_report_descriptor_lem}
use esp32_universal_control.Firmware.Descriptor.Keyboard.{HidItem, item, keyboard_consumer_items}
use esp32_universal_control.Firmware.Descriptor.Fragments.{reportid_multitouch}
use esp32_universal_control.Firmware.Descriptor.Parser.{
  standard_tags, start, main_pieces, report_pieces, read_report,
}
use esp32_universal_control.Protocol.Keyboard.{KeyboardReport}
use esp32_universal_control.Firmware.Descriptor.Bits.{bit_readings}
use esp32_universal_control.Firmware.Descriptor.KeyLayout.{
  modifier_usages, key_readings, read_report-keyboard_bytes,
}
use esp32_universal_control.Firmware.Descriptor.ConsumerLayout.{
  consumer_usages, read_report-consumer_bytes,
}
use esp32_universal_control.Firmware.Descriptor.Layout.{
  IsContact, IsReport, report_readings, read_report-touch_bytes,
}

standard_len : ptp_descriptor_len standard_tags ≡ 493
standard_len = refl

build_ptp_descriptor_lem_example :
    build_ptp_descriptor standard_tags ≡ some (ptp_bytes standard_tags)
build_ptp_descriptor_lem_example = build_ptp_descriptor_lem standard_tags

-- Short items, by the standard.
abbrev short_items : List HidItem → List ℕ
short_items [] = []
short_items (item tag bytes ∷ items) = (tag + length bytes) ∷ (bytes ++ short_items items)

composite_report_descriptor_lem_example :
    composite_report_descriptor short_items standard_tags
    ≡ some (short_items (keyboard_consumer_items standard_tags) ++ ptp_bytes standard_tags)
composite_report_descriptor_lem_example = composite_report_descriptor_lem short_items standard_tags

-- One finger down, with a wide identifier.
abbrev one_down : PtpReport
one_down = record {
  contacts =
      record { flags = 3; contact_id = 70000; x = 300; y = 7680 } ∷ replicate 4 default_contact;
  scan_time = 65535;
  contact_count = 1;
  button = 1;
}

default_contact-IsContact : IsContact default_contact
default_contact-IsContact = record {
  flags_u8 = omega arith;
  contact_id_u32 = omega arith;
  x_u16 = omega arith;
  y_u16 = omega arith;
}

one_down-IsReport : IsReport one_down
one_down-IsReport = record {
  five = refl;
  in_range = (
    record {
      flags_u8 = omega arith;
      contact_id_u32 = omega arith;
      x_u16 = omega arith;
      y_u16 = omega arith;
    },
    (
      default_contact-IsContact,
      (default_contact-IsContact, (default_contact-IsContact, (default_contact-IsContact, tt))),
    ),
  );
  scan_time_u16 = omega arith;
  contact_count_u8 = omega arith;
}

read_report-touch_bytes_example :
    (report_pieces reportid_multitouch (ptp_bytes standard_tags) >>= λ pieces.
    read_report pieces 0 0 (touch_bytes one_down))
    ≡ some (report_readings one_down)
read_report-touch_bytes_example =
    read_report-touch_bytes standard_tags one_down refl one_down-IsReport

-- Shift, and two keys.
abbrev shift_a_b : KeyboardReport
shift_a_b = record { modifiers = 2; reserved = 0; keycodes = 4 ∷ 5 ∷ 0 ∷ 0 ∷ 0 ∷ 0 ∷ [] }

read_report-keyboard_bytes_example :
    read_report
      (main_pieces 0x80 1 start (keyboard_consumer_items standard_tags))
      0
      0
      (keyboard_bytes shift_a_b)
    ≡ some (bit_readings 0x07 modifier_usages 2 ++ key_readings (4 ∷ 5 ∷ 0 ∷ 0 ∷ 0 ∷ 0 ∷ []))
read_report-keyboard_bytes_example =
    read_report-keyboard_bytes standard_tags shift_a_b refl (record {
      reserved_u8 = omega arith;
      six = refl;
      in_range = (
        omega arith,
        (omega arith, (omega arith, (omega arith, (omega arith, (omega arith, tt))))),
      );
    })

read_report-consumer_bytes_example :
    read_report
      (main_pieces 0x80 2 start (keyboard_consumer_items standard_tags))
      0
      0
      (consumer_bytes 48)
    ≡ some (bit_readings 0x0c consumer_usages 48)
read_report-consumer_bytes_example = read_report-consumer_bytes standard_tags 48 refl (omega arith)
