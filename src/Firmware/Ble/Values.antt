-- ===== src/Firmware/Ble/Values.antt =====
-- The values of the report characteristics of firmware/src/ble_hid.rs against the report descriptor.
use esp32_universal_control.Base.{
  makes_all, ℕ, ◌+◌, ◌*◌, ◌≡◌, refl, ap, ◌∙◌, Bool, true, false, Option, some, List, [], ◌∷◌, ◌++◌,
  length, length-append, any, ◌==◌, ◌&&◌, ◌>>=◌, arith,
}
use esp32_universal_control.Protocol.Keyboard.{KeyboardReport, reportid_keyboard, reportid_consumer}
use esp32_universal_control.Protocol.Ptp.{PtpContact, PtpReport}
use esp32_universal_control.Firmware.Reports.{
  keyboard_bytes, consumer_bytes, contacts_bytes, touch_bytes,
}
use esp32_universal_control.Firmware.Descriptor.Tags.{HidTags}
use esp32_universal_control.Firmware.Descriptor.Keyboard.{HidItem, keyboard_consumer_items}
use esp32_universal_control.Firmware.Descriptor.Build.{ptp_bytes}
use esp32_universal_control.Firmware.Descriptor.Fragments.{
  reportid_multitouch, reportid_device_caps, reportid_ptphqa,
}
use esp32_universal_control.Firmware.Descriptor.Parser.{
  standard_tags, Piece, width_of, start, main_pieces, parse_items, scan_items,
}
use esp32_universal_control.Firmware.Ble.Blob.{device_caps, ptphqa_blob}
use esp32_universal_control.Firmware.Ble.Setup.{
  ReportKind, input_report, output_report, feature_report, SetupCall, new_report, setup_calls,
  is_fallible, init,
}

-- What the firmware notifies or loads, and the byte of the lamps that a peer writes.
pub data Value : Type 0 where
  keyboard_value : KeyboardReport → Value
  consumer_value : ℕ → Value
  touch_value : PtpReport → Value
  caps_value : Value
  ptphqa_value : Value
  leds_value : ℕ → Value

abbrev pub kind_of : Value → ReportKind
kind_of (keyboard_value report) = input_report
kind_of (consumer_value bits) = input_report
kind_of (touch_value report) = input_report
kind_of caps_value = feature_report
kind_of ptphqa_value = feature_report
kind_of (leds_value bits) = output_report

abbrev pub id_of : Value → ℕ
id_of (keyboard_value report) = reportid_keyboard
id_of (consumer_value bits) = reportid_consumer
id_of (touch_value report) = reportid_multitouch
id_of caps_value = reportid_device_caps
id_of ptphqa_value = reportid_ptphqa
id_of (leds_value bits) = reportid_keyboard

abbrev pub bytes_of : Value → List ℕ
bytes_of (keyboard_value report) = keyboard_bytes report
bytes_of (consumer_value bits) = consumer_bytes bits
bytes_of (touch_value report) = touch_bytes report
bytes_of caps_value = device_caps
bytes_of ptphqa_value = ptphqa_blob
bytes_of (leds_value bits) = bits ∷ []

-- The arrays have the lengths of their types.
abbrev pub IsWhole : Value → Type 0
IsWhole (keyboard_value report) = length report.keycodes ≡ 6
IsWhole (consumer_value bits) = Unit {0}
IsWhole (touch_value report) = length report.contacts ≡ 5
IsWhole caps_value = Unit {0}
IsWhole ptphqa_value = Unit {0}
IsWhole (leds_value bits) = Unit {0}

-- The tags of the standard for the kinds of reports.
abbrev pub main_tag : ReportKind → ℕ
main_tag input_report = 0x80
main_tag output_report = 0x90
main_tag feature_report = 0xb0

abbrev pub is_registered : ReportKind → ℕ → SetupCall → Bool
is_registered kind id (new_report kind' id') = main_tag kind == main_tag kind' && id == id'
is_registered kind id call = false

abbrev pub total_width : List Piece → ℕ
total_width [] = 0
total_width (piece ∷ pieces) = width_of piece + total_width pieces

length-contacts_bytes : (cs : List PtpContact) → length (contacts_bytes cs) ≡ 9 * length cs
length-contacts_bytes [] = refl
length-contacts_bytes (c ∷ cs) = omega (arith, length-contacts_bytes cs)

length-touch_bytes : (r : PtpReport) → length (touch_bytes r) ≡ 9 * length r.contacts + 4
length-touch_bytes r =
    length-append (contacts_bytes r.contacts) _ ∙ omega (arith, length-contacts_bytes r.contacts)

-- All items of the descriptor, those of the touchpad read from its bytes.
abbrev pub descriptor_items : HidTags → Option (List HidItem)
descriptor_items tags =
    parse_items (ptp_bytes tags) >>= λ items. some (keyboard_consumer_items tags ++ items)

abbrev pub declared_width : HidTags → ReportKind → ℕ → Option ℕ
declared_width tags kind id = descriptor_items tags >>= λ items.
    some (total_width (main_pieces (main_tag kind) id start items))

declared_lem :
    (v : Value)
    → IsWhole v
    → declared_width standard_tags (kind_of v) (id_of v) ≡ some (8 * length (bytes_of v))
unfolding parse_items scan_items main_pieces
declared_lem (keyboard_value report) whole = ap some (omega (arith, whole))
declared_lem (consumer_value bits) whole = refl
declared_lem (touch_value report) whole = ap some (omega (arith, whole, length-touch_bytes report))
declared_lem caps_value whole = refl
declared_lem ptphqa_value whole = refl
declared_lem (leds_value bits) whole = refl

registered_lem :
    (descriptor : List ℕ) (v : Value)
    → any (is_registered (kind_of v) (id_of v)) (setup_calls descriptor) ≡ true
registered_lem descriptor (keyboard_value report) = refl
registered_lem descriptor (consumer_value bits) = refl
registered_lem descriptor (touch_value report) = refl
registered_lem descriptor caps_value = refl
registered_lem descriptor ptphqa_value = refl
registered_lem descriptor (leds_value bits) = refl

-- Every value fits its characteristic: where `init` succeeds it has created a report of the value's
-- kind and number, and the bytes of the value have exactly the length that the report descriptor
-- declares for this report. The values are the three reports that are notified, with arrays of the
-- lengths of their types, the two feature values that are loaded, and the byte of the keyboard's
-- lamps. The base tags have the standard's numbers.
pub every_value_fits :
    (tags : HidTags) (succeeds : SetupCall → Bool) (descriptor : List ℕ) (v : Value)
    → tags ≡ standard_tags
    → (init succeeds descriptor).1 ≡ true
    → IsWhole v
    → (any (is_registered (kind_of v) (id_of v)) (init succeeds descriptor).0 ≡ true)
      × (declared_width tags (kind_of v) (id_of v) ≡ some (8 * length (bytes_of v)))
every_value_fits tags succeeds descriptor v standard done whole = (
  ap (any (is_registered (kind_of v) (id_of v)))
        (makes_all is_fallible succeeds (setup_calls descriptor) done)
      ∙ registered_lem descriptor v,
  ap (λ ts. declared_width ts (kind_of v) (id_of v)) standard ∙ declared_lem v whole,
)
