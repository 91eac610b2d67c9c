-- ===== src/Firmware/Reports.antt =====
-- The bytes that firmware/src/ble_hid.rs notifies: `as_bytes` of the packed structs of
-- protocol/src/keyboard.rs and protocol/src/ptp.rs, and `to_le_bytes`, little-endian.
use esp32_universal_control.Base.{ℕ, ◌/◌, ◌%◌, Option, List, [], ◌∷◌, ◌++◌}
use esp32_universal_control.Protocol.Keyboard.{KeyboardReport}
use esp32_universal_control.Protocol.Ptp.{PtpContact, PtpReport}

abbrev pub le_bytes_u16 : ℕ → List ℕ
le_bytes_u16 n = n % 256 ∷ n / 256 % 256 ∷ []

abbrev pub le_bytes_u32 : ℕ → List ℕ
le_bytes_u32 n = n % 256 ∷ n / 256 % 256 ∷ n / 65536 % 256 ∷ n / 16777216 % 256 ∷ []

-- `as_bytes` of `send_keyboard_to`.
abbrev pub keyboard_bytes : KeyboardReport → List ℕ
keyboard_bytes report = report.modifiers ∷ report.reserved ∷ report.keycodes

-- `to_le_bytes` of `send_consumer_to`.
abbrev pub consumer_bytes : ℕ → List ℕ
consumer_bytes bits = le_bytes_u16 bits

abbrev pub contact_bytes : PtpContact → List ℕ
contact_bytes contact =
    contact.flags
    ∷ (le_bytes_u32 contact.contact_id ++ (le_bytes_u16 contact.x ++ le_bytes_u16 contact.y))

abbrev pub contacts_bytes : List PtpContact → List ℕ
contacts_bytes [] = []
contacts_bytes (contact ∷ contacts) = contact_bytes contact ++ contacts_bytes contacts

-- `send_touch_to`.
abbrev pub touch_bytes : PtpReport → List ℕ
touch_bytes report =
    contacts_bytes report.contacts
    ++ (le_bytes_u16 report.scan_time ++ report.contact_count ∷ report.button ∷ [])

-- NimBLE's `notify_with` on the two characteristics: the error, `none` if the bytes are sent.
pub record Notifier : Type 0 where
  pub notify_keyboard : List ℕ → (conn_handle : ℕ) → Option ℕ
  pub notify_consumer : List ℕ → (conn_handle : ℕ) → Option ℕ

-- The error that is logged; the caller does not see it.
abbrev pub send_keyboard_to : Notifier → (conn_handle : ℕ) → KeyboardReport → Option ℕ
send_keyboard_to ble conn_handle report = ble.notify_keyboard (keyboard_bytes report) conn_handle

abbrev pub send_consumer_to : Notifier → (conn_handle bits : ℕ) → Option ℕ
send_consumer_to ble conn_handle bits = ble.notify_consumer (consumer_bytes bits) conn_handle
