-- ===== src/Protocol/Keyboard.antt =====
-- protocol/src/keyboard.rs: the boot keyboard report.
use esp32_universal_control.Base.{ℕ, List, replicate}
use esp32_universal_control.Protocol.Input.{KeyboardSnapshot}

pub record KeyboardReport : Type 0 where
  pub modifiers : ℕ
  pub reserved : ℕ
  pub keycodes : List ℕ

abbrev pub default_keyboard_report : KeyboardReport
default_keyboard_report = record { modifiers = 0; reserved = 0; keycodes = replicate 6 0 }

-- `From<KeyboardSnapshot>`.
abbrev pub from_snapshot : KeyboardSnapshot → KeyboardReport
from_snapshot snapshot = record {
  modifiers = snapshot.modifiers;
  reserved = 0;
  keycodes = snapshot.keys;
}

abbrev pub reportid_keyboard : ℕ
reportid_keyboard = 1

abbrev pub reportid_consumer : ℕ
reportid_consumer = 2
