-- ===== src/Link/Typing/Tests.antt =====
-- A key on the Mac, up to the peer's report.
use esp32_universal_control.Base.{◌≡◌, refl, true, none, some, List, [], ◌∷◌}
use esp32_universal_control.Protocol.Input.{KeyboardSnapshot}
use esp32_universal_control.Protocol.Keyboard.{default_keyboard_report, from_snapshot}
use esp32_universal_control.Protocol.Wire.{keyboard_state, touch_frame}
use esp32_universal_control.Firmware.Session.{
  new_session, handle_host_msg, type_keys, store_touch, flush_touch_if_due, flush_active, flush_to,
  send_report, after_notify,
}
use esp32_universal_control.Protocol.Ptp.{encode}
use esp32_universal_control.Firmware.Session.Tests.{
  two_peers, two_peers-IsValid, touching_frame, sending_stack,
}
use esp32_universal_control.Firmware.Session.Stream.{Action, from_host, flush_at}
use esp32_universal_control.Host.Slots.{SlotTable}
use esp32_universal_control.Host.Keyboard.{
  Event, EventFlags, default_capture, on_event, on_key_down, handle_slot_hotkey, handle_key,
  update_hid_key_state, press_key,
}
use esp32_universal_control.Host.Keymap.{mac_to_hid, mac_to_hid_table, mac_to_consumer}
use esp32_universal_control.Host.Keyboard.Chord.{key_event, on_events}
use esp32_universal_control.Host.Keyboard.Telling.{messages, forwarding_all, held_by}
use esp32_universal_control.Link.Typing.{Holds, typed, done}
use esp32_universal_control.Firmware.Reports.{Notifier}
use esp32_universal_control.Firmware.Session.Keys.{Shown, serve, Ends, Shows}
use esp32_universal_control.Link.Typing.Delivered.{typing-Holds}

abbrev mac_flags : EventFlags
mac_flags = record { control = 0x40000; shift = 0x20000; alternate = 0x80000; command = 0x100000 }

abbrev table_a : SlotTable
table_a = record {
  slots = some (1 ∷ 2 ∷ 3 ∷ 4 ∷ 5 ∷ 6 ∷ []) ∷ none ∷ none ∷ none ∷ [];
  active = some 0;
  forwarding = true;
}

-- The key A goes down.
abbrev key_a : List (SlotTable × Event)
key_a = (table_a, key_event true 0x00) ∷ []

abbrev snapshot_a : KeyboardSnapshot
snapshot_a = record { modifiers = 0; keys = 4 ∷ 0 ∷ 0 ∷ 0 ∷ 0 ∷ 0 ∷ [] }

-- A stack whose notifications are sent, and one whose fail.
abbrev sending_notifier : Notifier
sending_notifier = record {
  notify_keyboard = λ bytes conn_handle. none;
  notify_consumer = λ bytes conn_handle. none;
}

abbrev failing_notifier : Notifier
failing_notifier = record {
  notify_keyboard = λ bytes conn_handle. some 6;
  notify_consumer = λ bytes conn_handle. some 6;
}

abbrev actions : List (Action × Notifier)
actions =
    (from_host 1 (touch_frame touching_frame), failing_notifier)
    ∷ (from_host 2 (keyboard_state snapshot_a), sending_notifier)
    ∷ (flush_at 100 sending_stack, failing_notifier)
    ∷ []

pushed_a :
    typed (done actions) ≡ messages (on_events mac_flags default_capture (forwarding_all key_a)).1
unfolding on_events on_event on_key_down handle_slot_hotkey handle_key update_hid_key_state
    press_key mac_to_hid mac_to_hid_table mac_to_consumer
pushed_a = refl

abbrev nothing_shown : Shown
nothing_shown = record {
  keys = default_keyboard_report;
  keys_sent = true;
  bits = 0;
  bits_sent = true;
}

starts : Holds 7 (held_by default_capture) two_peers
unfolding new_session
starts = (two_peers-IsValid, refl, refl)

typing-Holds_example : Ends (serve 7 two_peers nothing_shown actions) (λ s' shown'.
    let held = held_by (on_events mac_flags default_capture (forwarding_all key_a)).0 in
    Holds 7 held s' × Shows held shown')
typing-Holds_example =
    typing-Holds mac_flags key_a default_capture 7 actions two_peers nothing_shown
      (tt, (tt, (tt, tt))) pushed_a starts (λ sent. refl, λ sent. refl)

-- The peer has the key A after the run.
peer_shows_a :
    Ends
      (serve 7 two_peers nothing_shown actions)
      (λ s' shown'. (shown'.keys ≡ from_snapshot snapshot_a) × (shown'.keys_sent ≡ true))
unfolding serve handle_host_msg type_keys store_touch flush_touch_if_due flush_active flush_to
    send_report after_notify encode new_session
peer_shows_a = (refl, refl)
