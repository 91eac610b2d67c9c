-- ===== src/Firmware/Main/Tests.antt =====
-- Connections that come and go, by the callbacks of firmware/src/ble_hid.rs.
use esp32_universal_control.Base.{arith, refl, List, [], ◌∷◌}
use esp32_universal_control.Protocol.Wire.{Address}
use esp32_universal_control.Firmware.Ble.{Callback, opened, closed, written, channel}
use esp32_universal_control.Firmware.Session.{new_session}
use esp32_universal_control.Firmware.Session.Valid.{Returns}
use esp32_universal_control.Firmware.Main.{drain_events}
use esp32_universal_control.Firmware.Main.Connections.{open_after_all}
use esp32_universal_control.Firmware.Main.Peers.{IsMirror, callbacks-IsMirror}

abbrev laptop : Address
laptop = 1 ∷ 2 ∷ 3 ∷ 4 ∷ 5 ∷ 6 ∷ []

abbrev phone : Address
phone = 6 ∷ 5 ∷ 4 ∷ 3 ∷ 2 ∷ 1 ∷ []

-- A handle that has become free is given again.
abbrev come_and_go : List Callback
come_and_go =
    opened 1 0 laptop ∷ opened 2 1 phone ∷ written (2 ∷ []) ∷ closed 0 ∷ opened 2 0 phone ∷ []

new_session-IsMirror : IsMirror new_session []
unfolding new_session
new_session-IsMirror = record {
  four = refl;
  once = tt;
  same = λ handle. refl;
  as_many = refl;
  are_once = tt;
}

callbacks-IsMirror_example :
    Returns
      (drain_events new_session (channel 3 come_and_go))
      (λ s' _. IsMirror s' (open_after_all [] come_and_go))
callbacks-IsMirror_example =
    callbacks-IsMirror 3 come_and_go new_session []
      ((refl, omega arith), ((refl, omega arith), (tt, (tt, ((refl, omega arith), tt)))))
      new_session-IsMirror
