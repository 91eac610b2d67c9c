-- ===== src/Firmware/Session/Keys/Quiet.antt =====
-- The handlers of firmware/src/session.rs that send no report of the keys.
use esp32_universal_control.Base.{
  ℕ, ◌≡◌, refl, Option, none, some, inl, inr, List, [], ◌∷◌, ◌==◌, ◌||◌, ltb, Bool-cases, arith,
}
use esp32_universal_control.Protocol.Wire.{
  FirmwareMsg, protocol_error, invalid_peer_slot, protocol_version,
}
use esp32_universal_control.Protocol.Ptp.{PtpReport, TouchReportEncoder}
use esp32_universal_control.Protocol.Ptp.Lifts.{encode-IsEncoder}
use esp32_universal_control.Firmware.Ble.{BleStack, has_connection}
use esp32_universal_control.Firmware.Reports.{Notifier}
use esp32_universal_control.Firmware.Session.{
  Session, Effect, active_conn_handle, greet, refuse_slot, flush_touch_if_due, flush_to,
  send_report, after_notify, scan_time_from_us, if_ready,
}
use esp32_universal_control.Firmware.Session.Valid.{IsValid, Returns, flush_cases}
use esp32_universal_control.Firmware.Session.Snapshot.{snapshot_lem}
use esp32_universal_control.Firmware.Session.Keys.{Shown, show_at, held_in}

-- The session keeps its active connection and what it holds, and no peer is shown other keys.
abbrev pub Quiet : Session → Session → List Effect → Type 0
Quiet s s' effects =
    (active_conn_handle s' ≡ active_conn_handle s)
    × (held_in s' ≡ held_in s)
    × ((ble : Notifier) (conn_handle : ℕ) (shown : Shown)
        → show_at ble conn_handle effects shown ≡ shown)

after_notify-keeps :
    (ble : BleStack) (now : ℕ) (s : Session) (answer : Option ℕ)
    → (active_conn_handle (after_notify ble now s answer) ≡ active_conn_handle s)
      × (held_in (after_notify ble now s answer) ≡ held_in s)
unfolding after_notify
after_notify-keeps ble now s none = (refl, refl)
after_notify-keeps ble now s (some code) =
    elim (Bool-cases (code == ble.enomem || code == ble.ebusy)) [
      | inl busy ↦ rw busy (refl, refl)
      | inr gone ↦ rw gone (refl, refl)
    ]

send_report-Quiet :
    (ble : BleStack) (now conn_handle : ℕ) (s : Session) (e : TouchReportEncoder)
    (report : Option PtpReport)
    → let (s', effects) = send_report ble now conn_handle (record s { touch = e }) report in
      Quiet s s' effects
unfolding send_report
send_report-Quiet ble now conn_handle s e none = (refl, refl, λ n h shown. refl)
send_report-Quiet ble now conn_handle s e (some r) =
    let (kept, keys) =
      after_notify-keeps ble now (record s { touch = e }) (ble.notify_touch conn_handle r) in
    (kept, keys, λ n h shown. refl)

flush_to-Quiet :
    (ble : BleStack) (now : ℕ) (s : Session) (conn_handle : ℕ)
    → IsValid s
    → Returns (flush_to ble now s conn_handle) (Quiet s)
unfolding flush_to
flush_to-Quiet ble now s conn_handle v =
    let (e', report, runs, keeps, _, _) =
      encode-IsEncoder s.touch s.latest_touch (scan_time_from_us now) v.encoder in
    elim (Bool-cases (has_connection ble conn_handle)) [
      | inr closed ↦ rw (closed, flush_to) (refl, refl, λ n h shown. refl)
      | inl alive ↦ elim (Bool-cases (ltb now s.next_touch_send_at_us)) [
        | inl early ↦ rw (alive, early, flush_to) (refl, refl, λ n h shown. refl)
        | inr late ↦
            rw (alive, late, runs, flush_to) (send_report-Quiet ble now conn_handle s e' report)
      ]
    ]

pub flush-Quiet :
    (ble : BleStack) (now : ℕ) (s : Session)
    → IsValid s
    → Returns (flush_touch_if_due ble now s) (Quiet s)
flush-Quiet ble now s v =
    flush_cases (λ o. Returns o (Quiet s)) ble now s v (refl, refl, λ n h shown. refl)
      (λ conn_handle. flush_to-Quiet ble now s conn_handle v)

pub greet-Quiet : (s : Session) (version : ℕ) → IsValid s → Returns (greet s version) (Quiet s)
unfolding greet
greet-Quiet s version v = elim (Bool-cases (version == protocol_version)) [
  | inl same ↦ rw (same, greet, snapshot_lem s v.four) (refl, refl, λ n h shown. refl)
  | inr other ↦ rw (other, greet) (refl, refl, λ n h shown. refl)
]

-- What is shown does not depend on the messages to the host.
pub show-if_ready :
    (ble : Notifier) (conn_handle : ℕ) (s : Session) (msgs : List FirmwareMsg) (shown : Shown)
    → show_at ble conn_handle (if_ready s msgs) shown ≡ shown
show-if_ready ble conn_handle s [] shown = refl
show-if_ready ble conn_handle s (msg ∷ msgs) shown =
    ground (arith, show-if_ready ble conn_handle s msgs shown)

pub refuse_slot-Quiet : (s : Session) (slot : ℕ) → Returns (refuse_slot s slot) (Quiet s)
unfolding refuse_slot
refuse_slot-Quiet s slot = (
  refl,
  refl,
  λ ble h shown. show-if_ready ble h s (protocol_error (invalid_peer_slot slot) ∷ []) shown,
)
