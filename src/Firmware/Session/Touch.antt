-- ===== src/Firmware/Session/Touch.antt =====
-- How `flush_touch_if_due` of firmware/src/session.rs paces touch reports, and what becomes of a
-- frame that the BLE stack is too busy for.
use esp32_universal_control.Base.{
  subst, ℕ, ◌+◌, ◌^◌, ◌≤◌, ◌<◌, ◌≡◌, ◌≢◌, refl, ap, ◌∙◌, true, false, Option, none, some, List, [],
  ◌∷◌, ◌⊎◌, arith, map, ◌>>=◌,
}
use esp32_universal_control.Protocol.Input.{TouchFrame, populated}
use esp32_universal_control.Protocol.Ptp.{
  PtpReport, TouchReportEncoder, TrackedContact, new_encoder, encode,
}
use esp32_universal_control.Protocol.Ptp.Spec.{as_lifted, report_if_any, report_with}
use esp32_universal_control.Protocol.Ptp.Encode.{contacts_of}
use esp32_universal_control.Protocol.Ptp.Lifts.{encode_released, encode-IsEncoder}
use esp32_universal_control.Firmware.Ble.{BleStack, has_connection}
use esp32_universal_control.Firmware.Session.{
  Outcome, Session, Effect, flush_touch_if_due, send_report, after_notify, active_conn_handle,
  scan_time_from_us,
}
use esp32_universal_control.Firmware.Session.Valid.{IsValid, Returns}

-- A peer is active, its connection is open, and a frame waits whose time has come.
pub record IsDue (ble : BleStack) (now : ℕ) (s : Session) (conn_handle : ℕ) : Type 0 where
  pub active : active_conn_handle s ≡ some (some conn_handle)
  pub waiting : s.touch_dirty ≡ true
  pub alive : has_connection ble conn_handle ≡ true
  pub due : s.next_touch_send_at_us ≤ now

flush_due :
    (ble : BleStack) (now : ℕ) (s : Session) (conn_handle : ℕ)
    → IsDue ble now s conn_handle
    → flush_touch_if_due ble now s ≡ (
        encode s.touch s.latest_touch (scan_time_from_us now) >>= λ result.
        some (send_report ble now conn_handle (record s { touch = result.0 }) result.1))
unfolding flush_touch_if_due
flush_due ble now s conn_handle d = ground arith

-- Before the time has come a flush does nothing.
pub flush_early :
    (ble : BleStack) (now : ℕ) (s : Session) (conn_handle : ℕ)
    → active_conn_handle s ≡ some (some conn_handle)
    → has_connection ble conn_handle ≡ true
    → now < s.next_touch_send_at_us
    → flush_touch_if_due ble now s ≡ some (s, [])
unfolding flush_touch_if_due
flush_early ble now s conn_handle active alive early = ground arith

returned :
    {s : Session} {effects : List Effect} {o : Outcome} (P : Session → List Effect → Type 0)
    → o ≡ some (s, effects)
    → Returns o P
    → P s effects
returned P e p = subst (λ o. Returns o P) e p

-- The stack answers that it is busy.
abbrev pub IsBusy : BleStack → Option ℕ → Type 0
IsBusy ble none = ⊥
IsBusy ble (some code) = (code ≡ ble.enomem) ⊎ (code ≡ ble.ebusy)

busy-after_notify :
    (ble : BleStack) (now : ℕ) (s : Session) (answer : Option ℕ)
    → IsBusy ble answer
    → let s' = after_notify ble now s answer in
      (s'.touch ≡ s.touch)
      × (s'.touch_dirty ≡ s.touch_dirty)
      × (s'.latest_touch ≡ s.latest_touch)
      × (s'.peers ≡ s.peers)
      × (s'.active_slot ≡ s.active_slot)
unfolding after_notify
busy-after_notify ble now s none b = absurd b
busy-after_notify ble now s (some code) b = ground arith

-- The result of a flush that is due, by what the encoder gives.
pub flush_encoded :
    (P : Session → List Effect → Type 0) (ble : BleStack) (now : ℕ) (s : Session) (conn_handle : ℕ)
    (e : TouchReportEncoder) (report : Option PtpReport)
    → IsDue ble now s conn_handle
    → encode s.touch s.latest_touch (scan_time_from_us now) ≡ some (e, report)
    → (let (s', effects) = send_report ble now conn_handle (record s { touch = e }) report in
        P s' effects)
    → Returns (flush_touch_if_due ble now s) P
flush_encoded P ble now s conn_handle e report d runs p =
    rw (flush_due ble now s conn_handle d, runs) p

-- After a report that is sent, a flush before 8 ms have passed changes nothing.
paced :
    (ble : BleStack) (now : ℕ) (s : Session) (conn_handle : ℕ)
    → IsValid s
    → IsDue ble now s conn_handle
    → now < 2 ^ 63
    → ((r : PtpReport) → ble.notify_touch conn_handle r ≡ none)
    → Returns (flush_touch_if_due ble now s) (λ s' effects.
      (effects ≢ [])
      → (ble' : BleStack) (later : ℕ) (frame : TouchFrame) → has_connection ble' conn_handle ≡ true
      → later < now + 8000
      → let s'' : Session = record s' { latest_touch = frame; touch_dirty = true } in
        flush_touch_if_due ble' later s'' ≡ some (s'', []))
unfolding send_report after_notify
paced ble now s conn_handle v d small sends =
    let (e', report, runs, _, _, _) =
      encode-IsEncoder s.touch s.latest_touch (scan_time_from_us now) v.encoder in
    flush_encoded _ ble now s conn_handle e' report d runs (by_report e' report)
  where
    by_report :
        (e' : TouchReportEncoder) (report : Option PtpReport)
        → let (s', effects) = send_report ble now conn_handle (record s { touch = e' }) report in
          (effects ≢ [])
          → (ble' : BleStack) (later : ℕ) (frame : TouchFrame)
          → has_connection ble' conn_handle ≡ true
          → later < now + 8000
          → let s'' : Session = record s' { latest_touch = frame; touch_dirty = true } in
            flush_touch_if_due ble' later s'' ≡ some (s'', [])
    by_report e' none ne ble' later frame alive early = absurd (ne refl)
    by_report e' (some r) ne ble' later frame alive early =
        rw (sends r) (flush_early ble' later _ conn_handle d.active alive (omega arith))

-- Once a report has gone out to a connection on which the stack sends, no other goes out for 8 ms,
-- whatever frame the host sends meanwhile: a flush before then, on the same connection still open,
-- changes nothing. The clock is below 2 ^ 63, as the timer's is.
pub flush_paced :
    (ble ble' : BleStack) (now later : ℕ) (s s' : Session) (effects : List Effect) (conn_handle : ℕ)
    (frame : TouchFrame)
    → IsValid s
    → IsDue ble now s conn_handle
    → now < 2 ^ 63
    → ((r : PtpReport) → ble.notify_touch conn_handle r ≡ none)
    → flush_touch_if_due ble now s ≡ some (s', effects)
    → effects ≢ []
    → has_connection ble' conn_handle ≡ true
    → later < now + 8000
    → let s'' : Session = record s' { latest_touch = frame; touch_dirty = true } in
      flush_touch_if_due ble' later s'' ≡ some (s'', [])
flush_paced ble ble' now later s s' effects conn_handle frame v d small sends runs sent alive
      early =
    returned _ runs (paced ble now s conn_handle v d small sends) sent ble' later frame alive early

-- With the fingers forgotten, an empty frame counts as handled and nothing is sent.
retry_sends_nothing :
    (ble : BleStack) (now : ℕ) (s : Session) (conn_handle : ℕ)
    → IsDue ble now s conn_handle
    → s.touch ≡ new_encoder
    → populated s.latest_touch ≡ []
    → Returns
        (flush_touch_if_due ble now s)
        (λ s' effects. (effects ≡ []) × (s'.touch_dirty ≡ false) × (contacts_of s'.touch ≡ []))
unfolding send_report
retry_sends_nothing ble now s conn_handle d forgotten empty =
    flush_encoded _ ble now s conn_handle new_encoder none d
      (rw forgotten (encode_released new_encoder s.latest_touch (scan_time_from_us now) refl empty))
      (refl, refl, refl)

-- The first flush loses the fingers, and any retry then sends nothing.
lift_lost :
    (ble : BleStack) (now : ℕ) (s : Session) (conn_handle : ℕ)
    → IsValid s
    → IsDue ble now s conn_handle
    → populated s.latest_touch ≡ []
    → contacts_of s.touch ≢ []
    → ((r : PtpReport) → IsBusy ble (ble.notify_touch conn_handle r))
    → Returns (flush_touch_if_due ble now s) (λ s₁ effects.
      (s₁.touch_dirty ≡ true)
      × (effects ≢ [])
      × ((ble' : BleStack) (later : ℕ)
          → IsDue ble' later s₁ conn_handle
          → Returns
              (flush_touch_if_due ble' later s₁)
              (λ s₂ retry. (retry ≡ []) × (s₂.touch_dirty ≡ false) × (contacts_of s₂.touch ≡ []))))
unfolding send_report
lift_lost ble now s conn_handle v d empty tracked busy =
    flush_encoded _ ble now s conn_handle new_encoder (report (contacts_of s.touch)) d
      (encode_released s.touch s.latest_touch (scan_time_from_us now) v.encoder empty)
      (lifting (contacts_of s.touch) tracked)
  where
    report : List TrackedContact → Option PtpReport
    report cs = report_if_any s.latest_touch (scan_time_from_us now) (map as_lifted cs)

    lifting :
        (cs : List TrackedContact)
        → cs ≢ []
        → let (s₁, effects) =
            send_report ble now conn_handle (record s { touch = new_encoder }) (report cs) in
          (s₁.touch_dirty ≡ true)
          × (effects ≢ [])
          × ((ble' : BleStack) (later : ℕ)
              → IsDue ble' later s₁ conn_handle
              → Returns (flush_touch_if_due ble' later s₁) (λ s₂ retry.
                (retry ≡ []) × (s₂.touch_dirty ≡ false) × (contacts_of s₂.touch ≡ [])))
    lifting [] ne = absurd (ne refl)
    lifting (c ∷ cs) ne =
        let r = report_with s.latest_touch (scan_time_from_us now) (map as_lifted (c ∷ cs)) in
        let (same, dirty, frame, _, _) =
          busy-after_notify ble now (record s { touch = new_encoder })
            (ble.notify_touch conn_handle r) (busy r) in
        (
          dirty ∙ d.waiting,
          (λ e. cc),
          λ ble' later d'.
              retry_sends_nothing ble' later _ conn_handle d' same (ap populated frame ∙ empty),
        )

-- A lift can be lost. On a well-formed session a frame with no finger waits and is due, some
-- fingers are followed, and the stack is busy when the report goes out that lifts them. Then the
-- frame waits on for a retry, but at any retry that is due on that connection, whatever the
-- stack is then, nothing is sent, the frame counts as handled, and no finger is followed any
-- more.
pub busy_loses_lift :
    (ble ble' : BleStack) (now later : ℕ) (s s₁ : Session) (effects : List Effect) (conn_handle : ℕ)
    → IsValid s
    → IsDue ble now s conn_handle
    → populated s.latest_touch ≡ []
    → contacts_of s.touch ≢ []
    → ((r : PtpReport) → IsBusy ble (ble.notify_touch conn_handle r))
    → flush_touch_if_due ble now s ≡ some (s₁, effects)
    → IsDue ble' later s₁ conn_handle
    → (s₁.touch_dirty ≡ true)
      × (effects ≢ [])
      × Returns
          (flush_touch_if_due ble' later s₁)
          (λ s₂ retry. (retry ≡ []) × (s₂.touch_dirty ≡ false) × (contacts_of s₂.touch ≡ []))
busy_loses_lift ble ble' now later s s₁ effects conn_handle v d empty tracked busy runs d' =
    let (dirty, tried, retries) =
      returned _ runs (lift_lost ble now s conn_handle v d empty tracked busy) in
    (dirty, tried, retries ble' later d')
