-- ===== src/Firmware/Session/Stream/Steps.antt =====
-- One step of the session of firmware/src/session.rs and of the peer that its reports reach.
use esp32_universal_control.Base.{
  ℕ, ◌^◌, ◌≤◌, ◌<◌, ◌≡◌, refl, sym, ap, subst, ◌∙◌, Bool, true, false, Option, none, some, inl, inr,
  List, [], ◌∷◌, ◌==◌, ltb, arith, Bool-cases, ==_iff,
}
use esp32_universal_control.Protocol.Input.{KeyboardSnapshot}
use esp32_universal_control.Protocol.Wire.{
  HostMsg, hello, select_peer, keyboard_state, consumer_state, touch_frame, protocol_version,
}
use esp32_universal_control.Protocol.Ptp.{PtpReport, TouchReportEncoder}
use esp32_universal_control.Protocol.Ptp.Spec.{reported, report_if_any}
use esp32_universal_control.Protocol.Ptp.Encode.{contacts_of, encode_lem}
use esp32_universal_control.Protocol.Ptp.Receiver.{receive, touches}
use esp32_universal_control.Protocol.Ptp.Delivery.{tracks}
use esp32_universal_control.Protocol.Ptp.Followed.{followed_touching}
use esp32_universal_control.Protocol.Ptp.Following.{
  Follows, after, contacts_of-after, receive-Follows,
}
use esp32_universal_control.Firmware.Ble.{BleStack}
use esp32_universal_control.Firmware.Session.{
  Session, Effect, touch_report, handle_host_msg, greet, flush_touch_if_due, flush_active,
  send_report, after_notify, scan_time_from_us,
}
use esp32_universal_control.Firmware.Session.Valid.{Returns}
use esp32_universal_control.Firmware.Session.Snapshot.{snapshot_lem}
use esp32_universal_control.Firmware.Session.Touch.{flush_early, flush_encoded}
use esp32_universal_control.Firmware.Session.Stream.{
  Action, from_host, flush_at, handle_action, receive_at, IsSteady, InStep, Returns-weaken,
}

-- What the host knows, the keys and the consumer bits do not matter.
other-InStep :
    (conn_handle latest : ℕ) (s : Session) (down : ℕ → Bool) (ready : Bool)
    (keys : KeyboardSnapshot) (bits : ℕ)
    → InStep conn_handle latest s down
    → InStep conn_handle latest
        (record s { host_ready = ready; keyboard = keys; consumer = bits })
        down
other-InStep conn_handle latest s down ready keys bits i = record {
  valid = record { four = i.valid.four; active = i.valid.active; encoder = i.valid.encoder };
  active = i.active;
  follows = i.follows;
  distinct = i.distinct;
  paced = i.paced;
  no_ghost = i.no_ghost;
}

greet-InStep :
    (conn_handle latest version : ℕ) (s : Session) (down : ℕ → Bool)
    → InStep conn_handle latest s down
    → Returns
        (greet s version)
        (λ s' effects. InStep conn_handle latest s' (receive_at conn_handle effects down))
unfolding greet
greet-InStep conn_handle latest version s down i = elim (Bool-cases (version == protocol_version)) [
  | inl same ↦
      rw (same, greet, snapshot_lem s i.valid.four)
        (other-InStep conn_handle latest s down true s.keyboard s.consumer i)
  | inr other ↦ rw (other, greet) i
]

-- A host message leaves the two in step.
pub message-InStep :
    (conn_handle latest now : ℕ) (msg : HostMsg) (s : Session) (down : ℕ → Bool)
    → IsSteady conn_handle latest (from_host now msg)
    → InStep conn_handle latest s down
    → Returns
        (handle_host_msg now s msg)
        (λ s' effects. InStep conn_handle latest s' (receive_at conn_handle effects down))
unfolding handle_host_msg
message-InStep conn_handle latest now (hello version) s down q i =
    greet-InStep conn_handle latest version s down i
message-InStep conn_handle latest now (select_peer slot) s down q i = absurd q
message-InStep conn_handle latest now (keyboard_state keys) s down q i =
    rw i.active (other-InStep conn_handle latest s down s.host_ready keys s.consumer i)
message-InStep conn_handle latest now (consumer_state bits) s down q i =
    rw i.active (other-InStep conn_handle latest s down s.host_ready s.keyboard bits i)
message-InStep conn_handle latest now (touch_frame frame) s down q i = rw i.active (record {
  valid = record { four = i.valid.four; active = i.valid.active; encoder = i.valid.encoder };
  active = i.active;
  follows = i.follows;
  distinct = q;
  paced = i.paced;
  no_ghost = λ clean. absurd (cc);
})

-- After a flush the two are in step, the latest frame is the same, and it no longer waits if its
-- time had come.
abbrev pub Flushed :
    (conn_handle latest now : ℕ) → Session → (ℕ → Bool) → Session → List Effect → Type 0
Flushed conn_handle latest now s down s' effects =
    InStep conn_handle latest s' (receive_at conn_handle effects down)
    × (s'.latest_touch ≡ s.latest_touch)
    × (s.next_touch_send_at_us ≤ now → s'.touch_dirty ≡ false)

receive_at_own :
    (conn_handle : ℕ) (r : PtpReport) (down : ℕ → Bool)
    → receive_at conn_handle (touch_report conn_handle r ∷ []) down ≡ receive (some r) down
receive_at_own conn_handle r down =
    ap {B = ℕ → Bool} (λ own. elim own [ true ↦ receive (some r) down | false ↦ down ])
      ((==_iff conn_handle conn_handle).1 refl)

-- What the encoder gives is sent, and the frame is handled.
send_report-InStep :
    (conn_handle latest now : ℕ) (ble : BleStack) (s : Session) (down : ℕ → Bool)
    (e : TouchReportEncoder) (report : Option PtpReport)
    → latest < 2 ^ 63
    → IsSteady conn_handle latest (flush_at now ble)
    → InStep conn_handle latest s down
    → Follows e (receive report down)
    → ((id : ℕ) → receive report down id ≡ true → touches s.latest_touch id ≡ true)
    → let (s', effects) = send_report ble now conn_handle (record s { touch = e }) report in
      Flushed conn_handle latest now s down s' effects
unfolding send_report after_notify
send_report-InStep conn_handle latest now ble s down e none small q i follows ghosts = (
  record {
    valid = record { four = i.valid.four; active = i.valid.active; encoder = follows.0 };
    active = i.active;
    follows = follows;
    distinct = i.distinct;
    paced = omega arith;
    no_ghost = λ clean. ghosts;
  },
  refl,
  λ due. refl,
)
send_report-InStep conn_handle latest now ble s down e (some r) small q i follows ghosts =
    let own = sym (receive_at_own conn_handle r down) in
    rw (q.2 r) (
      record {
        valid = record { four = i.valid.four; active = i.valid.active; encoder = follows.0 };
        active = i.active;
        follows = subst (Follows e) own follows;
        distinct = i.distinct;
        paced = omega (arith, q.0);
        no_ghost = λ clean.
            subst (λ d. (id : ℕ) → d id ≡ true → touches s.latest_touch id ≡ true) own ghosts;
      },
      refl,
      λ due. refl,
    )

pub flush-InStep :
    (conn_handle latest now : ℕ) (ble : BleStack) (s : Session) (down : ℕ → Bool)
    → latest < 2 ^ 63
    → IsSteady conn_handle latest (flush_at now ble)
    → InStep conn_handle latest s down
    → Returns (flush_touch_if_due ble now s) (Flushed conn_handle latest now s down)
unfolding flush_touch_if_due
flush-InStep conn_handle latest now ble s down small q i = elim (Bool-cases s.touch_dirty) [
  | inr clean ↦ rw (i.active, flush_active, clean) (i, refl, λ due. clean)
  | inl dirty ↦ elim (Bool-cases (ltb now s.next_touch_send_at_us)) [
    | inl early ↦
        rw (flush_early ble now s conn_handle i.active q.1 (ground arith))
          (i, refl, λ due. absurd (ground arith))
    | inr late ↦
        let cs = contacts_of s.touch in
        let t = scan_time_from_us now in
        let report = report_if_any s.latest_touch t (reported s.latest_touch cs) in
        let follows = receive-Follows s.touch s.latest_touch t down i.distinct i.follows in
        flush_encoded (Flushed conn_handle latest now s down) ble now s conn_handle
          (after s.touch s.latest_touch) report
          (record { active = i.active; waiting = dirty; alive = q.1; due = ground arith })
          (encode_lem s.touch s.latest_touch t i.valid.encoder)
          (send_report-InStep conn_handle latest now ble s down (after s.touch s.latest_touch)
            report small q i follows
            (λ id there. followed_touching s.latest_touch cs id (
              ap (λ ts. tracks ts id) (sym (contacts_of-after s.touch s.latest_touch))
              ∙ sym (follows.2 id)
              ∙ there)))
  ]
]

pub action-InStep :
    (conn_handle latest : ℕ) (action : Action) (s : Session) (down : ℕ → Bool)
    → latest < 2 ^ 63
    → IsSteady conn_handle latest action
    → InStep conn_handle latest s down
    → Returns
        (handle_action s action)
        (λ s' effects. InStep conn_handle latest s' (receive_at conn_handle effects down))
action-InStep conn_handle latest (from_host now msg) s down small q i =
    message-InStep conn_handle latest now msg s down q i
action-InStep conn_handle latest (flush_at now ble) s down small q i =
    Returns-weaken (Flushed conn_handle latest now s down) _ (flush_touch_if_due ble now s)
      (flush-InStep conn_handle latest now ble s down small q i) (λ s' effects f. f.0)
