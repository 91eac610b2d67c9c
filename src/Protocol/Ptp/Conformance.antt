-- ===== src/Protocol/Ptp/Conformance.antt =====
-- The unit tests of protocol/src/ptp.rs, as statements about the model. `expect` is that `encode`
-- returns a report.
use esp32_universal_control.Base.{
  ℕ, ◌≡◌, refl, true, false, Option, none, some, ◌∷◌, replicate, get_elem?, any, ◌==◌, ◌&&◌, ◌>>=◌,
}
use esp32_universal_control.Protocol.Input.{
  TouchContact, default_touch_contact, TouchFrame, default_touch_frame,
}
use esp32_universal_control.Protocol.Ptp.{
  PtpReport, TouchReportEncoder, new_encoder, encode, finger_down, finger_up,
}

abbrev touch_contact : (contact_id x y : ℕ) → TouchContact
touch_contact contact_id x y = record {
  contact_id = contact_id;
  x = x;
  y = y;
  touching = true;
  confident = true;
}

-- A call of `encode` gives this encoder and this report.
abbrev Gives : TouchReportEncoder → TouchFrame → ℕ → TouchReportEncoder → Option PtpReport → Type 0
Gives encoder frame scan_time encoder' report =
    encode encoder frame scan_time ≡ some (encoder', report)

abbrev first_frame : TouchFrame
first_frame = record {
  contacts = touch_contact 7 4000 5000 ∷ replicate 4 default_touch_contact;
  contact_count = 1;
  button = false;
}

abbrev EmitsLiftFrameWhenContactDisappears : Type 0
EmitsLiftFrameWhenContactDisappears =
    (e₁ : TouchReportEncoder) × (e₂ : TouchReportEncoder) × (e₃ : TouchReportEncoder)
    × (down : PtpReport) × (lift : PtpReport) × Gives new_encoder first_frame 10 e₁ (some down)
    × (down.contact_count ≡ 1)
    × ((get_elem? down.contacts 0 >>= λ c. some c.flags) ≡ some finger_down)
    × Gives e₁ default_touch_frame 20 e₂ (some lift)
    × (lift.contact_count ≡ 1)
    × ((get_elem? lift.contacts 0 >>= λ c. some c.flags) ≡ some finger_up)
    × ((get_elem? lift.contacts 0 >>= λ c. some c.contact_id) ≡ some 7)
    × Gives e₂ default_touch_frame 30 e₃ none

emits_lift_frame_when_contact_disappears : EmitsLiftFrameWhenContactDisappears
unfolding encode
emits_lift_frame_when_contact_disappears =
    (_, _, _, _, _, refl, refl, refl, refl, refl, refl, refl, refl)

abbrev two_fingers : TouchFrame
two_fingers = record {
  contacts =
      touch_contact 1 1000 2000 ∷ touch_contact 2 3000 4000 ∷ replicate 3 default_touch_contact;
  contact_count = 2;
  button = true;
}

abbrev second_only : TouchFrame
second_only = record {
  contacts = touch_contact 2 3200 4200 ∷ replicate 4 default_touch_contact;
  contact_count = 1;
  button = false;
}

abbrev KeepsOtherContactActiveWhileLiftingMissingOne : Type 0
KeepsOtherContactActiveWhileLiftingMissingOne =
    (e₁ : TouchReportEncoder) × (e₂ : TouchReportEncoder) × (initial : PtpReport)
    × (report : PtpReport) × Gives new_encoder two_fingers 10 e₁ (some initial)
    × Gives e₁ second_only 20 e₂ (some report)
    × (report.button ≡ 0)
    × (report.contact_count ≡ 2)
    × (any (λ c. c.contact_id == 1 && c.flags == finger_up) report.contacts ≡ true)
    × (any (λ c. c.contact_id == 2 && c.flags == finger_down) report.contacts ≡ true)

keeps_other_contact_active_while_lifting_missing_one : KeepsOtherContactActiveWhileLiftingMissingOne
unfolding encode
keeps_other_contact_active_while_lifting_missing_one =
    (_, _, _, _, refl, refl, refl, refl, refl, refl)
