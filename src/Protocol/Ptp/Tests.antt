-- ===== src/Protocol/Ptp/Tests.antt =====
-- Runs of the encoder of protocol/src/ptp.rs.
use esp32_universal_control.Base.{
  ℕ, ◌≡◌, refl, Option, none, some, List, [], ◌∷◌, true, false, map, pad, replicate, All, Bool,
  ◌++◌,
}
use mathlib.Core.List.{Memᴰ}
use esp32_universal_control.Protocol.Input.{
  TouchContact, TouchFrame, default_touch_contact, default_touch_frame, max_touch_contacts,
}
use esp32_universal_control.Protocol.Ptp.{
  PtpReport, TouchReportEncoder, new_encoder, encode, from_contact, find_contact_by_id,
  default_report, default_contact, into_report_contact,
}
use esp32_universal_control.Protocol.Ptp.Spec.{reported, followed, report_if_any, as_lifted}
use esp32_universal_control.Protocol.Ptp.Encode.{IsEncoder, contacts_of, encode_lem}
use esp32_universal_control.Protocol.Ptp.Receiver.{deliver_all, touches}
use esp32_universal_control.Protocol.Ptp.Following.{Follows, deliver_all-Follows, delivered-touches}
use esp32_universal_control.Protocol.Ptp.Settling.{delivered-settles}
use esp32_universal_control.Protocol.Ptp.Lifts.{
  Encodes, Fits, encode_lifts_lost, encode_released, encode-IsEncoder,
}

abbrev finger : ℕ → TouchContact
finger id = record { contact_id = id; x = 10; y = 20; touching = true; confident = true }

-- Contact 5 alone.
abbrev one_finger : TouchFrame
one_finger = record {
  contacts = finger 5 ∷ replicate 4 default_touch_contact;
  contact_count = 1;
  button = false;
}

-- Contact 4 is followed.
abbrev following : TouchReportEncoder
following = record { tracked = some (from_contact (finger 4)) ∷ replicate 4 none }

abbrev at_finger : ℕ → ℕ → List ℕ
at_finger flags id = flags ∷ id ∷ 10 ∷ 20 ∷ []

-- The contact that has left is reported before the one that is new.
lift_then_down :
    encode following one_finger 321
    ≡ some (
      record { tracked = some (from_contact (finger 5)) ∷ replicate 4 none },
      some (record default_report {
        contacts =
            into_report_contact (from_contact (finger 4)) 1
            ∷ into_report_contact (from_contact (finger 5)) 3
            ∷ replicate 3 default_contact;
        scan_time = 321;
        contact_count = 2;
      }),
    )
unfolding encode
lift_then_down = refl

nothing_to_send : encode new_encoder default_touch_frame 1 ≡ some (new_encoder, none)
unfolding encode
nothing_to_send = refl

encode_lem_example :
    encode following one_finger 321
    ≡ some (
      record {
        tracked =
            pad max_touch_contacts none (map some (followed one_finger (contacts_of following)));
      },
      report_if_any one_finger 321 (reported one_finger (contacts_of following)),
    )
encode_lem_example = encode_lem following one_finger 321 refl

lift_told :
    (e' : TouchReportEncoder) × (r : PtpReport) × Encodes following one_finger 321 e' (some r)
    × Memᴰ (record { flags = 1; contact_id = 4; x = 10; y = 20 }) r.contacts
unfolding find_contact_by_id
lift_told =
    encode_lifts_lost following one_finger 321 (from_contact (finger 4)) refl (Memᴰ.head refl) refl

released_once :
    Encodes following default_touch_frame 7 new_encoder
      (report_if_any default_touch_frame 7 (as_lifted (from_contact (finger 4)) ∷ []))
released_once = encode_released following default_touch_frame 7 refl refl

encoded_within_five :
    (e' : TouchReportEncoder) × (report : Option PtpReport) × Encodes following one_finger 321 e'
      report
    × IsEncoder e'
    × All (λ c. c.touching ≡ true) (contacts_of e')
    × Fits report
encoded_within_five = encode-IsEncoder following one_finger 321 refl

-- Contact 5 comes, contact 5 lifts.
abbrev two_frames : List (TouchFrame × ℕ)
two_frames = (one_finger, 1) ∷ (default_touch_frame, 2) ∷ []

deliver_all-Follows_example :
    (e' : TouchReportEncoder) × (down' : ℕ → Bool) × (deliver_all new_encoder
        (λ _. false)
        two_frames
      ≡ some (e', down'))
    × Follows e' down'
deliver_all-Follows_example =
    deliver_all-Follows two_frames new_encoder (λ _. false) ((refl, tt), (tt, tt))
      (refl, tt, λ _. refl)

lifted_in_the_end :
    (e' : TouchReportEncoder) × (down : ℕ → Bool) × (deliver_all new_encoder
        (λ _. false)
        (two_frames ++ (one_finger, 3) ∷ [])
      ≡ some (e', down))
    × ((id : ℕ) → down id ≡ true → touches one_finger id ≡ true)
lifted_in_the_end = delivered-touches two_frames one_finger 3 ((refl, tt), (tt, tt)) (refl, tt)

delivered-settles_example :
    (e' : TouchReportEncoder) × (down : ℕ → Bool) × (deliver_all new_encoder
        (λ _. false)
        (two_frames ++ (one_finger, 3) ∷ (one_finger, 4) ∷ [])
      ≡ some (e', down))
    × ((id : ℕ) → down id ≡ touches one_finger id)
delivered-settles_example =
    delivered-settles two_frames one_finger 3 4 ((refl, tt), (tt, tt)) (refl, tt)
