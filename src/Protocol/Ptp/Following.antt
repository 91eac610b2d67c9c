-- ===== src/Protocol/Ptp/Following.antt =====
-- The encoder of protocol/src/ptp.rs and the receiver of its reports, over any run of frames.
use esp32_universal_control.Base.{
  ℕ, ◌≡◌, refl, sym, ap, ◌∙◌, Bool, true, false, Option, none, some, inl, inr, List, [], ◌∷◌, ◌++◌,
  map, take, length, pad, arith, ◌>>=◌, Option-cases, All, somes-pad, length-pad, length-map,
}
use esp32_universal_control.Protocol.Input.{TouchFrame, max_touch_contacts, populated}
use esp32_universal_control.Protocol.Ptp.{
  PtpContact, TrackedContact, TouchReportEncoder, new_encoder, encode,
}
use esp32_universal_control.Protocol.Ptp.Spec.{reported, followed, report_if_any}
use esp32_universal_control.Protocol.Ptp.Encode.{
  IsEncoder, contacts_of, encode_lem, length-contacts_of-le, length-followed-le,
}
use esp32_universal_control.Protocol.Ptp.Receiver.{receive_contacts, receive, deliver_all, touches}
use esp32_universal_control.Protocol.Ptp.Delivery.{tracks, AreDistinct, Distinct}
use esp32_universal_control.Protocol.Ptp.Distinct.{followed-Distinct}
use esp32_universal_control.Protocol.Ptp.Followed.{receive_reported, followed_touching}

take-length-append : (cs ds : List PtpContact) → take (length cs) (cs ++ ds) ≡ cs
take-length-append [] ds = refl
take-length-append (c ∷ cs) ds = ap (λ xs. c ∷ xs) (take-length-append cs ds)

-- The encoder has its array of five and follows no identifier twice, and the receiver holds exactly
-- the fingers to be down that the encoder follows.
abbrev pub Follows : TouchReportEncoder → (ℕ → Bool) → Type 0
Follows e down =
    IsEncoder e × Distinct (contacts_of e) × ((id : ℕ) → down id ≡ tracks (contacts_of e) id)

receive_report :
    (frame : TouchFrame) (t : ℕ) (cs : List PtpContact) (down : ℕ → Bool) (id : ℕ)
    → receive (report_if_any frame t cs) down id ≡ receive_contacts cs down id
receive_report frame t [] down id = refl
receive_report frame t (c ∷ cs) down id =
    ap (λ xs. receive_contacts xs down id) (take-length-append (c ∷ cs) _)

abbrev pub after : TouchReportEncoder → TouchFrame → TouchReportEncoder
after e frame = record {
  tracked = pad max_touch_contacts none (map some (followed frame (contacts_of e)));
}

pub contacts_of-after :
    (e : TouchReportEncoder) (frame : TouchFrame)
    → contacts_of (after e frame) ≡ followed frame (contacts_of e)
contacts_of-after e frame = somes-pad max_touch_contacts (followed frame (contacts_of e))

after-IsEncoder :
    (e : TouchReportEncoder) (frame : TouchFrame) → IsEncoder e → IsEncoder (after e frame)
after-IsEncoder e frame h =
    let ns = followed frame (contacts_of e) in
    length-pad max_touch_contacts none (map some ns) (
      omega (
        arith,
        length-map {B = Option TrackedContact} ns some,
        length-followed-le frame (contacts_of e) (length-contacts_of-le e h),
      ))

pub receive-Follows :
    (e : TouchReportEncoder) (frame : TouchFrame) (t : ℕ) (down : ℕ → Bool)
    → AreDistinct (populated frame)
    → Follows e down
    → Follows
        (after e frame)
        (receive (report_if_any frame t (reported frame (contacts_of e))) down)
receive-Follows e frame t down d (h, distinct, follows) =
    let ps = contacts_of e in
    (
      after-IsEncoder e frame h,
      rw (contacts_of-after e frame) (followed-Distinct frame ps d distinct),
      λ id.
          receive_report frame t (reported frame ps) down id
          ∙ receive_reported frame ps down id d (follows id)
          ∙ ap (λ cs. tracks cs id) (sym (contacts_of-after e frame)),
    )

abbrev pub AllDistinct : List (TouchFrame × ℕ) → Type 0
AllDistinct = All (λ f. AreDistinct (populated f.0))

-- The encoder and its receiver stay together: on frames in each of which no identifier stands
-- twice, every report delivered, `encode` never panics, and after all the frames the encoder has
-- its array of five, follows no identifier twice, and the receiver holds exactly the fingers to be
-- down that the encoder follows, if all this was so before.
pub deliver_all-Follows :
    (frames : List (TouchFrame × ℕ)) (e : TouchReportEncoder) (down : ℕ → Bool)
    → AllDistinct frames
    → Follows e down
    → (e' : TouchReportEncoder) × (down' : ℕ → Bool) × (deliver_all e down frames
        ≡ some (e', down'))
      × Follows e' down'
unfolding deliver_all
deliver_all-Follows [] e down d h = (e, down, refl, h)
deliver_all-Follows ((frame, t) ∷ frames) e down (d, ds) h =
    let down₁ = receive (report_if_any frame t (reported frame (contacts_of e))) down in
    let (e', down', runs, held) =
      deliver_all-Follows frames (after e frame) down₁ ds (receive-Follows e frame t down d h) in
    (e', down', rw (encode_lem e frame t h.0) runs, held)

pub deliver_all-append :
    (fs gs : List (TouchFrame × ℕ)) (e : TouchReportEncoder) (down : ℕ → Bool)
    → deliver_all e down (fs ++ gs) ≡ (deliver_all e down fs >>= λ r. deliver_all r.0 r.1 gs)
unfolding deliver_all
deliver_all-append [] gs e down = refl
deliver_all-append ((frame, t) ∷ fs) gs e down = elim (Option-cases (encode e frame t)) [
  | inl stops ↦ rw stops refl
  | inr (r, runs) ↦ rw runs (deliver_all-append fs gs r.0 (receive r.1 down))
]

-- No ghost finger: from the start, after any frames in each of which no identifier stands twice,
-- every report delivered, each finger that the receiver holds to be down is touching in the last
-- frame. In particular no finger is down after a frame without contacts.
pub delivered-touches :
    (frames : List (TouchFrame × ℕ)) (frame : TouchFrame) (t : ℕ)
    → AllDistinct frames
    → AreDistinct (populated frame)
    → (e' : TouchReportEncoder) × (down : ℕ → Bool) × (deliver_all new_encoder
          (λ _. false)
          (frames ++ (frame, t) ∷ [])
        ≡ some (e', down))
      × ((id : ℕ) → down id ≡ true → touches frame id ≡ true)
unfolding deliver_all
delivered-touches frames frame t ds d =
    let (e, down, runs, held) =
      deliver_all-Follows frames new_encoder (λ _. false) ds (refl, tt, λ _. refl) in
    let last = receive (report_if_any frame t (reported frame (contacts_of e))) down in
    let (is, distinct, follows) = receive-Follows e frame t down d held in
    (
      after e frame,
      last,
      deliver_all-append frames ((frame, t) ∷ []) new_encoder (λ _. false)
          ∙ rw (runs, encode_lem e frame t held.0) refl,
      λ id there.
          followed_touching frame (contacts_of e) id
            (ap (λ cs. tracks cs id) (sym (contacts_of-after e frame)) ∙ sym (follows id) ∙ there),
    )
