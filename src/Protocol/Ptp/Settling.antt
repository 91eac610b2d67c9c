-- ===== src/Protocol/Ptp/Settling.antt =====
-- On a frame that is repeated, the encoder of protocol/src/ptp.rs and the receiver of its reports
-- come to agree with the frame.
use esp32_universal_control.Base.{
  ℕ, zero, suc, ◌-◌, ◌≤◌, ◌≡◌, refl, sym, ap, subst, ◌∙◌, Bool, true, false, some, inl, inr, List,
  [], find, ◌∷◌, ◌++◌, take, any, length, arith, ◌==◌, ◌||◌, ◌&&◌, if◌then◌else◌, Bool-cases,
  ==_iff, length-take, min,
}
use esp32_universal_control.Protocol.Input.{TouchContact, TouchFrame, max_touch_contacts, populated}
use esp32_universal_control.Protocol.Ptp.{
  TrackedContact, TouchReportEncoder, new_encoder, find_contact_by_id, same_id, from_found,
  is_tracked,
}
use esp32_universal_control.Protocol.Ptp.Spec.{
  kept, fresh, admitted, reported, followed, touching_only, report_if_any,
}
use esp32_universal_control.Protocol.Ptp.Encode.{contacts_of, encode_lem}
use esp32_universal_control.Protocol.Ptp.Receiver.{receive, deliver_all, touches}
use esp32_universal_control.Protocol.Ptp.Delivery.{tracks, said, AreDistinct, Distinct}
use esp32_universal_control.Protocol.Ptp.Followed.{tracks-append, tracks-kept, followed_touching}
use esp32_universal_control.Protocol.Ptp.Distinct.{length-fresh_le}
use esp32_universal_control.Protocol.Ptp.Following.{
  AllDistinct, after, contacts_of-after, receive-Follows, deliver_all-Follows, deliver_all-append,
}

take_all : (xs : List TrackedContact) (n : ℕ) → length xs ≤ n → take n xs ≡ xs
take_all [] zero h = refl
take_all [] (suc n) h = refl
take_all (x ∷ xs) zero h = absurd (omega arith)
take_all (x ∷ xs) (suc n) h = ap (λ ys. x ∷ ys) (take_all xs n (omega arith))

touching_there :
    (cs : List TouchContact) (id : ℕ)
    → any (λ c. c.contact_id == id && c.touching) cs ≡ true
    → any (λ c. c.contact_id == id) cs ≡ true
touching_there [] id h = h
touching_there (c ∷ cs) id h = ground (arith, touching_there cs id)

touching_found :
    (cs : List TouchContact) (id : ℕ)
    → AreDistinct cs
    → any (λ c. c.contact_id == id && c.touching) cs ≡ true
    → said (from_found (find (same_id id) cs)) false ≡ true
touching_found [] id d h = h
touching_found (c ∷ cs) id d h = elim (Bool-cases (c.contact_id == id)) [
  | inl same ↦
      let alone : any (λ e. e.contact_id == id) cs ≡ false =
        subst (λ n. any (λ e. e.contact_id == n) cs ≡ false) ((==_iff c.contact_id id).0 same)
          d.0 in
      elim (Bool-cases c.touching) [
        | inl on ↦ ground arith
        | inr off ↦
            let there : any (λ e. e.contact_id == id) cs ≡ true =
              touching_there cs id (ground arith) in
            absurd (cc)
      ]
  | inr other ↦ ground (arith, touching_found cs id d.1)
]

-- A touching finger that is not followed yet is new.
touching_fresh :
    (ps : List TrackedContact) (cs : List TouchContact) (id : ℕ)
    → tracks ps id ≡ false
    → any (λ c. c.contact_id == id && c.touching) cs ≡ true
    → tracks (touching_only (fresh ps cs)) id ≡ true
touching_fresh ps [] id h t = t
touching_fresh ps (c ∷ cs) id h t =
    let ih = touching_fresh ps cs id h in
    elim (Bool-cases (c.contact_id == id)) [
      | inl same ↦
          let new : is_tracked ps c ≡ false =
            subst (λ n. tracks ps n ≡ false) (sym ((==_iff c.contact_id id).0 same)) h in
          ground (arith, new, ih)
      | inr other ↦ ground (arith, ih)
    ]

populated-fits : (frame : TouchFrame) → length (populated frame) ≤ max_touch_contacts
populated-fits frame =
    omega (arith, length-take (min frame.contact_count max_touch_contacts) frame.contacts)

touching_said :
    (frame : TouchFrame) (id : ℕ)
    → AreDistinct (populated frame)
    → touches frame id ≡ true
    → said (find_contact_by_id frame id) false ≡ true
unfolding find_contact_by_id
touching_said frame id d h = touching_found (populated frame) id d h

-- Once only fingers of the frame are followed, the frame is followed.
followed_all :
    (frame : TouchFrame) (ps : List TrackedContact) (id : ℕ)
    → AreDistinct (populated frame)
    → Distinct ps
    → ((j : ℕ) → tracks ps j ≡ true → touches frame j ≡ true)
    → tracks (followed frame ps) id ≡ touches frame id
followed_all frame ps id d dp h =
    let cs = populated frame in
    let room = length-fresh_le ps cs dp (λ j there. touching_there cs j (h j there)) in
    let whole : admitted ps cs ≡ fresh ps cs =
      take_all (fresh ps cs) (max_touch_contacts - length ps)
        (omega (arith, populated-fits frame)) in
    let split : tracks (followed frame ps) id ≡ (
        (if tracks ps id then said (find_contact_by_id frame id) false else false)
        || tracks (touching_only (fresh ps cs)) id) =
      tracks-append (touching_only (kept frame ps)) (touching_only (admitted ps cs)) id
      ∙ rw (whole, tracks-kept frame ps id) refl in
    elim (Bool-cases (touches frame id)) [
      | inl on ↦
          let found = touching_said frame id d on in
          elim (Bool-cases (tracks ps id)) [
            | inl old ↦ split ∙ rw (old, found, on) refl
            | inr new ↦ split ∙ rw (new, touching_fresh ps cs id new on, on) refl
          ]
      | inr off ↦ elim (Bool-cases (tracks (followed frame ps) id)) [
        | inl still ↦ let there = followed_touching frame ps id still in absurd (cc)
        | inr gone ↦ rw (gone, off) refl
      ]
    ]

-- No lost finger: from the start, after any frames in each of which no identifier stands twice,
-- every report delivered, a frame that is delivered twice, at whatever scan times, leaves the
-- receiver with exactly the fingers down that touch in this frame, also where the first report
-- had no room for all of them.
pub delivered-settles :
    (frames : List (TouchFrame × ℕ)) (frame : TouchFrame) (t t' : ℕ)
    → AllDistinct frames
    → AreDistinct (populated frame)
    → (e' : TouchReportEncoder) × (down : ℕ → Bool) × (deliver_all new_encoder
          (λ _. false)
          (frames ++ (frame, t) ∷ (frame, t') ∷ [])
        ≡ some (e', down))
      × ((id : ℕ) → down id ≡ touches frame id)
unfolding deliver_all
delivered-settles frames frame t t' ds d =
    let (e, down, runs, held) =
      deliver_all-Follows frames new_encoder (λ _. false) ds (refl, tt, λ _. refl) in
    let down₁ = receive (report_if_any frame t (reported frame (contacts_of e))) down in
    let held₁ = receive-Follows e frame t down d held in
    let e₁ = after e frame in
    let down₂ = receive (report_if_any frame t' (reported frame (contacts_of e₁))) down₁ in
    let (is, distinct, follows) = receive-Follows e₁ frame t' down₁ d held₁ in
    let only : (j : ℕ) → tracks (contacts_of e₁) j ≡ true → touches frame j ≡ true = λ j there.
      followed_touching frame (contacts_of e) j
        (ap (λ cs. tracks cs j) (sym (contacts_of-after e frame)) ∙ there) in
    (
      after e₁ frame,
      down₂,
      deliver_all-append frames _ new_encoder (λ _. false)
          ∙ rw (runs, encode_lem e frame t held.0, encode_lem e₁ frame t' held₁.0) refl,
      λ id.
          follows id
          ∙ ap (λ cs. tracks cs id) (contacts_of-after e₁ frame)
          ∙ followed_all frame (contacts_of e₁) id d held₁.1 only,
    )
