-- ===== src/Protocol/Ptp/Lifts.antt =====
-- What `TouchReportEncoder::encode` of protocol/src/ptp.rs does with a finger that is gone.
use mathlib.Core.List.{Memᴰ}
use esp32_universal_control.Base.{
  ℕ, zero, suc, ◌-◌, ◌≤◌, ◌≡◌, refl, ◌∙◌, true, Option, none, some, inl, inr, List, [], ◌∷◌, map,
  take, length, pad, arith, length-map, append-nil, Option-cases, length-pad, somes-pad,
  memᴰ-append_left, memᴰ-append_right, memᴰ-map, All, All-append,
}
use esp32_universal_control.Protocol.Input.{TouchContact, TouchFrame, max_touch_contacts, populated}
use esp32_universal_control.Protocol.Ptp.{
  PtpContact, PtpReport, TrackedContact, TouchReportEncoder, default_contact, find_contact_by_id,
  encode, new_encoder,
}
use esp32_universal_control.Protocol.Ptp.Spec.{
  kept, lost, as_reported, as_lifted, touching_only, admitted, reported, followed, report_with,
  report_if_any,
}
use esp32_universal_control.Protocol.Ptp.Encode.{
  IsEncoder, contacts_of, encode_lem, length-contacts_of-le, length-followed-le, length-reported-le,
}

-- The encoder after a call, and the report of it, where `encode` does not panic.
abbrev pub Encodes :
    TouchReportEncoder → TouchFrame → ℕ → TouchReportEncoder → Option PtpReport → Type 0
Encodes e frame t e' report = encode e frame t ≡ some (e', report)

-- An array of five, and a count of between one and five, if there is a report.
abbrev pub Fits : Option PtpReport → Type 0
Fits none = Unit {0}
Fits (some r) = (length r.contacts ≡ 5) × (1 ≤ r.contact_count) × (r.contact_count ≤ 5)

report_if_any-Fits :
    (frame : TouchFrame) (t : ℕ) (cs : List PtpContact)
    → length cs ≤ max_touch_contacts
    → Fits (report_if_any frame t cs)
report_if_any-Fits frame t [] h = tt
report_if_any-Fits frame t (c ∷ cs) h =
    (length-pad max_touch_contacts default_contact (c ∷ cs) h, omega arith, h)

mem-lost :
    (frame : TouchFrame) (ps : List TrackedContact) (p : TrackedContact)
    → Memᴰ p ps
    → find_contact_by_id frame p.contact_id ≡ none
    → Memᴰ p (lost frame ps)
mem-lost frame [] p m h = elim m [ ]
mem-lost frame (q ∷ ps) p (Memᴰ.head e) h =
    let missing : find_contact_by_id frame q.contact_id ≡ none = rw (← e) h in
    rw (missing, lost) (Memᴰ.head e)
mem-lost frame (q ∷ ps) p (Memᴰ.tail m) h =
    elim (Option-cases (find_contact_by_id frame q.contact_id)) [
      | inl e ↦ rw (e, lost) (Memᴰ.tail (mem-lost frame ps p m h))
      | inr (c, e) ↦ rw (e, lost) (mem-lost frame ps p m h)
    ]

sent_of_mem :
    (frame : TouchFrame) (t : ℕ) (c : PtpContact) (cs : List PtpContact)
    → Memᴰ c cs
    → (r : PtpReport) × (report_if_any frame t cs ≡ some r) × Memᴰ c r.contacts
sent_of_mem frame t c [] m = elim m [ ]
sent_of_mem frame t c (d ∷ cs) m = (report_with frame t (d ∷ cs), refl, memᴰ-append_left _ m)

-- A tracked finger that the next frame does not have is reported by an encoder with its array of
-- five: there is a report, and in it the finger stands at its last position, confident and
-- without the tip switch.
pub encode_lifts_lost :
    (e : TouchReportEncoder) (frame : TouchFrame) (t : ℕ) (p : TrackedContact)
    → IsEncoder e
    → Memᴰ p (contacts_of e)
    → find_contact_by_id frame p.contact_id ≡ none
    → (e' : TouchReportEncoder) × (r : PtpReport) × Encodes e frame t e' (some r)
      × Memᴰ (record { flags = 1; contact_id = p.contact_id; x = p.x; y = p.y }) r.contacts
encode_lifts_lost e frame t p h m missing =
    let ps = contacts_of e in
    let lifted = memᴰ-map as_lifted (mem-lost frame ps p m missing) in
    let (r, sends, there) =
      sent_of_mem frame t (as_lifted p) (reported frame ps)
        (memᴰ-append_right (map as_reported (kept frame ps)) (memᴰ-append_left _ lifted)) in
    (
      record { tracked = pad max_touch_contacts none (map some (followed frame ps)) },
      r,
      rw (encode_lem e frame t h, sends),
      there,
    )

nothing_found :
    (frame : TouchFrame) (id : ℕ) → populated frame ≡ [] → find_contact_by_id frame id ≡ none
unfolding find_contact_by_id
nothing_found frame id h = rw h

all_lost :
    (frame : TouchFrame) (ps : List TrackedContact)
    → populated frame ≡ []
    → (kept frame ps ≡ []) × (lost frame ps ≡ ps)
all_lost frame [] h = (refl, refl)
all_lost frame (p ∷ ps) h = ground (arith, nothing_found frame p.contact_id h, all_lost frame ps h)

none_admitted : (ps : List TrackedContact) (cs : List TouchContact) → cs ≡ [] → admitted ps cs ≡ []
none_admitted ps cs h = rw h (nothing (max_touch_contacts - length ps))
  where
    nothing : (n : ℕ) → take {A = TrackedContact} n [] ≡ []
    nothing zero = refl
    nothing (suc n) = refl

-- On a frame with no contact, an encoder with its array of five reports exactly the tracked
-- fingers as lifted, in their order, and sends nothing if there was none. The encoder is then as
-- new.
pub encode_released :
    (e : TouchReportEncoder) (frame : TouchFrame) (t : ℕ)
    → IsEncoder e
    → populated frame ≡ []
    → Encodes e frame t new_encoder (report_if_any frame t (map as_lifted (contacts_of e)))
encode_released e frame t h empty =
    let ps = contacts_of e in
    let (gone, stays) = all_lost frame ps empty in
    let only : reported frame ps ≡ map as_lifted ps =
      rw (gone, stays, none_admitted ps (populated frame) empty, append-nil) in
    let nothing : followed frame ps ≡ [] = rw (gone, none_admitted ps (populated frame) empty) in
    encode_lem e frame t h ∙ rw (only, nothing)

-- What the encoder follows after any frame is touching.
All-touching : (cs : List TrackedContact) → All (λ c. c.touching ≡ true) (touching_only cs)
All-touching [] = tt
All-touching (c ∷ cs) = ground (arith, All-touching cs)

-- On an encoder with its array of five, `encode` does not panic, keeps the array at five
-- entries, follows touching contacts only, and its report, if any, has an array of five and
-- counts between one and five of them.
pub encode-IsEncoder :
    (e : TouchReportEncoder) (frame : TouchFrame) (t : ℕ)
    → IsEncoder e
    → (e' : TouchReportEncoder) × (report : Option PtpReport) × Encodes e frame t e' report
      × IsEncoder e'
      × All (λ c. c.touching ≡ true) (contacts_of e')
      × Fits report
encode-IsEncoder e frame t h =
    let ps = contacts_of e in
    let few = length-contacts_of-le e h in
    (
      record { tracked = pad max_touch_contacts none (map some (followed frame ps)) },
      report_if_any frame t (reported frame ps),
      encode_lem e frame t h,
      length-pad max_touch_contacts none (map some (followed frame ps)) (
          omega (
            arith,
            length-map {B = Option TrackedContact} (followed frame ps) some,
            length-followed-le frame ps few,
          )),
      rw (somes-pad max_touch_contacts (followed frame ps)) (
          All-append _ (touching_only (kept frame ps)) _ (All-touching (kept frame ps))
            (All-touching (admitted ps (populated frame)))),
      report_if_any-Fits frame t (reported frame ps) (length-reported-le frame ps few),
    )
