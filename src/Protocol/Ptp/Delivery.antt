-- ===== src/Protocol/Ptp/Delivery.antt =====
-- The receiver of the touch reports of protocol/src/ptp.rs knows the fingers that are followed.
use esp32_universal_control.Base.{
  ℕ, ◌≡◌, refl, ap, subst, ◌∙◌, Bool, true, false, Option, none, some, inl, inr, List, [], find,
  ◌∷◌, ◌++◌, map, any, ◌/◌, ◌%◌, arith, ◌==◌, if◌then◌else◌, Option-cases, Bool-cases, ==_iff,
}
use esp32_universal_control.Protocol.Input.{TouchContact, TouchFrame, populated}
use esp32_universal_control.Protocol.Ptp.{
  PtpContact, TrackedContact, find_contact_by_id, same_id, from_found, flag_bits,
}
use esp32_universal_control.Protocol.Ptp.Spec.{kept, lost, touching_only, as_reported, as_lifted}
use esp32_universal_control.Protocol.Ptp.Receiver.{has_tip, receive_contacts}

abbrev pub tracks : List TrackedContact → ℕ → Bool
tracks cs id = any (λ t. t.contact_id == id) cs

pub receive_contacts-append :
    (xs ys : List PtpContact) (down : ℕ → Bool) (id : ℕ)
    → receive_contacts (xs ++ ys) down id ≡ receive_contacts ys (receive_contacts xs down) id
receive_contacts-append [] ys down id = refl
receive_contacts-append (x ∷ xs) ys down id =
    receive_contacts-append xs ys (λ j. if x.contact_id == j then has_tip x else down j) id

-- Only what is held of this finger counts.
pub receive_contacts_at :
    (xs : List PtpContact) (down other : ℕ → Bool) (id : ℕ)
    → down id ≡ other id
    → receive_contacts xs down id ≡ receive_contacts xs other id
receive_contacts_at [] down other id h = h
receive_contacts_at (x ∷ xs) down other id h =
    receive_contacts_at xs (λ j. if x.contact_id == j then has_tip x else down j)
      (λ j. if x.contact_id == j then has_tip x else other j) id (ground arith)

has_tip-as_reported : (t : TrackedContact) → has_tip (as_reported t) ≡ t.touching
has_tip-as_reported t = by_flags t.confident t.touching
  where
    by_flags : (c b : Bool) → (flag_bits c b / 2 % 2 == 1) ≡ b
    by_flags true true = refl
    by_flags true false = refl
    by_flags false true = refl
    by_flags false false = refl

find-same_id :
    (cs : List TouchContact) (id : ℕ) (t : TrackedContact)
    → from_found (find (same_id id) cs) ≡ some t
    → (t.contact_id == id) ≡ true
find-same_id [] id t e = absurd (cc)
find-same_id (c ∷ cs) id t e = elim (Bool-cases (same_id id c)) [
  | inl here ↦ ground arith
  | inr later ↦ find-same_id cs id t (ground arith)
]

if_same : (b v : Bool) → (if b then v else v) ≡ v
if_same true v = refl
if_same false v = refl

-- What the frame says of a finger that is followed: it touches, does not touch, or is not there.
abbrev pub said : Option TrackedContact → Bool → Bool
said none absent = absent
said (some t) absent = t.touching

abbrev pub unless_gone : Option TrackedContact → Bool → Bool
unless_gone none down = false
unless_gone (some t) down = down

pub found_same_id :
    (frame : TouchFrame) (id : ℕ) (t : TrackedContact)
    → find_contact_by_id frame id ≡ some t
    → (t.contact_id == id) ≡ true
unfolding find_contact_by_id
found_same_id frame id t e = find-same_id (populated frame) id t e

-- The receiver after one more contact.
abbrev after_contact : PtpContact → (ℕ → Bool) → ℕ → Bool
after_contact c down j = if c.contact_id == j then has_tip c else down j

pub receive_kept :
    (frame : TouchFrame) (ps : List TrackedContact) (down : ℕ → Bool) (id : ℕ)
    → receive_contacts (map as_reported (kept frame ps)) down id
      ≡ (if tracks ps id then said (find_contact_by_id frame id) (down id) else down id)
receive_kept frame [] down id = refl
receive_kept frame (p ∷ ps) down id = elim (Option-cases (find_contact_by_id frame p.contact_id)) [
  | inl e ↦
      let ih = receive_kept frame ps down id in
      elim (Bool-cases (p.contact_id == id)) [
        | inl same ↦
            let here : find_contact_by_id frame id ≡ none =
              subst (λ n. find_contact_by_id frame n ≡ none) ((==_iff p.contact_id id).0 same) e in
            rw (kept, e, tracks, same) (ih ∙ rw here (if_same (tracks ps id) (down id)))
        | inr other ↦ rw (kept, e, tracks, other) ih
      ]
  | inr (t, e) ↦
      let ih = receive_kept frame ps (after_contact (as_reported t) down) id in
      let tid = found_same_id frame p.contact_id t e in
      let tip = has_tip-as_reported t in
      elim (Bool-cases (p.contact_id == id)) [
        | inl same ↦
            let here : find_contact_by_id frame id ≡ some t =
              subst (λ n. find_contact_by_id frame n ≡ some t) ((==_iff p.contact_id id).0 same)
                e in
            let now : after_contact (as_reported t) down id ≡ t.touching = ground (arith, tip) in
            rw (kept, e, tracks, same, here)
              (ih ∙ rw (here, now) (if_same (tracks ps id) t.touching))
        | inr other ↦
            let now : after_contact (as_reported t) down id ≡ down id = ground arith in
            rw (kept, e, tracks, other)
              (ih ∙ ap (λ b. if tracks ps id then said (find_contact_by_id frame id) b else b) now)
      ]
]

pub receive_lost :
    (frame : TouchFrame) (ps : List TrackedContact) (down : ℕ → Bool) (id : ℕ)
    → receive_contacts (map as_lifted (lost frame ps)) down id
      ≡ (if tracks ps id then unless_gone (find_contact_by_id frame id) (down id) else down id)
receive_lost frame [] down id = refl
receive_lost frame (p ∷ ps) down id = elim (Option-cases (find_contact_by_id frame p.contact_id)) [
  | inl e ↦
      let ih = receive_lost frame ps (after_contact (as_lifted p) down) id in
      elim (Bool-cases (p.contact_id == id)) [
        | inl same ↦
            let here : find_contact_by_id frame id ≡ none =
              subst (λ n. find_contact_by_id frame n ≡ none) ((==_iff p.contact_id id).0 same) e in
            let now : after_contact (as_lifted p) down id ≡ false = ground arith in
            rw (lost, e, tracks, same, here) (ih ∙ rw (here, now) (if_same (tracks ps id) false))
        | inr other ↦
            let now : after_contact (as_lifted p) down id ≡ down id = ground arith in
            rw (lost, e, tracks, other)
              (ih
                ∙ ap (λ b. if tracks ps id then unless_gone (find_contact_by_id frame id) b else b)
                    now)
      ]
  | inr (t, e) ↦
      let ih = receive_lost frame ps down id in
      elim (Bool-cases (p.contact_id == id)) [
        | inl same ↦
            let here : find_contact_by_id frame id ≡ some t =
              subst (λ n. find_contact_by_id frame n ≡ some t) ((==_iff p.contact_id id).0 same)
                e in
            rw (lost, e, tracks, same) (ih ∙ rw here (if_same (tracks ps id) (down id)))
        | inr other ↦ rw (lost, e, tracks, other) ih
      ]
]

-- No two of the contacts have one identifier.
abbrev pub AreDistinct : List TouchContact → Type 0
AreDistinct [] = Unit {0}
AreDistinct (c ∷ cs) = (any (λ d. d.contact_id == c.contact_id) cs ≡ false) × AreDistinct cs

abbrev pub Distinct : List TrackedContact → Type 0
Distinct [] = Unit {0}
Distinct (t ∷ ts) = (tracks ts t.contact_id ≡ false) × Distinct ts

pub tracks-touching_only :
    (ts : List TrackedContact) (id : ℕ)
    → tracks ts id ≡ false
    → tracks (touching_only ts) id ≡ false
tracks-touching_only [] id h = refl
tracks-touching_only (t ∷ ts) id h = ground (arith, tracks-touching_only ts id)

pub receive_new :
    (ts : List TrackedContact) (down : ℕ → Bool) (id : ℕ)
    → Distinct ts
    → receive_contacts (map as_reported ts) down id
      ≡ (if tracks ts id then tracks (touching_only ts) id else down id)
receive_new [] down id d = refl
receive_new (t ∷ ts) down id d =
    let ih = receive_new ts (after_contact (as_reported t) down) id d.1 in
    let tip = has_tip-as_reported t in
    elim (Bool-cases (t.contact_id == id)) [
      | inl same ↦
          let alone : tracks ts id ≡ false =
            subst (λ n. tracks ts n ≡ false) ((==_iff t.contact_id id).0 same) d.0 in
          let never = tracks-touching_only ts id alone in
          let now : after_contact (as_reported t) down id ≡ t.touching = ground (arith, tip) in
          ground (arith, ih, now, never)
      | inr other ↦
          let now : after_contact (as_reported t) down id ≡ down id = ground arith in
          ground (arith, ih, now)
    ]
