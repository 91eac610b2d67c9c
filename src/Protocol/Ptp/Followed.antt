-- ===== src/Protocol/Ptp/Followed.antt =====
-- The fingers that the encoder of protocol/src/ptp.rs follows after a frame, and those that the
-- receiver of its report then holds to be down.
use esp32_universal_control.Base.{
  ℕ, zero, suc, ◌-◌, ◌≡◌, refl, sym, subst, ◌∙◌, Bool, true, false, Option, none, some, inl, inr,
  List, [], find, ◌∷◌, ◌++◌, map, take, any, length, arith, ◌==◌, ◌||◌, ◌&&◌, if◌then◌else◌,
  Option-cases, Bool-cases, ==_iff,
}
use esp32_universal_control.Protocol.Input.{TouchContact, TouchFrame, max_touch_contacts, populated}
use esp32_universal_control.Protocol.Ptp.{
  TrackedContact, find_contact_by_id, same_id, from_found, is_tracked,
}
use esp32_universal_control.Protocol.Ptp.Spec.{
  kept, lost, fresh, admitted, reported, followed, touching_only, as_reported, as_lifted,
}
use esp32_universal_control.Protocol.Ptp.Receiver.{receive_contacts, touches}
use esp32_universal_control.Protocol.Ptp.Delivery.{
  tracks, said, unless_gone, AreDistinct, Distinct, tracks-touching_only, receive_kept,
  receive_lost, receive_new, receive_contacts-append, found_same_id,
}

pub tracks-append :
    (xs ys : List TrackedContact) (id : ℕ) → tracks (xs ++ ys) id ≡ (tracks xs id || tracks ys id)
tracks-append [] ys id = refl
tracks-append (x ∷ xs) ys id = ground (arith, tracks-append xs ys id)

-- Of the fingers that stay, those are followed that the frame says are touching.
pub tracks-kept :
    (frame : TouchFrame) (ps : List TrackedContact) (id : ℕ)
    → tracks (touching_only (kept frame ps)) id
      ≡ (if tracks ps id then said (find_contact_by_id frame id) false else false)
tracks-kept frame [] id = refl
tracks-kept frame (p ∷ ps) id =
    let ih = tracks-kept frame ps id in
    elim (Option-cases (find_contact_by_id frame p.contact_id)) [
      | inl e ↦ elim (Bool-cases (p.contact_id == id)) [
        | inl same ↦
            let here : find_contact_by_id frame id ≡ none =
              subst (λ n. find_contact_by_id frame n ≡ none) ((==_iff p.contact_id id).0 same) e in
            ground (arith, ih, e, here)
        | inr other ↦ ground (arith, ih, e)
      ]
      | inr (t, e) ↦
          let tid = found_same_id frame p.contact_id t e in
          elim (Bool-cases (p.contact_id == id)) [
            | inl same ↦
                let here : find_contact_by_id frame id ≡ some t =
                  subst (λ n. find_contact_by_id frame n ≡ some t) ((==_iff p.contact_id id).0 same)
                    e in
                ground (arith, ih, e, here, tid)
            | inr other ↦ ground (arith, ih, e, tid)
          ]
    ]

pub tracks-take :
    (xs : List TrackedContact) (n id : ℕ) → tracks xs id ≡ false → tracks (take n xs) id ≡ false
tracks-take xs zero id h = refl
tracks-take [] (suc n) id h = refl
tracks-take (x ∷ xs) (suc n) id h = ground (arith, tracks-take xs n id)

-- A finger that is followed already is never new.
pub fresh_untracked :
    (ps : List TrackedContact) (cs : List TouchContact) (id : ℕ)
    → tracks ps id ≡ true
    → tracks (fresh ps cs) id ≡ false
fresh_untracked ps [] id h = refl
fresh_untracked ps (c ∷ cs) id h =
    let ih = fresh_untracked ps cs id h in
    elim (Bool-cases (c.contact_id == id)) [
      | inl same ↦
          let there : is_tracked ps c ≡ true =
            subst (λ n. tracks ps n ≡ true) (sym ((==_iff c.contact_id id).0 same)) h in
          rw there ih
      | inr other ↦ elim (Bool-cases (is_tracked ps c)) [
        | inl there ↦ rw there ih
        | inr new ↦ rw (new, other) ih
      ]
    ]

fresh_absent :
    (ps : List TrackedContact) (cs : List TouchContact) (id : ℕ)
    → any (λ d. d.contact_id == id) cs ≡ false
    → tracks (fresh ps cs) id ≡ false
fresh_absent ps [] id h = refl
fresh_absent ps (c ∷ cs) id h = ground (arith, fresh_absent ps cs id)

pub Distinct-take : (ts : List TrackedContact) (n : ℕ) → Distinct ts → Distinct (take n ts)
Distinct-take ts zero d = tt
Distinct-take [] (suc n) d = tt
Distinct-take (t ∷ ts) (suc n) d = (tracks-take ts n t.contact_id d.0, Distinct-take ts n d.1)

pub fresh-Distinct :
    (ps : List TrackedContact) (cs : List TouchContact) → AreDistinct cs → Distinct (fresh ps cs)
fresh-Distinct ps [] d = tt
fresh-Distinct ps (c ∷ cs) d = elim (Bool-cases (is_tracked ps c)) [
  | inl there ↦ rw there (fresh-Distinct ps cs d.1)
  | inr new ↦ rw new (fresh_absent ps cs c.contact_id d.0, fresh-Distinct ps cs d.1)
]

pub touching_only-take :
    (ts : List TrackedContact) (n id : ℕ)
    → tracks (touching_only (take n ts)) id ≡ true
    → tracks (touching_only ts) id ≡ true
touching_only-take ts zero id h = absurd (cc)
touching_only-take [] (suc n) id h = h
touching_only-take (t ∷ ts) (suc n) id h = ground (arith, touching_only-take ts n id)

-- A new finger that is followed touches in the frame.
fresh_touching :
    (ps : List TrackedContact) (cs : List TouchContact) (id : ℕ)
    → tracks (touching_only (fresh ps cs)) id ≡ true
    → any (λ c. c.contact_id == id && c.touching) cs ≡ true
fresh_touching ps [] id h = h
fresh_touching ps (c ∷ cs) id h = ground (arith, fresh_touching ps cs id)

found_touching :
    (cs : List TouchContact) (id : ℕ)
    → said (from_found (find (same_id id) cs)) false ≡ true
    → any (λ c. c.contact_id == id && c.touching) cs ≡ true
found_touching [] id h = h
found_touching (c ∷ cs) id h = ground (arith, found_touching cs id)

said_touching :
    (frame : TouchFrame) (id : ℕ)
    → said (find_contact_by_id frame id) false ≡ true
    → touches frame id ≡ true
unfolding find_contact_by_id
said_touching frame id h = found_touching (populated frame) id h

pub followed_touching :
    (frame : TouchFrame) (ps : List TrackedContact) (id : ℕ)
    → tracks (followed frame ps) id ≡ true
    → touches frame id ≡ true
followed_touching frame ps id h =
    let new = admitted ps (populated frame) in
    let room = max_touch_contacts - length ps in
    let joined = tracks-append (touching_only (kept frame ps)) (touching_only new) id in
    let staying = tracks-kept frame ps id in
    elim (Bool-cases (tracks (touching_only new) id)) [
      | inl is_new ↦
          fresh_touching ps (populated frame) id
            (touching_only-take (fresh ps (populated frame)) room id is_new)
      | inr old ↦ said_touching frame id (ground (arith, joined, staying, h))
    ]

-- A finger that was followed is not new, and one that is not new is not followed as new.
touch_settles :
    (o : Option TrackedContact) (old new touches : Bool)
    → (old ≡ true → new ≡ false)
    → (new ≡ false → touches ≡ false)
    → (if new
        then touches
        else (if old
            then unless_gone o (if old then said o old else old)
            else (if old then said o old else old)))
      ≡ ((if old then said o false else false) || touches)
touch_settles o true true touches f g = absurd (cc (f refl))
touch_settles none true false touches f g = sym (g refl)
touch_settles (some t) true false touches f g = ground (arith, g refl)
touch_settles o false true touches f g = refl
touch_settles o false false touches f g = sym (g refl)

-- What the receiver holds after the contacts of a report, if it held what the encoder followed.
pub receive_reported :
    (frame : TouchFrame) (ps : List TrackedContact) (down : ℕ → Bool) (id : ℕ)
    → AreDistinct (populated frame)
    → down id ≡ tracks ps id
    → receive_contacts (reported frame ps) down id ≡ tracks (followed frame ps) id
receive_reported frame ps down id d h =
    let stay = map as_reported (kept frame ps) in
    let gone = map as_lifted (lost frame ps) in
    let news = fresh ps (populated frame) in
    let room = max_touch_contacts - length ps in
    let new = admitted ps (populated frame) in
    let down₁ = receive_contacts stay down in
    let down₂ = receive_contacts gone down₁ in
    let as_lists =
      receive_contacts-append stay (gone ++ map as_reported new) down id
      ∙ receive_contacts-append gone (map as_reported new) down₁ id
      ∙ receive_new new down₂ id
          (Distinct-take news room (fresh-Distinct ps (populated frame) d)) in
    let joined = tracks-append (touching_only (kept frame ps)) (touching_only new) id in
    as_lists
    ∙ rw
        (
          receive_lost frame ps down₁ id,
          receive_kept frame ps down id,
          h,
          joined,
          tracks-kept frame ps id,
        )
        (touch_settles (find_contact_by_id frame id) (tracks ps id) (tracks new id)
          (tracks (touching_only new) id)
          (λ there. tracks-take news room id (fresh_untracked ps (populated frame) id there))
          (tracks-touching_only new id))
