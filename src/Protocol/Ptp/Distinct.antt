-- ===== src/Protocol/Ptp/Distinct.antt =====
-- The encoder of protocol/src/ptp.rs never follows one identifier twice, and so has room for every
-- finger of a frame once those that are gone have been reported.
use esp32_universal_control.Base.{
  ℕ, suc, ◌+◌, ◌-◌, ◌≤◌, ◌≡◌, refl, sym, subst, true, false, inl, inr, List, [], ◌∷◌, ◌++◌, take,
  any, length, arith, ◌==◌, Option-cases, Bool-cases, ==_iff,
}
use esp32_universal_control.Protocol.Input.{TouchContact, TouchFrame, max_touch_contacts, populated}
use esp32_universal_control.Protocol.Ptp.{TrackedContact, find_contact_by_id, is_tracked}
use esp32_universal_control.Protocol.Ptp.Spec.{kept, fresh, followed, touching_only}
use esp32_universal_control.Protocol.Ptp.Delivery.{
  tracks, AreDistinct, Distinct, tracks-touching_only, found_same_id,
}
use esp32_universal_control.Protocol.Ptp.Followed.{
  Distinct-take, tracks-append, tracks-kept, tracks-take, fresh_untracked, fresh-Distinct,
}

tracks-kept_none :
    (frame : TouchFrame) (ps : List TrackedContact) (id : ℕ)
    → tracks ps id ≡ false
    → tracks (kept frame ps) id ≡ false
tracks-kept_none frame [] id h = refl
tracks-kept_none frame (p ∷ ps) id h = elim (Option-cases (find_contact_by_id frame p.contact_id)) [
  | inl e ↦ ground (arith, e, tracks-kept_none frame ps id)
  | inr (t, e) ↦
      ground (arith, e, found_same_id frame p.contact_id t e, tracks-kept_none frame ps id)
]

kept-Distinct :
    (frame : TouchFrame) (ps : List TrackedContact) → Distinct ps → Distinct (kept frame ps)
kept-Distinct frame [] d = tt
kept-Distinct frame (p ∷ ps) d = elim (Option-cases (find_contact_by_id frame p.contact_id)) [
  | inl e ↦ rw (kept, e) (kept-Distinct frame ps d.1)
  | inr (t, e) ↦
      let same = (==_iff t.contact_id p.contact_id).0 (found_same_id frame p.contact_id t e) in
      rw (kept, e)
        (
          subst (λ n. tracks (kept frame ps) n ≡ false) (sym same)
              (tracks-kept_none frame ps p.contact_id d.0),
          kept-Distinct frame ps d.1,
        )
]

touching_only-Distinct : (ts : List TrackedContact) → Distinct ts → Distinct (touching_only ts)
touching_only-Distinct [] d = tt
touching_only-Distinct (t ∷ ts) d = elim (Bool-cases t.touching) [
  | inl on ↦ rw on (tracks-touching_only ts t.contact_id d.0, touching_only-Distinct ts d.1)
  | inr off ↦ rw off (touching_only-Distinct ts d.1)
]

append-Distinct :
    (xs ys : List TrackedContact)
    → Distinct xs
    → Distinct ys
    → ((id : ℕ) → tracks xs id ≡ true → tracks ys id ≡ false)
    → Distinct (xs ++ ys)
append-Distinct [] ys dx dy h = dy
append-Distinct (x ∷ xs) ys dx dy h = (
  rw (tracks-append xs ys x.contact_id, dx.0) (h x.contact_id (ground arith)),
  append-Distinct xs ys dx.1 dy (λ id there. h id (ground arith)),
)

pub followed-Distinct :
    (frame : TouchFrame) (ps : List TrackedContact)
    → AreDistinct (populated frame)
    → Distinct ps
    → Distinct (followed frame ps)
followed-Distinct frame ps d h =
    let news = fresh ps (populated frame) in
    let room = max_touch_contacts - length ps in
    append-Distinct (touching_only (kept frame ps)) (touching_only (take room news))
      (touching_only-Distinct (kept frame ps) (kept-Distinct frame ps h))
      (touching_only-Distinct (take room news)
        (Distinct-take news room (fresh-Distinct ps (populated frame) d)))
      (λ id there. tracks-touching_only (take room news) id (
        tracks-take news room id (
          fresh_untracked ps (populated frame) id
            (ground (arith, there, tracks-kept frame ps id)))))

length-fresh_more :
    (p : TrackedContact) (ps : List TrackedContact) (cs : List TouchContact)
    → length (fresh (p ∷ ps) cs) ≤ length (fresh ps cs)
length-fresh_more p ps [] = omega arith
length-fresh_more p ps (c ∷ cs) = ground (arith, length-fresh_more p ps cs)

-- One more that is followed and in the frame is one less that is new.
length-fresh_less :
    (p : TrackedContact) (ps : List TrackedContact) (cs : List TouchContact)
    → tracks ps p.contact_id ≡ false
    → any (λ c. c.contact_id == p.contact_id) cs ≡ true
    → suc (length (fresh (p ∷ ps) cs)) ≤ length (fresh ps cs)
length-fresh_less p ps [] h there = absurd (cc)
length-fresh_less p ps (c ∷ cs) h there = elim (Bool-cases (c.contact_id == p.contact_id)) [
  | inl same ↦
      let new : is_tracked ps c ≡ false =
        subst (λ n. tracks ps n ≡ false) (sym ((==_iff c.contact_id p.contact_id).0 same)) h in
      ground (arith, new, length-fresh_more p ps cs)
  | inr other ↦ ground (arith, length-fresh_less p ps cs h)
]

-- The followed ones, if all of them are in the frame, and the new ones are no more than the frame.
pub length-fresh_le :
    (ps : List TrackedContact) (cs : List TouchContact)
    → Distinct ps
    → ((id : ℕ) → tracks ps id ≡ true → any (λ c. c.contact_id == id) cs ≡ true)
    → length ps + length (fresh ps cs) ≤ length cs
length-fresh_le [] [] d h = omega arith
length-fresh_le [] (c ∷ cs) d h = omega (arith, length-fresh_le [] cs d (λ id e. absurd (cc)))
length-fresh_le (p ∷ ps) cs d h = omega (
  arith,
  length-fresh_le ps cs d.1 (λ id there. h id (ground arith)),
  length-fresh_less p ps cs d.0 (h p.contact_id (ground arith)),
)
