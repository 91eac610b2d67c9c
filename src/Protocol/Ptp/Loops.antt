-- ===== src/Protocol/Ptp/Loops.antt =====
-- The loops of `TouchReportEncoder::encode` do not panic, and compute the lists of `Spec`.
use esp32_universal_control.Base.{
  ℕ, zero, suc, ◌+◌, ◌-◌, ◌≤◌, ◌<◌, ◌≡◌, refl, sym, ap, Option, none, some, inl, inr, List, [], ◌∷◌,
  ◌++◌, map, take, length, arith, set_elem?-pad, length-append, length-map, append_assoc,
  append-nil, map-append, Option-cases, Bool-cases, leb,
}
use esp32_universal_control.Protocol.Input.{TouchContact, TouchFrame, max_touch_contacts}
use esp32_universal_control.Protocol.Ptp.{
  PtpContact, PtpReport, TrackedContact, from_contact, default_contact, find_contact_by_id,
  is_tracked, put_report, put_next, emit, report_current, report_lifted, report_new,
}
use esp32_universal_control.Protocol.Ptp.Spec.{
  kept, lost, fresh, as_reported, as_lifted, touching_only, holding,
}

pub put_report_lem :
    (base : PtpReport) (rs : List PtpContact) (ns : List TrackedContact) (c : PtpContact)
    → length rs < max_touch_contacts
    → put_report c (holding base rs ns) ≡ some (holding base (rs ++ c ∷ []) ns)
unfolding put_report
put_report_lem base rs ns c h =
    ground
      (arith, set_elem?-pad 5 default_contact rs c (length rs) refl h, length-append rs (c ∷ []))

put_next_lem :
    (base : PtpReport) (rs : List PtpContact) (ns : List TrackedContact) (c : TrackedContact)
    → length ns < max_touch_contacts
    → put_next c (holding base rs ns) ≡ some (holding base rs (ns ++ c ∷ []))
unfolding put_next
put_next_lem base rs ns c h = ground (
  arith,
  set_elem?-pad 5 none (map some ns) (some c) (length ns) (sym (length-map ns some))
      (omega (arith, length-map {B = Option TrackedContact} ns some)),
  map-append some ns (c ∷ []),
  length-append ns (c ∷ []),
)

pub emit_lem :
    (base : PtpReport) (rs : List PtpContact) (ns : List TrackedContact) (c : TrackedContact)
    → length rs < max_touch_contacts
    → length ns < max_touch_contacts
    → emit c (holding base rs ns)
      ≡ some (holding base (rs ++ as_reported c ∷ []) (ns ++ touching_only (c ∷ [])))
unfolding emit
emit_lem base rs ns c h k = elim (Bool-cases c.touching) [
  | inl e ↦ ground (
    arith,
    put_report_lem base rs ns (as_reported c) h,
    put_next_lem base (rs ++ as_reported c ∷ []) ns c k,
  )
  | inr e ↦ ground (arith, put_report_lem base rs ns (as_reported c) h, append-nil ns)
]

nil_of_length {ℓ} : {A : Type ℓ} (xs : List A) → length xs ≤ 0 → xs ≡ []
nil_of_length [] h = refl
nil_of_length (x ∷ xs) h = absurd (omega arith)

touching_only-cons :
    (c : TrackedContact) (cs : List TrackedContact)
    → touching_only (c ∷ cs) ≡ touching_only (c ∷ []) ++ touching_only cs
touching_only-cons c cs = ground arith

pub report_current_lem :
    (base : PtpReport) (frame : TouchFrame) (ps : List TrackedContact) (rs : List PtpContact)
    (ns : List TrackedContact)
    → length rs + length ps ≤ max_touch_contacts
    → length ns ≤ length rs
    → report_current frame ps (holding base rs ns)
      ≡ some (
          holding base
            (rs ++ map as_reported (kept frame ps))
            (ns ++ touching_only (kept frame ps)))
unfolding report_current
report_current_lem base frame [] rs ns h k = rw (append-nil rs, append-nil ns)
report_current_lem base frame (p ∷ ps) rs ns h k =
    elim (Option-cases (find_contact_by_id frame p.contact_id)) [
      | inl e ↦
          rw (e, report_current, kept) (report_current_lem base frame ps rs ns (omega arith) k)
      | inr (c, e) ↦
          let rs' = rs ++ as_reported c ∷ [] in
          let ns' = ns ++ touching_only (c ∷ []) in
          let one : length (touching_only (c ∷ [])) ≤ 1 = ground arith in
          rw (
            e,
            report_current,
            kept,
            emit_lem base rs ns c (omega arith) (omega arith),
            report_current_lem base frame ps rs' ns'
                (omega (arith, length-append rs (as_reported c ∷ [])))
                (omega (
                  arith,
                  length-append rs (as_reported c ∷ []),
                  length-append ns (touching_only (c ∷ [])),
                )),
            append_assoc rs,
            append_assoc ns,
            ← touching_only-cons c (kept frame ps),
          )
    ]

pub report_lifted_lem :
    (base : PtpReport) (frame : TouchFrame) (ps : List TrackedContact) (rs : List PtpContact)
    (ns : List TrackedContact)
    → length rs + length (lost frame ps) ≤ max_touch_contacts
    → report_lifted frame ps (holding base rs ns)
      ≡ some (holding base (rs ++ map as_lifted (lost frame ps)) ns)
unfolding report_lifted
report_lifted_lem base frame [] rs ns h = rw (append-nil rs)
report_lifted_lem base frame (p ∷ ps) rs ns h =
    elim (Bool-cases (leb max_touch_contacts (length rs))) [
      | inl full ↦ ground (arith, nil_of_length (lost frame (p ∷ ps)) (ground arith), append-nil rs)
      | inr room ↦ elim (Option-cases (find_contact_by_id frame p.contact_id)) [
        | inl e ↦ ground (
          arith,
          put_report_lem base rs ns (as_lifted p),
          report_lifted_lem base frame ps (rs ++ as_lifted p ∷ []) ns,
          length-append rs (as_lifted p ∷ []),
          append_assoc rs (as_lifted p ∷ []) (map as_lifted (lost frame ps)),
        )
        | inr (c, e) ↦ ground (arith, report_lifted_lem base frame ps rs ns)
      ]
    ]

take-cons {ℓ} :
    {A : Type ℓ} (k : ℕ) (x : A) (xs : List A) → 0 < k → take k (x ∷ xs) ≡ x ∷ take (k - 1) xs
take-cons zero x xs h = absurd (omega arith)
take-cons (suc k) x xs h = ap (λ n. x ∷ take n xs) (omega arith)

pub report_new_lem :
    (base : PtpReport) (ts : List TrackedContact) (cs : List TouchContact) (rs : List PtpContact)
    (ns : List TrackedContact)
    → length ns ≤ length rs
    → length rs ≤ max_touch_contacts
    → let new = take (max_touch_contacts - length rs) (fresh ts cs) in
      report_new ts cs (holding base rs ns)
      ≡ some (holding base (rs ++ map as_reported new) (ns ++ touching_only new))
unfolding report_new
report_new_lem base ts [] rs ns h k =
    rw (take_nil (max_touch_contacts - length rs)) (rw (append-nil rs, append-nil ns))
  where
    take_nil : (n : ℕ) → take {A = TrackedContact} n [] ≡ []
    take_nil zero = refl
    take_nil (suc n) = refl
report_new_lem base ts (c ∷ cs) rs ns h k = elim (Bool-cases (leb max_touch_contacts (length rs))) [
  | inl full ↦
      let none_left : max_touch_contacts - length rs ≡ 0 = ground arith in
      ground (arith, none_left, append-nil rs, append-nil ns)
  | inr room ↦ elim (Bool-cases (is_tracked ts c)) [
    | inl old ↦ ground (arith, report_new_lem base ts cs rs ns h k)
    | inr new ↦
        let t = from_contact c in
        let rs' = rs ++ as_reported t ∷ [] in
        let ns' = ns ++ touching_only (t ∷ []) in
        let more = take (max_touch_contacts - length rs - 1) (fresh ts cs) in
        let one : length (touching_only (t ∷ [])) ≤ 1 = ground arith in
        let longer = length-append rs (as_reported t ∷ []) in
        let left : max_touch_contacts - length rs' ≡ max_touch_contacts - length rs - 1 =
          omega (arith, longer) in
        ground (
          arith,
          emit_lem base rs ns t (ground arith) (ground arith),
          report_new_lem base ts cs rs' ns'
              (omega (arith, longer, length-append ns (touching_only (t ∷ []))))
              (ground (arith, longer)),
          left,
          take-cons (max_touch_contacts - length rs) t (fresh ts cs) (ground arith),
          append_assoc rs (as_reported t ∷ []) (map as_reported more),
          append_assoc ns (touching_only (t ∷ [])) (touching_only more),
        )
  ]
]
