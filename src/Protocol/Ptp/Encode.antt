-- ===== src/Protocol/Ptp/Encode.antt =====
-- `TouchReportEncoder::encode` of protocol/src/ptp.rs against its description by lists.
use esp32_universal_control.Base.{
  ℕ, ◌-◌, ◌≤◌, ◌≡◌, refl, none, some, List, [], ◌∷◌, ◌++◌, map, length, pad, arith, ◌>>=◌,
  length-append, length-map, append_assoc, somes, length-somes-le, length-take, length-filter-le,
}
use esp32_universal_control.Protocol.Input.{TouchFrame, max_touch_contacts, populated}
use esp32_universal_control.Protocol.Ptp.{
  PtpContact, PtpReport, TrackedContact, TouchReportEncoder, start_encoding, run_loops,
  finish_encoding, encode,
}
use esp32_universal_control.Protocol.Ptp.Spec.{
  kept, lost, fresh, as_reported, as_lifted, touching_only, admitted, reported, followed,
  report_if_any, holding, length-kept-lost,
}
use esp32_universal_control.Protocol.Ptp.Loops.{
  report_current_lem, report_lifted_lem, report_new_lem,
}

-- The encoder's array has the length of its type.
abbrev pub IsEncoder : TouchReportEncoder → Type 0
IsEncoder e = length e.tracked ≡ max_touch_contacts

abbrev pub contacts_of : TouchReportEncoder → List TrackedContact
contacts_of e = somes e.tracked

pub length-contacts_of-le :
    (e : TouchReportEncoder) → IsEncoder e → length (contacts_of e) ≤ max_touch_contacts
length-contacts_of-le e h = omega (arith, length-somes-le e.tracked)

abbrev base_of : TouchFrame → ℕ → PtpReport
base_of frame t = (start_encoding frame t).report

-- The report always fits.
pub length-reported-le :
    (frame : TouchFrame) (cs : List TrackedContact)
    → length cs ≤ max_touch_contacts
    → length (reported frame cs) ≤ max_touch_contacts
length-reported-le frame cs h = omega (
  arith,
  length-append staying (gone ++ map as_reported new),
  length-append gone (map as_reported new),
  length-map (kept frame cs) as_reported,
  length-map (lost frame cs) as_lifted,
  length-map new as_reported,
  length-kept-lost frame cs,
  length-take (max_touch_contacts - length cs) (fresh cs (populated frame)),
)
  where
    staying : List PtpContact
    staying = map as_reported (kept frame cs)

    gone : List PtpContact
    gone = map as_lifted (lost frame cs)

    new : List TrackedContact
    new = admitted cs (populated frame)

pub length-followed-le :
    (frame : TouchFrame) (cs : List TrackedContact)
    → length cs ≤ max_touch_contacts
    → length (followed frame cs) ≤ max_touch_contacts
length-followed-le frame cs h = omega (
  arith,
  length-append (touching_only (kept frame cs)) (touching_only (admitted cs (populated frame))),
  length-filter-le (λ c. c.touching) (kept frame cs),
  length-filter-le (λ c. c.touching) (admitted cs (populated frame)),
  length-kept-lost frame cs,
  length-take (max_touch_contacts - length cs) (fresh cs (populated frame)),
)

run_loops_lem :
    (e : TouchReportEncoder) (frame : TouchFrame) (t : ℕ)
    → IsEncoder e
    → run_loops e frame t
      ≡ some (
          holding
            (base_of frame t)
            (reported frame (contacts_of e))
            (followed frame (contacts_of e)))
unfolding run_loops
run_loops_lem e frame t h =
    let base = base_of frame t in
    let ps = contacts_of e in
    let staying = map as_reported (kept frame ps) in
    let gone = map as_lifted (lost frame ps) in
    let moving = touching_only (kept frame ps) in
    let few = length-contacts_of-le e h in
    let counts = length-kept-lost frame ps in
    let stays = length-map (kept frame ps) as_reported in
    let goes = length-map (lost frame ps) as_lifted in
    let joined = length-append staying gone in
    let total : length (staying ++ gone) ≡ length ps = omega arith in
    let fewer : length moving ≤ length (staying ++ gone) =
      omega (arith, length-filter-le (λ c. c.touching) (kept frame ps)) in
    rw (
      report_current_lem base frame ps [] [] (omega (arith, few)) (omega arith),
      report_lifted_lem base frame ps staying moving (omega arith),
      report_new_lem base ps (populated frame) (staying ++ gone) moving fewer (omega arith),
      total,
      append_assoc staying gone (map as_reported (admitted ps (populated frame))),
    )

finish_encoding_lem :
    (frame : TouchFrame) (t : ℕ) (cs : List PtpContact) (ns : List TrackedContact)
    → length cs ≤ max_touch_contacts
    → finish_encoding (holding (base_of frame t) cs ns)
      ≡ (record { tracked = pad max_touch_contacts none (map some ns) }, report_if_any frame t cs)
finish_encoding_lem frame t [] ns h = refl
finish_encoding_lem frame t (c ∷ cs) ns h = ground arith

encode-run_loops :
    (e : TouchReportEncoder) (frame : TouchFrame) (t : ℕ)
    → encode e frame t ≡ (run_loops e frame t >>= λ s. some (finish_encoding s))
unfolding encode
encode-run_loops e frame t = refl

-- On an encoder with its array of five, `encode` does not panic: the report, if any contact is to
-- be told, lists first the tracked contacts that the frame still has, then those it has no more as
-- lifted, then the new ones that there is room for; and the encoder follows from then on exactly
-- the touching ones of the first and the last kind, in this order.
pub encode_lem :
    (e : TouchReportEncoder) (frame : TouchFrame) (t : ℕ)
    → IsEncoder e
    → let contacts = reported frame (contacts_of e) in
      encode e frame t
      ≡ some (
        record {
          tracked = pad max_touch_contacts none (map some (followed frame (contacts_of e)));
        },
        report_if_any frame t contacts,
      )
encode_lem e frame t h = rw (
  encode-run_loops e frame t,
  run_loops_lem e frame t h,
  finish_encoding_lem frame t _ (followed frame (contacts_of e))
      (length-reported-le frame (contacts_of e) (length-contacts_of-le e h)),
)
