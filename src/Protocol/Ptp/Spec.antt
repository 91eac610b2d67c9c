-- ===== src/Protocol/Ptp/Spec.antt =====
-- What a touch report should hold, said with lists and without the arrays and counters of
-- `TouchReportEncoder::encode` in protocol/src/ptp.rs.
use esp32_universal_control.Base.{
  ℕ, ◌+◌, ◌-◌, ◌≡◌, refl, Option, none, some, List, [], ◌∷◌, ◌++◌, map, filter, take, length, pad,
  if◌then◌else◌, arith,
}
use esp32_universal_control.Protocol.Input.{TouchContact, TouchFrame, max_touch_contacts, populated}
use esp32_universal_control.Protocol.Ptp.{
  PtpContact, PtpReport, TrackedContact, Encoding, from_contact, into_report_contact, contact_flags,
  finger_up, default_contact, find_contact_by_id, is_tracked, u8_from,
}

-- The tracked contacts that the frame still has, as they now are.
abbrev pub kept : TouchFrame → List TrackedContact → List TrackedContact
kept frame [] = []
kept frame (c ∷ cs) = elim (find_contact_by_id frame c.contact_id) [
  | none ↦ kept frame cs
  | some now ↦ now ∷ kept frame cs
]

-- The tracked contacts that the frame has no more.
abbrev pub lost : TouchFrame → List TrackedContact → List TrackedContact
lost frame [] = []
lost frame (c ∷ cs) = elim (find_contact_by_id frame c.contact_id) [
  | none ↦ c ∷ lost frame cs
  | some now ↦ lost frame cs
]

-- The contacts that are not tracked yet.
abbrev pub fresh : List TrackedContact → List TouchContact → List TrackedContact
fresh tracked [] = []
fresh tracked (c ∷ cs) =
    if is_tracked tracked c then fresh tracked cs else from_contact c ∷ fresh tracked cs

abbrev pub as_reported : TrackedContact → PtpContact
as_reported c = into_report_contact c (contact_flags c)

abbrev pub as_lifted : TrackedContact → PtpContact
as_lifted c = into_report_contact c finger_up

abbrev pub touching_only : List TrackedContact → List TrackedContact
touching_only = filter (λ c. c.touching)

-- The new contacts that there is room for.
abbrev pub admitted : List TrackedContact → List TouchContact → List TrackedContact
admitted tracked contacts = take (max_touch_contacts - length tracked) (fresh tracked contacts)

-- The contacts of the report, in order: those that stay, those lifted, those that are new.
abbrev pub reported : TouchFrame → List TrackedContact → List PtpContact
reported frame tracked =
    map as_reported (kept frame tracked)
    ++ (map as_lifted (lost frame tracked) ++ map as_reported (admitted tracked (populated frame)))

-- The contacts that are followed from then on.
abbrev pub followed : TouchFrame → List TrackedContact → List TrackedContact
followed frame tracked =
    touching_only (kept frame tracked) ++ touching_only (admitted tracked (populated frame))

abbrev pub report_with : TouchFrame → ℕ → List PtpContact → PtpReport
report_with frame scan_time contacts = record {
  contacts = pad max_touch_contacts default_contact contacts;
  scan_time = scan_time;
  contact_count = length contacts;
  button = u8_from frame.button;
}

-- A report is sent if it has a contact.
abbrev pub report_if_any : TouchFrame → ℕ → List PtpContact → Option PtpReport
report_if_any frame scan_time [] = none
report_if_any frame scan_time (c ∷ cs) = some (report_with frame scan_time (c ∷ cs))

-- The arrays and counters of a run of the loops that has reported `rs` and follows `ns`.
abbrev pub holding : PtpReport → List PtpContact → List TrackedContact → Encoding
holding base rs ns = record {
  report = record base { contacts = pad max_touch_contacts default_contact rs };
  report_count = length rs;
  next_tracked = pad max_touch_contacts none (map some ns);
  next_count = length ns;
}

pub length-kept-lost :
    (frame : TouchFrame) (cs : List TrackedContact)
    → length (kept frame cs) + length (lost frame cs) ≡ length cs
length-kept-lost frame [] = refl
length-kept-lost frame (c ∷ cs) = ground (arith, length-kept-lost frame cs)
