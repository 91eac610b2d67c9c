-- ===== src/Protocol/Ptp.antt =====
-- protocol/src/ptp.rs: touch reports, and the encoder that turns touch frames into them. A write
-- to an array is checked: `none` is the panic of an index out of range.
pub mod Spec
pub mod Loops
pub mod Encode
pub mod Lifts
pub mod Receiver
pub mod Delivery
pub mod Followed
pub mod Distinct
pub mod Following
pub mod Settling
mod Conformance
mod Tests
use esp32_universal_control.Base.{
  ℕ, ◌+◌, ◌%◌, ◌≡◌, Bool, true, false, Option, none, some, List, [], ◌∷◌, replicate, find, any,
  somes, set_elem?, leb, ◌==◌, if◌then◌else◌, ◌||◌, is_some, ◌>>=◌, map,
}
use esp32_universal_control.Protocol.Input.{TouchContact, TouchFrame, max_touch_contacts, populated}

pub record PtpContact : Type 0 where
  pub flags : ℕ
  pub contact_id : ℕ
  pub x : ℕ
  pub y : ℕ

abbrev pub default_contact : PtpContact
default_contact = record { flags = 0; contact_id = 0; x = 0; y = 0 }

-- `PtpContact::CONFIDENCE`, and `TIP_SWITCH`, bit 1.
abbrev pub confidence : ℕ
confidence = 1

abbrev pub tip_switch : ℕ
tip_switch = 2

abbrev pub finger_down : ℕ
finger_down = 3

abbrev pub finger_up : ℕ
finger_up = confidence

pub record PtpReport : Type 0 where
  pub contacts : List PtpContact
  pub scan_time : ℕ
  pub contact_count : ℕ
  pub button : ℕ

abbrev pub default_report : PtpReport
default_report = record {
  contacts = replicate max_touch_contacts default_contact;
  scan_time = 0;
  contact_count = 0;
  button = 0;
}

pub record TrackedContact : Type 0 where
  pub contact_id : ℕ
  pub x : ℕ
  pub y : ℕ
  pub confident : Bool
  pub touching : Bool

abbrev pub from_contact : TouchContact → TrackedContact
from_contact contact = record {
  contact_id = contact.contact_id;
  x = contact.x;
  y = contact.y;
  confident = contact.confident;
  touching = contact.touching;
}

abbrev pub into_report_contact : TrackedContact → ℕ → PtpContact
into_report_contact c flags = record { flags = flags; contact_id = c.contact_id; x = c.x; y = c.y }

abbrev pub flag_bits : Bool → Bool → ℕ
flag_bits true true = finger_down
flag_bits true false = finger_up
flag_bits false true = tip_switch
flag_bits false false = 0

-- `TrackedContact::flags`.
abbrev pub contact_flags : TrackedContact → ℕ
contact_flags c = flag_bits c.confident c.touching

pub record TouchReportEncoder : Type 0 where
  pub tracked : List (Option TrackedContact)

-- `new` and `reset`.
abbrev pub new_encoder : TouchReportEncoder
new_encoder = record { tracked = replicate max_touch_contacts none }

abbrev pub same_id : ℕ → TouchContact → Bool
same_id id contact = contact.contact_id == id

abbrev pub from_found : Option TouchContact → Option TrackedContact
from_found none = none
from_found (some contact) = some (from_contact contact)

pub find_contact_by_id : TouchFrame → ℕ → Option TrackedContact
find_contact_by_id frame id = from_found (find (same_id id) (populated frame))

-- The variables of `encode` that its loops change.
pub record Encoding : Type 0 where
  pub report : PtpReport
  pub report_count : ℕ
  pub next_tracked : List (Option TrackedContact)
  pub next_count : ℕ

-- `report.contacts[report_count] = contact; report_count += 1`.
pub put_report : PtpContact → Encoding → Option Encoding
put_report contact s = do
  contacts ← set_elem? s.report.contacts s.report_count contact
  some (record s {
    report = record (s.report) { contacts = contacts };
    report_count = s.report_count + 1;
  })

-- `next_tracked[next_count] = Some(current); next_count += 1`.
pub put_next : TrackedContact → Encoding → Option Encoding
put_next current s = do
  next ← set_elem? s.next_tracked s.next_count (some current)
  some (record s { next_tracked = next; next_count = s.next_count + 1 })

-- The common end of the first and the third loop's body.
pub emit : TrackedContact → Encoding → Option Encoding
emit current s = do
  s' ← put_report (into_report_contact current (contact_flags current)) s
  if current.touching then put_next current s' else some s'

-- The first loop: the tracked contacts that the frame still has.
pub report_current : TouchFrame → List TrackedContact → Encoding → Option Encoding
report_current frame [] s = some s
report_current frame (previous ∷ rest) s = elim (find_contact_by_id frame previous.contact_id) [
  | none ↦ report_current frame rest s
  | some current ↦ emit current s >>= λ s'. report_current frame rest s'
]

-- The second loop: the tracked contacts that the frame has no more, as lifted.
pub report_lifted : TouchFrame → List TrackedContact → Encoding → Option Encoding
report_lifted frame [] s = some s
report_lifted frame (previous ∷ rest) s = elim (leb max_touch_contacts s.report_count) [
  | true ↦ some s
  | false ↦ elim (find_contact_by_id frame previous.contact_id) [
    | none ↦
        put_report (into_report_contact previous finger_up) s >>= λ s'. report_lifted frame rest s'
    | some current ↦ report_lifted frame rest s
  ]
]

abbrev pub is_tracked : List TrackedContact → TouchContact → Bool
is_tracked tracked contact = any (λ t. t.contact_id == contact.contact_id) tracked

-- The third loop: the contacts of the frame that are not tracked yet.
pub report_new : List TrackedContact → List TouchContact → Encoding → Option Encoding
report_new tracked [] s = some s
report_new tracked (contact ∷ rest) s =
    elim (leb max_touch_contacts s.report_count || leb max_touch_contacts s.next_count) [
      | true ↦ some s
      | false ↦ elim (is_tracked tracked contact) [
        | true ↦ report_new tracked rest s
        | false ↦ emit (from_contact contact) s >>= λ s'. report_new tracked rest s'
      ]
    ]

abbrev pub u8_from : Bool → ℕ
u8_from true = 1
u8_from false = 0

abbrev pub start_encoding : TouchFrame → ℕ → Encoding
start_encoding frame scan_time = record {
  report = record default_report { scan_time = scan_time; button = u8_from frame.button };
  report_count = 0;
  next_tracked = replicate max_touch_contacts none;
  next_count = 0;
}

-- The three loops.
pub run_loops : TouchReportEncoder → TouchFrame → ℕ → Option Encoding
run_loops encoder frame scan_time = do
  s₁ ← report_current frame (somes encoder.tracked) (start_encoding frame scan_time)
  s₂ ← report_lifted frame (somes encoder.tracked) s₁
  report_new (somes encoder.tracked) (populated frame) s₂

-- What `encode` returns: the encoder after the call, and the report if there is one to send.
abbrev pub finish_encoding : Encoding → TouchReportEncoder × Option PtpReport
finish_encoding s = (
  record { tracked = s.next_tracked },
  elim (leb 1 s.report_count) [
    | true ↦ some (record (s.report) { contact_count = s.report_count % 256 })
    | false ↦ none
  ],
)

unfoldable pub encode :
    TouchReportEncoder → TouchFrame → ℕ → Option (TouchReportEncoder × Option PtpReport)
unfolding run_loops report_current report_lifted report_new find_contact_by_id emit put_report
    put_next
encode encoder frame scan_time = do s ← run_loops encoder frame scan_time; some (finish_encoding s)
