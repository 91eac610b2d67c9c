-- ===== src/Protocol/Ptp/Receiver.antt =====
-- What a receiver of the touch reports of protocol/src/ptp.rs holds to be on the pad: written from
-- what the fields of a report mean, and not from the encoder.
use esp32_universal_control.Base.{
  ℕ, ◌/◌, ◌%◌, ◌==◌, if◌then◌else◌, Bool, Option, none, some, List, [], ◌∷◌, take, ◌>>=◌, any, ◌&&◌,
}
use esp32_universal_control.Protocol.Input.{TouchFrame, populated}
use esp32_universal_control.Protocol.Ptp.{PtpContact, PtpReport, TouchReportEncoder, encode}

-- Bit 1 of the flags: the finger touches.
abbrev pub has_tip : PtpContact → Bool
has_tip c = c.flags / 2 % 2 == 1

-- Whether the finger with an identifier is down, after some contacts in their order.
abbrev pub receive_contacts : List PtpContact → (ℕ → Bool) → ℕ → Bool
receive_contacts [] down id = down id
receive_contacts (c ∷ cs) down id =
    receive_contacts cs (λ j. if c.contact_id == j then has_tip c else down j) id

-- A contact of the frame has this identifier and touches.
abbrev pub touches : TouchFrame → ℕ → Bool
touches frame id = any (λ c. c.contact_id == id && c.touching) (populated frame)

-- The contact count says how many contacts of a report count.
abbrev pub receive : Option PtpReport → (ℕ → Bool) → ℕ → Bool
receive none down = down
receive (some r) down = receive_contacts (take r.contact_count r.contacts) down

-- The encoder and its receiver, over frames each with its scan time; every report is delivered.
unfoldable pub deliver_all :
    TouchReportEncoder
    → (ℕ → Bool)
    → List (TouchFrame × ℕ)
    → Option (TouchReportEncoder × (ℕ → Bool))
deliver_all encoder down [] = some (encoder, down)
deliver_all encoder down ((frame, scan_time) ∷ frames) =
    encode encoder frame scan_time >>= λ result. deliver_all result.0 (receive result.1 down) frames
