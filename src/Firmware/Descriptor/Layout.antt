-- ===== src/Firmware/Descriptor/Layout.antt =====
-- The touch reports of the firmware are what its report descriptor says.
use esp32_universal_control.Base.{
  ℕ, zero, suc, replicate, ◌/◌, ◌%◌, ◌^◌, ◌<◌, ◌≡◌, refl, ap, sym, subst, append_assoc, All, ◌∙◌,
  Option, none, some, List, [], ◌∷◌, ◌++◌, length, arith, ◌>>=◌,
}
use esp32_universal_control.Protocol.Ptp.{PtpContact, PtpReport}
use esp32_universal_control.Firmware.Reports.{
  le_bytes_u16, le_bytes_u32, contact_bytes, contacts_bytes, touch_bytes,
}
use esp32_universal_control.Firmware.Descriptor.Tags.{HidTags}
use esp32_universal_control.Firmware.Descriptor.Fragments.{reportid_multitouch}
use esp32_universal_control.Firmware.Descriptor.Build.{ptp_bytes}
use esp32_universal_control.Firmware.Descriptor.Parser.{
  standard_tags, Piece, padding, value, Reading, report_pieces, parse_items, scan_items,
  main_pieces, read_report,
}
use esp32_universal_control.Firmware.Descriptor.Reading.{
  same, read_u16, read_u8, read_u32, read_bit, skip_bits, read_first_bit, adds, reading, adds-adds,
}

abbrev finger_pieces : List Piece
finger_pieces =
    value 0x0d 0x47 1
    ∷ value 0x0d 0x42 1
    ∷ padding 1
    ∷ padding 1
    ∷ padding 1
    ∷ padding 1
    ∷ padding 1
    ∷ padding 1
    ∷ value 0x0d 0x51 32
    ∷ value 0x01 0x30 16
    ∷ value 0x01 0x31 16
    ∷ []

abbrev repeated : ℕ → List Piece → List Piece
repeated zero pieces = []
repeated (suc n) pieces = pieces ++ repeated n pieces

abbrev tail_pieces : List Piece
tail_pieces =
    value 0x0d 0x56 16
    ∷ value 0x0d 0x54 8
    ∷ value 0x09 0x01 1
    ∷ padding 1
    ∷ padding 1
    ∷ padding 1
    ∷ padding 1
    ∷ padding 1
    ∷ padding 1
    ∷ padding 1
    ∷ []

touch_pieces :
    report_pieces 5 (ptp_bytes standard_tags) ≡ some (repeated 5 finger_pieces ++ tail_pieces)
unfolding parse_items scan_items main_pieces
touch_pieces = refl

-- Confidence, tip switch, contact identifier, and position.
abbrev pub contact_readings : PtpContact → List Reading
contact_readings c =
    record { page = 0x0d; usage = 0x47; number_read = c.flags % 2 }
    ∷ record { page = 0x0d; usage = 0x42; number_read = c.flags / 2 % 2 }
    ∷ record { page = 0x0d; usage = 0x51; number_read = c.contact_id }
    ∷ record { page = 0x01; usage = 0x30; number_read = c.x }
    ∷ record { page = 0x01; usage = 0x31; number_read = c.y }
    ∷ []

-- The fields are in the range of their types.
pub record IsContact (c : PtpContact) : Type 0 where
  pub flags_u8 : c.flags < 2 ^ 8
  pub contact_id_u32 : c.contact_id < 2 ^ 32
  pub x_u16 : c.x < 2 ^ 16
  pub y_u16 : c.y < 2 ^ 16

read_contact :
    (c : PtpContact) (pieces : List Piece) (bytes : List ℕ)
    → IsContact c
    → read_report (finger_pieces ++ pieces) 0 0 (contact_bytes c ++ bytes)
      ≡ adds (contact_readings c) (read_report pieces 0 0 bytes)
read_contact c pieces bytes h =
    let after_y = bytes in
    let after_x = le_bytes_u16 c.y ++ after_y in
    let after_id = le_bytes_u16 c.x ++ after_x in
    let after_flags = le_bytes_u32 c.contact_id ++ after_id in
    let y = value 0x01 0x31 16 ∷ pieces in
    let x = value 0x01 0x30 16 ∷ y in
    let id = value 0x0d 0x51 32 ∷ x in
    read_first_bit (value 0x0d 0x47 1) _ c.flags after_flags refl
    ∙ ap (adds (reading 0x0d 0x47 (c.flags % 2))) (
        read_bit (value 0x0d 0x42 1) (replicate 6 (padding 1) ++ id) (c.flags / 2) 7 after_flags
          refl refl refl
        ∙ ap (adds (reading 0x0d 0x42 (c.flags / 2 % 2))) (
            skip_bits 6 id (c.flags / 2 / 2) after_flags (omega arith)
            ∙ read_u32 0x0d 0x51 c.contact_id x after_id h.contact_id_u32
            ∙ ap (adds (reading 0x0d 0x51 c.contact_id)) (
                read_u16 0x01 0x30 c.x y after_x h.x_u16
                ∙ ap (adds (reading 0x01 0x30 c.x))
                    (read_u16 0x01 0x31 c.y pieces after_y h.y_u16))))
    ∙ collapse (read_report pieces 0 0 bytes)
  where
    collapse :
        (o : Option (List Reading))
        → adds (reading 0x0d 0x47 (c.flags % 2)) (
            adds (reading 0x0d 0x42 (c.flags / 2 % 2)) (
              adds
                (reading 0x0d 0x51 c.contact_id)
                (adds (reading 0x01 0x30 c.x) (adds (reading 0x01 0x31 c.y) o))))
          ≡ adds (contact_readings c) o
    collapse none = refl
    collapse (some more) = refl

abbrev tail_readings : PtpReport → List Reading
tail_readings r =
    record { page = 0x0d; usage = 0x56; number_read = r.scan_time }
    ∷ record { page = 0x0d; usage = 0x54; number_read = r.contact_count }
    ∷ record { page = 0x09; usage = 0x01; number_read = r.button % 2 }
    ∷ []

abbrev pub all_contact_readings : List PtpContact → List Reading
all_contact_readings [] = []
all_contact_readings (c ∷ cs) = contact_readings c ++ all_contact_readings cs

-- The contacts in their order, then the scan time, the contact count and the button.
abbrev pub report_readings : PtpReport → List Reading
report_readings r = all_contact_readings r.contacts ++ tail_readings r

end : read_report [] 0 0 [] ≡ some []
unfolding read_report
end = refl

read_tail :
    (r : PtpReport)
    → r.scan_time < 2 ^ 16
    → r.contact_count < 2 ^ 8
    → read_report tail_pieces 0 0 (le_bytes_u16 r.scan_time ++ r.contact_count ∷ r.button ∷ [])
      ≡ some (tail_readings r)
read_tail r time count =
    read_u16 0x0d 0x56 r.scan_time (value 13 84 8 ∷ value 9 1 1 ∷ replicate 7 (padding 1))
      (r.contact_count ∷ r.button ∷ []) time
    ∙ ap (adds (reading 0x0d 0x56 r.scan_time)) (
        read_u8 0x0d 0x54 r.contact_count (value 9 1 1 ∷ replicate 7 (padding 1)) (r.button ∷ [])
          count
        ∙ ap (adds (reading 0x0d 0x54 r.contact_count)) (
            read_first_bit (value 0x09 0x01 1) (replicate 7 (padding 1)) r.button [] refl
            ∙ ap (adds (reading 0x09 0x01 (r.button % 2)))
                (skip_bits 7 [] (r.button / 2) [] (omega arith) ∙ end)))

read_contacts :
    (cs : List PtpContact) (pieces : List Piece) (bytes : List ℕ)
    → All IsContact cs
    → read_report (repeated (length cs) finger_pieces ++ pieces) 0 0 (contacts_bytes cs ++ bytes)
      ≡ adds (all_contact_readings cs) (read_report pieces 0 0 bytes)
read_contacts [] pieces bytes h = sym (same (read_report pieces 0 0 bytes))
read_contacts (c ∷ cs) pieces bytes h =
    let more = repeated (length cs) finger_pieces in
    rw
      (
        append_assoc finger_pieces more pieces,
        append_assoc (contact_bytes c) (contacts_bytes cs) bytes,
      )
      (read_contact c (more ++ pieces) (contacts_bytes cs ++ bytes) h.0
        ∙ ap (adds (contact_readings c)) (read_contacts cs pieces bytes h.1)
        ∙ adds-adds (contact_readings c) (all_contact_readings cs) (read_report pieces 0 0 bytes))

-- The fields of a report are in the range of their types, and its array has five entries.
pub record IsReport (r : PtpReport) : Type 0 where
  pub five : length r.contacts ≡ 5
  pub in_range : All IsContact r.contacts
  pub scan_time_u16 : r.scan_time < 2 ^ 16
  pub contact_count_u8 : r.contact_count < 2 ^ 8

-- A host that parses the touchpad's part of the descriptor by the HID standard reads from the bytes
-- of a touch report, whose fields are in the range of their types, exactly its fields: for each of
-- the five contacts the confidence and the tip switch (bits 0 and 1 of its flags), its identifier
-- and its position, then the scan time, the contact count and the button, each under its usage. The
-- base tags have the standard's numbers.
pub read_report-touch_bytes :
    (tags : HidTags) (r : PtpReport)
    → tags ≡ standard_tags
    → IsReport r
    → (report_pieces reportid_multitouch (ptp_bytes tags) >>= λ pieces.
        read_report pieces 0 0 (touch_bytes r))
      ≡ some (report_readings r)
read_report-touch_bytes tags r standard h =
    ap (λ ts. report_pieces 5 (ptp_bytes ts) >>= λ pieces. read_report pieces 0 0 (touch_bytes r))
      standard
    ∙ ap (λ o. o >>= λ pieces. read_report pieces 0 0 (touch_bytes r)) touch_pieces
    ∙ subst
        (λ n.
          read_report (repeated n finger_pieces ++ tail_pieces) 0 0 (touch_bytes r)
          ≡ some (report_readings r))
        h.five
        (read_contacts r.contacts tail_pieces
            (le_bytes_u16 r.scan_time ++ r.contact_count ∷ r.button ∷ []) h.in_range
          ∙ ap (adds (all_contact_readings r.contacts))
              (read_tail r h.scan_time_u16 h.contact_count_u8))
