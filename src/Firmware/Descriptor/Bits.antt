-- ===== src/Firmware/Descriptor/Bits.antt =====
-- How the reader of Parser.antt reads values of one bit.
use esp32_universal_control.Base.{
  ℕ, suc, ◌-◌, ◌/◌, ◌%◌, ◌<◌, ◌≡◌, refl, ap, subst, ◌∙◌, map, List, [], ◌∷◌, ◌++◌, length, arith,
}
use esp32_universal_control.Firmware.Descriptor.Parser.{Piece, value, Reading, read_report}
use esp32_universal_control.Firmware.Descriptor.Reading.{
  read_bit, read_last_bit, read_first_bit, adds, reading, adds-adds,
}

abbrev pub bit_pieces : ℕ → List ℕ → List Piece
bit_pieces page = map (λ usage. value page usage 1)

-- The bits of a number, the lowest first, each under its usage.
abbrev pub bit_readings : ℕ → List ℕ → ℕ → List Reading
bit_readings page [] n = []
bit_readings page (usage ∷ usages) n =
    reading page usage (n % 2) ++ bit_readings page usages (n / 2)

-- The rest of a byte, one value for each bit.
read_bits :
    (page : ℕ) (usages : List ℕ) (pieces : List Piece) (bits : ℕ) (bytes : List ℕ)
    → 0 < length usages
    → read_report (bit_pieces page usages ++ pieces) bits (length usages) bytes
      ≡ adds (bit_readings page usages bits) (read_report pieces 0 0 bytes)
read_bits page [] pieces bits bytes h = absurd (omega arith)
read_bits page (usage ∷ []) pieces bits bytes h =
    read_last_bit (value page usage 1) pieces bits bytes refl
read_bits page (usage ∷ next ∷ usages) pieces bits bytes h =
    let one_less : suc (suc (length usages)) - 1 ≡ suc (length usages) = omega arith in
    read_bit (value page usage 1) (bit_pieces page (next ∷ usages) ++ pieces) bits
      (suc (suc (length usages))) bytes refl (ground arith) (ground arith)
    ∙ rw one_less (
        ap (adds (reading page usage (bits % 2)))
          (read_bits page (next ∷ usages) pieces (bits / 2) bytes (omega arith))
        ∙ adds-adds (reading page usage (bits % 2)) (bit_readings page (next ∷ usages) (bits / 2))
            (read_report pieces 0 0 bytes))

-- A byte of eight bits.
pub read_byte :
    (page first : ℕ) (usages : List ℕ) (pieces : List Piece) (byte : ℕ) (bytes : List ℕ)
    → length usages ≡ 7
    → read_report (bit_pieces page (first ∷ usages) ++ pieces) 0 0 (byte ∷ bytes)
      ≡ adds (bit_readings page (first ∷ usages) byte) (read_report pieces 0 0 bytes)
read_byte page first usages pieces byte bytes h =
    read_first_bit (value page first 1) (bit_pieces page usages ++ pieces) byte bytes refl
    ∙ ap (adds (reading page first (byte % 2))) (
        subst
          (λ n.
            read_report (bit_pieces page usages ++ pieces) (byte / 2) n bytes
            ≡ adds (bit_readings page usages (byte / 2)) (read_report pieces 0 0 bytes))
          h (read_bits page usages pieces (byte / 2) bytes (omega arith)))
    ∙ adds-adds (reading page first (byte % 2)) (bit_readings page usages (byte / 2))
        (read_report pieces 0 0 bytes)
