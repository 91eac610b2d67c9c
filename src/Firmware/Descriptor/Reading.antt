-- ===== src/Firmware/Descriptor/Reading.antt =====
-- How the reader of Parser.antt reads single fields: bytes, words and bits of the reports of
-- firmware/src/ble_hid.rs.
use esp32_universal_control.Base.{
  ℕ, zero, suc, replicate, false, ◌+◌, ◌-◌, ◌*◌, ◌/◌, ◌%◌, ◌^◌, ◌<◌, ◌≡◌, refl, ap, sym,
  append_assoc, ◌∙◌, true, Option, none, some, List, [], ◌∷◌, ◌++◌, arith, ◌>>=◌, leb, ◌==◌,
}
use native.Mathlib.Nat.{mod-eq_of_lt}
use esp32_universal_control.Firmware.Reports.{le_bytes_u16, le_bytes_u32}
use esp32_universal_control.Firmware.Descriptor.Parser.{
  Piece, padding, value, Reading, pull, read_report, readings_of, width_of,
}

pub pull_enough :
    (width bits have : ℕ) (bytes : List ℕ)
    → leb width have ≡ true
    → pull width bits have bytes ≡ some (bits, have, bytes)
unfolding pull
pull_enough width bits have [] h = rw (pull, h) refl
pull_enough width bits have (byte ∷ bytes) h = rw (pull, h) refl

pub same : (o : Option (List Reading)) → (o >>= λ more. some more) ≡ o
same none = refl
same (some more) = refl

-- A piece of whole bytes, in which the bits of `n` are there.
pub read_whole :
    (piece : Piece) (pieces : List Piece) (n : ℕ) (bytes after : List ℕ)
    → pull (width_of piece) 0 0 bytes ≡ some (n, width_of piece, after)
    → n < 2 ^ width_of piece
    → read_report (piece ∷ pieces) 0 0 bytes
      ≡ (read_report pieces 0 0 after >>= λ more. some (readings_of piece n ++ more))
unfolding read_report
read_whole piece pieces n bytes after pulled small =
    let none_left : width_of piece - width_of piece ≡ 0 = omega arith in
    rw (read_report, pulled, none_left, mod-eq_of_lt small) refl

pub read_u16 :
    (page usage n : ℕ) (pieces : List Piece) (bytes : List ℕ)
    → n < 2 ^ 16
    → read_report (value page usage 16 ∷ pieces) 0 0 (le_bytes_u16 n ++ bytes) ≡ (
        read_report pieces 0 0 bytes >>= λ more.
        some (record { page = page; usage = usage; number_read = n } ∷ more))
unfolding pull
read_u16 page usage n pieces bytes h =
    let e : 0 + n % 256 * 1 + n / 256 % 256 * 256 ≡ n = omega arith in
    read_whole (value page usage 16) pieces n (le_bytes_u16 n ++ bytes) bytes
      (pull_enough 16 _ 16 bytes refl ∙ ap (λ k. some (k, 16, bytes)) e) h

pub read_u8 :
    (page usage n : ℕ) (pieces : List Piece) (bytes : List ℕ)
    → n < 2 ^ 8
    → read_report (value page usage 8 ∷ pieces) 0 0 (n ∷ bytes) ≡ (
        read_report pieces 0 0 bytes >>= λ more.
        some (record { page = page; usage = usage; number_read = n } ∷ more))
unfolding pull
read_u8 page usage n pieces bytes h =
    let e : 0 + n * 1 ≡ n = omega arith in
    read_whole (value page usage 8) pieces n (n ∷ bytes) bytes
      (pull_enough 8 _ 8 bytes refl ∙ ap (λ k. some (k, 8, bytes)) e) h

pub read_u32 :
    (page usage n : ℕ) (pieces : List Piece) (bytes : List ℕ)
    → n < 2 ^ 32
    → read_report (value page usage 32 ∷ pieces) 0 0 (le_bytes_u32 n ++ bytes) ≡ (
        read_report pieces 0 0 bytes >>= λ more.
        some (record { page = page; usage = usage; number_read = n } ∷ more))
unfolding pull
read_u32 page usage n pieces bytes h =
    let e : 0
          + n % 256 * 1
          + n / 256 % 256 * 256
          + n / 65536 % 256 * 65536
          + n / 16777216 % 256 * 16777216
        ≡ n =
      omega arith in
    read_whole (value page usage 32) pieces n (le_bytes_u32 n ++ bytes) bytes
      (pull_enough 32 _ 32 bytes refl ∙ ap (λ k. some (k, 32, bytes)) e) h

-- One bit of those that are there, with more behind it.
pub read_bit :
    (piece : Piece) (pieces : List Piece) (bits have : ℕ) (bytes : List ℕ)
    → width_of piece ≡ 1
    → leb 1 have ≡ true
    → (have - 1 == 0) ≡ false
    → read_report (piece ∷ pieces) bits have bytes ≡ (
        read_report pieces (bits / 2) (have - 1) bytes >>= λ more.
        some (readings_of piece (bits % 2) ++ more))
unfolding read_report
read_bit piece pieces bits have bytes one there more =
    rw (read_report, one, pull_enough 1 bits have bytes there, more) refl

pub read_last_bit :
    (piece : Piece) (pieces : List Piece) (bits : ℕ) (bytes : List ℕ)
    → width_of piece ≡ 1
    → read_report (piece ∷ pieces) bits 1 bytes
      ≡ (read_report pieces 0 0 bytes >>= λ more. some (readings_of piece (bits % 2) ++ more))
unfolding read_report
read_last_bit piece pieces bits bytes one =
    rw (read_report, one, pull_enough 1 bits 1 bytes refl) refl

-- The last `n` bits of a byte, if they are padding.
pub skip_bits :
    (n : ℕ) (pieces : List Piece) (bits : ℕ) (bytes : List ℕ)
    → 0 < n
    → read_report (replicate n (padding 1) ++ pieces) bits n bytes ≡ read_report pieces 0 0 bytes
skip_bits zero pieces bits bytes h = absurd (omega arith)
skip_bits (suc zero) pieces bits bytes h =
    read_last_bit (padding 1) pieces bits bytes refl ∙ same (read_report pieces 0 0 bytes)
skip_bits (suc (suc n)) pieces bits bytes h =
    let one_less : suc (suc n) - 1 ≡ suc n = omega arith in
    let some_left : (suc (suc n) - 1 == 0) ≡ false = ground arith in
    read_bit (padding 1) (replicate (suc n) (padding 1) ++ pieces) bits (suc (suc n)) bytes refl
      (ground arith) some_left
    ∙ rw one_less (same _ ∙ skip_bits (suc n) pieces (bits / 2) bytes (omega arith))

pub read_first_bit :
    (piece : Piece) (pieces : List Piece) (byte : ℕ) (bytes : List ℕ)
    → width_of piece ≡ 1
    → read_report (piece ∷ pieces) 0 0 (byte ∷ bytes) ≡ (
        read_report pieces (byte / 2) 7 bytes >>= λ more.
        some (readings_of piece (byte % 2) ++ more))
unfolding read_report pull
read_first_bit piece pieces byte bytes one =
    let e : 0 + byte * 1 ≡ byte = omega arith in
    let pulled : pull 1 0 0 (byte ∷ bytes) ≡ some (byte, 8, bytes) =
      pull_enough 1 (0 + byte * 1) 8 bytes refl ∙ ap (λ k. some (k, 8, bytes)) e in
    rw (read_report, one, pulled) refl

-- The readings `front`, before those of the rest.
abbrev pub adds : List Reading → Option (List Reading) → Option (List Reading)
adds front o = o >>= λ more. some (front ++ more)

abbrev pub reading : ℕ → ℕ → ℕ → List Reading
reading page usage n = record { page = page; usage = usage; number_read = n } ∷ []

pub adds-adds :
    (xs ys : List Reading) (o : Option (List Reading)) → adds xs (adds ys o) ≡ adds (xs ++ ys) o
adds-adds xs ys none = refl
adds-adds xs ys (some more) = ap some (sym (append_assoc xs ys more))
