-- ===== src/Firmware/Descriptor/KeyLayout.antt =====
-- The keyboard report of the firmware is what its report descriptor says.
use esp32_universal_control.Base.{
  ℕ, zero, suc, replicate, ◌+◌, ◌-◌, ◌*◌, ◌^◌, ◌≤◌, ◌<◌, ◌≡◌, refl, ap, subst, All, ◌∙◌, false,
  some, List, [], ◌∷◌, ◌++◌, length, get_elem?, arith, ltb,
}
use esp32_universal_control.Protocol.Keyboard.{KeyboardReport, reportid_keyboard}
use esp32_universal_control.Host.Keymap.Table.{key_usage_maximum}
use esp32_universal_control.Firmware.Reports.{keyboard_bytes}
use esp32_universal_control.Firmware.Descriptor.Tags.{HidTags}
use esp32_universal_control.Firmware.Descriptor.Keyboard.{keyboard_consumer_items}
use esp32_universal_control.Firmware.Descriptor.Parser.{
  standard_tags, Piece, padding, selector, counted, Reading, start, main_pieces, read_report, pull,
  readings_of,
}
use esp32_universal_control.Firmware.Descriptor.Reading.{
  same, read_whole, pull_enough, adds, reading,
}
use esp32_universal_control.Firmware.Descriptor.Bits.{bit_pieces, bit_readings, read_byte}

abbrev pub modifier_usages : List ℕ
modifier_usages = counted 8 0xe0

abbrev key_piece : Piece
key_piece = selector 0x07 (counted 102 0) 0 8

keyboard_pieces :
    main_pieces 0x80 1 start (keyboard_consumer_items standard_tags)
    ≡ bit_pieces 0x07 modifier_usages ++ padding 8 ∷ replicate 6 key_piece
unfolding main_pieces
keyboard_pieces = refl

-- The keys that are held: each number selects its own usage.
abbrev pub key_readings : List ℕ → List Reading
key_readings [] = []
key_readings (key ∷ keys) = reading 0x07 key 1 ++ key_readings keys

get_elem?-counted :
    (count usage i : ℕ) → i < count → get_elem? (counted count usage) i ≡ some (usage + i)
get_elem?-counted zero usage i h = absurd (omega arith)
get_elem?-counted (suc count) usage zero h = ap some (omega arith)
get_elem?-counted (suc count) usage (suc i) h =
    get_elem?-counted count (usage + 1) i (omega arith) ∙ ap some (omega arith)

key_piece_reads :
    (key : ℕ) → key ≤ key_usage_maximum → readings_of key_piece key ≡ reading 0x07 key 1
key_piece_reads key h =
    let low : ltb key 0 ≡ false = ground arith in
    let same_key : key - 0 ≡ key = omega arith in
    let found : get_elem? (counted 102 0) key ≡ some (0 + key) =
      get_elem?-counted 102 0 key (omega arith) in
    let plain : 0 + key ≡ key = omega arith in rw (readings_of, low, same_key, found, plain) refl

read_key :
    (key : ℕ) (pieces : List Piece) (bytes : List ℕ)
    → key ≤ key_usage_maximum
    → read_report (key_piece ∷ pieces) 0 0 (key ∷ bytes)
      ≡ adds (reading 0x07 key 1) (read_report pieces 0 0 bytes)
unfolding pull
read_key key pieces bytes h =
    let e : 0 + key * 1 ≡ key = omega arith in
    read_whole key_piece pieces key (key ∷ bytes) bytes
      (pull_enough 8 _ 8 bytes refl ∙ ap (λ k. some (k, 8, bytes)) e) (omega arith)
    ∙ ap (λ front. adds front (read_report pieces 0 0 bytes)) (key_piece_reads key h)

read_keys :
    (keys : List ℕ)
    → All (λ key. key ≤ key_usage_maximum) keys
    → read_report (replicate (length keys) key_piece) 0 0 keys ≡ some (key_readings keys)
unfolding read_report
read_keys [] h = refl
read_keys (key ∷ keys) h =
    read_key key (replicate (length keys) key_piece) keys h.0
    ∙ ap (adds (reading 0x07 key 1)) (read_keys keys h.1)

skip_byte :
    (pieces : List Piece) (byte : ℕ) (bytes : List ℕ)
    → byte < 2 ^ 8
    → read_report (padding 8 ∷ pieces) 0 0 (byte ∷ bytes) ≡ read_report pieces 0 0 bytes
unfolding pull
skip_byte pieces byte bytes h =
    let e : 0 + byte * 1 ≡ byte = omega arith in
    read_whole (padding 8) pieces byte (byte ∷ bytes) bytes
      (pull_enough 8 _ 8 bytes refl ∙ ap (λ k. some (k, 8, bytes)) e) h
    ∙ same (read_report pieces 0 0 bytes)

-- Bytes, and six keys that the descriptor has.
pub record IsKeyboardReport (r : KeyboardReport) : Type 0 where
  pub reserved_u8 : r.reserved < 2 ^ 8
  pub six : length r.keycodes ≡ 6
  pub in_range : All (λ key. key ≤ key_usage_maximum) r.keycodes

-- A host that reads a keyboard report by the descriptor's items gets the eight bits of the modifiers,
-- each under its usage from 0xe0 to 0xe7, and exactly the keys of the report, in order, if these
-- are within the descriptor's range. The base tags have the standard's numbers.
pub read_report-keyboard_bytes :
    (tags : HidTags) (r : KeyboardReport)
    → tags ≡ standard_tags
    → IsKeyboardReport r
    → read_report
        (main_pieces 0x80 reportid_keyboard start (keyboard_consumer_items tags))
        0
        0
        (keyboard_bytes r)
      ≡ some (bit_readings 0x07 modifier_usages r.modifiers ++ key_readings r.keycodes)
read_report-keyboard_bytes tags r standard h =
    let modifiers = bit_readings 0x07 modifier_usages r.modifiers in
    ap
      (λ ts.
        read_report (main_pieces 0x80 1 start (keyboard_consumer_items ts)) 0 0 (keyboard_bytes r))
      standard
    ∙ ap (λ pieces. read_report pieces 0 0 (keyboard_bytes r)) keyboard_pieces
    ∙ read_byte 0x07 0xe0 (counted 7 0xe1) (padding 8 ∷ replicate 6 key_piece) r.modifiers
        (r.reserved ∷ r.keycodes) refl
    ∙ ap (adds modifiers) (
        skip_byte (replicate 6 key_piece) r.reserved r.keycodes h.reserved_u8
        ∙ subst
            (λ n.
              read_report (replicate n key_piece) 0 0 r.keycodes ≡ some (key_readings r.keycodes))
            h.six (read_keys r.keycodes h.in_range))
