-- ===== src/Firmware/Descriptor/Parser.antt =====
-- How a HID host reads a report descriptor (USB HID 1.11, sections 6.2.2 and 8), as far as the
-- descriptor of firmware/src/hid_descriptor.rs goes: short items, one page at a time. It is written from that standard, and not from the source.
use esp32_universal_control.Base.{
  ℕ, zero, suc, ◌+◌, ◌-◌, ◌*◌, ◌/◌, ◌%◌, ◌^◌, Bool, true, false, Option, none, some, List, [], ◌∷◌,
  ◌++◌, replicate, leb, ltb, get_elem?, ◌&&◌, ◌==◌, if◌then◌else◌, ◌>>=◌,
}
use esp32_universal_control.Firmware.Descriptor.Tags.{HidTags}
use esp32_universal_control.Firmware.Descriptor.Keyboard.{HidItem, item}

-- The tags as the standard numbers them.
abbrev pub standard_tags : HidTags
standard_tags = record {
  usage_page = 0x04;
  usage = 0x08;
  usage_minimum = 0x18;
  usage_maximum = 0x28;
  logical_minimum = 0x14;
  logical_maximum = 0x24;
  physical_maximum = 0x44;
  unit_exponent = 0x54;
  unit = 0x64;
  report_size = 0x74;
  report_id = 0x84;
  report_count = 0x94;
  collection = 0xa0;
  end_collection = 0xc0;
  hidinput = 0x80;
  hidoutput = 0x90;
  feature = 0xb0;
}

abbrev data_size : ℕ → ℕ
data_size code = if code == 3 then 4 else code

-- The items, where `read` of the current one's bytes are read and `left` are not.
unfoldable pub scan_items : ℕ → ℕ → List ℕ → List ℕ → Option (List HidItem)
scan_items tag zero read [] = some (item tag read ∷ [])
scan_items tag (suc left) read [] = none
scan_items tag zero read (byte ∷ bytes) =
    scan_items (byte - byte % 4) (data_size (byte % 4)) [] bytes >>= λ items.
    some (item tag read ∷ items)
scan_items tag (suc left) read (byte ∷ bytes) = scan_items tag left (read ++ byte ∷ []) bytes

unfoldable pub parse_items : List ℕ → Option (List HidItem)
unfolding scan_items
parse_items [] = some []
parse_items (byte ∷ bytes) = scan_items (byte - byte % 4) (data_size (byte % 4)) [] bytes

-- A piece of a report: bits to skip, bits with a usage, or bits that select one of some usages, of
-- which the first has the number `least`.
pub data Piece : Type 0 where
  padding : (width : ℕ) → Piece
  value : (page usage width : ℕ) → Piece
  selector : (page : ℕ) (usages : List ℕ) (least width : ℕ) → Piece

-- What is in force at an item, and the usages since the last main item, in order.
pub record Globals : Type 0 where
  pub page : ℕ
  pub report_size : ℕ
  pub report_count : ℕ
  pub report_id : ℕ
  pub least : ℕ
  pub usage_from : ℕ
  pub usages : List ℕ

abbrev pub number : List ℕ → ℕ
number [] = 0
number (byte ∷ bytes) = byte + 256 * number bytes

-- The pieces of a main item of `count` pieces; the last usage serves for those that are left.
abbrev pub pieces_of : ℕ → ℕ → ℕ → List ℕ → List Piece
pieces_of zero page width usages = []
pieces_of (suc count) page width [] = padding width ∷ pieces_of count page width []
pieces_of (suc count) page width (usage ∷ []) =
    value page usage width ∷ pieces_of count page width (usage ∷ [])
pieces_of (suc count) page width (usage ∷ next ∷ usages) =
    value page usage width ∷ pieces_of count page width (next ∷ usages)

-- A main item ends the list of usages. Bit 0 of its value says that it is constant.
abbrev pub is_main : ℕ → Bool
is_main tag =
    if tag == 0x80
    then true
    else (if tag == 0x90
        then true
        else (if tag == 0xb0 then true else (if tag == 0xa0 then true else tag == 0xc0)))

-- So many usages from one on.
abbrev pub counted : (count usage : ℕ) → List ℕ
counted zero usage = []
counted (suc count) usage = usage ∷ counted count (usage + 1)

abbrev pub after_item : HidItem → Globals → Globals
after_item (item tag bytes) g = record {
  page = if tag == 0x04 then number bytes else g.page;
  report_size = if tag == 0x74 then number bytes else g.report_size;
  report_count = if tag == 0x94 then number bytes else g.report_count;
  report_id = if tag == 0x84 then number bytes else g.report_id;
  least = if tag == 0x14 then number bytes else g.least;
  usage_from = if tag == 0x18 then number bytes else g.usage_from;
  usages =
      if is_main tag
      then []
      else (if tag == 0x08
          then g.usages ++ number bytes ∷ []
          else (if tag == 0x28
              then g.usages ++ counted (number bytes + 1 - g.usage_from) g.usage_from
              else g.usages));
}

-- The pieces of a main item with a tag (input, output or feature) in the report `id`. Bit 1 of the
-- value says that each piece has its own usage; without it each selects one of the usages.
abbrev pub pieces_at : (main id : ℕ) → HidItem → Globals → List Piece
pieces_at main id (item tag bytes) g =
    if tag == main && g.report_id == id
    then (if number bytes % 2 == 1
        then replicate g.report_count (padding g.report_size)
        else (if number bytes / 2 % 2 == 1
            then pieces_of g.report_count g.page g.report_size g.usages
            else replicate g.report_count (selector g.page g.usages g.least g.report_size)))
    else []

-- The pieces of a report, in order.
unfoldable pub main_pieces : (main id : ℕ) → Globals → List HidItem → List Piece
main_pieces main id g [] = []
main_pieces main id g (i ∷ items) =
    pieces_at main id i g ++ main_pieces main id (after_item i g) items

abbrev pub start : Globals
start = record {
  page = 0;
  report_size = 0;
  report_count = 0;
  report_id = 0;
  least = 0;
  usage_from = 0;
  usages = [];
}

-- The pieces of an input report, by a whole descriptor.
abbrev pub report_pieces : ℕ → List ℕ → Option (List Piece)
report_pieces id descriptor =
    parse_items descriptor >>= λ items. some (main_pieces 0x80 id start items)

-- Bytes are pulled, the lowest bits first, until `width` bits are there.
unfoldable pub pull : ℕ → ℕ → ℕ → List ℕ → Option (ℕ × ℕ × List ℕ)
pull width bits have [] = elim (leb width have) [ true ↦ some (bits, have, []) | false ↦ none ]
pull width bits have (byte ∷ bytes) = elim (leb width have) [
  | true ↦ some (bits, have, byte ∷ bytes)
  | false ↦ pull width (bits + byte * 2 ^ have) (have + 8) bytes
]

-- A value that is read: the page and the usage, and the number.
pub record Reading : Type 0 where
  pub page : ℕ
  pub usage : ℕ
  pub number_read : ℕ

abbrev pub width_of : Piece → ℕ
width_of (padding width) = width
width_of (value page usage width) = width
width_of (selector page usages least width) = width

abbrev pub selected : ℕ → Option ℕ → List Reading
selected page none = []
selected page (some usage) = record { page = page; usage = usage; number_read = 1 } ∷ []

abbrev pub readings_of : Piece → ℕ → List Reading
readings_of (padding width) n = []
readings_of (value page usage width) n = record { page = page; usage = usage; number_read = n } ∷ []
readings_of (selector page usages least width) n =
    if ltb n least then [] else selected page (get_elem? usages (n - least))

-- The values of a report, by its pieces. The report must have the length of the pieces.
unfoldable pub read_report : List Piece → ℕ → ℕ → List ℕ → Option (List Reading)
unfolding pull
read_report [] bits zero [] = some []
read_report [] bits zero (byte ∷ bytes) = none
read_report [] bits (suc have) bytes = none
read_report (piece ∷ pieces) bits have bytes = do
  pulled ← pull (width_of piece) bits have bytes
  let left = pulled.1 - width_of piece
  let unread = if left == 0 then 0 else pulled.0 / 2 ^ width_of piece
  more ← read_report pieces unread left pulled.2
  some (readings_of piece (pulled.0 % 2 ^ width_of piece) ++ more)
