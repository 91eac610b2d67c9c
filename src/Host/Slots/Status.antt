-- ===== src/Host/Slots/Status.antt =====
-- `print_status` of host/src/slots.rs: the lines that it prints.
use esp32_universal_control.Base.{
  ℕ, zero, suc, ◌+◌, ◌<◌, ◌≡◌, refl, Bool, true, false, not, Option, none, some, inl, inr, List, [],
  ◌∷◌, length, ◌&&◌, ◌||◌, get_elem?, is_number, is_some, if◌then◌else◌, arith, ◌>>=◌, All,
  Bool-cases, ltb,
}
use esp32_universal_control.Protocol.Wire.{Address}
use esp32_universal_control.Host.Serial.Address.{format_addr}
use esp32_universal_control.Host.Slots.{SlotTable, set_active, usable, is_populated, max_slots}

-- A line: whether it has the marker, and what its text is made of.
pub data StatusLine : Type 0 where
  mac_line : (marked : Bool) → StatusLine
  slot_line : (marked : Bool) (slot : ℕ) (address : List ℕ) (number : ℕ) → StatusLine

-- The loop over the slots, from number `i`.
unfoldable pub slot_lines :
    (forwarding : Bool) (active : Option ℕ) (i : ℕ)
    → List (Option Address)
    → Option (List StatusLine)
slot_lines forwarding active i [] = some []
slot_lines forwarding active i (none ∷ slots) = slot_lines forwarding active (suc i) slots
slot_lines forwarding active i (some addr ∷ slots) =
    slot_lines forwarding active (suc i) slots >>= λ lines. format_addr addr >>= λ text.
    some (slot_line (forwarding && is_number active i) i text (i + 2) ∷ lines)

unfoldable pub print_status : SlotTable → Option (List StatusLine)
unfolding slot_lines
print_status table = slot_lines table.forwarding table.active 0 table.slots >>= λ lines.
    some (mac_line (not table.forwarding) ∷ lines)

abbrev pub is_marked : StatusLine → Bool
is_marked (mac_line marked) = marked
is_marked (slot_line marked slot address number) = marked

abbrev pub marks : List StatusLine → ℕ
marks [] = 0
marks (line ∷ lines) = if is_marked line then suc (marks lines) else marks lines

abbrev pub HasSixBytes : Option Address → Type 0
HasSixBytes none = Unit {0}
HasSixBytes (some addr) = length addr ≡ 6

format_addr_total :
    (addr : Address) → length addr ≡ 6 → (text : List ℕ) × (format_addr addr ≡ some text)
unfolding format_addr
format_addr_total (b₀ ∷ b₁ ∷ b₂ ∷ b₃ ∷ b₄ ∷ b₅ ∷ rest) h = (_, refl)
format_addr_total [] h = absurd (omega (arith, h))
format_addr_total (b₀ ∷ []) h = absurd (omega (arith, h))
format_addr_total (b₀ ∷ b₁ ∷ []) h = absurd (omega (arith, h))
format_addr_total (b₀ ∷ b₁ ∷ b₂ ∷ []) h = absurd (omega (arith, h))
format_addr_total (b₀ ∷ b₁ ∷ b₂ ∷ b₃ ∷ []) h = absurd (omega (arith, h))
format_addr_total (b₀ ∷ b₁ ∷ b₂ ∷ b₃ ∷ b₄ ∷ []) h = absurd (omega (arith, h))

-- Whether a slot from number `i` on is active and has a peer.
abbrev is_there : Option ℕ → ℕ → List (Option Address) → Bool
is_there active i [] = false
is_there active i (none ∷ slots) = is_there active (suc i) slots
is_there active i (some addr ∷ slots) = is_number active i || is_there active (suc i) slots

behind : (k i : ℕ) (slots : List (Option Address)) → k < i → is_there (some k) i slots ≡ false
behind k i [] h = refl
behind k i (none ∷ slots) h = behind k (suc i) slots (omega (arith, h))
behind k i (some addr ∷ slots) h = ground (arith, h, behind k (suc i) slots (omega (arith, h)))

alone :
    (active : Option ℕ) (i : ℕ) (slots : List (Option Address))
    → is_number active i ≡ true
    → is_there active (suc i) slots ≡ false
alone none i slots h = absurd (cc)
alone (some k) i slots h = behind k (suc i) slots (ground (arith, h))

slot_lines_lem :
    (forwarding : Bool) (active : Option ℕ) (i : ℕ) (slots : List (Option Address))
    → All HasSixBytes slots
    → (lines : List StatusLine) × (slot_lines forwarding active i slots ≡ some lines)
      × (marks lines ≡ (if forwarding && is_there active i slots then 1 else 0))
unfolding slot_lines
slot_lines_lem forwarding active i [] six = ([], refl, ground arith)
slot_lines_lem forwarding active i (none ∷ slots) (s, six) =
    slot_lines_lem forwarding active (suc i) slots six
slot_lines_lem forwarding active i (some addr ∷ slots) (s, six) =
    let (lines, runs, count) = slot_lines_lem forwarding active (suc i) slots six in
    let (text, prints) = format_addr_total addr s in
    (
      slot_line (forwarding && is_number active i) i text (i + 2) ∷ lines,
      rw (runs, prints) refl,
      ground (arith, count, alone active i slots),
    )

at_slot :
    (k d i : ℕ) (slots : List (Option Address))
    → k ≡ d + i
    → is_populated (get_elem? slots d) ≡ true
    → is_there (some k) i slots ≡ true
at_slot k d i [] e there = absurd (cc)
at_slot k zero i (none ∷ slots) e there = absurd (cc)
at_slot k zero i (some addr ∷ slots) e there = ground (arith, e)
at_slot k (suc d) i (none ∷ slots) e there = at_slot k d (suc i) slots (omega (arith, e)) there
at_slot k (suc d) i (some addr ∷ slots) e there =
    ground (arith, at_slot k d (suc i) slots (omega (arith, e)) there)

usable_there :
    (table : SlotTable) (slot : Option ℕ)
    → (is_some (usable table slot) && is_there (usable table slot) 0 table.slots)
      ≡ is_some (usable table slot)
usable_there table none = refl
usable_there table (some slot) =
    elim (Bool-cases (ltb slot max_slots && is_populated (get_elem? table.slots slot))) [
      | inr not_usable ↦ rw not_usable refl
      | inl is_usable ↦
          rw is_usable (at_slot slot slot 0 table.slots (omega arith) (ground (arith, is_usable)))
    ]

-- One line is marked: after a peer or the Mac is selected, on a table whose addresses have six
-- bytes, `print_status` prints with no panic, and exactly one of its lines has the marker.
pub print_status_lem :
    (table : SlotTable) (slot : Option ℕ)
    → All HasSixBytes table.slots
    → (lines : List StatusLine) × (print_status (set_active table slot) ≡ some lines)
      × (marks lines ≡ 1)
unfolding print_status set_active
print_status_lem table slot six =
    let active = usable table slot in
    let (lines, runs, count) = slot_lines_lem (is_some active) active 0 table.slots six in
    (
      mac_line (not (is_some active)) ∷ lines,
      rw runs refl,
      ground (arith, count, usable_there table slot),
    )
