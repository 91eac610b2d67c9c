-- ===== src/Host/Serial/Address.antt =====
-- `format_addr` of host/src/serial.rs and `print_status` of host/src/slots.rs. A text is a list of
-- characters by their numbers.
use esp32_universal_control.Base.{
  ℕ, ◌+◌, ◌-◌, ◌*◌, ◌/◌, ◌%◌, ◌<◌, ◌≡◌, refl, true, false, Option, none, some, List, [], ◌∷◌, ◌++◌,
  length, ltb, ◌==◌, get_elem?, if◌then◌else◌, arith, ◌>>=◌, All,
}
use esp32_universal_control.Protocol.Wire.{Address}

-- A digit of `{:02X}`.
abbrev pub hex_digit : ℕ → ℕ
hex_digit n = if ltb n 10 then 48 + n else 55 + n

-- `{:02X}` of a byte.
abbrev pub hex_byte : ℕ → List ℕ
hex_byte b = hex_digit (b / 16) ∷ hex_digit (b % 16) ∷ []

abbrev pub colon : ℕ
colon = 58

-- `none` is the panic of an index out of range.
unfoldable pub format_addr : Address → Option (List ℕ)
format_addr addr = do
  b₅ ← get_elem? addr 5
  b₄ ← get_elem? addr 4
  b₃ ← get_elem? addr 3
  b₂ ← get_elem? addr 2
  b₁ ← get_elem? addr 1
  b₀ ← get_elem? addr 0
  some (
      hex_byte b₅
      ++ colon ∷ hex_byte b₄
      ++ colon ∷ hex_byte b₃
      ++ colon ∷ hex_byte b₂
      ++ colon ∷ hex_byte b₁
      ++ colon ∷ hex_byte b₀)

-- A reader of such texts, from the highest byte to the lowest.
abbrev pub read_digit : ℕ → ℕ
read_digit c = if ltb c 65 then c - 48 else c - 55

abbrev pub read_addr : List ℕ → Address → Option Address
read_addr [] addr = none
read_addr (high ∷ []) addr = none
read_addr (high ∷ low ∷ []) addr = some ((16 * read_digit high + read_digit low) ∷ addr)
read_addr (high ∷ low ∷ separator ∷ rest) addr = elim (separator == colon) [
  | true ↦ read_addr rest ((16 * read_digit high + read_digit low) ∷ addr)
  | false ↦ none
]

read-hex_digit : (n : ℕ) → n < 16 → read_digit (hex_digit n) ≡ n
read-hex_digit n h = ground arith

read-hex_byte :
    (b : ℕ) → b < 256 → 16 * read_digit (hex_digit (b / 16)) + read_digit (hex_digit (b % 16)) ≡ b
read-hex_byte b h =
    omega (arith, read-hex_digit (b / 16) (omega arith), read-hex_digit (b % 16) (omega arith))

-- The printed address tells the device: on any six bytes `format_addr` does not panic, and from its
-- text, of 17 characters, the address can be read back.
pub read-format_addr :
    (b₀ b₁ b₂ b₃ b₄ b₅ : ℕ)
    → All (λ b. b < 256) (b₀ ∷ b₁ ∷ b₂ ∷ b₃ ∷ b₄ ∷ b₅ ∷ [])
    → let addr : Address = b₀ ∷ b₁ ∷ b₂ ∷ b₃ ∷ b₄ ∷ b₅ ∷ [] in
      (text : List ℕ) × (format_addr addr ≡ some text)
      × (length text ≡ 17)
      × (read_addr text [] ≡ some addr)
unfolding format_addr
read-format_addr b₀ b₁ b₂ b₃ b₄ b₅ (h₀, (h₁, (h₂, (h₃, (h₄, (h₅, _)))))) = (
  _,
  refl,
  refl,
  rw
      (
        read-hex_byte b₀ h₀,
        read-hex_byte b₁ h₁,
        read-hex_byte b₂ h₂,
        read-hex_byte b₃ h₃,
        read-hex_byte b₄ h₄,
        read-hex_byte b₅ h₅,
      )
      refl,
)
