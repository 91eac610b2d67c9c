-- ===== src/Host/Keyboard/Modifiers.antt =====
-- `apply_modifier_transition` of host/src/capture/keyboard.rs, checked on every modifier byte.
use esp32_universal_control.Base.{
  ℕ, ◌+◌, ◌/◌, ◌%◌, ◌^◌, ◌<◌, ◌≡◌, refl, Bool, true, false, not, arith, holds_up_to, holds_up_to_at,
  ◌==◌, ◌&&◌, if◌then◌else◌,
}
use esp32_universal_control.Host.Keyboard.{apply_modifier_transition}

-- The key of modifier bit `i` is held.
abbrev pub holds_key : ℕ → ℕ → Bool
holds_key modifiers i = modifiers / 2 ^ i % 2 == 1

-- Left and right Control, Shift, Option and Command are four bits apart.
abbrev pub other_side : ℕ → ℕ
other_side i = (i + 4) % 8

-- Whether key `j` is held after key `i` has changed. The flag of the pair stays on while either side
-- is held, so that a key whose own bit is set has gone up if the other side keeps the flag on.
abbrev pub held_after : ℕ → ℕ → Bool → ℕ → Bool
held_after current i generic_pressed j =
    if j == i
    then generic_pressed && not (holds_key current i && holds_key current (other_side i))
    else holds_key current j

abbrev same_bool : Bool → Bool → Bool
same_bool true b = b
same_bool false b = not b

same_bool-eq : (a b : Bool) → same_bool a b ≡ true → a ≡ b
same_bool-eq a b h = ground arith

abbrev agrees : Bool → ℕ → ℕ → ℕ → Bool
agrees generic_pressed i current j =
    same_bool (holds_key (apply_modifier_transition current (2 ^ i) generic_pressed) j)
      (held_after current i generic_pressed j)

abbrev agrees_for : Bool → ℕ → ℕ → Bool
agrees_for generic_pressed i current = holds_up_to (agrees generic_pressed i current) 8

abbrev agrees_at : Bool → ℕ → Bool
agrees_at generic_pressed i = holds_up_to (agrees_for generic_pressed i) 256

table : (generic_pressed : Bool) → holds_up_to (agrees_at generic_pressed) 8 ≡ true
unfolding holds_up_to apply_modifier_transition
table true = refl
table false = refl

-- A modifier event for one of the eight modifier keys leaves the other seven as they are. The key
-- is held afterwards if the flag of its pair is on, unless it and the key of the other side were
-- both held before: then it has gone up and the other side keeps the flag on.
pub apply_modifier_transition_lem :
    (current i j : ℕ) (generic_pressed : Bool)
    → current < 256
    → i < 8
    → j < 8
    → holds_key (apply_modifier_transition current (2 ^ i) generic_pressed) j
      ≡ held_after current i generic_pressed j
apply_modifier_transition_lem current i j generic_pressed byte key any_key = same_bool-eq _ _ (
    holds_up_to_at (agrees generic_pressed i current) 8 j any_key (
      holds_up_to_at (agrees_for generic_pressed i) 256 current byte
        (holds_up_to_at (agrees_at generic_pressed) 8 i key (table generic_pressed))))
