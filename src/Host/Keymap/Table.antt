-- ===== src/Host/Keymap/Table.antt =====
-- Facts about the table of host/src/capture/keymap.rs, checked entry by entry.
use esp32_universal_control.Base.{
  ℕ, ◌≤◌, ◌<◌, ◌≡◌, ◌≢◌, refl, sym, ap, ◌∙◌, Bool, true, false, Option, none, some, List, [], ◌∷◌,
  inl, inr, arith, get_elem?, length, position, ltb, ◌==◌, ◌&&◌, ◌||◌, Option-cases, not, is_number,
  lt_of_get_elem?, holds_up_to, holds_up_to_at, is_some, any,
}
use native.Mathlib.Decide.{dec_lt}
use esp32_universal_control.Host.Keymap.{
  mac_to_hid_table, mac_to_hid, modifier_mask, mac_to_consumer,
}

table_length : length mac_to_hid_table ≡ 128
unfolding mac_to_hid_table
table_length = refl

-- A keycode beyond the table has no usage.
mac_to_hid_beyond : (k : ℕ) → 128 ≤ k → mac_to_hid k ≡ 0
unfolding mac_to_hid
mac_to_hid_beyond k h = elim (Option-cases (get_elem? mac_to_hid_table k)) [
  | inl e ↦ rw e
  | inr (x, e) ↦ absurd (omega (arith, lt_of_get_elem? mac_to_hid_table k e, table_length))
]

abbrev first_with : ℕ → Option ℕ
first_with hid = position (λ h. h == hid) mac_to_hid_table

injective_table :
    holds_up_to (λ k. mac_to_hid k == 0 || is_number (first_with (mac_to_hid k)) k) 128 ≡ true
unfolding holds_up_to mac_to_hid mac_to_hid_table
injective_table = refl

back : (k : ℕ) → k < 128 → (mac_to_hid k == 0 || is_number (first_with (mac_to_hid k)) k) ≡ true
back k h = holds_up_to_at _ 128 k h injective_table

is_number-some : (o : Option ℕ) (n : ℕ) → is_number o n ≡ true → o ≡ some n
is_number-some none n h = cc
is_number-some (some m) n h = ground arith

found_at : (k : ℕ) → mac_to_hid k ≢ 0 → first_with (mac_to_hid k) ≡ some k
found_at k h = elim (dec_lt k 128) [
  | yes lt ↦ is_number-some (first_with (mac_to_hid k)) k (ground (arith, back k lt))
  | no ge ↦ absurd (h (mac_to_hid_beyond k (omega arith)))
]

-- No two keys of the Mac are sent as one: keycodes with the same usage, other than 0 for a key that
-- is not mapped, are equal. Here a keycode is any number, in the table or not.
pub mac_to_hid_injective : (k j : ℕ) → mac_to_hid k ≢ 0 → mac_to_hid k ≡ mac_to_hid j → k ≡ j
mac_to_hid_injective k j h e =
    let same : some k ≡ some j =
      sym (found_at k h) ∙ ap first_with e ∙ found_at j (λ z. h (e ∙ z)) in
    cc

-- The largest key usage that the keyboard's report descriptor declares for the key array
-- (LOGICAL_MAXIMUM and USAGE_MAXIMUM in firmware/src/hid_descriptor.rs).
abbrev pub key_usage_maximum : ℕ
key_usage_maximum = 0x65

-- The key goes into the key array with a usage above that maximum.
abbrev pub sends_undeclared : ℕ → Bool
sends_undeclared k =
    not (is_some (mac_to_consumer k))
    && (not (is_some (modifier_mask k)) && ltb key_usage_maximum (mac_to_hid k))

-- F13 to F20, the keypad's `=`, and the keys that only JIS keyboards have.
abbrev pub undeclared_keys : List ℕ
undeclared_keys =
    0x40 ∷ 0x4f ∷ 0x50 ∷ 0x51 ∷ 0x5a ∷ 0x5d ∷ 0x5e ∷ 0x5f ∷ 0x66 ∷ 0x68 ∷ 0x69 ∷ 0x6a ∷ 0x6b ∷ 0x71
    ∷ []

abbrev same_bool : Bool → Bool → Bool
same_bool true b = b
same_bool false b = not b

undeclared_table :
    holds_up_to (λ k. same_bool (sends_undeclared k) (any (λ u. u == k) undeclared_keys)) 128 ≡ true
unfolding holds_up_to mac_to_consumer modifier_mask mac_to_hid_table
undeclared_table = refl

same_bool-eq : (a b : Bool) → same_bool a b ≡ true → a ≡ b
same_bool-eq a b h = ground arith

beyond_sends : (k : ℕ) → 128 ≤ k → sends_undeclared k ≡ false
beyond_sends k h = ground (arith, mac_to_hid_beyond k h)

beyond_any : (k : ℕ) → 128 ≤ k → any (λ u. u == k) undeclared_keys ≡ false
beyond_any k h = ground arith

-- A key goes into the key array with a usage above 0x65, the largest that the report descriptor
-- declares, if and only if it is one of fourteen: F13 to F20, the keypad's `=`, and the keys
-- that only JIS keyboards have.
pub undeclared_keys_lem : (k : ℕ) → sends_undeclared k ≡ any (λ u. u == k) undeclared_keys
undeclared_keys_lem k = elim (dec_lt k 128) [
  | yes lt ↦ same_bool-eq _ _ (holds_up_to_at _ 128 k lt undeclared_table)
  | no ge ↦ beyond_sends k (omega arith) ∙ sym (beyond_any k (omega arith))
]
