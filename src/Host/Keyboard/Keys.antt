-- ===== src/Host/Keyboard/Keys.antt =====
-- The six-key array of host/src/capture/keyboard.rs as a list of held keys, oldest first.
use esp32_universal_control.Base.{
  ℕ, suc, zero, ◌-◌, ◌≡◌, ◌≢◌, ◌<◌, ◌≤◌, refl, sym, ap, ◌∙◌, inl, inr, true, false, none, some,
  List, [], ◌∷◌, ◌++◌, arith, leb, ◌==◌, ◌||◌, if◌then◌else◌, Bool-cases, All, position, set,
  length, replicate, pad, append_assoc, length-append,
}
use esp32_universal_control.Protocol.Input.{max_keys}
use esp32_universal_control.Host.Keyboard.{contains, copy_down, press_key, release_key}

abbrev pub AllKeys : List ℕ → Type 0
AllKeys = All (λ key. key ≢ 0)

-- An array that holds exactly `held`, and is empty behind.
abbrev pub array_of : List ℕ → List ℕ
array_of held = pad max_keys 0 held

-- The list without the first entry that is `hid`.
abbrev pub without : ℕ → List ℕ → List ℕ
without hid [] = []
without hid (key ∷ keys) = if key == hid then keys else key ∷ without hid keys

abbrev zeros : ℕ → List ℕ
zeros m = replicate m 0

contains-zeros : (m hid : ℕ) → hid ≢ 0 → contains (zeros m) hid ≡ false
contains-zeros zero hid h = refl
contains-zeros (suc m) hid h = ground (arith, contains-zeros m hid h)

contains-held :
    (held : List ℕ) (m hid : ℕ) → hid ≢ 0 → contains (held ++ zeros m) hid ≡ contains held hid
contains-held [] m hid h = contains-zeros m hid h
contains-held (key ∷ held) m hid h = ground (arith, contains-held held m hid h)

free_at :
    (held : List ℕ) (m : ℕ)
    → AllKeys held
    → position (λ slot. slot == 0) (held ++ zeros (suc m)) ≡ some (length held)
free_at [] m a = refl
free_at (key ∷ held) m a = ground (arith, free_at held m a.1)

full_none : (held : List ℕ) → AllKeys held → position (λ slot. slot == 0) (held ++ zeros 0) ≡ none
full_none [] a = refl
full_none (key ∷ held) a = ground (arith, full_none held a.1)

set-free :
    (held : List ℕ) (m hid : ℕ)
    → set (held ++ zeros (suc m)) (length held) hid ≡ (held ++ hid ∷ []) ++ zeros m
set-free [] m hid = refl
set-free (key ∷ held) m hid = ap (◌∷◌ key) (set-free held m hid)

press_held :
    (held : List ℕ) (m hid : ℕ)
    → AllKeys held
    → hid ≢ 0
    → contains held hid ≡ false
    → press_key (held ++ zeros (suc m)) hid ≡ some ((held ++ hid ∷ []) ++ zeros m)
unfolding press_key
press_held held m hid a h new =
    ground (arith, contains-held held (suc m) hid h, free_at held m a, set-free held m hid)

-- On an array of at most six held keys, a press of a usage other than 0 appends it. Nothing
-- changes if it is held already, or if six keys are held.
pub press_key_lem :
    (held : List ℕ) (hid : ℕ)
    → AllKeys held
    → length held ≤ max_keys
    → hid ≢ 0
    → press_key (array_of held) hid ≡ (
        if contains held hid || leb max_keys (length held)
        then none
        else some (array_of (held ++ hid ∷ [])))
unfolding press_key
press_key_lem held hid a few h = elim (Bool-cases (contains held hid)) [
  | inl old ↦ ground (arith, contains-held held (max_keys - length held) hid h)
  | inr new ↦ elim (Bool-cases (leb max_keys (length held))) [
    | inl full ↦
        let none_left : max_keys - length held ≡ 0 = ground arith in
        ground (arith, none_left, contains-held held 0 hid h, full_none held a)
    | inr room ↦
        let left : max_keys - length held ≡ suc (max_keys - length held - 1) = ground arith in
        let less : max_keys - length (held ++ hid ∷ []) ≡ max_keys - length held - 1 =
          omega (arith, length-append held (hid ∷ [])) in
        let e = press_held held (max_keys - length held - 1) hid a h new in
        rw (new, room)
          (ap (λ n. press_key (held ++ zeros n) hid) left
            ∙ e
            ∙ ap (λ n. some ((held ++ hid ∷ []) ++ zeros n)) (sym less))
  ]
]

abbrev remove_at : ℕ → List ℕ → List ℕ
remove_at i [] = []
remove_at zero (key ∷ keys) = keys
remove_at (suc i) (key ∷ keys) = key ∷ remove_at i keys

set_last-cons :
    (key : ℕ) (keys : List ℕ) (n : ℕ)
    → set (key ∷ keys) (suc (suc n) - 1) 0 ≡ key ∷ set keys (suc n - 1) 0
set_last-cons key keys n =
    let two : suc (suc n) - 1 ≡ suc n = omega arith in
    let one : suc n - 1 ≡ n = omega arith in rw (two, one)

-- `copy_within` and the write of the last entry take one entry out and append an empty one.
shift-remove :
    (keys : List ℕ) (i : ℕ)
    → i < length keys
    → set (copy_down i keys) (length keys - 1) 0 ≡ remove_at i keys ++ 0 ∷ []
shift-remove [] i h = absurd (omega arith)
shift-remove (k ∷ []) zero h = refl
shift-remove (k ∷ []) (suc i) h = absurd (omega arith)
shift-remove (k ∷ l ∷ keys) zero h =
    set_last-cons l (copy_down zero (l ∷ keys)) (length keys)
    ∙ ap (◌∷◌ l) (shift-remove (l ∷ keys) zero (omega arith))
shift-remove (k ∷ l ∷ keys) (suc i) h =
    set_last-cons k (copy_down i (l ∷ keys)) (length keys)
    ∙ ap (◌∷◌ k) (shift-remove (l ∷ keys) i (omega arith))

remove_at-append :
    (xs ys : List ℕ) (i : ℕ) → i < length xs → remove_at i (xs ++ ys) ≡ remove_at i xs ++ ys
remove_at-append [] ys i h = absurd (omega arith)
remove_at-append (x ∷ xs) ys zero h = refl
remove_at-append (x ∷ xs) ys (suc i) h = ap (◌∷◌ x) (remove_at-append xs ys i (omega arith))

zeros_snoc : (m : ℕ) → zeros m ++ 0 ∷ [] ≡ zeros (suc m)
zeros_snoc zero = refl
zeros_snoc (suc m) = ap (◌∷◌ 0) (zeros_snoc m)

no_key : (m hid : ℕ) → hid ≢ 0 → position (λ current. current == hid) (zeros m) ≡ none
no_key zero hid h = refl
no_key (suc m) hid h = ground (arith, no_key m hid h)

-- Where a key is held, and what is left without it.
held_at :
    (held : List ℕ) (m hid : ℕ)
    → hid ≢ 0
    → contains held hid ≡ true
    → (i : ℕ) × (position (λ current. current == hid) (held ++ zeros m) ≡ some i)
      × (i < length held)
      × (remove_at i held ≡ without hid held)
held_at [] m hid h c = absurd (cc)
held_at (key ∷ held) m hid h c = elim (Bool-cases (key == hid)) [
  | inl same ↦ (zero, ground arith, omega arith, ground arith)
  | inr other ↦
      let (i, at, lt, rest) = held_at held m hid h (ground arith) in
      (suc i, ground arith, omega arith, ground arith)
]

not_held :
    (held : List ℕ) (m hid : ℕ)
    → hid ≢ 0
    → contains held hid ≡ false
    → position (λ current. current == hid) (held ++ zeros m) ≡ none
not_held [] m hid h c = no_key m hid h
not_held (key ∷ held) m hid h c = ground (arith, not_held held m hid h)

length-without :
    (held : List ℕ) (hid : ℕ)
    → contains held hid ≡ true
    → suc (length (without hid held)) ≡ length held
length-without [] hid c = absurd (cc)
length-without (key ∷ held) hid c = ground (arith, length-without held hid)

-- On an array of at most six held keys, a release of a usage other than 0 takes it out and moves
-- the later ones up, so that they stay in order with the empty entries behind. Nothing changes
-- if it is not held.
pub release_key_lem :
    (held : List ℕ) (hid : ℕ)
    → length held ≤ max_keys
    → hid ≢ 0
    → release_key (array_of held) hid
      ≡ (if contains held hid then some (array_of (without hid held)) else none)
unfolding release_key
release_key_lem held hid few h = elim (Bool-cases (contains held hid)) [
  | inl is_held ↦
      let m = max_keys - length held in
      let (i, at, lt, rest) = held_at held m hid h is_held in
      let long : i < length (held ++ zeros m) = omega (arith, length-append held (zeros m)) in
      let more : max_keys - length (without hid held) ≡ suc m =
        omega (arith, length-without held hid is_held) in
      rw (is_held, release_key, at)
        (ap some (
          shift-remove (held ++ zeros m) i long
          ∙ rw (remove_at-append held (zeros m) i lt, rest, more, append_assoc, zeros_snoc m)))
  | inr is_not ↦ ground (arith, not_held held (max_keys - length held) hid h is_not)
]

without-snoc :
    (held : List ℕ) (hid : ℕ) → contains held hid ≡ false → without hid (held ++ hid ∷ []) ≡ held
without-snoc [] hid c = ground arith
without-snoc (key ∷ held) hid c = ground (arith, without-snoc held hid)

contains-snoc : (held : List ℕ) (hid : ℕ) → contains (held ++ hid ∷ []) hid ≡ true
contains-snoc [] hid = ground arith
contains-snoc (key ∷ held) hid = ground (arith, contains-snoc held hid)

-- Pressing a usage other than 0 that is not held, where fewer than six keys are, and releasing
-- it, gives back the same array.
pub press-release :
    (held : List ℕ) (hid : ℕ)
    → AllKeys held
    → length held < max_keys
    → hid ≢ 0
    → contains held hid ≡ false
    → (keys : List ℕ) × (press_key (array_of held) hid ≡ some keys)
      × (release_key keys hid ≡ some (array_of held))
press-release held hid a few h new = (
  array_of (held ++ hid ∷ []),
  press_key_lem held hid a (omega arith) h ∙ ground arith,
  release_key_lem (held ++ hid ∷ []) hid (omega (arith, length-append held (hid ∷ []))) h
      ∙ rw (contains-snoc held hid, without-snoc held hid new),
)
