-- ===== src/Base/Lists.antt =====
-- Fixed-size arrays as lists. A read out of range gives `none`, and so does a write: the source
-- would panic there.
use Prim.Native.Nat.{ℕ, zero, suc, ◌-◌}
use mathlib.Core.Bool.{Bool, true, false}
use mathlib.Core.List.{List, [], ◌∷◌, ◌++◌}
use mathlib.Core.Option.{Option, none, some}
use esp32_universal_control.Base.Tests.{if◌then◌else◌}

module _ {ℓ} {A : Type ℓ} where
  abbrev pub length : List A → ℕ
  length [] = 0
  length (x ∷ xs) = suc (length xs)

  abbrev pub get_elem? : List A → ℕ → Option A
  get_elem? [] i = none
  get_elem? (x ∷ xs) zero = some x
  get_elem? (x ∷ xs) (suc i) = get_elem? xs i

  -- The array with one entry written, where the index is in range.
  abbrev pub set_elem? : List A → ℕ → A → Option (List A)
  set_elem? [] i v = none
  set_elem? (x ∷ xs) zero v = some (v ∷ xs)
  set_elem? (x ∷ xs) (suc i) v = elim (set_elem? xs i v) [ none ↦ none | some ys ↦ some (x ∷ ys) ]

  -- The same where the index is known to be in range; elsewhere nothing is written.
  abbrev pub set : List A → ℕ → A → List A
  set [] i v = []
  set (x ∷ xs) zero v = v ∷ xs
  set (x ∷ xs) (suc i) v = x ∷ set xs i v

  abbrev pub take : ℕ → List A → List A
  take zero xs = []
  take (suc n) [] = []
  take (suc n) (x ∷ xs) = x ∷ take n xs

  abbrev pub drop : ℕ → List A → List A
  drop zero xs = xs
  drop (suc n) [] = []
  drop (suc n) (x ∷ xs) = drop n xs

  abbrev pub replicate : ℕ → A → List A
  replicate zero a = []
  replicate (suc n) a = a ∷ replicate n a

  abbrev pub filter : (A → Bool) → List A → List A
  filter p [] = []
  filter p (x ∷ xs) = if p x then x ∷ filter p xs else filter p xs

  abbrev pub any : (A → Bool) → List A → Bool
  any p [] = false
  any p (x ∷ xs) = if p x then true else any p xs

  abbrev pub find : (A → Bool) → List A → Option A
  find p [] = none
  find p (x ∷ xs) = if p x then some x else find p xs

  -- The index of the first entry that passes.
  abbrev pub position : (A → Bool) → List A → Option ℕ
  position p [] = none
  position p (x ∷ xs) =
      let later = position p xs in
      if p x then some 0 else elim later [ none ↦ none | some i ↦ some (suc i) ]

  -- The entries of an array of options that are there, `iter().flatten()`.
  abbrev pub somes : List (Option A) → List A
  somes [] = []
  somes (none ∷ os) = somes os
  somes (some a ∷ os) = a ∷ somes os

  -- An array of `n` entries that begins with `xs` and is `d` from there on.
  abbrev pub pad : ℕ → A → List A → List A
  pad n d xs = xs ++ replicate (n - length xs) d

-- Every entry satisfies `P`.
abbrev pub All {ℓ κ} : {A : Type ℓ} (Holds : A → Type κ) (entries : List A) → Type κ
All Holds (entry ∷ entries) = Holds entry × All Holds entries
All Holds [] = Unit
