-- ===== src/Base/Laws.antt =====
-- Laws of the array operations.
use Prim.Native.Nat.{ℕ, zero, suc, ◌+◌, ◌-◌, ◌≤◌, ◌<◌, min}
use mathlib.Core.Path.{◌≡◌, refl, ap}
use mathlib.Core.Logic.{inl, inr}
use mathlib.Core.Bool.{Bool, true}
use mathlib.Core.List.{List, [], ◌∷◌, ◌++◌, map, Memᴰ}
use mathlib.Core.Option.{Option, none, some}
use native.Mathlib.Omega.{arith}
use esp32_universal_control.Base.Tests.{if◌then◌else◌, ◌==◌, Bool-cases, Option-cases}
use esp32_universal_control.Base.Lists.{
  length, get_elem?, set_elem?, set, take, replicate, filter, position, somes, pad, All,
}

module _ {ℓ} {A : Type ℓ} where
  pub length-append : (xs ys : List A) → length (xs ++ ys) ≡ length xs + length ys
  length-append [] ys = omega arith
  length-append (x ∷ xs) ys = omega (arith, length-append xs ys)

  pub length-replicate : (n : ℕ) (a : A) → length (replicate n a) ≡ n
  length-replicate zero a = refl
  length-replicate (suc n) a = ap suc (length-replicate n a)

  pub length-map {κ} : {B : Type κ} (xs : List A) (f : A → B) → length (map f xs) ≡ length xs
  length-map [] f = refl
  length-map (x ∷ xs) f = ap suc (length-map xs f)

  pub length-take : (n : ℕ) (xs : List A) → length (take n xs) ≡ min n (length xs)
  length-take zero xs = omega arith
  length-take (suc n) [] = omega arith
  length-take (suc n) (x ∷ xs) = omega (arith, length-take n xs)

  pub length-filter-le : (p : A → Bool) (xs : List A) → length (filter p xs) ≤ length xs
  length-filter-le p [] = omega arith
  length-filter-le p (x ∷ xs) = ground (arith, length-filter-le p xs)

  pub length-somes-le : (os : List (Option A)) → length (somes os) ≤ length os
  length-somes-le [] = omega arith
  length-somes-le (none ∷ os) = omega (arith, length-somes-le os)
  length-somes-le (some a ∷ os) = omega (arith, length-somes-le os)

  pub length-pad : (n : ℕ) (d : A) (xs : List A) → length xs ≤ n → length (pad n d xs) ≡ n
  length-pad n d xs h =
      omega
        (arith, length-append xs (replicate (n - length xs) d), length-replicate (n - length xs) d)

  pub length-set : (xs : List A) (i : ℕ) (v : A) → length (set xs i v) ≡ length xs
  length-set [] i v = refl
  length-set (x ∷ xs) zero v = refl
  length-set (x ∷ xs) (suc i) v = ap suc (length-set xs i v)

  -- A write in range does not panic.
  pub set_elem?-lt :
      (xs : List A) (i : ℕ) (v : A) → i < length xs → set_elem? xs i v ≡ some (set xs i v)
  set_elem?-lt [] i v h = absurd (omega arith)
  set_elem?-lt (x ∷ xs) zero v h = refl
  set_elem?-lt (x ∷ xs) (suc i) v h = ground (arith, set_elem?-lt xs i v)

  -- A read in range does not panic.
  pub get_elem?-lt : (xs : List A) (i : ℕ) → i < length xs → (x : A) × (get_elem? xs i ≡ some x)
  get_elem?-lt [] i h = absurd (omega arith)
  get_elem?-lt (x ∷ xs) zero h = (x, refl)
  get_elem?-lt (x ∷ xs) (suc i) h = get_elem?-lt xs i (omega arith)

  pub lt_of_get_elem? : (xs : List A) (i : ℕ) {x : A} → get_elem? xs i ≡ some x → i < length xs
  lt_of_get_elem? [] i h = cc
  lt_of_get_elem? (x ∷ xs) zero h = omega arith
  lt_of_get_elem? (x ∷ xs) (suc i) h = omega (arith, lt_of_get_elem? xs i h)

  pub get_elem?-map {κ} :
      {B : Type κ} (f : A → B) (xs : List A) (i : ℕ) {x : A}
      → get_elem? xs i ≡ some x
      → get_elem? (map f xs) i ≡ some (f x)
  get_elem?-map f [] i h = cc
  get_elem?-map f (x ∷ xs) zero h = cc
  get_elem?-map f (x ∷ xs) (suc i) h = get_elem?-map f xs i h

  pub map-set {κ} :
      {B : Type κ} (f : A → B) (xs : List A) (i : ℕ) (v : A)
      → map f (set xs i v) ≡ set (map f xs) i (f v)
  map-set f [] i v = refl
  map-set f (x ∷ xs) zero v = refl
  map-set f (x ∷ xs) (suc i) v = ap (◌∷◌ (f x)) (map-set f xs i v)

  pub get_elem?-set :
      (xs : List A) (i j : ℕ) (v : A)
      → i < length xs
      → get_elem? (set xs i v) j ≡ (if i == j then some v else get_elem? xs j)
  get_elem?-set [] i j v h = absurd (omega arith)
  get_elem?-set (x ∷ xs) zero zero v h = refl
  get_elem?-set (x ∷ xs) zero (suc j) v h = ground arith
  get_elem?-set (x ∷ xs) (suc i) zero v h = ground arith
  get_elem?-set (x ∷ xs) (suc i) (suc j) v h = ground (arith, get_elem?-set xs i j v)

  pub position-lt : (p : A → Bool) (xs : List A) (i : ℕ) → position p xs ≡ some i → i < length xs
  position-lt p [] i h = cc
  position-lt p (x ∷ xs) i h = elim (Option-cases (position p xs)) [
    | inl e ↦ ground (arith, e)
    | inr (j, e) ↦ ground (arith, e, position-lt p xs j e)
  ]

  -- What stands at the position found passes the test.
  pub position_sound :
      (p : A → Bool) (xs : List A) (i : ℕ)
      → position p xs ≡ some i
      → (x : A) × (get_elem? xs i ≡ some x) × (p x ≡ true)
  position_sound p [] i h = absurd (cc)
  position_sound p (x ∷ xs) i h = elim (Bool-cases (p x)) [
    | inl e ↦ (x, ground arith, e)
    | inr e ↦ elim (Option-cases (position p xs)) [
      | inl n ↦ absurd (ground arith)
      | inr (j, n) ↦ let (y, at, passes) = position_sound p xs j n in (y, ground arith, passes)
    ]
  ]

  pub somes-pad : (n : ℕ) (xs : List A) → somes (pad n none (map some xs)) ≡ xs
  somes-pad n xs = absent xs (n - length (map some xs))
    where
      blank : (k : ℕ) → somes {A = A} (replicate k none) ≡ []
      blank zero = refl
      blank (suc k) = blank k

      absent : (ys : List A) (k : ℕ) → somes (map some ys ++ replicate k none) ≡ ys
      absent [] k = blank k
      absent (y ∷ ys) k = ap (◌∷◌ y) (absent ys k)

  -- Writing just behind the entries of a padded array appends one.
  pub set_elem?-pad :
      (n : ℕ) (d : A) (xs : List A) (v : A) (k : ℕ)
      → k ≡ length xs
      → length xs < n
      → set_elem? (pad n d xs) k v ≡ some (pad n d (xs ++ v ∷ []))
  set_elem?-pad n d [] v zero e h = rw (room n h) refl
    where
      room : (m : ℕ) → 0 < m → m - 0 ≡ suc (m - 1)
      room m p = omega arith
  set_elem?-pad n d [] v (suc k) e h = absurd (omega arith)
  set_elem?-pad n d (x ∷ xs) v zero e h = absurd (omega arith)
  set_elem?-pad zero d (x ∷ xs) v (suc k) e h = absurd (omega arith)
  set_elem?-pad (suc n) d (x ∷ xs) v (suc k) e h =
      rw (room n xs, room n (xs ++ v ∷ []), set_elem?-pad n d xs v k (omega arith) (omega arith))
        refl
    where
      room : (m : ℕ) (ys : List A) → suc m - suc (length ys) ≡ m - length ys
      room m ys = omega arith

module _ {ℓ} {A : Type ℓ} where
  pub memᴰ-append_left : {x : A} {xs : List A} (ys : List A) → Memᴰ x xs → Memᴰ x (xs ++ ys)
  memᴰ-append_left ys (Memᴰ.head e) = Memᴰ.head e
  memᴰ-append_left ys (Memᴰ.tail m) = Memᴰ.tail (memᴰ-append_left ys m)

  pub memᴰ-append_right : {x : A} (xs : List A) {ys : List A} → Memᴰ x ys → Memᴰ x (xs ++ ys)
  memᴰ-append_right [] m = m
  memᴰ-append_right (y ∷ xs) m = Memᴰ.tail (memᴰ-append_right xs m)

  pub memᴰ-map {κ} :
      {B : Type κ} (f : A → B) {x : A} {xs : List A} → Memᴰ x xs → Memᴰ (f x) (map f xs)
  memᴰ-map f (Memᴰ.head e) = Memᴰ.head (ap f e)
  memᴰ-map f (Memᴰ.tail m) = Memᴰ.tail (memᴰ-map f m)

pub All-append {ℓ κ} :
    {A : Type ℓ} (Holds : A → Type κ) (front back : List A)
    → All Holds front
    → All Holds back
    → All Holds (front ++ back)
All-append Holds (entry ∷ front) back (first, others) later =
    (first, All-append Holds front back others later)
All-append Holds [] back none_there later = later
