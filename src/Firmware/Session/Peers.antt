-- ===== src/Firmware/Session/Peers.antt =====
-- The slots of firmware/src/session.rs as a table from connection handles to addresses.
use esp32_universal_control.Base.{
  ℕ, zero, suc, ◌<◌, ◌≡◌, refl, ap, subst, ◌∙◌, Bool, true, false, Option, none, some, inl, inr,
  List, [], ◌∷◌, position, set, somes, length, ◌==◌, ==_iff, if◌then◌else◌, Bool-cases,
  Option-cases, arith,
}
use esp32_universal_control.Protocol.Wire.{Address}
use esp32_universal_control.Firmware.Session.{PeerSlot, is_free, has_handle}

-- The address of the connection with a handle, by the first slot that has it.
abbrev pub address_in : List (Option PeerSlot) → ℕ → Option Address
address_in [] handle = none
address_in (none ∷ peers) handle = address_in peers handle
address_in (some peer ∷ peers) handle =
    if peer.conn_handle == handle then some peer.addr else address_in peers handle

-- No handle is in two slots.
abbrev pub IsOnce : List (Option PeerSlot) → Type 0
IsOnce [] = Unit {0}
IsOnce (none ∷ peers) = IsOnce peers
IsOnce (some peer ∷ peers) = (address_in peers peer.conn_handle ≡ none) × IsOnce peers

-- A slot is free where not all are taken.
pub free_slot :
    (peers : List (Option PeerSlot))
    → length (somes peers) < length peers
    → (slot : ℕ) × (position is_free peers ≡ some slot)
free_slot [] h = absurd (omega arith)
free_slot (none ∷ peers) h = (0, refl)
free_slot (some peer ∷ peers) h =
    let (slot, e) = free_slot peers (omega arith) in (suc slot, ground (arith, e))

-- The first entry that passes is the head, or it is in the tail and the head does not pass.
position-zero :
    {A : Type 0} (p : A → Bool) (x : A) (xs : List A) → position p (x ∷ xs) ≡ some 0 → p x ≡ true
position-zero p x xs e = elim (Bool-cases (p x)) [
  | inl passes ↦ passes
  | inr fails ↦ elim (Option-cases (position p xs)) [
    | inl n ↦ absurd (ground arith)
    | inr (i, n) ↦ absurd (ground arith)
  ]
]

position-suc :
    {A : Type 0} (p : A → Bool) (x : A) (xs : List A) (slot : ℕ)
    → position p (x ∷ xs) ≡ some (suc slot)
    → (p x ≡ false) × (position p xs ≡ some slot)
position-suc p x xs slot e = elim (Bool-cases (p x)) [
  | inl passes ↦ absurd (ground arith)
  | inr fails ↦ elim (Option-cases (position p xs)) [
    | inl n ↦ absurd (ground arith)
    | inr (i, n) ↦ (fails, ground arith)
  ]
]

pub address_in-put :
    (peers : List (Option PeerSlot)) (slot : ℕ) (peer : PeerSlot) (handle : ℕ)
    → position is_free peers ≡ some slot
    → address_in peers peer.conn_handle ≡ none
    → address_in (set peers slot (some peer)) handle
      ≡ (if peer.conn_handle == handle then some peer.addr else address_in peers handle)
address_in-put [] slot peer handle e h = absurd (cc)
address_in-put (none ∷ peers) zero peer handle e h = refl
address_in-put (none ∷ peers) (suc slot) peer handle e h =
    let (taken, later) = position-suc is_free none peers slot e in absurd (cc)
address_in-put (some first ∷ peers) zero peer handle e h =
    let free = position-zero is_free (some first) peers e in absurd (cc)
address_in-put (some first ∷ peers) (suc slot) peer handle e h =
    let (taken, later) = position-suc is_free (some first) peers slot e in
    let other : (first.conn_handle == peer.conn_handle) ≡ false = ground arith in
    let absent : address_in peers peer.conn_handle ≡ none = ground arith in
    ground (arith, address_in-put peers slot peer handle later absent)

pub put-IsOnce :
    (peers : List (Option PeerSlot)) (slot : ℕ) (peer : PeerSlot)
    → position is_free peers ≡ some slot
    → address_in peers peer.conn_handle ≡ none
    → IsOnce peers
    → IsOnce (set peers slot (some peer))
put-IsOnce [] slot peer e h once = absurd (cc)
put-IsOnce (none ∷ peers) zero peer e h once = (h, once)
put-IsOnce (none ∷ peers) (suc slot) peer e h once =
    let (taken, later) = position-suc is_free none peers slot e in absurd (cc)
put-IsOnce (some first ∷ peers) zero peer e h once =
    let free = position-zero is_free (some first) peers e in absurd (cc)
put-IsOnce (some first ∷ peers) (suc slot) peer e h once =
    let (taken, later) = position-suc is_free (some first) peers slot e in
    let absent : address_in peers peer.conn_handle ≡ none = ground arith in
    let other : (peer.conn_handle == first.conn_handle) ≡ false = ground arith in
    (
      rw (address_in-put peers slot peer first.conn_handle later absent, other) once.0,
      put-IsOnce peers slot peer later absent once.1,
    )

pub length-put :
    (peers : List (Option PeerSlot)) (slot : ℕ) (peer : PeerSlot)
    → position is_free peers ≡ some slot
    → length (somes (set peers slot (some peer))) ≡ suc (length (somes peers))
length-put [] slot peer e = absurd (cc)
length-put (none ∷ peers) zero peer e = refl
length-put (none ∷ peers) (suc slot) peer e =
    let (taken, later) = position-suc is_free none peers slot e in absurd (cc)
length-put (some first ∷ peers) zero peer e =
    let free = position-zero is_free (some first) peers e in absurd (cc)
length-put (some first ∷ peers) (suc slot) peer e =
    let (taken, later) = position-suc is_free (some first) peers slot e in
    ap suc (length-put peers slot peer later)

pub not_in :
    (peers : List (Option PeerSlot)) (conn_handle : ℕ)
    → position (has_handle conn_handle) peers ≡ none
    → address_in peers conn_handle ≡ none
not_in [] conn_handle e = refl
not_in (none ∷ peers) conn_handle e = not_in peers conn_handle (ground arith)
not_in (some first ∷ peers) conn_handle e =
    elim (Option-cases (position (has_handle conn_handle) peers)) [
      | inl n ↦ ground (arith, not_in peers conn_handle n)
      | inr (i, n) ↦ absurd (ground arith)
    ]

pub is_in :
    (peers : List (Option PeerSlot)) (conn_handle slot : ℕ)
    → position (has_handle conn_handle) peers ≡ some slot
    → (addr : Address) × (address_in peers conn_handle ≡ some addr)
is_in [] conn_handle slot e = absurd (cc)
is_in (none ∷ peers) conn_handle zero e =
    let found = position-zero (has_handle conn_handle) none peers e in absurd (cc)
is_in (some first ∷ peers) conn_handle zero e =
    let found = position-zero (has_handle conn_handle) (some first) peers e in
    (first.addr, rw found refl)
is_in (none ∷ peers) conn_handle (suc slot) e =
    let (other, later) = position-suc (has_handle conn_handle) none peers slot e in
    is_in peers conn_handle slot later
is_in (some first ∷ peers) conn_handle (suc slot) e =
    let (other, later) = position-suc (has_handle conn_handle) (some first) peers slot e in
    let (addr, there) = is_in peers conn_handle slot later in (addr, rw other there)

pub address_in-clear :
    (peers : List (Option PeerSlot)) (slot conn_handle handle : ℕ)
    → position (has_handle conn_handle) peers ≡ some slot
    → IsOnce peers
    → address_in (set peers slot none) handle
      ≡ (if conn_handle == handle then none else address_in peers handle)
address_in-clear [] slot conn_handle handle e once = absurd (cc)
address_in-clear (none ∷ peers) zero conn_handle handle e once =
    let found = position-zero (has_handle conn_handle) none peers e in absurd (cc)
address_in-clear (some first ∷ peers) zero conn_handle handle e once =
    let found = position-zero (has_handle conn_handle) (some first) peers e in
    elim (Bool-cases (conn_handle == handle)) [
      | inl same ↦
          let alone : address_in peers handle ≡ none =
            subst (λ h. address_in peers h ≡ none)
              ((==_iff first.conn_handle conn_handle).0 found ∙ (==_iff conn_handle handle).0 same)
              once.0 in
          rw (same, alone) refl
      | inr other ↦
          let later : (first.conn_handle == handle) ≡ false = ground arith in rw (other, later) refl
    ]
address_in-clear (none ∷ peers) (suc slot) conn_handle handle e once =
    let (other, later) = position-suc (has_handle conn_handle) none peers slot e in
    address_in-clear peers slot conn_handle handle later once
address_in-clear (some first ∷ peers) (suc slot) conn_handle handle e once =
    let (other, later) = position-suc (has_handle conn_handle) (some first) peers slot e in
    ground (arith, other, address_in-clear peers slot conn_handle handle later once.1)

pub clear-IsOnce :
    (peers : List (Option PeerSlot)) (slot conn_handle : ℕ)
    → position (has_handle conn_handle) peers ≡ some slot
    → IsOnce peers
    → IsOnce (set peers slot none)
clear-IsOnce [] slot conn_handle e once = absurd (cc)
clear-IsOnce (none ∷ peers) zero conn_handle e once = once
clear-IsOnce (some first ∷ peers) zero conn_handle e once = once.1
clear-IsOnce (none ∷ peers) (suc slot) conn_handle e once =
    let (other, later) = position-suc (has_handle conn_handle) none peers slot e in
    clear-IsOnce peers slot conn_handle later once
clear-IsOnce (some first ∷ peers) (suc slot) conn_handle e once =
    let (other, later) = position-suc (has_handle conn_handle) (some first) peers slot e in
    let there = address_in-clear peers slot conn_handle first.conn_handle later once.1 in
    (ground (arith, there, once.0), clear-IsOnce peers slot conn_handle later once.1)

pub length-clear :
    (peers : List (Option PeerSlot)) (slot conn_handle : ℕ)
    → position (has_handle conn_handle) peers ≡ some slot
    → suc (length (somes (set peers slot none))) ≡ length (somes peers)
length-clear [] slot conn_handle e = absurd (cc)
length-clear (none ∷ peers) zero conn_handle e =
    let found = position-zero (has_handle conn_handle) none peers e in absurd (cc)
length-clear (some first ∷ peers) zero conn_handle e = refl
length-clear (none ∷ peers) (suc slot) conn_handle e =
    let (other, later) = position-suc (has_handle conn_handle) none peers slot e in
    length-clear peers slot conn_handle later
length-clear (some first ∷ peers) (suc slot) conn_handle e =
    let (other, later) = position-suc (has_handle conn_handle) (some first) peers slot e in
    ap suc (length-clear peers slot conn_handle later)
