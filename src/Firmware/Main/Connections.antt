-- ===== src/Firmware/Main/Connections.antt =====
-- The open connections of NimBLE, as the callbacks of firmware/src/ble_hid.rs tell of them.
use esp32_universal_control.Base.{
  ℕ, suc, ◌<◌, ◌≡◌, refl, ap, subst, not, Option, none, some, inl, inr, List, [], ◌∷◌, filter,
  length, ◌==◌, ==_iff, if◌then◌else◌, Bool-cases, arith,
}
use esp32_universal_control.Protocol.Wire.{Address, max_peers}
use esp32_universal_control.Firmware.Ble.{Callback, opened, closed, written}
use esp32_universal_control.Firmware.Session.{PeerSlot}

-- The address of an open connection.
abbrev pub address_of : List PeerSlot → ℕ → Option Address
address_of [] handle = none
address_of (c ∷ conns) handle =
    if c.conn_handle == handle then some c.addr else address_of conns handle

abbrev pub without : ℕ → List PeerSlot → List PeerSlot
without conn_handle = filter (λ c. not (c.conn_handle == conn_handle))

-- The open connections after a callback.
abbrev pub open_after : List PeerSlot → Callback → List PeerSlot
open_after conns (opened count conn_handle addr) =
    record { conn_handle = conn_handle; addr = addr } ∷ conns
open_after conns (closed conn_handle) = without conn_handle conns
open_after conns (written recv_data) = conns

abbrev pub open_after_all : List PeerSlot → List Callback → List PeerSlot
open_after_all conns [] = conns
open_after_all conns (callback ∷ callbacks) = open_after_all (open_after conns callback) callbacks

-- A handle is given to one open connection at a time, and no more than four are open.
abbrev pub CanHappen : List PeerSlot → Callback → Type 0
CanHappen conns (opened count conn_handle addr) =
    (address_of conns conn_handle ≡ none) × (length conns < max_peers)
CanHappen conns (closed conn_handle) = Unit {0}
CanHappen conns (written recv_data) = Unit {0}

abbrev pub AllCanHappen : List PeerSlot → List Callback → Type 0
AllCanHappen conns [] = Unit {0}
AllCanHappen conns (callback ∷ callbacks) =
    CanHappen conns callback × AllCanHappen (open_after conns callback) callbacks

abbrev pub AreOnce : List PeerSlot → Type 0
AreOnce [] = Unit {0}
AreOnce (c ∷ conns) = (address_of conns c.conn_handle ≡ none) × AreOnce conns

pub address_of-without :
    (conns : List PeerSlot) (conn_handle handle : ℕ)
    → address_of (without conn_handle conns) handle
      ≡ (if conn_handle == handle then none else address_of conns handle)
address_of-without [] conn_handle handle = ground arith
address_of-without (c ∷ conns) conn_handle handle =
    ground (arith, address_of-without conns conn_handle handle)

pub length-without_absent :
    (conns : List PeerSlot) (conn_handle : ℕ)
    → address_of conns conn_handle ≡ none
    → length (without conn_handle conns) ≡ length conns
length-without_absent [] conn_handle h = refl
length-without_absent (c ∷ conns) conn_handle h =
    ground (arith, length-without_absent conns conn_handle)

pub length-without :
    (conns : List PeerSlot) (conn_handle : ℕ) (addr : Address)
    → AreOnce conns
    → address_of conns conn_handle ≡ some addr
    → suc (length (without conn_handle conns)) ≡ length conns
length-without [] conn_handle addr once h = absurd (cc)
length-without (c ∷ conns) conn_handle addr once h =
    elim (Bool-cases (c.conn_handle == conn_handle)) [
      | inl same ↦
          let alone : address_of conns conn_handle ≡ none =
            subst (λ n. address_of conns n ≡ none) ((==_iff c.conn_handle conn_handle).0 same)
              once.0 in
          rw same (ap suc (length-without_absent conns conn_handle alone))
      | inr other ↦ ground (arith, length-without conns conn_handle addr once.1)
    ]

pub without-AreOnce :
    (conns : List PeerSlot) (conn_handle : ℕ) → AreOnce conns → AreOnce (without conn_handle conns)
without-AreOnce [] conn_handle once = tt
without-AreOnce (c ∷ conns) conn_handle once =
    let there = address_of-without conns conn_handle c.conn_handle in
    elim (Bool-cases (c.conn_handle == conn_handle)) [
      | inl same ↦ rw same (without-AreOnce conns conn_handle once.1)
      | inr other ↦
          rw other (ground (arith, there, once.0), without-AreOnce conns conn_handle once.1)
    ]

pub without_absent :
    (conns : List PeerSlot) (conn_handle handle : ℕ)
    → address_of conns conn_handle ≡ none
    → address_of (without conn_handle conns) handle ≡ address_of conns handle
without_absent conns conn_handle handle h =
    let there = address_of-without conns conn_handle handle in
    elim (Bool-cases (conn_handle == handle)) [
      | inl equal ↦
          let gone : address_of conns handle ≡ none =
            subst (λ n. address_of conns n ≡ none) ((==_iff conn_handle handle).0 equal) h in
          ground (arith, there, gone)
      | inr other ↦ ground (arith, there)
    ]
