-- ===== src/Firmware/Session/Snapshot.antt =====
-- `Session::snapshot` of firmware/src/session.rs: the loop over the slots.
use esp32_universal_control.Base.{
  ℕ, suc, ◌≡◌, Option, none, some, List, [], ◌∷◌, length, replicate, arith,
}
use esp32_universal_control.Protocol.Wire.{PeerDescriptor, max_peers}
use esp32_universal_control.Firmware.Session.{PeerSlot, Session, snapshot, snapshot_loop}

-- Each entry with its index as its slot.
abbrev pub describe : ℕ → List (Option PeerSlot) → List (Option PeerDescriptor)
describe i [] = []
describe i (none ∷ peers) = none ∷ describe (suc i) peers
describe i (some peer ∷ peers) =
    some (record { slot = i; addr = peer.addr }) ∷ describe (suc i) peers

snapshot_loop_lem :
    (a b c d : Option PeerSlot)
    → snapshot_loop max_peers 0 (a ∷ b ∷ c ∷ d ∷ []) (replicate max_peers none)
      ≡ some (describe 0 (a ∷ b ∷ c ∷ d ∷ []))
unfolding snapshot_loop
snapshot_loop_lem a b c d = ground arith

of_four :
    (peers : List (Option PeerSlot))
    → length peers ≡ max_peers
    → snapshot_loop max_peers 0 peers (replicate max_peers none) ≡ some (describe 0 peers)
of_four [] h = absurd (omega arith)
of_four (a ∷ []) h = absurd (omega arith)
of_four (a ∷ b ∷ []) h = absurd (omega arith)
of_four (a ∷ b ∷ c ∷ []) h = absurd (omega arith)
of_four (a ∷ b ∷ c ∷ d ∷ []) h = snapshot_loop_lem a b c d
of_four (a ∷ b ∷ c ∷ d ∷ e ∷ rest) h = absurd (omega arith)

-- With four slots, the snapshot is taken with no panic, and has each peer at its slot and the
-- active slot.
pub snapshot_lem :
    (s : Session)
    → length s.peers ≡ max_peers
    → snapshot s ≡ some (record { peers = describe 0 s.peers; active_slot = s.active_slot })
unfolding snapshot
snapshot_lem s h = rw (of_four s.peers h)
