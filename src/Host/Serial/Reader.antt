-- ===== src/Host/Serial/Reader.antt =====
-- The reader thread of host/src/serial.rs. postcard's accumulator is a parameter.
use esp32_universal_control.Base.{
  ℕ, zero, suc, Option, none, some, List, [], ◌∷◌, ◌++◌, length, ◌>>=◌,
}
use esp32_universal_control.Protocol.Wire.{FirmwareMsg}

-- `FeedResult`, with the bytes that are left.
pub data FeedResult : Type 0 where
  consumed : FeedResult
  over_full deser_error : (remaining : List ℕ) → FeedResult
  success : (data_read : FirmwareMsg) (remaining : List ℕ) → FeedResult

-- What a read of the port gives.
pub data ReadResult : Type 0 where
  got : (bytes : List ℕ) → ReadResult
  timed_out failed : ReadResult

module _ {A : Type 0} (feed : A → List ℕ → A × FeedResult) where
  -- `while !window.is_empty()`, with at most so many rounds: the messages that go into the channel.
  -- `none` where the rounds are not enough.
  unfoldable pub read_window : (rounds : ℕ) → A → List ℕ → Option (A × List FirmwareMsg)
  read_window rounds a [] = some (a, [])
  read_window zero a (byte ∷ window) = none
  read_window (suc rounds) a (byte ∷ window) =
      let (a', result) = feed a (byte ∷ window) in
      elim result [
        | consumed ↦ some (a', [])
        | over_full remaining ↦ read_window rounds a' remaining
        | deser_error remaining ↦ read_window rounds a' remaining
        | success msg remaining ↦
            read_window rounds a' remaining >>= λ more. some (more.0, msg ∷ more.1)
      ]

  -- The `loop` of the thread, one round for each byte of a read.
  unfoldable pub read_port : A → List ReadResult → Option (A × List FirmwareMsg)
  unfolding read_window
  read_port a [] = some (a, [])
  read_port a (timed_out ∷ reads) = read_port a reads
  read_port a (failed ∷ reads) = some (a, [])
  read_port a (got bytes ∷ reads) = read_window (length bytes) a bytes >>= λ front.
      read_port front.0 reads >>= λ back. some (back.0, front.1 ++ back.1)
