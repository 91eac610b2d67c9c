-- ===== src/Link/Line.antt =====
-- The serial line from the firmware to the host: the UART task of firmware/src/main.rs and the
-- reader thread of host/src/serial.rs.
mod Tests
use esp32_universal_control.Base.{
  ℕ, ◌<◌, ◌≡◌, refl, sym, ap, subst, ◌∙◌, inl, inr, Option, none, some, List, [], ◌∷◌, ◌++◌, length,
  All, arith,
}
use esp32_universal_control.Protocol.Wire.{FirmwareMsg}
use esp32_universal_control.Firmware.Main.Uart.{
  Written, SendEnd, sent, encode_failed, write_failed, out_of_rounds, uart_tx_task,
}
use esp32_universal_control.Firmware.Main.Uart.Sending.{
  IsUart, Leaves, LeaveAll, uart_tx_task-LeaveAll,
}
use esp32_universal_control.Host.Serial.Reader.{FeedResult, ReadResult, read_port}
use esp32_universal_control.Host.Serial.Framing.{
  IsAccumulator, frames, AreEncoded, bytes_read, GoesOn, read_port-frames,
}

abbrev pub or_none : Option (List ℕ) → List ℕ
or_none none = []
or_none (some bytes) = bytes

-- A frame has at least one byte.
abbrev pub HasFrames : (FirmwareMsg → Option (List ℕ)) → Type 0
HasFrames to_slice_cobs =
    (msg : FirmwareMsg) (bytes : List ℕ) → to_slice_cobs msg ≡ some bytes → 0 < length bytes

LeaveAll-frames :
    (to_slice_cobs : FirmwareMsg → Option (List ℕ)) (msgs : List FirmwareMsg) (ends : List SendEnd)
    (bytes : List ℕ)
    → HasFrames to_slice_cobs
    → All (λ end. end ≡ sent) ends
    → LeaveAll to_slice_cobs msgs ends bytes
    → (bytes ≡ frames (λ msg. or_none (to_slice_cobs msg)) msgs)
      × All (λ msg. 0 < length (or_none (to_slice_cobs msg))) msgs
LeaveAll-frames to_slice_cobs [] ends bytes has all (none_left, e) = (e, tt)
LeaveAll-frames to_slice_cobs (msg ∷ msgs) ends bytes has all
      (end, more, piece, rest, e, split, leaves, later) =
    let all' : All (λ end'. end' ≡ sent) (end ∷ more) = subst (All (λ end'. end' ≡ sent)) e all in
    let (whole, there) = one leaves all'.0 in
    let (after, others) = LeaveAll-frames to_slice_cobs msgs more rest has all'.1 later in
    (split ∙ rw (whole, after) refl, (there, others))
  where
    one :
        Leaves (to_slice_cobs msg) end piece
        → end ≡ sent
        → (piece ≡ or_none (to_slice_cobs msg)) × (0 < length (or_none (to_slice_cobs msg)))
    one (inl (missing, ended, nothing)) s = absurd (cc)
    one (inr (encoded, there, inl (ended, whole))) s =
        (whole ∙ ap or_none (sym there), rw there (has msg encoded there))
    one (inr (encoded, there, inr (ended, k, part))) s = absurd (cc)

-- The line delivers: what the firmware's UART task is given, the host's reader delivers, in the same
-- order, nothing lost or added, however the driver splits the bytes into writes and the port into
-- reads, and both loops come to their end. Every message is sent whole, the port does not fail, the
-- driver puts on the line what it takes, at least one byte at a time, and the accumulator, which
-- holds nothing at first, gives a message when its frame is whole, and waits before.
pub line_delivers :
    {D A : Type 0} (to_slice_cobs : FirmwareMsg → Option (List ℕ))
    (write : D → List ℕ → D × Written) (line : D → List ℕ) (feed : A → List ℕ → A × FeedResult)
    (pending : A → List ℕ) (tx : D) (a : A) (msgs : List FirmwareMsg) (reads : List ReadResult)
    → HasFrames to_slice_cobs
    → IsUart D write line
    → IsAccumulator A feed (λ msg. or_none (to_slice_cobs msg)) pending
    → All (λ end. end ≡ sent) (uart_tx_task to_slice_cobs write tx msgs).1
    → line tx ≡ []
    → pending a ≡ []
    → All GoesOn reads
    → bytes_read reads ≡ line (uart_tx_task to_slice_cobs write tx msgs).0
    → (a' : A) × (read_port feed a reads ≡ some (a', msgs))
line_delivers to_slice_cobs write line feed pending tx a msgs reads has uart accumulator all silent
      empty on e =
    let (bytes, put, leave) = uart_tx_task-LeaveAll write line uart to_slice_cobs msgs tx in
    let (whole, encoded) = LeaveAll-frames to_slice_cobs msgs _ bytes has all leave in
    read_port-frames feed (λ msg. or_none (to_slice_cobs msg)) pending accumulator reads a msgs on
      empty encoded (e ∙ put ∙ ap (λ xs. xs ++ bytes) silent ∙ whole)
