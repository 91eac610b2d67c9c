-- ===== src/Firmware/Main/Uart.antt =====
-- firmware/src/main.rs: the task that writes messages to the UART. postcard's encoder and the
-- driver's `write` are parameters.
pub mod Sending
mod Tests
use esp32_universal_control.Base.{
  ℕ, zero, suc, ◌+◌, ltb, true, false, Option, none, some, List, [], ◌∷◌, length, drop,
}
use esp32_universal_control.Protocol.Wire.{FirmwareMsg}

-- What a `write` returns: how many bytes it took, or an error.
pub data Written : Type 0 where
  accepted : ℕ → Written
  refused : Written

-- How `send` comes to its end. `out_of_rounds` is a loop that is not through after its rounds.
pub data SendEnd : Type 0 where
  sent encode_failed write_failed out_of_rounds : SendEnd

module _ {D : Type 0} (write : D → List ℕ → D × Written) where
  -- `while offset < encoded.len()`, with at most so many rounds.
  unfoldable pub write_from : (rounds : ℕ) → D → (encoded : List ℕ) (offset : ℕ) → D × SendEnd
  write_from zero tx encoded offset = elim (ltb offset (length encoded)) [
    | true ↦ (tx, out_of_rounds)
    | false ↦ (tx, sent)
  ]
  write_from (suc rounds) tx encoded offset = elim (ltb offset (length encoded)) [
    | true ↦
        let (tx', written) = write tx (drop offset encoded) in
        elim written [
          | accepted n ↦ write_from rounds tx' encoded (offset + n)
          | refused ↦ (tx', write_failed)
        ]
    | false ↦ (tx, sent)
  ]

module _ {D : Type 0} (to_slice_cobs : FirmwareMsg → Option (List ℕ))
    (write : D → List ℕ → D × Written) where
  -- `send`; one round for each byte.
  unfoldable pub send : D → FirmwareMsg → D × SendEnd
  unfolding write_from
  send tx msg = elim (to_slice_cobs msg) [
    | none ↦ (tx, encode_failed)
    | some encoded ↦ write_from write (length encoded) tx encoded 0
  ]

  -- `uart_tx_task`, on the messages in the order of the channel, with the end of each `send`.
  unfoldable pub uart_tx_task : D → List FirmwareMsg → D × List SendEnd
  unfolding send
  uart_tx_task tx [] = (tx, [])
  uart_tx_task tx (msg ∷ msgs) =
      let (tx', end) = send tx msg in let (tx'', ends) = uart_tx_task tx' msgs in (tx'', end ∷ ends)
