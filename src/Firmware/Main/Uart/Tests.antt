-- ===== src/Firmware/Main/Uart/Tests.antt =====
-- Runs of the UART task of firmware/src/main.rs, on a driver that takes two bytes at a time.
use esp32_universal_control.Base.{
  ℕ, min, ◌≡◌, refl, sym, ap, ◌∙◌, Option, none, some, List, [], ◌∷◌, ◌++◌, length, take, arith,
}
use esp32_universal_control.Protocol.Wire.{FirmwareMsg, led_state, peer_disconnected}
use esp32_universal_control.Firmware.Main.Uart.{
  Written, accepted, refused, sent, encode_failed, send, uart_tx_task,
}
use esp32_universal_control.Firmware.Main.Uart.Sending.{
  IsUart, Puts, LeaveAll, send-Puts, uart_tx_task-LeaveAll,
}

abbrev two_at_a_time : List ℕ → List ℕ → List ℕ × Written
two_at_a_time tx bytes = (tx ++ take 2 bytes, accepted (min 2 (length bytes)))

abbrev count : Written → ℕ
count (accepted n) = n
count refused = 7

take-min : (bytes : List ℕ) → take (min 2 (length bytes)) bytes ≡ take 2 bytes
take-min [] = refl
take-min (a ∷ []) = refl
take-min (a ∷ b ∷ bytes) = let e : min 2 (length (a ∷ b ∷ bytes)) ≡ 2 = omega arith in rw e refl

two_at_a_time-IsUart : IsUart (List ℕ) two_at_a_time (λ tx. tx)
two_at_a_time-IsUart = record {
  accepts = λ tx tx' bytes n e.
      let taken : min 2 (length bytes) ≡ n = ap (λ p. count p.1) e in
      let put : tx ++ take 2 bytes ≡ tx' = ap (λ p. p.0) e in
      (
        omega arith,
        sym put ∙ ap (λ xs. tx ++ xs) (sym (take-min bytes) ∙ ap (λ k. take k bytes) taken),
      );
  progresses = λ tx tx' bytes n e some_left.
      let taken : min 2 (length bytes) ≡ n = ap (λ p. count p.1) e in omega arith;
  refuses = λ tx tx' bytes e.
      let never : min 2 (length bytes) ≡ 7 = ap (λ p. count p.1) e in absurd (omega arith);
}

-- Five bytes, or no encoding.
abbrev five_bytes : FirmwareMsg → Option (List ℕ)
five_bytes (led_state bits) = some (1 ∷ 2 ∷ 3 ∷ bits ∷ 0 ∷ [])
five_bytes msg = none

abbrev messages : List FirmwareMsg
messages = led_state 4 ∷ peer_disconnected 1 ∷ led_state 5 ∷ []

two_sent :
    uart_tx_task five_bytes two_at_a_time [] messages
    ≡ (1 ∷ 2 ∷ 3 ∷ 4 ∷ 0 ∷ 1 ∷ 2 ∷ 3 ∷ 5 ∷ 0 ∷ [], sent ∷ encode_failed ∷ sent ∷ [])
unfolding uart_tx_task
two_sent = refl

led-Puts :
    Puts
      (λ tx. tx)
      (9 ∷ [])
      (1 ∷ 2 ∷ 3 ∷ 4 ∷ 0 ∷ [])
      (send five_bytes two_at_a_time (9 ∷ []) (led_state 4))
led-Puts =
    send-Puts two_at_a_time (λ tx. tx) two_at_a_time-IsUart five_bytes (9 ∷ []) (led_state 4)
      (1 ∷ 2 ∷ 3 ∷ 4 ∷ 0 ∷ []) refl

uart_tx_task-LeaveAll_example :
    (bytes : List ℕ) × ((uart_tx_task five_bytes two_at_a_time [] messages).0 ≡ [] ++ bytes)
    × LeaveAll five_bytes messages (uart_tx_task five_bytes two_at_a_time [] messages).1 bytes
uart_tx_task-LeaveAll_example =
    uart_tx_task-LeaveAll two_at_a_time (λ tx. tx) two_at_a_time-IsUart five_bytes messages []
