-- ===== src/Firmware/Main/Uart/Sending.antt =====
-- The UART task of firmware/src/main.rs writes whole messages in their order, whatever parts the
-- driver takes at a time.
use esp32_universal_control.Base.{
  ℕ, zero, suc, ◌+◌, ◌≤◌, ◌<◌, ltb, ◌≡◌, ◌⊎◌, inl, inr, refl, sym, ap, subst, ◌∙◌, Bool-cases,
  false, Option, none, some, List, [], ◌∷◌, ◌++◌, length, take, drop, take-drop, drop_add, take_add,
  drop_all, length-drop, append_assoc, append-nil, arith, Option-cases,
}
use esp32_universal_control.Protocol.Wire.{FirmwareMsg}
use esp32_universal_control.Firmware.Main.Uart.{
  Written, accepted, refused, SendEnd, sent, encode_failed, write_failed, write_from, send,
  uart_tx_task,
}

-- The driver, with `line` the bytes that are on the line: `write` puts as many bytes on the line as
-- it says that it took, at least one if there is one, and none if it fails.
pub record IsUart (D : Type 0) (write : D → List ℕ → D × Written) (line : D → List ℕ) : Type 0 where
  pub accepts :
      (tx tx' : D) (bytes : List ℕ) (n : ℕ)
      → write tx bytes ≡ (tx', accepted n)
      → (n ≤ length bytes) × (line tx' ≡ line tx ++ take n bytes)
  pub progresses :
      (tx tx' : D) (bytes : List ℕ) (n : ℕ)
      → write tx bytes ≡ (tx', accepted n)
      → 0 < length bytes
      → 0 < n
  pub refuses : (tx tx' : D) (bytes : List ℕ) → write tx bytes ≡ (tx', refused) → line tx' ≡ line tx

-- All of some bytes are put on the line, or, if a write fails, the first of them.
abbrev pub Puts : {D : Type 0} → (D → List ℕ) → D → List ℕ → D × SendEnd → Type 0
Puts line tx bytes (tx', end) =
    (end ≡ sent) × (line tx' ≡ line tx ++ bytes)
    ⊎ (end ≡ write_failed) × (k : ℕ) × (line tx' ≡ line tx ++ take k bytes)

-- What one message leaves on the line: nothing if it has no encoding, else its encoding, or the
-- first bytes of it if a write fails.
abbrev pub Leaves : Option (List ℕ) → SendEnd → List ℕ → Type 0
Leaves encoding end piece =
    (encoding ≡ none) × (end ≡ encode_failed) × (piece ≡ [])
    ⊎ (encoded : List ℕ) × (encoding ≡ some encoded)
      × ((end ≡ sent) × (piece ≡ encoded)
          ⊎ (end ≡ write_failed) × (k : ℕ) × (piece ≡ take k encoded))

-- The bytes of some messages, in order, by the ends of their `send`.
abbrev pub LeaveAll :
    (FirmwareMsg → Option (List ℕ)) → List FirmwareMsg → List SendEnd → List ℕ → Type 0
LeaveAll to_slice_cobs [] ends bytes = (ends ≡ []) × (bytes ≡ [])
LeaveAll to_slice_cobs (msg ∷ msgs) ends bytes =
    (end : SendEnd) × (more : List SendEnd) × (piece rest : List ℕ) × (ends ≡ end ∷ more)
    × (bytes ≡ piece ++ rest)
    × Leaves (to_slice_cobs msg) end piece
    × LeaveAll to_slice_cobs msgs more rest

written-cases :
    {D : Type 0} (p : D × Written)
    → ((tx : D) × (n : ℕ) × (p ≡ (tx, accepted n))) ⊎ ((tx : D) × (p ≡ (tx, refused)))
written-cases (tx, accepted n) = inl (tx, n, refl)
written-cases (tx, refused) = inr (tx, refl)

module _ {D : Type 0} (write : D → List ℕ → D × Written) (line : D → List ℕ)
    (uart : IsUart D write line) where
  more-Puts :
      (tx tx' : D) (bytes : List ℕ) (n : ℕ) (r : D × SendEnd)
      → line tx' ≡ line tx ++ take n bytes
      → Puts line tx' (drop n bytes) r
      → Puts line tx bytes r
  more-Puts tx tx' bytes n r h (inl (e, whole)) = inl (
    e,
    whole
        ∙ rw h (
            append_assoc (line tx) (take n bytes) (drop n bytes)
            ∙ ap (λ xs. line tx ++ xs) (take-drop n bytes)),
  )
  more-Puts tx tx' bytes n r h (inr (e, k, part)) = inr (
    e,
    n + k,
    part
        ∙ rw h (
            append_assoc (line tx) (take n bytes) _
            ∙ ap (λ xs. line tx ++ xs) (sym (take_add n k bytes))),
  )

  -- Nothing is left to write.
  none_left-Puts :
      (rounds : ℕ) (tx : D) (encoded : List ℕ) (offset : ℕ)
      → ltb offset (length encoded) ≡ false
      → Puts line tx (drop offset encoded) (tx, sent)
  none_left-Puts rounds tx encoded offset h =
      let none_left : drop offset encoded ≡ [] = drop_all offset encoded (ground arith) in
      inl (refl, rw none_left (sym (append-nil (line tx))))

  write_from_lem :
      (rounds : ℕ) (tx : D) (encoded : List ℕ) (offset : ℕ)
      → length encoded ≤ offset + rounds
      → Puts line tx (drop offset encoded) (write_from write rounds tx encoded offset)
  unfolding write_from
  write_from_lem zero tx encoded offset h =
      let through : ltb offset (length encoded) ≡ false = ground arith in
      rw (write_from, through) (none_left-Puts zero tx encoded offset through)
  write_from_lem (suc rounds) tx encoded offset h =
      elim (Bool-cases (ltb offset (length encoded))) [
        | inr through ↦
            rw (write_from, through) (none_left-Puts (suc rounds) tx encoded offset through)
        | inl more ↦
            let rest = drop offset encoded in
            elim (written-cases (write tx rest)) [
              | inl (tx', n, e) ↦
                  let inside : offset < length encoded = ground arith in
                  let some_left : 0 < length rest = omega (arith, length-drop offset encoded) in
                  let next =
                    write_from_lem rounds tx' encoded (offset + n)
                      (omega (arith, uart.progresses tx tx' rest n e some_left)) in
                  rw (write_from, more, ap (λ p. p.1) e, ap (λ p. p.0) e)
                    (more-Puts tx tx' rest n (write_from write rounds tx' encoded (offset + n))
                      (uart.accepts tx tx' rest n e).1
                      (subst
                        (λ xs. Puts line tx' xs (write_from write rounds tx' encoded (offset + n)))
                        (drop_add offset n encoded) next))
              | inr (tx', e) ↦
                  rw (write_from, more, ap (λ p. p.1) e, ap (λ p. p.0) e)
                    (inr (refl, 0, uart.refuses tx tx' rest e ∙ sym (append-nil (line tx))))
            ]
      ]

  module _ (to_slice_cobs : FirmwareMsg → Option (List ℕ)) where
    -- `send` on a message with an encoding comes to its end within one round for each byte: it puts
    -- the whole encoding on the line, or, only if a write fails, the first bytes of it. The driver
    -- takes at least one byte at a time, and puts what it takes on the line.
    pub send-Puts :
        (tx : D) (msg : FirmwareMsg) (encoded : List ℕ)
        → to_slice_cobs msg ≡ some encoded
        → Puts line tx encoded (send to_slice_cobs write tx msg)
    unfolding send
    send-Puts tx msg encoded e =
        rw (send, e) (write_from_lem (length encoded) tx encoded 0 (omega arith))

    send-Leaves :
        (tx : D) (msg : FirmwareMsg)
        → (piece : List ℕ) × Leaves (to_slice_cobs msg) (send to_slice_cobs write tx msg).1 piece
          × (line (send to_slice_cobs write tx msg).0 ≡ line tx ++ piece)
    unfolding send
    send-Leaves tx msg = elim (Option-cases (to_slice_cobs msg)) [
      | inl e ↦ rw (send, e) ([], inl (refl, refl, refl), sym (append-nil (line tx)))
      | inr (encoded, e) ↦ by_end (send-Puts tx msg encoded e) e
    ]
      where
        by_end :
            {encoded : List ℕ}
            → Puts line tx encoded (send to_slice_cobs write tx msg)
            → to_slice_cobs msg ≡ some encoded
            → (piece : List ℕ) × Leaves
                (to_slice_cobs msg)
                (send to_slice_cobs write tx msg).1
                piece
              × (line (send to_slice_cobs write tx msg).0 ≡ line tx ++ piece)
        by_end {encoded = encoded} (inl (ends, whole)) e =
            (encoded, inr (encoded, e, inl (ends, refl)), whole)
        by_end {encoded = encoded} (inr (ends, k, part)) e =
            (take k encoded, inr (encoded, e, inr (ends, k, refl)), part)

    -- The UART task handles every message, in order, with no loop that does not end: each leaves on
    -- the line its whole encoding, or the first bytes of it if a write fails, or nothing if it has no
    -- encoding, and nothing else is written. The driver takes at least one byte at a time, and puts
    -- what it takes on the line.
    pub uart_tx_task-LeaveAll :
        (msgs : List FirmwareMsg) (tx : D)
        → (bytes : List ℕ) × (line (uart_tx_task to_slice_cobs write tx msgs).0 ≡ line tx ++ bytes)
          × LeaveAll to_slice_cobs msgs (uart_tx_task to_slice_cobs write tx msgs).1 bytes
    unfolding uart_tx_task
    uart_tx_task-LeaveAll [] tx = ([], sym (append-nil (line tx)), (refl, refl))
    uart_tx_task-LeaveAll (msg ∷ msgs) tx =
        let after = send to_slice_cobs write tx msg in
        let (piece, leaves, put) = send-Leaves tx msg in
        let (rest, more, all) = uart_tx_task-LeaveAll msgs after.0 in
        (
          piece ++ rest,
          more ∙ rw put (append_assoc (line tx) piece rest),
          (
            after.1,
            (uart_tx_task to_slice_cobs write after.0 msgs).1,
            piece,
            rest,
            refl,
            refl,
            leaves,
            all,
          ),
        )
