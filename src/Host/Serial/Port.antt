-- ===== src/Host/Serial/Port.antt =====
-- Opening and writing the port in host/src/serial.rs. The port, the operations of serialport5 and
-- postcard's encoder are parameters.
use esp32_universal_control.Base.{
  ℕ, ◌≡◌, refl, Bool, true, false, Option, none, some, List, [], ◌∷◌, ◌++◌, ◌>>=◌, sym, ◌∙◌, ap,
  inl, inr, Option-cases, Bool-cases, append-nil, append_assoc, arith,
}
use esp32_universal_control.Protocol.Wire.{HostMsg}

abbrev pub baud_rate : ℕ
baud_rate = 921600

abbrev pub serial_read_timeout_ms : ℕ
serial_read_timeout_ms = 10

-- `open_port`; the builder's last call gives a port or fails.
abbrev pub open_port :
    {P N : Type 0} → (open_named : (baud_rate read_timeout_ms : ℕ) → N → Option P) → N → Option P
open_port open_named name = open_named baud_rate serial_read_timeout_ms name

pub data SendResult : Type 0 where
  written encode_failed write_failed : SendResult

module _ {P : Type 0} (encode : HostMsg → Option (List ℕ)) (write_all : P → List ℕ → P × Bool) where
  abbrev pub after_write : P × Bool → P × SendResult
  after_write (port, true) = (port, written)
  after_write (port, false) = (port, write_failed)

  unfoldable pub send : P → HostMsg → P × SendResult
  send port msg = elim (encode msg) [
    | none ↦ (port, encode_failed)
    | some encoded ↦ after_write (write_all port encoded)
  ]

  -- The writer's loop of capture/mod.rs, on the messages of the outbox in order: it stops at the
  -- first that is not sent. The result says whether it has stopped.
  unfoldable pub write_messages : P → List HostMsg → P × Bool
  unfolding send
  write_messages port [] = (port, false)
  write_messages port (msg ∷ msgs) =
      let (port', result) = send port msg in
      let later = write_messages port' msgs in
      elim result [ written ↦ later | encode_failed ↦ (port', true) | write_failed ↦ (port', true) ]

  -- The frames of some messages, one behind the other, if all can be encoded.
  abbrev pub encoded_all : List HostMsg → Option (List ℕ)
  encoded_all [] = some []
  encoded_all (msg ∷ msgs) =
      encode msg >>= λ bytes. encoded_all msgs >>= λ rest. some (bytes ++ rest)

  -- What has gone out on the line grows by the bytes of a write that succeeds.
  abbrev pub Appends : (line : P → List ℕ) → Type 0
  Appends line =
      (port : P) (bytes : List ℕ)
      → (write_all port bytes).1 ≡ true
      → line (write_all port bytes).0 ≡ line port ++ bytes

  sent_next :
      (port : P) (msg : HostMsg) (msgs : List HostMsg) (bytes : List ℕ)
      → encode msg ≡ some bytes
      → (write_all port bytes).1 ≡ true
      → write_messages port (msg ∷ msgs) ≡ write_messages (write_all port bytes).0 msgs
  unfolding write_messages send
  sent_next port msg msgs bytes e writes = ground (arith, e, writes)

  -- A writer that has not stopped has put out the frames of all messages, in order.
  pub write_messages_lem :
      (line : P → List ℕ) (port : P) (msgs : List HostMsg)
      → Appends line
      → (write_messages port msgs).1 ≡ false
      → (bytes : List ℕ) × (encoded_all msgs ≡ some bytes)
        × (line (write_messages port msgs).0 ≡ line port ++ bytes)
  unfolding write_messages send
  write_messages_lem line port [] appends goes = ([], refl, sym (append-nil (line port)))
  write_messages_lem line port (msg ∷ msgs) appends goes = elim (Option-cases (encode msg)) [
    | inl e ↦ absurd (ground (arith, e))
    | inr (bytes, e) ↦ elim (Bool-cases (write_all port bytes).1) [
      | inr fails ↦ absurd (ground (arith, e, fails))
      | inl writes ↦
          let next = sent_next port msg msgs bytes e writes in
          let (rest, encodes, shows) =
            write_messages_lem line (write_all port bytes).0 msgs appends
              (ap (λ r. r.1) (sym next) ∙ goes) in
          (
            bytes ++ rest,
            rw (e, encodes) refl,
            ap (λ r. line r.0) next
                ∙ shows
                ∙ ap (λ xs. xs ++ rest) (appends port bytes writes)
                ∙ append_assoc (line port) bytes rest,
          )
    ]
  ]
