-- ===== src/Link/Line/Tests.antt =====
-- A line on which a message has two bytes, written one byte at a time.
use esp32_universal_control.Base.{
  ℕ, suc, ◌-◌, ◌<◌, ◌≤◌, ◌≡◌, refl, sym, ap, subst, ◌∙◌, Option, none, some, List, [], ◌∷◌, ◌++◌,
  length, drop, take, length-append, append-nil, arith,
}
use esp32_universal_control.Protocol.Wire.{
  FirmwareMsg, hello_ack, peer_snapshot, peer_connected, peer_disconnected, active_peer_changed,
  led_state, protocol_error,
}
use esp32_universal_control.Firmware.Main.Uart.{Written, accepted, refused, uart_tx_task}
use esp32_universal_control.Firmware.Main.Uart.Sending.{IsUart}
use esp32_universal_control.Host.Serial.Reader.{
  FeedResult, consumed, success, ReadResult, got, timed_out, read_port,
}
use esp32_universal_control.Host.Serial.Framing.{IsAccumulator}
use esp32_universal_control.Link.Line.{or_none, HasFrames, line_delivers}

abbrev two_bytes : FirmwareMsg → Option (List ℕ)
two_bytes (led_state bits) = some (suc bits ∷ 0 ∷ [])
two_bytes (hello_ack ack) = none
two_bytes (peer_snapshot snapshot) = none
two_bytes (peer_connected peer) = none
two_bytes (peer_disconnected slot) = none
two_bytes (active_peer_changed slot) = none
two_bytes (protocol_error error) = none

abbrev one_byte : List ℕ → List ℕ → List ℕ × Written
one_byte tx [] = (tx, accepted 0)
one_byte tx (byte ∷ bytes) = (tx ++ byte ∷ [], accepted 1)

abbrev feed_two : List ℕ → List ℕ → List ℕ × FeedResult
feed_two [] [] = ([], consumed)
feed_two [] (first ∷ []) = (first ∷ [], consumed)
feed_two [] (first ∷ second ∷ rest) = ([], success (led_state (first - 1)) rest)
feed_two (first ∷ held) [] = (first ∷ held, consumed)
feed_two (first ∷ held) (second ∷ rest) = ([], success (led_state (first - 1)) rest)

abbrev count : Written → ℕ
count (accepted n) = n
count refused = 7

one_byte-IsUart : IsUart (List ℕ) one_byte (λ tx. tx)
one_byte-IsUart = record {
  accepts = takes;
  progresses = advances;
  refuses = λ tx tx' bytes e. absurd (never tx tx' bytes (ap (λ p. count p.1) e));
}
  where
    takes :
        (tx tx' : List ℕ) (bytes : List ℕ) (n : ℕ)
        → one_byte tx bytes ≡ (tx', accepted n)
        → (n ≤ length bytes) × (tx' ≡ tx ++ take n bytes)
    takes tx tx' [] n e =
        let none_taken : 0 ≡ n = ap (λ p. count p.1) e in
        (omega arith, sym (ap (λ p. p.0) e) ∙ rw (sym none_taken) (sym (append-nil tx)))
    takes tx tx' (byte ∷ bytes) n e =
        let taken : 1 ≡ n = ap (λ p. count p.1) e in
        (omega arith, sym (ap (λ p. p.0) e) ∙ rw (sym taken) refl)

    advances :
        (tx tx' : List ℕ) (bytes : List ℕ) (n : ℕ)
        → one_byte tx bytes ≡ (tx', accepted n)
        → 0 < length bytes
        → 0 < n
    advances tx tx' [] n e h = absurd (omega arith)
    advances tx tx' (byte ∷ bytes) n e h = let taken : 1 ≡ n = ap (λ p. count p.1) e in omega arith

    never : (tx tx' : List ℕ) (bytes : List ℕ) → count (one_byte tx bytes).1 ≡ 7 → ⊥
    never tx tx' [] e = omega arith
    never tx tx' (byte ∷ bytes) e = omega arith

two_bytes-HasFrames : HasFrames two_bytes
two_bytes-HasFrames (led_state bits) bytes e =
    let whole : suc bits ∷ 0 ∷ [] ≡ bytes = ap or_none e in rw (sym whole) (omega arith)
two_bytes-HasFrames (hello_ack ack) bytes e = absurd (cc)
two_bytes-HasFrames (peer_snapshot snapshot) bytes e = absurd (cc)
two_bytes-HasFrames (peer_connected peer) bytes e = absurd (cc)
two_bytes-HasFrames (peer_disconnected slot) bytes e = absurd (cc)
two_bytes-HasFrames (active_peer_changed slot) bytes e = absurd (cc)
two_bytes-HasFrames (protocol_error error) bytes e = absurd (cc)

abbrev frame_of : FirmwareMsg → List ℕ
frame_of msg = or_none (two_bytes msg)

completes_led :
    (a window rest : List ℕ) (bits : ℕ)
    → a ++ window ≡ suc bits ∷ 0 ∷ rest
    → length a < 2
    → (a' : List ℕ) × (feed_two a window ≡ (a', success (led_state bits) rest)) × (a' ≡ [])
completes_led [] window rest bits e h =
    let back : suc bits - 1 ≡ bits = omega arith in
    subst (λ w. (a' : List ℕ) × (feed_two [] w ≡ (a', success (led_state bits) rest)) × (a' ≡ []))
      (sym e) ([], ap (λ n. ([], success (led_state n) rest)) back, refl)
completes_led (first ∷ []) window rest bits e h =
    let head : first ≡ suc bits = cc in
    let back : first - 1 ≡ bits = omega arith in
    subst
      (λ w.
        (a' : List ℕ) × (feed_two (first ∷ []) w ≡ (a', success (led_state bits) rest)) × (a' ≡ []))
      (sym (ap (drop 1) e)) ([], ap (λ n. ([], success (led_state n) rest)) back, refl)
completes_led (first ∷ second ∷ a) window rest bits e h = absurd (omega arith)

waits_two :
    (a window more : List ℕ)
    → 2 ≡ length ((a ++ window) ++ more)
    → 0 < length more
    → (a' : List ℕ) × (feed_two a window ≡ (a', consumed)) × (a' ≡ a ++ window)
waits_two [] [] more e h = ([], refl, refl)
waits_two [] (first ∷ []) more e h = (first ∷ [], refl, refl)
waits_two [] (first ∷ second ∷ rest) more e h = absurd (omega (arith, length-append rest more))
waits_two (first ∷ a) [] more e h = (first ∷ a, refl, sym (append-nil (first ∷ a)))
waits_two (first ∷ a) (second ∷ rest) more e h =
    absurd (omega (arith, length-append (a ++ second ∷ rest) more, length-append a (second ∷ rest)))

feed_two-IsAccumulator : IsAccumulator (List ℕ) feed_two frame_of (λ a. a)
feed_two-IsAccumulator = record { completes = complete; waits = wait }
  where
    complete :
        (a window rest : List ℕ) (msg : FirmwareMsg)
        → a ++ window ≡ frame_of msg ++ rest
        → length a < length (frame_of msg)
        → (a' : List ℕ) × (feed_two a window ≡ (a', success msg rest)) × (a' ≡ [])
    complete a window rest (led_state bits) e h = completes_led a window rest bits e h
    complete a window rest (hello_ack ack) e h = absurd (omega arith)
    complete a window rest (peer_snapshot snapshot) e h = absurd (omega arith)
    complete a window rest (peer_connected peer) e h = absurd (omega arith)
    complete a window rest (peer_disconnected slot) e h = absurd (omega arith)
    complete a window rest (active_peer_changed slot) e h = absurd (omega arith)
    complete a window rest (protocol_error error) e h = absurd (omega arith)

    no_frame : (a window more : List ℕ) → [] ≡ (a ++ window) ++ more → 0 < length more → ⊥
    no_frame a window more e h =
        let sizes : 0 ≡ length ((a ++ window) ++ more) = ap length e in
        omega (arith, length-append (a ++ window) more)

    wait :
        (a window more : List ℕ) (msg : FirmwareMsg)
        → frame_of msg ≡ (a ++ window) ++ more
        → 0 < length more
        → (a' : List ℕ) × (feed_two a window ≡ (a', consumed)) × (a' ≡ a ++ window)
    wait a window more (led_state bits) e h = waits_two a window more (ap length e) h
    wait a window more (hello_ack ack) e h = absurd (no_frame a window more e h)
    wait a window more (peer_snapshot snapshot) e h = absurd (no_frame a window more e h)
    wait a window more (peer_connected peer) e h = absurd (no_frame a window more e h)
    wait a window more (peer_disconnected slot) e h = absurd (no_frame a window more e h)
    wait a window more (active_peer_changed slot) e h = absurd (no_frame a window more e h)
    wait a window more (protocol_error error) e h = absurd (no_frame a window more e h)

abbrev lights : List FirmwareMsg
lights = led_state 4 ∷ led_state 0 ∷ []

-- A frame is split between two reads, and a read times out in between.
abbrev three_reads : List ReadResult
three_reads = got (5 ∷ 0 ∷ 1 ∷ []) ∷ timed_out ∷ got (0 ∷ []) ∷ []

line_delivers_example : (a' : List ℕ) × (read_port feed_two [] three_reads ≡ some (a', lights))
unfolding uart_tx_task
line_delivers_example =
    line_delivers two_bytes one_byte (λ tx. tx) feed_two (λ a. a) [] [] lights three_reads
      two_bytes-HasFrames one_byte-IsUart feed_two-IsAccumulator (refl, (refl, tt)) refl refl
      (tt, (tt, (tt, tt))) refl
