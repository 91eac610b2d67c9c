-- ===== src/Host/Serial/Framing.antt =====
-- The reader thread of host/src/serial.rs finds the messages, however the line's bytes are split
-- into reads.
use esp32_universal_control.Base.{
  ℕ, zero, suc, ◌+◌, ◌≤◌, ◌<◌, ◌≡◌, refl, sym, ap, ◌∙◌, inl, inr, leb, Bool-cases, Option, some,
  List, [], ◌∷◌, ◌++◌, length, drop, length-append, append_assoc, All, arith,
}
use esp32_universal_control.Protocol.Wire.{FirmwareMsg}
use esp32_universal_control.Host.Serial.Reader.{
  FeedResult, consumed, success, ReadResult, got, timed_out, failed, read_window, read_port,
}

-- postcard's accumulator, with the bytes that it holds: it waits while a frame is not whole, and
-- gives the message and the bytes behind the frame when it is, holding nothing then.
pub record IsAccumulator (A : Type 0) (feed : A → List ℕ → A × FeedResult)
    (encode_msg : FirmwareMsg → List ℕ) (pending : A → List ℕ) : Type 0 where
  pub completes :
      (a : A) (window rest : List ℕ) (msg : FirmwareMsg)
      → pending a ++ window ≡ encode_msg msg ++ rest
      → length (pending a) < length (encode_msg msg)
      → (a' : A) × (feed a window ≡ (a', success msg rest)) × (pending a' ≡ [])
  pub waits :
      (a : A) (window more : List ℕ) (msg : FirmwareMsg)
      → encode_msg msg ≡ (pending a ++ window) ++ more
      → 0 < length more
      → (a' : A) × (feed a window ≡ (a', consumed)) × (pending a' ≡ pending a ++ window)

abbrev pub frames : (FirmwareMsg → List ℕ) → List FirmwareMsg → List ℕ
frames encode_msg [] = []
frames encode_msg (msg ∷ msgs) = encode_msg msg ++ frames encode_msg msgs

-- What the reads of a port that does not fail give in all.
abbrev pub bytes_read : List ReadResult → List ℕ
bytes_read [] = []
bytes_read (got bytes ∷ reads) = bytes ++ bytes_read reads
bytes_read (timed_out ∷ reads) = bytes_read reads
bytes_read (failed ∷ reads) = []

abbrev pub GoesOn : ReadResult → Type 0
GoesOn (got bytes) = Unit {0}
GoesOn timed_out = Unit {0}
GoesOn failed = ⊥

-- Where two lists are equal, the shorter front is a part of the longer.
split_at :
    (us xs vs ys : List ℕ)
    → xs ++ ys ≡ us ++ vs
    → length us ≤ length xs
    → (rest : List ℕ) × (xs ≡ us ++ rest) × (rest ++ ys ≡ vs)
split_at [] xs vs ys e h = (xs, refl, e)
split_at (u ∷ us) [] vs ys e h = absurd (omega arith)
split_at (u ∷ us) (x ∷ xs) vs ys e h =
    let (rest, front, back) = split_at us xs vs ys (ap (drop 1) e) (omega arith) in (rest, cc, back)

module _ {A : Type 0} (feed : A → List ℕ → A × FeedResult) (encode_msg : FirmwareMsg → List ℕ)
    (pending : A → List ℕ) (accumulator : IsAccumulator A feed encode_msg pending) where
  -- The messages have encodings.
  abbrev pub AreEncoded : List FirmwareMsg → Type 0
  AreEncoded = All (λ msg. 0 < length (encode_msg msg))

  -- What is held is a part of the first frame that is still to come.
  abbrev pub IsPart : A → List FirmwareMsg → Type 0
  IsPart a [] = pending a ≡ []
  IsPart a (msg ∷ msgs) = length (pending a) < length (encode_msg msg)

  empty-IsPart :
      (a : A) (msgs : List FirmwareMsg) → AreEncoded msgs → pending a ≡ [] → IsPart a msgs
  empty-IsPart a [] encoded e = e
  empty-IsPart a (msg ∷ msgs) encoded e = rw e (encoded.0)

  -- The messages `left` are to come, of which `bytes` are not read yet.
  pub record IsReading (a : A) (bytes : List ℕ) (left : List FirmwareMsg) : Type 0 where
    pub held : pending a ++ bytes ≡ frames encode_msg left
    pub part : IsPart a left
    pub encoded : AreEncoded left

  abbrev pub Delivers : Option (A × List FirmwareMsg) → List ℕ → List FirmwareMsg → Type 0
  Delivers result bytes msgs =
      (a' : A) × (front left : List FirmwareMsg) × (result ≡ some (a', front))
      × (msgs ≡ front ++ left)
      × IsReading a' bytes left

  read_nothing : (rounds : ℕ) (a : A) → read_window feed rounds a [] ≡ some (a, [])
  unfolding read_window
  read_nothing zero a = refl
  read_nothing (suc rounds) a = refl

  read_window-Delivers :
      (rounds : ℕ) (a : A) (window bytes : List ℕ) (msgs : List FirmwareMsg)
      → length window ≤ rounds
      → IsReading a (window ++ bytes) msgs
      → Delivers (read_window feed rounds a window) bytes msgs
  unfolding read_window
  read_window-Delivers rounds a [] bytes msgs h r = (a, [], msgs, read_nothing rounds a, refl, r)
  read_window-Delivers zero a (byte ∷ window) bytes msgs h r = absurd (omega arith)
  read_window-Delivers (suc rounds) a (byte ∷ window) bytes [] h r =
      let none_held : pending a ≡ [] = r.part in
      let none_left : byte ∷ (window ++ bytes) ≡ [] =
        ap (λ xs. xs ++ (byte ∷ (window ++ bytes))) (sym none_held) ∙ r.held in
      absurd (cc)
  read_window-Delivers (suc rounds) a (byte ∷ window) bytes (msg ∷ msgs) h r =
      let whole = byte ∷ window in
      let joined : (pending a ++ whole) ++ bytes ≡ encode_msg msg ++ frames encode_msg msgs =
        append_assoc (pending a) whole bytes ∙ r.held in
      let total = length-append (pending a) whole in
      elim (Bool-cases (leb (length (encode_msg msg)) (length (pending a ++ whole)))) [
        | inl there ↦
            let (rest, front, back) =
              split_at (encode_msg msg) (pending a ++ whole) (frames encode_msg msgs) bytes joined
                (ground arith) in
            let (a', fed, empty) = accumulator.completes a whole rest msg front r.part in
            let sizes : length (pending a ++ whole) ≡ length (encode_msg msg) + length rest =
              ap length front ∙ length-append (encode_msg msg) rest in
            let (a'', more, left, reads, split, r') =
              read_window-Delivers rounds a' rest bytes msgs (omega (arith, r.part)) (record {
                held = rw empty back;
                part = empty-IsPart a' msgs r.encoded.1 empty;
                encoded = r.encoded.1;
              }) in
            (
              a'',
              msg ∷ more,
              left,
              rw (read_window, ap (λ p. p.1) fed, ap (λ p. p.0) fed, reads) refl,
              ap (λ xs. msg ∷ xs) split,
              r',
            )
        | inr short ↦
            let (more, front, back) =
              split_at (pending a ++ whole) (encode_msg msg) bytes (frames encode_msg msgs)
                (sym joined) (ground arith) in
            let sizes : length (encode_msg msg) ≡ length (pending a ++ whole) + length more =
              ap length front ∙ length-append (pending a ++ whole) more in
            let longer : 0 < length more = ground arith in
            let (a', fed, holds) = accumulator.waits a whole more msg front longer in
            (
              a',
              [],
              msg ∷ msgs,
              rw (read_window, ap (λ p. p.1) fed, ap (λ p. p.0) fed) refl,
              refl,
              record { held = rw holds joined; part = rw holds (omega arith); encoded = r.encoded },
            )
      ]

  nothing_left : (a : A) (msgs : List FirmwareMsg) → IsReading a [] msgs → msgs ≡ []
  nothing_left a [] r = refl
  nothing_left a (msg ∷ msgs) r =
      let counts : length (pending a ++ []) ≡ length (encode_msg msg ++ frames encode_msg msgs) =
        ap length r.held in
      absurd (
        omega (
          arith,
          r.part,
          length-append (pending a) [],
          length-append (encode_msg msg) (frames encode_msg msgs),
        ))

  read_port-IsReading :
      (reads : List ReadResult) (a : A) (msgs : List FirmwareMsg)
      → All GoesOn reads
      → IsReading a (bytes_read reads) msgs
      → (a' : A) × (read_port feed a reads ≡ some (a', msgs))
  unfolding read_port
  read_port-IsReading [] a msgs on r = (a, ap (λ ms. some (a, ms)) (sym (nothing_left a msgs r)))
  read_port-IsReading (timed_out ∷ reads) a msgs on r = read_port-IsReading reads a msgs on.1 r
  read_port-IsReading (failed ∷ reads) a msgs on r = absurd (on.0)
  read_port-IsReading (got bytes ∷ reads) a msgs on r =
      let (a', front, left, ran, split, r') =
        read_window-Delivers (length bytes) a bytes (bytes_read reads) msgs (omega arith) r in
      let (a'', rest) = read_port-IsReading reads a' left on.1 r' in
      (a'', rw (read_port, ran, rest) (ap (λ ms. some (a'', ms)) (sym split)))

  -- However the bytes of some frames are split into reads, and whatever reads time out in between,
  -- the reader's loops come to their end and deliver exactly the messages, in their order. The
  -- accumulator holds nothing at first, gives a message when its frame is whole, and waits before.
  pub read_port-frames :
      (reads : List ReadResult) (a : A) (msgs : List FirmwareMsg)
      → All GoesOn reads
      → pending a ≡ []
      → AreEncoded msgs
      → bytes_read reads ≡ frames encode_msg msgs
      → (a' : A) × (read_port feed a reads ≡ some (a', msgs))
  read_port-frames reads a msgs on empty encoded e =
      read_port-IsReading reads a msgs on
        (record { held = rw empty e; part = empty-IsPart a msgs encoded empty; encoded = encoded })
