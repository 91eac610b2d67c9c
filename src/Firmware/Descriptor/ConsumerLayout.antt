-- ===== src/Firmware/Descriptor/ConsumerLayout.antt =====
-- The consumer report of the firmware is what its report descriptor says.
use esp32_universal_control.Base.{
  ℕ, zero, suc, ◌+◌, ◌*◌, ◌/◌, ◌%◌, ◌^◌, ◌<◌, ◌≡◌, refl, ap, sym, ◌∙◌, some, List, [], ◌∷◌, ◌++◌,
  length, arith,
}
use esp32_universal_control.Protocol.Keyboard.{reportid_consumer}
use esp32_universal_control.Firmware.Reports.{consumer_bytes}
use esp32_universal_control.Firmware.Descriptor.Tags.{HidTags}
use esp32_universal_control.Firmware.Descriptor.Keyboard.{keyboard_consumer_items}
use esp32_universal_control.Firmware.Descriptor.Parser.{
  standard_tags, start, main_pieces, read_report,
}
use esp32_universal_control.Firmware.Descriptor.Reading.{adds, reading}
use esp32_universal_control.Firmware.Descriptor.Bits.{bit_pieces, bit_readings, read_byte}

abbrev pub consumer_usages : List ℕ
consumer_usages =
    0xb5 ∷ 0xb6 ∷ 0xb7 ∷ 0xcd ∷ 0xe2 ∷ 0xe9 ∷ 0xea ∷ 0x223 ∷ 0x194 ∷ 0x192 ∷ 0x22a ∷ 0x221 ∷ 0x226
    ∷ 0x224 ∷ 0x183 ∷ 0x18a ∷ []

consumer_pieces :
    main_pieces 0x80 2 start (keyboard_consumer_items standard_tags)
    ≡ bit_pieces 0x0c consumer_usages
unfolding main_pieces
consumer_pieces = refl

-- A number that is even so many times.
abbrev IsEven : ℕ → ℕ → Type 0
IsEven zero n = Unit {0}
IsEven (suc times) n = (half : ℕ) × (n ≡ 2 * half) × IsEven times half

-- Such a number does not change the low bits.
bit_readings-low :
    (page : ℕ) (usages : List ℕ) (n more : ℕ)
    → IsEven (length usages) more
    → bit_readings page usages (n + more) ≡ bit_readings page usages n
bit_readings-low page [] n more h = refl
bit_readings-low page (usage ∷ usages) n more (half, e, h) =
    let bit : (n + more) % 2 ≡ n % 2 = omega arith in
    let rest : (n + more) / 2 ≡ n / 2 + half = omega arith in
    rw (bit, rest)
      (ap (λ rs. reading page usage (n % 2) ++ rs) (bit_readings-low page usages (n / 2) half h))

abbrev low_usages : List ℕ
low_usages = 0xb5 ∷ 0xb6 ∷ 0xb7 ∷ 0xcd ∷ 0xe2 ∷ 0xe9 ∷ 0xea ∷ 0x223 ∷ []

abbrev high_usages : List ℕ
high_usages = 0x194 ∷ 0x192 ∷ 0x22a ∷ 0x221 ∷ 0x226 ∷ 0x224 ∷ 0x183 ∷ 0x18a ∷ []

two_bytes :
    (n : ℕ)
    → n < 2 ^ 16
    → bit_readings 0x0c low_usages (n % 256) ++ bit_readings 0x0c high_usages (n / 256 % 256)
      ≡ bit_readings 0x0c consumer_usages n
two_bytes n h =
    let q = n / 256 in
    let even : IsEven 8 (256 * q) = (
      128 * q,
      omega arith,
      (
        64 * q,
        omega arith,
        (
          32 * q,
          omega arith,
          (
            16 * q,
            omega arith,
            (8 * q, omega arith, (4 * q, omega arith, (2 * q, omega arith, (q, omega arith, tt)))),
          ),
        ),
      ),
    ) in
    let split : n % 256 + 256 * q ≡ n = omega arith in
    let top : n / 2 / 2 / 2 / 2 / 2 / 2 / 2 / 2 ≡ n / 256 % 256 = omega arith in
    ap (λ rs. rs ++ bit_readings 0x0c high_usages (n / 256 % 256))
      (sym (bit_readings-low 0x0c low_usages (n % 256) (256 * q) even)
        ∙ ap (bit_readings 0x0c low_usages) split)
    ∙ ap (λ k. bit_readings 0x0c low_usages n ++ bit_readings 0x0c high_usages k) (sym top)

-- A host that reads a consumer report by the descriptor's items gets the sixteen bits of its word,
-- the lowest first, each under the usage that the descriptor lists for it: the fifth is mute (0xe2),
-- the sixth and seventh are volume up and down (0xe9, 0xea). The base tags have the standard's
-- numbers.
pub read_report-consumer_bytes :
    (tags : HidTags) (bits : ℕ)
    → tags ≡ standard_tags
    → bits < 2 ^ 16
    → read_report
        (main_pieces 0x80 reportid_consumer start (keyboard_consumer_items tags))
        0
        0
        (consumer_bytes bits)
      ≡ some (bit_readings 0x0c consumer_usages bits)
unfolding read_report
read_report-consumer_bytes tags bits standard h =
    let low = bit_readings 0x0c low_usages (bits % 256) in
    let high = bit_readings 0x0c high_usages (bits / 256 % 256) in
    ap
      (λ ts.
        read_report (main_pieces 0x80 2 start (keyboard_consumer_items ts)) 0 0
          (consumer_bytes bits))
      standard
    ∙ ap (λ pieces. read_report pieces 0 0 (consumer_bytes bits)) consumer_pieces
    ∙ read_byte 0x0c 0xb5 (0xb6 ∷ 0xb7 ∷ 0xcd ∷ 0xe2 ∷ 0xe9 ∷ 0xea ∷ 0x223 ∷ [])
        (bit_pieces 0x0c high_usages) (bits % 256) (bits / 256 % 256 ∷ []) refl
    ∙ ap (adds low) (
        read_byte 0x0c 0x194 (0x192 ∷ 0x22a ∷ 0x221 ∷ 0x226 ∷ 0x224 ∷ 0x183 ∷ 0x18a ∷ []) []
          (bits / 256 % 256) [] refl)
    ∙ ap some (two_bytes bits h)
