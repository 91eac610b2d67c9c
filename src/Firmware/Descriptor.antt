-- ===== src/Firmware/Descriptor.antt =====
-- firmware/src/hid_descriptor.rs: how the report descriptor is put together. A write out of range is
-- `none`; the source runs this code at compile time, where such a panic stops the build.
pub mod Tags
pub mod Fragments
pub mod Keyboard
pub mod Build
pub mod Composite
pub mod Parser
pub mod Reading
pub mod Layout
pub mod Bits
pub mod KeyLayout
pub mod ConsumerLayout
mod Tests
use esp32_universal_control.Base.{
  ℕ, zero, suc, ◌+◌, ◌-◌, ◌*◌, Bool, true, false, Option, none, some, List, [], ◌∷◌, replicate,
  length, get_elem?, set_elem?, ◌>>=◌,
}
use esp32_universal_control.Firmware.Descriptor.Tags.{HidTags}
use esp32_universal_control.Firmware.Descriptor.Keyboard.{HidItem, keyboard_consumer_items}
use esp32_universal_control.Firmware.Descriptor.Fragments.{
  finger_page_switch, finger_prefix, finger_spatial_fields, finger_unit_reset, ptp_header,
  ptp_suffix,
}

-- The buffer and the index of the next byte.
pub record Buffer : Type 0 where
  pub bytes : List ℕ
  pub index : ℕ

unfoldable pub push_slice : List ℕ → Buffer → Option Buffer
push_slice [] buf = some buf
push_slice (byte ∷ slice) buf = set_elem? buf.bytes buf.index byte >>= λ bytes.
    push_slice slice (record { bytes = bytes; index = buf.index + 1 })

-- `if include { push_slice(…) }`.
abbrev pub push_if : Bool → List ℕ → Buffer → Option Buffer
push_if true slice buf = push_slice slice buf
push_if false slice buf = some buf

abbrev pub ptp_descriptor_len : HidTags → ℕ
ptp_descriptor_len tags =
    length (ptp_header tags)
    + 5 * (length (finger_prefix tags) + length (finger_spatial_fields tags) + 1)
    + 4 * length (finger_page_switch tags)
    + 3 * length (finger_unit_reset tags)
    + length (ptp_suffix tags)

-- The flags are `include_page_switch` and `include_unit_reset`.
unfoldable pub append_finger : HidTags → Bool → Bool → Buffer → Option Buffer
unfolding push_slice
append_finger tags include_page_switch include_unit_reset buf = do
  buf₁ ← push_if include_page_switch (finger_page_switch tags) buf
  buf₂ ← push_slice (finger_prefix tags) buf₁
  buf₃ ← push_slice (finger_spatial_fields tags) buf₂
  buf₄ ← push_if include_unit_reset (finger_unit_reset tags) buf₃
  push_slice (tags.end_collection ∷ []) buf₄

unfoldable pub build_ptp_descriptor : HidTags → Option (List ℕ)
unfolding append_finger push_slice
build_ptp_descriptor tags = do
  buf₁ ←
      push_slice (ptp_header tags)
        (record { bytes = replicate (ptp_descriptor_len tags) 0; index = 0 })
  buf₂ ← append_finger tags false true buf₁
  buf₃ ← append_finger tags true true buf₂
  buf₄ ← append_finger tags true false buf₃
  buf₅ ← append_finger tags true true buf₄
  buf₆ ← append_finger tags true false buf₅
  buf₇ ← push_slice (ptp_suffix tags) buf₆
  some buf₇.bytes

-- `while i < end { buf[i] = source[i - start]; i += 1; }`; the first argument is `end - i`.
unfoldable pub copy_loop : ℕ → ℕ → ℕ → List ℕ → List ℕ → Option (List ℕ)
copy_loop zero i start source buf = some buf
copy_loop (suc rounds) i start source buf = get_elem? source (i - start) >>= λ byte.
    set_elem? buf i byte >>= λ buf'. copy_loop rounds (i + 1) start source buf'

-- The two loops of `COMPOSITE_REPORT_DESCRIPTOR`, for any two fragments.
unfoldable pub composite : List ℕ → List ℕ → Option (List ℕ)
unfolding copy_loop
composite keyboard_consumer ptp = do
  let kb_len = length keyboard_consumer
  buf ← copy_loop kb_len 0 0 keyboard_consumer (replicate (kb_len + length ptp) 0)
  copy_loop (length ptp) kb_len kb_len ptp buf

unfoldable pub composite_report_descriptor : (List HidItem → List ℕ) → HidTags → Option (List ℕ)
unfolding composite build_ptp_descriptor
composite_report_descriptor hid tags =
    build_ptp_descriptor tags >>= λ ptp. composite (hid (keyboard_consumer_items tags)) ptp
