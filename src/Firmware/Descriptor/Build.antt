-- ===== src/Firmware/Descriptor/Build.antt =====
-- The report descriptor of firmware/src/hid_descriptor.rs is the concatenation of its parts.
use esp32_universal_control.Base.{
  ℕ, ◌+◌, ◌-◌, ◌≤◌, ◌≡◌, refl, ap, subst, Bool, true, false, Option, some, List, [], ◌∷◌, ◌++◌,
  length, pad, ◌>>=◌, arith, set_elem?-pad, length-append, append_assoc, append-nil,
}
use esp32_universal_control.Firmware.Descriptor.Tags.{HidTags}
use esp32_universal_control.Firmware.Descriptor.Fragments.{
  finger_page_switch, finger_prefix, finger_spatial_fields, finger_unit_reset, ptp_header,
  ptp_suffix,
}
use esp32_universal_control.Firmware.Descriptor.{
  Buffer, push_slice, push_if, append_finger, ptp_descriptor_len, build_ptp_descriptor,
}

-- A buffer of `n` bytes that holds `xs`, with the index behind them.
abbrev holding : ℕ → List ℕ → Buffer
holding n xs = record { bytes = pad n 0 xs; index = length xs }

push_slice_lem :
    (n : ℕ) (slice xs : List ℕ)
    → length xs + length slice ≤ n
    → push_slice slice (holding n xs) ≡ some (holding n (xs ++ slice))
unfolding push_slice
push_slice_lem n [] xs h = rw (append-nil xs) refl
push_slice_lem n (byte ∷ slice) xs h =
    let longer = length-append xs (byte ∷ []) in
    let fits : length (xs ++ byte ∷ []) + length slice ≤ n = omega arith in
    let next : length xs + 1 ≡ length (xs ++ byte ∷ []) = omega arith in
    rw
      (
        push_slice,
        set_elem?-pad n 0 xs byte (length xs) refl (omega arith),
        next,
        push_slice_lem n slice (xs ++ byte ∷ []) fits,
        append_assoc xs (byte ∷ []) slice,
      )
      refl

-- The bytes of a slice that is included or not.
abbrev pub optional : Bool → List ℕ → List ℕ
optional true slice = slice
optional false slice = []

push_optional :
    (n : ℕ) (include : Bool) (slice xs : List ℕ)
    → length xs + length (optional include slice) ≤ n
    → push_if include slice (holding n xs) ≡ some (holding n (xs ++ optional include slice))
push_optional n true slice xs h = push_slice_lem n slice xs h
push_optional n false slice xs h = rw (append-nil xs) refl

-- The bytes of one finger.
abbrev pub finger_bytes : HidTags → Bool → Bool → List ℕ
finger_bytes tags page_switch unit_reset =
    optional page_switch (finger_page_switch tags)
    ++ (finger_prefix tags
        ++ (finger_spatial_fields tags
            ++ (optional unit_reset (finger_unit_reset tags) ++ tags.end_collection ∷ [])))

-- The pushes of `append_finger`, for any slices.
pushes_lem :
    (n : ℕ) (switch reset : Bool) (a b c d e xs : List ℕ)
    → let front = optional switch a in
      let unit = optional reset d in
      length xs + (length front + (length b + (length c + (length unit + length e)))) ≤ n
      → (push_if switch a (holding n xs) >>= λ buf₁. push_slice b buf₁ >>= λ buf₂.
          push_slice c buf₂ >>= λ buf₃. push_if reset d buf₃ >>= λ buf₄. push_slice e buf₄)
        ≡ some (holding n (xs ++ (front ++ (b ++ (c ++ (unit ++ e))))))
pushes_lem n switch reset a b c d e xs h =
    let front = optional switch a in
    let unit = optional reset d in
    let xs₁ = xs ++ front in
    let xs₂ = xs₁ ++ b in
    let xs₃ = xs₂ ++ c in
    let xs₄ = xs₃ ++ unit in
    let l₁ = length-append xs front in
    let l₂ = length-append xs₁ b in
    let l₃ = length-append xs₂ c in
    let l₄ = length-append xs₃ unit in
    rw
      (
        push_optional n switch a xs (omega arith),
        push_slice_lem n b xs₁ (omega arith),
        push_slice_lem n c xs₂ (omega arith),
        push_optional n reset d xs₃ (omega arith),
        push_slice_lem n e xs₄ (omega arith),
        append_assoc xs₃ unit e,
        append_assoc xs₂ c (unit ++ e),
        append_assoc xs₁ b (c ++ (unit ++ e)),
        append_assoc xs front (b ++ (c ++ (unit ++ e))),
      )
      refl

length-finger_bytes :
    (tags : HidTags) (switch reset : Bool)
    → length (finger_bytes tags switch reset)
      ≡ length (optional switch (finger_page_switch tags))
        + (length (finger_prefix tags)
            + (length (finger_spatial_fields tags)
                + (length (optional reset (finger_unit_reset tags)) + 1)))
length-finger_bytes tags true true = refl
length-finger_bytes tags true false = refl
length-finger_bytes tags false true = refl
length-finger_bytes tags false false = refl

append_finger_lem :
    (n : ℕ) (tags : HidTags) (switch reset : Bool) (xs : List ℕ)
    → length xs + length (finger_bytes tags switch reset) ≤ n
    → append_finger tags switch reset (holding n xs)
      ≡ some (holding n (xs ++ finger_bytes tags switch reset))
unfolding append_finger
append_finger_lem n tags switch reset xs h =
    pushes_lem n switch reset (finger_page_switch tags) (finger_prefix tags)
      (finger_spatial_fields tags) (finger_unit_reset tags) (tags.end_collection ∷ []) xs
      (subst (λ l. length xs + l ≤ n) (length-finger_bytes tags switch reset) h)

-- All bytes of the touchpad's part.
abbrev pub ptp_bytes : HidTags → List ℕ
ptp_bytes tags =
    ptp_header tags
    ++ (finger_bytes tags false true
        ++ (finger_bytes tags true true
            ++ (finger_bytes tags true false
                ++ (finger_bytes tags true true
                    ++ (finger_bytes tags true false ++ ptp_suffix tags)))))

length-ptp_bytes : (tags : HidTags) → length (ptp_bytes tags) ≡ ptp_descriptor_len tags
length-ptp_bytes tags = refl

pad_full : (n : ℕ) (xs : List ℕ) → length xs ≡ n → pad n 0 xs ≡ xs
pad_full n xs h = let none_left : n - length xs ≡ 0 = omega arith in rw none_left (append-nil xs)

-- A call that appends the bytes `f`, where there is room.
abbrev Appends : ℕ → (Buffer → Option Buffer) → List ℕ → Type 0
Appends n g f =
    (xs : List ℕ) → length xs + length f ≤ n → g (holding n xs) ≡ some (holding n (xs ++ f))

-- The calls of `build_ptp_descriptor`, for any slices and fingers.
fingers_lem :
    (n : ℕ) (header suffix f₁ f₂ f₃ : List ℕ) (g₁ g₂ g₃ : Buffer → Option Buffer)
    → Appends n g₁ f₁
    → Appends n g₂ f₂
    → Appends n g₃ f₃
    → let all = header ++ (f₁ ++ (f₂ ++ (f₃ ++ (f₂ ++ (f₃ ++ suffix))))) in
      length all ≡ n
      → (push_slice header (holding n []) >>= λ buf₁. g₁ buf₁ >>= λ buf₂. g₂ buf₂ >>= λ buf₃.
          g₃ buf₃ >>= λ buf₄. g₂ buf₄ >>= λ buf₅.
          g₃ buf₅ >>= λ buf₆. push_slice suffix buf₆ >>= λ buf₇. some buf₇.bytes)
        ≡ some all
fingers_lem n header suffix f₁ f₂ f₃ g₁ g₂ g₃ h₁ h₂ h₃ full =
    let rest₅ = f₃ ++ suffix in
    let rest₄ = f₂ ++ rest₅ in
    let rest₃ = f₃ ++ rest₄ in
    let rest₂ = f₂ ++ rest₃ in
    let xs₁ = header ++ f₁ in
    let xs₂ = xs₁ ++ f₂ in
    let xs₃ = xs₂ ++ f₃ in
    let xs₄ = xs₃ ++ f₂ in
    let xs₅ = xs₄ ++ f₃ in
    let l₁ = length-append header f₁ in
    let l₂ = length-append xs₁ f₂ in
    let l₃ = length-append xs₂ f₃ in
    let l₄ = length-append xs₃ f₂ in
    let l₅ = length-append xs₄ f₃ in
    let r₅ = length-append f₃ suffix in
    let r₄ = length-append f₂ rest₅ in
    let r₃ = length-append f₃ rest₄ in
    let r₂ = length-append f₂ rest₃ in
    let r₁ = length-append f₁ rest₂ in
    let r₀ = length-append header (f₁ ++ rest₂) in
    rw
      (
        push_slice_lem n header [] (omega arith),
        h₁ header (omega arith),
        h₂ xs₁ (omega arith),
        h₃ xs₂ (omega arith),
        h₂ xs₃ (omega arith),
        h₃ xs₄ (omega arith),
        push_slice_lem n suffix xs₅ (omega arith),
        append_assoc xs₄ f₃ suffix,
        append_assoc xs₃ f₂ rest₅,
        append_assoc xs₂ f₃ rest₄,
        append_assoc xs₁ f₂ rest₃,
        append_assoc header f₁ rest₂,
      )
      (ap some (pad_full n (header ++ (f₁ ++ rest₂)) full))

-- Building the touchpad's part writes in range, and fills the array exactly, whatever the tags are:
-- the result is the header, five fingers of which all but the first have a page switch and the
-- first, second and fourth a unit reset, and the suffix.
pub build_ptp_descriptor_lem : (tags : HidTags) → build_ptp_descriptor tags ≡ some (ptp_bytes tags)
unfolding build_ptp_descriptor
build_ptp_descriptor_lem tags =
    let n = ptp_descriptor_len tags in
    fingers_lem n (ptp_header tags) (ptp_suffix tags) (finger_bytes tags false true)
      (finger_bytes tags true true) (finger_bytes tags true false) (append_finger tags false true)
      (append_finger tags true true) (append_finger tags true false)
      (append_finger_lem n tags false true) (append_finger_lem n tags true true)
      (append_finger_lem n tags true false) (length-ptp_bytes tags)
