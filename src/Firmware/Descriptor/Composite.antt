-- ===== src/Firmware/Descriptor/Composite.antt =====
-- The whole report descriptor of firmware/src/hid_descriptor.rs is its two fragments in order.
use esp32_universal_control.Base.{
  ℕ, zero, suc, ◌+◌, ◌-◌, ◌≡◌, refl, sym, ap, subst, ◌∙◌, some, List, [], ◌∷◌, ◌++◌, replicate,
  length, get_elem?, set_elem?, ◌>>=◌, arith, length-append, append_assoc, append-nil,
  length-replicate,
}
use esp32_universal_control.Firmware.Descriptor.Tags.{HidTags}
use esp32_universal_control.Firmware.Descriptor.Keyboard.{HidItem, keyboard_consumer_items}
use esp32_universal_control.Firmware.Descriptor.{copy_loop, composite, composite_report_descriptor}
use esp32_universal_control.Firmware.Descriptor.Build.{build_ptp_descriptor_lem, ptp_bytes}

get_elem?-append : (xs ys : List ℕ) (y : ℕ) → get_elem? (xs ++ y ∷ ys) (length xs) ≡ some y
get_elem?-append [] ys y = refl
get_elem?-append (x ∷ xs) ys y = get_elem?-append xs ys y

set_elem?-append :
    (xs ys : List ℕ) (y v : ℕ) → set_elem? (xs ++ y ∷ ys) (length xs) v ≡ some (xs ++ v ∷ ys)
set_elem?-append [] ys y v = refl
set_elem?-append (x ∷ xs) ys y v = rw (set_elem?-append xs ys y v) refl

-- The loop from the index behind `front`, where `done` of the source is behind it.
copy_loop_lem :
    (rest done front behind tail : List ℕ) (i start : ℕ)
    → i ≡ length front
    → i ≡ start + length done
    → length behind ≡ length rest
    → copy_loop (length rest) i start (done ++ rest) (front ++ (behind ++ tail))
      ≡ some (front ++ (rest ++ tail))
unfolding copy_loop
copy_loop_lem [] done front [] tail i start at from same = refl
copy_loop_lem [] done front (b ∷ behind) tail i start at from same = absurd (omega arith)
copy_loop_lem (r ∷ rest) done front [] tail i start at from same = absurd (omega arith)
copy_loop_lem (r ∷ rest) done front (b ∷ behind) tail i start at from same =
    let index : i - start ≡ length done = omega arith in
    let read : get_elem? (done ++ r ∷ rest) (i - start) ≡ some r =
      rw index (get_elem?-append done rest r) in
    let write : set_elem? (front ++ b ∷ (behind ++ tail)) i r
        ≡ some (front ++ r ∷ (behind ++ tail)) =
      rw at (set_elem?-append front (behind ++ tail) b r) in
    let next =
      copy_loop_lem rest (done ++ r ∷ []) (front ++ r ∷ []) behind tail (i + 1) start
        (omega (arith, length-append front (r ∷ []))) (omega (arith, length-append done (r ∷ [])))
        (omega arith) in
    rw (copy_loop, read, write)
      (subst
        (λ ds.
          copy_loop (length rest) (i + 1) start ds (front ++ r ∷ (behind ++ tail))
          ≡ some (front ++ r ∷ (rest ++ tail)))
        (append_assoc done (r ∷ []) rest)
        (subst
          (λ fs.
            copy_loop (length rest) (i + 1) start ((done ++ r ∷ []) ++ rest) fs
            ≡ some (front ++ r ∷ (rest ++ tail)))
          (append_assoc front (r ∷ []) (behind ++ tail))
          (next ∙ ap some (append_assoc front (r ∷ []) (rest ++ tail)))))

replicate-add : (n m : ℕ) → replicate {A = ℕ} (n + m) 0 ≡ replicate n 0 ++ (replicate m 0 ++ [])
replicate-add zero m = let e : 0 + m ≡ m = omega arith in rw e (sym (append-nil (replicate m 0)))
replicate-add (suc n) m =
    let e : suc n + m ≡ suc (n + m) = omega arith in rw e (ap (◌∷◌ 0) (replicate-add n m))

-- For any two fragments the loops of the composite descriptor read and write in range, and
-- concatenate them.
pub composite_lem :
    (keyboard_consumer ptp : List ℕ)
    → composite keyboard_consumer ptp ≡ some (keyboard_consumer ++ ptp)
unfolding composite
composite_lem kb ptp =
    rw
      (
        replicate-add (length kb) (length ptp),
        copy_loop_lem kb [] [] (replicate (length kb) 0) (replicate (length ptp) 0 ++ []) 0 0 refl
            refl (length-replicate (length kb) 0),
        copy_loop_lem ptp [] kb (replicate (length ptp) 0) [] (length kb) (length kb) refl
            (omega arith) (length-replicate (length ptp) 0),
        append-nil ptp,
      )
      refl

-- The whole report descriptor is built without a read or a write out of range, whatever the tags
-- are and whatever bytes `hid!` makes of the keyboard's items: it is these bytes, then the header,
-- five fingers of which all but the first have a page switch and the first, second and fourth a
-- unit reset, and the suffix, with no byte to spare.
pub composite_report_descriptor_lem :
    (hid : List HidItem → List ℕ) (tags : HidTags)
    → composite_report_descriptor hid tags
      ≡ some (hid (keyboard_consumer_items tags) ++ ptp_bytes tags)
unfolding composite_report_descriptor
composite_report_descriptor_lem hid tags =
    let keyboard = hid (keyboard_consumer_items tags) in
    ap (λ o. o >>= λ ptp. composite keyboard ptp) (build_ptp_descriptor_lem tags)
    ∙ composite_lem keyboard (ptp_bytes tags)
