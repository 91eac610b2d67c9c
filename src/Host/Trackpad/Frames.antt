-- ===== src/Host/Trackpad/Frames.antt =====
-- The frames of host/src/capture/trackpad.rs.
use esp32_universal_control.Base.{
  ℕ, zero, suc, ◌-◌, ◌%◌, ◌≤◌, ◌<◌, ◌≡◌, refl, subst, ap, ◌∙◌, Bool, true, false, Option, none,
  some, List, [], ◌∷◌, ◌++◌, take, length, pad, arith, leb, ◌==◌, ◌>>=◌, set_elem?-pad, length-pad,
  length-take, length-append, append_assoc, append-nil, Bool-cases, inl, inr, is_some, min,
  Option-cases,
}
use esp32_universal_control.Protocol.Input.{
  TouchContact, default_touch_contact, TouchFrame, max_touch_contacts, populated,
}
use esp32_universal_control.Protocol.Wire.{HostMsg, touch_frame}
use esp32_universal_control.Host.Trackpad.{
  MtTouch, Scaling, touching_state, contact_from, fill_contacts, build_touch_frame, send_frame,
  mt_callback,
}

-- The contacts and the button that a frame tells of; nothing where it has no contact.
abbrev pub view_of : List TouchContact → Bool → Option (List TouchContact × Bool)
view_of [] button = none
view_of (c ∷ cs) button = some (c ∷ cs, button)

-- What the last frame pushed tells.
abbrev pub view : Option TouchFrame → Option (List TouchContact × Bool)
view none = none
view (some frame) = view_of (populated frame) frame.button

-- The frame of the message, if one is pushed.
abbrev pub newer : Option TouchFrame → Option HostMsg → Option TouchFrame
newer last (some (touch_frame frame)) = some frame
newer last _ = last

module _ {F : Type 0} (scaling : Scaling F) where
  -- The touching contacts, in order.
  abbrev pub touching_contacts : List (MtTouch F) → List TouchContact
  touching_contacts [] = []
  touching_contacts (touch ∷ touches) = elim (touch.state == touching_state) [
    | true ↦ contact_from scaling touch ∷ touching_contacts touches
    | false ↦ touching_contacts touches
  ]

  abbrev pub first_contacts : List (MtTouch F) → List TouchContact
  first_contacts touches = take max_touch_contacts (touching_contacts touches)

  take_room-cons :
      (cs : List TouchContact) (c : TouchContact) (more : List TouchContact)
      → length cs < max_touch_contacts
      → take (max_touch_contacts - length cs) (c ∷ more)
        ≡ c ∷ take (max_touch_contacts - length (cs ++ c ∷ [])) more
  take_room-cons cs c more h =
      let one : max_touch_contacts - length cs ≡ suc (max_touch_contacts - length (cs ++ c ∷ [])) =
        omega (arith, length-append cs (c ∷ [])) in
      ap (λ n. take n (c ∷ more)) one

  take_full :
      (cs more : List TouchContact)
      → max_touch_contacts ≤ length cs
      → take (max_touch_contacts - length cs) more ≡ []
  take_full cs more h =
      let none_left : max_touch_contacts - length cs ≡ 0 = omega arith in
      ap (λ n. take n more) none_left ∙ nothing more
    where
      nothing : (xs : List TouchContact) → take 0 xs ≡ []
      nothing [] = refl
      nothing (x ∷ xs) = refl

  take_of_nil : (n : ℕ) → take {A = TouchContact} n [] ≡ []
  take_of_nil zero = refl
  take_of_nil (suc n) = refl

  fill_contacts_lem :
      (touches : List (MtTouch F)) (cs : List TouchContact)
      → length cs ≤ max_touch_contacts
      → let new = take (max_touch_contacts - length cs) (touching_contacts touches) in
        fill_contacts scaling touches (pad max_touch_contacts default_touch_contact cs) (length cs)
        ≡ some (pad max_touch_contacts default_touch_contact (cs ++ new), length (cs ++ new))
  unfolding fill_contacts
  fill_contacts_lem [] cs h = rw (take_of_nil (max_touch_contacts - length cs), append-nil cs)
  fill_contacts_lem (touch ∷ touches) cs h =
      let long = length-pad max_touch_contacts default_touch_contact cs h in
      elim (Bool-cases (leb max_touch_contacts (length cs))) [
        | inl full ↦ rw (
          fill_contacts,
          long,
          full,
          take_full cs (touching_contacts (touch ∷ touches)) (ground arith),
          append-nil cs,
        )
        | inr room ↦ elim (Bool-cases (touch.state == touching_state)) [
          | inr off ↦
              rw (fill_contacts, touching_contacts, long, room, off)
                (fill_contacts_lem touches cs h)
          | inl on ↦
              let c = contact_from scaling touch in
              let lt : length cs < max_touch_contacts = ground arith in
              ground (
                arith,
                long,
                set_elem?-pad max_touch_contacts default_touch_contact cs c (length cs) refl lt,
                fill_contacts_lem touches (cs ++ c ∷ []) (omega (arith, length-append cs (c ∷ []))),
                length-append cs (c ∷ []),
                take_room-cons cs c (touching_contacts touches) lt,
                append_assoc cs (c ∷ [])
                    (take (max_touch_contacts - length (cs ++ c ∷ [])) (touching_contacts touches)),
              )
        ]
      ]

  length-first_contacts-le :
      (touches : List (MtTouch F)) → length (first_contacts touches) ≤ max_touch_contacts
  length-first_contacts-le touches =
      omega (arith, length-take max_touch_contacts (touching_contacts touches))

  -- A frame holds the first five touching contacts, in order, then empty entries, with their count
  -- and the button; building it does not panic, however many touches there are.
  pub build_touch_frame_lem :
      (touches : List (MtTouch F)) (clicked : Bool)
      → build_touch_frame scaling touches clicked
        ≡ some (record {
          contacts = pad max_touch_contacts default_touch_contact (first_contacts touches);
          contact_count = length (first_contacts touches);
          button = clicked;
        })
  unfolding build_touch_frame
  build_touch_frame_lem touches clicked =
      let few = length-first_contacts-le touches in
      let small : length (first_contacts touches) % 256 ≡ length (first_contacts touches) =
        omega arith in
      rw (fill_contacts_lem touches [] (omega arith), small) refl

  -- A run of the callback while input is forwarded: HAD_CONTACTS and the last frame pushed.
  unfoldable pub callbacks :
      Bool → Option TouchFrame → List (List (MtTouch F) × Bool) → Option (Bool × Option TouchFrame)
  callbacks had_contacts last [] = some (had_contacts, last)
  callbacks had_contacts last ((touches, clicked) ∷ calls) =
      mt_callback scaling had_contacts true touches clicked >>= λ result.
      callbacks result.0 (newer last result.1) calls

  -- What the last callback sees: the first five touching contacts and the button, or nothing where
  -- no finger touches; what was seen before, where there is no callback.
  abbrev pub seen_at_end :
      Option (List TouchContact × Bool)
      → List (List (MtTouch F) × Bool)
      → Option (List TouchContact × Bool)
  seen_at_end before [] = before
  seen_at_end before ((touches, clicked) ∷ calls) =
      seen_at_end (view_of (first_contacts touches) clicked) calls

  abbrev frame_of : List TouchContact → Bool → TouchFrame
  frame_of cs clicked = record {
    contacts = pad max_touch_contacts default_touch_contact cs;
    contact_count = length cs;
    button = clicked;
  }

  take_whole : (cs more : List TouchContact) → take (length cs) (cs ++ more) ≡ cs
  take_whole [] more = refl
  take_whole (c ∷ cs) more = ap (λ xs. c ∷ xs) (take_whole cs more)

  populated-frame_of :
      (cs : List TouchContact) (clicked : Bool)
      → length cs ≤ max_touch_contacts
      → populated (frame_of cs clicked) ≡ cs
  populated-frame_of cs clicked h =
      let all_of : min (length cs) max_touch_contacts ≡ length cs = omega (arith, h) in
      ap (λ n. take n (pad max_touch_contacts default_touch_contact cs)) all_of ∙ take_whole cs _

  -- The run from here ends with the last frame pushed telling what the last callback sees.
  abbrev Agrees :
      Bool
      → Option TouchFrame
      → Option (List TouchContact × Bool)
      → List (List (MtTouch F) × Bool)
      → Type 0
  Agrees had last seen calls =
      (last' : Option TouchFrame) × (callbacks had last calls
        ≡ some (is_some (seen_at_end seen calls), last'))
      × (view last' ≡ seen_at_end seen calls)

  -- Where the frame is the last one pushed.
  pushed_last :
      (calls : List (List (MtTouch F) × Bool)) (cs : List TouchContact) (clicked : Bool)
      → ((l : Option TouchFrame) → Agrees (is_some (view l)) l (view l) calls)
      → length cs ≤ max_touch_contacts
      → Agrees
          (is_some (view_of cs clicked))
          (some (frame_of cs clicked))
          (view_of cs clicked)
          calls
  pushed_last calls cs clicked rest few =
      subst (λ seen. Agrees (is_some seen) (some (frame_of cs clicked)) seen calls)
        (ap (λ xs. view_of xs clicked) (populated-frame_of cs clicked few))
        (rest (some (frame_of cs clicked)))

  -- A frame is pushed if it has a contact, or if the last one pushed had.
  after_frame :
      (calls : List (List (MtTouch F) × Bool)) (last : Option TouchFrame) (cs : List TouchContact)
      (clicked : Bool)
      → ((l : Option TouchFrame) → Agrees (is_some (view l)) l (view l) calls)
      → length cs ≤ max_touch_contacts
      → let (had', msg) = send_frame (is_some (view last)) (frame_of cs clicked) in
        Agrees had' (newer last msg) (view_of cs clicked) calls
  after_frame calls last (c ∷ cs) clicked rest few =
      let some_contact : leb 1 (length (c ∷ cs)) ≡ true = ground arith in
      rw (send_frame, some_contact) (pushed_last calls (c ∷ cs) clicked rest few)
  after_frame calls last [] clicked rest few = elim (Option-cases (view last)) [
    | inl empty ↦
        rw (send_frame, empty)
          (subst (λ seen. Agrees (is_some seen) last seen calls) empty (rest last))
    | inr (seen, showing) ↦ rw (send_frame, showing) (pushed_last calls [] clicked rest few)
  ]

  -- While input is forwarded, the last frame pushed tells what the last callback saw. Any run of
  -- callbacks starts with HAD_CONTACTS telling whether the last frame pushed, if there is one, has a
  -- contact. Then no callback panics. If a contact touched at the last callback, the last frame
  -- pushed has exactly the first five that did, in order, and the button of that callback; if none
  -- did, the last frame pushed has no contact, or none has been pushed. HAD_CONTACTS tells in the
  -- end whether one did. With no callback all is as before.
  pub callbacks-Agrees :
      (last : Option TouchFrame) (calls : List (List (MtTouch F) × Bool))
      → (last' : Option TouchFrame) × (callbacks (is_some (view last)) last calls
          ≡ some (is_some (seen_at_end (view last) calls), last'))
        × (view last' ≡ seen_at_end (view last) calls)
  unfolding callbacks mt_callback
  callbacks-Agrees last [] = (last, refl, refl)
  callbacks-Agrees last ((touches, clicked) ∷ calls) = rw (build_touch_frame_lem touches clicked) (
      after_frame calls last (first_contacts touches) clicked (λ l. callbacks-Agrees l calls)
        (length-first_contacts-le touches))
