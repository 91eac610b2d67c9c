-- ===== src/Host/Debug/Commands.antt =====
-- What the commands of host/src/debug.rs send.
use esp32_universal_control.Base.{
  ℕ, zero, suc, ◌+◌, ◌*◌, ◌≤◌, ◌<◌, ◌≡◌, refl, ap, ◌∙◌, Bool, false, Option, none, some, inl, inr,
  List, [], ◌∷◌, ◌++◌, any, length, leb, ltb, ◌==◌, ◌||◌, not, ◌>>=◌, u8, Bool-cases, All,
  All-append, arith, replicate,
}
use esp32_universal_control.Protocol.Input.{
  TouchContact, default_touch_contact, default_touch_frame, max_keys, max_touch_contacts,
}
use esp32_universal_control.Protocol.Wire.{
  HostMsg, hello, select_peer, keyboard_state, consumer_state, touch_frame, max_peers,
}
use esp32_universal_control.Host.Keymap.Table.{key_usage_maximum}
use esp32_universal_control.Host.Slots.{max_slots}
use esp32_universal_control.Host.Debug.{
  Word, parse_usize, second, sweep_frame, sweep_from, touch_sweep, sweep_rounds, random_key,
  select_slot, Cmd, command_sends, sweep, key, list_slots, select, go_local, quit, nothing, unknown,
  Command, on_cmd,
}

abbrev pub IsNear : TouchContact → Type 0
IsNear c = (c.x ≤ 15000) × (c.y ≤ 6000)

-- Keys that the report descriptor has, peers that there can be, and frames of one contact at most,
-- at x up to 15000 and y up to 6000.
abbrev pub IsBounded : HostMsg → Type 0
IsBounded (hello version) = ⊥
IsBounded (select_peer none) = Unit {0}
IsBounded (select_peer (some slot)) = slot < max_peers
IsBounded (keyboard_state k) =
    (length k.keys ≡ max_keys) × All (λ code. code ≤ key_usage_maximum) k.keys
IsBounded (consumer_state bits) = ⊥
IsBounded (touch_frame f) =
    (length f.contacts ≡ max_touch_contacts) × (f.contact_count ≤ 1) × All IsNear f.contacts

-- Whether keys are held, and whether a finger is down, after some messages.
abbrev pub keys_held : Bool → List HostMsg → Bool
keys_held held [] = held
keys_held held (keyboard_state k ∷ msgs) =
    keys_held (any (λ code. not (code == 0)) k.keys || not (k.modifiers == 0)) msgs
keys_held held (hello version ∷ msgs) = keys_held held msgs
keys_held held (select_peer slot ∷ msgs) = keys_held held msgs
keys_held held (consumer_state bits ∷ msgs) = keys_held held msgs
keys_held held (touch_frame f ∷ msgs) = keys_held held msgs

abbrev pub fingers_down : Bool → List HostMsg → Bool
fingers_down down [] = down
fingers_down down (touch_frame f ∷ msgs) = fingers_down (leb 1 f.contact_count) msgs
fingers_down down (hello version ∷ msgs) = fingers_down down msgs
fingers_down down (select_peer slot ∷ msgs) = fingers_down down msgs
fingers_down down (consumer_state bits ∷ msgs) = fingers_down down msgs
fingers_down down (keyboard_state k ∷ msgs) = fingers_down down msgs

-- What a command sends is within the bounds, and leaves nothing held.
pub record IsHarmless (c : Command) : Type 0 where
  pub bounded : All IsBounded c.messages
  pub keys_up : keys_held false c.messages ≡ false
  pub fingers_up : fingers_down false c.messages ≡ false

pub keys_held-append :
    (xs ys : List HostMsg) (held : Bool)
    → keys_held held (xs ++ ys) ≡ keys_held (keys_held held xs) ys
keys_held-append [] ys held = refl
keys_held-append (keyboard_state k ∷ xs) ys held = keys_held-append xs ys _
keys_held-append (hello version ∷ xs) ys held = keys_held-append xs ys held
keys_held-append (select_peer slot ∷ xs) ys held = keys_held-append xs ys held
keys_held-append (consumer_state bits ∷ xs) ys held = keys_held-append xs ys held
keys_held-append (touch_frame f ∷ xs) ys held = keys_held-append xs ys held

pub fingers_down-append :
    (xs ys : List HostMsg) (down : Bool)
    → fingers_down down (xs ++ ys) ≡ fingers_down (fingers_down down xs) ys
fingers_down-append [] ys down = refl
fingers_down-append (touch_frame f ∷ xs) ys down = fingers_down-append xs ys _
fingers_down-append (hello version ∷ xs) ys down = fingers_down-append xs ys down
fingers_down-append (select_peer slot ∷ xs) ys down = fingers_down-append xs ys down
fingers_down-append (consumer_state bits ∷ xs) ys down = fingers_down-append xs ys down
fingers_down-append (keyboard_state k ∷ xs) ys down = fingers_down-append xs ys down

empty-IsNear : (n : ℕ) → All IsNear (replicate n default_touch_contact)
empty-IsNear zero = tt
empty-IsNear (suc n) = ((omega arith, omega arith), empty-IsNear n)

-- The sweep is through after enough rounds.
sweep_from_lem :
    (rounds x : ℕ)
    → 15000 < x + 200 * rounds
    → (msgs : List HostMsg) × (sweep_from rounds x ≡ some msgs)
      × All IsBounded msgs
      × (keys_held false msgs ≡ false)
unfolding sweep_from
sweep_from_lem zero x h =
    let past : leb x 15000 ≡ false = ground arith in ([], rw (sweep_from, past) refl, tt, refl)
sweep_from_lem (suc rounds) x h = elim (Bool-cases (leb x 15000)) [
  | inl more ↦
      let (msgs, e, fit, up) = sweep_from_lem rounds (x + 200) (omega arith) in
      let small : x ≤ 15000 = ground arith in
      (
        touch_frame (sweep_frame x) ∷ msgs,
        rw (sweep_from, more, e) refl,
        ((refl, omega arith, ((small, omega arith), empty-IsNear 4)), fit),
        up,
      )
  | inr past ↦ ([], rw (sweep_from, past) refl, tt, refl)
]

touch_sweep-IsHarmless :
    (key_counter : ℕ)
    → (c : Command) × ((touch_sweep >>= λ msgs. some (command_sends key_counter msgs)) ≡ some c)
      × IsHarmless c
unfolding touch_sweep
touch_sweep-IsHarmless key_counter =
    let (msgs, e, fit, up) = sweep_from_lem sweep_rounds 5000 (omega arith) in
    let last = touch_frame default_touch_frame ∷ [] in
    (
      command_sends key_counter (msgs ++ last),
      ap
          (λ o.
            (o >>= λ frames. some (frames ++ last)) >>= λ all. some (command_sends key_counter all))
          e,
      record {
        bounded = All-append IsBounded msgs last fit ((refl, omega arith, empty-IsNear 5), tt);
        keys_up = keys_held-append msgs last false ∙ up;
        fingers_up = fingers_down-append msgs last false;
      },
    )

random_key-IsHarmless :
    (key_counter next : ℕ) → IsHarmless (command_sends next (random_key key_counter))
random_key-IsHarmless key_counter next = record {
  bounded = (
    (
      refl,
      (omega arith, (omega arith, (omega arith, (omega arith, (omega arith, (omega arith, tt)))))),
    ),
    (
      (
        refl,
        (
          omega arith,
          (omega arith, (omega arith, (omega arith, (omega arith, (omega arith, tt))))),
        ),
      ),
      tt,
    ),
  );
  keys_up = refl;
  fingers_up = refl;
}

select_slot-IsHarmless :
    (key_counter : ℕ) (n : Option ℕ) → IsHarmless (command_sends key_counter (select_slot n))
select_slot-IsHarmless key_counter none = record { bounded = tt; keys_up = refl; fingers_up = refl }
select_slot-IsHarmless key_counter (some n) = elim (Bool-cases (ltb n max_slots)) [
  | inl inside ↦
      let fits : u8 n < max_peers = ground arith in
      rw inside (record { bounded = (fits, tt); keys_up = refl; fingers_up = refl })
  | inr outside ↦ rw outside (record { bounded = tt; keys_up = refl; fingers_up = refl })
]

-- Each command of the monitor comes to its end, and what it sends is within the bounds and leaves no
-- key held and no finger down. The touch sweep is through in 51 rounds.
pub on_cmd-IsHarmless :
    (key_counter : ℕ) (parts : List Word) (cmd : Cmd)
    → (c : Command) × (on_cmd key_counter parts cmd ≡ some c) × IsHarmless c
unfolding on_cmd
on_cmd-IsHarmless key_counter parts sweep = touch_sweep-IsHarmless key_counter
on_cmd-IsHarmless key_counter parts key = (_, refl, random_key-IsHarmless key_counter _)
on_cmd-IsHarmless key_counter parts list_slots =
    (_, refl, record { bounded = tt; keys_up = refl; fingers_up = refl })
on_cmd-IsHarmless key_counter parts select =
    (_, refl, select_slot-IsHarmless key_counter (second parts >>= parse_usize))
on_cmd-IsHarmless key_counter parts go_local =
    (_, refl, record { bounded = (tt, tt); keys_up = refl; fingers_up = refl })
on_cmd-IsHarmless key_counter parts quit =
    (_, refl, record { bounded = tt; keys_up = refl; fingers_up = refl })
on_cmd-IsHarmless key_counter parts nothing =
    (_, refl, record { bounded = tt; keys_up = refl; fingers_up = refl })
on_cmd-IsHarmless key_counter parts unknown =
    (_, refl, record { bounded = tt; keys_up = refl; fingers_up = refl })
