-- ===== src/Host/Debug.antt =====
-- host/src/debug.rs: the interactive monitor. What it prints is left out; the words of a line are
-- given as lists of characters.
pub mod Commands
pub mod Runs
mod Tests
use esp32_universal_control.Base.{
  ℕ, zero, suc, ◌+◌, ◌-◌, ◌*◌, ◌%◌, ◌^◌, Bool, true, false, Option, none, some, List, [], ◌∷◌, ◌++◌,
  replicate, take, length, leb, ltb, ◌==◌, ◌&&◌, if◌then◌else◌, ◌>>=◌, u8,
}
use esp32_universal_control.Protocol.Input.{
  KeyboardSnapshot, TouchContact, TouchFrame, default_keyboard_snapshot, default_touch_contact,
  default_touch_frame,
}
use esp32_universal_control.Protocol.Wire.{
  FirmwareMsg, HostMsg, select_peer, keyboard_state, touch_frame,
}
use esp32_universal_control.Host.Slots.{SlotTable, max_slots}
use esp32_universal_control.Host.Events.{handle_fw_event}

abbrev pub Word : Type 0
Word = List ℕ

abbrev pub hid_key_a : ℕ
hid_key_a = 4

-- `parse::<usize>`: digits, after an optional `+`, of a number of 64 bits.
abbrev pub decimal : ℕ → Word → Option ℕ
decimal number [] = some number
decimal number (digit ∷ digits) =
    let next = number * 10 + (digit - 48) in
    elim (leb 48 digit && leb digit 57 && ltb next (2 ^ 64)) [
      | true ↦ decimal next digits
      | false ↦ none
    ]

abbrev pub digits_of : Word → Option ℕ
digits_of [] = none
digits_of (digit ∷ digits) = decimal 0 (digit ∷ digits)

abbrev pub parse_usize : Word → Option ℕ
parse_usize [] = none
parse_usize (first ∷ rest) = elim (first == 43) [
  | true ↦ digits_of rest
  | false ↦ digits_of (first ∷ rest)
]

-- The frame of one step of the touch sweep.
abbrev pub sweep_frame : ℕ → TouchFrame
sweep_frame x = record {
  contacts =
      record { contact_id = 1; x = x; y = 6000; touching = true; confident = true }
      ∷ replicate 4 default_touch_contact;
  contact_count = 1;
  button = false;
}

-- `while x <= 15_000`, with at most so many rounds; `none` where they are not enough.
unfoldable pub sweep_from : (rounds : ℕ) (x : ℕ) → Option (List HostMsg)
sweep_from zero x = elim (leb x 15000) [ true ↦ none | false ↦ some [] ]
sweep_from (suc rounds) x = elim (leb x 15000) [
  | true ↦ sweep_from rounds (x + 200) >>= λ more. some (touch_frame (sweep_frame x) ∷ more)
  | false ↦ some []
]

abbrev pub sweep_rounds : ℕ
sweep_rounds = 51

unfoldable pub touch_sweep : Option (List HostMsg)
unfolding sweep_from
touch_sweep =
    sweep_from sweep_rounds 5000 >>= λ frames. some (frames ++ touch_frame default_touch_frame ∷ [])

abbrev pub random_key : ℕ → List HostMsg
random_key key_counter =
    keyboard_state (record { modifiers = 0; keys = (hid_key_a + key_counter % 26) ∷ replicate 5 0 })
    ∷ keyboard_state default_keyboard_snapshot
    ∷ []

-- The command `s`, by the word behind it.
abbrev pub select_slot : Option ℕ → List HostMsg
select_slot none = []
select_slot (some n) = if ltb n max_slots then select_peer (some (u8 n)) ∷ [] else []

abbrev pub second : List Word → Option Word
second [] = none
second (cmd ∷ []) = none
second (cmd ∷ word ∷ words) = some word

-- `cmd`, the first word.
pub data Cmd : Type 0 where
  sweep key list_slots select go_local quit nothing unknown : Cmd

abbrev pub letter_cmd : ℕ → Cmd
letter_cmd letter =
    if letter == 116
    then sweep
    else (if letter == 107
        then key
        else (if letter == 108
            then list_slots
            else (if letter == 115
                then select
                else (if letter == 109
                    then go_local
                    else (if letter == 113 then quit else unknown)))))

abbrev pub cmd_of : List Word → Cmd
cmd_of [] = nothing
cmd_of ([] ∷ words) = nothing
cmd_of ((letter ∷ []) ∷ words) = letter_cmd letter
cmd_of ((letter ∷ next ∷ more) ∷ words) = unknown

-- What a command sends, with the key counter after it, and whether it leaves the loop.
pub record Command : Type 0 where
  pub messages : List HostMsg
  pub key_counter : ℕ
  pub quits : Bool

abbrev pub command_sends : ℕ → List HostMsg → Command
command_sends key_counter messages = record {
  messages = messages;
  key_counter = key_counter;
  quits = false;
}

-- `match cmd`.
unfoldable pub on_cmd : ℕ → List Word → Cmd → Option Command
unfolding touch_sweep
on_cmd key_counter parts sweep =
    touch_sweep >>= λ messages. some (command_sends key_counter messages)
on_cmd key_counter parts key =
    some (command_sends ((key_counter + 1) % 2 ^ 8) (random_key key_counter))
on_cmd key_counter parts list_slots = some (command_sends key_counter [])
on_cmd key_counter parts select =
    some (command_sends key_counter (select_slot (second parts >>= parse_usize)))
on_cmd key_counter parts go_local = some (command_sends key_counter (select_peer none ∷ []))
on_cmd key_counter parts quit =
    some (record { messages = []; key_counter = key_counter; quits = true })
on_cmd key_counter parts nothing = some (command_sends key_counter [])
on_cmd key_counter parts unknown = some (command_sends key_counter [])

-- `while let Ok(msg) = fw_rx.try_recv()`.
abbrev pub drain_messages : SlotTable → List FirmwareMsg → SlotTable
drain_messages slots [] = slots
drain_messages slots (msg ∷ msgs) = drain_messages (handle_fw_event msg slots) msgs

pub record Monitor : Type 0 where
  pub slots : SlotTable
  pub key_counter : ℕ

-- What `read_line` gives: the words of a line, nothing at the end of the input, or an error.
pub data Line : Type 0 where
  words : List Word → Line
  end_of_input line_error : Line

-- One turn of the loop: the messages that waited, whether the prompt is flushed, and the line.
pub record Turn : Type 0 where
  pub received : List FirmwareMsg
  pub flushed : Bool
  pub line : Line

-- How `run` ends: by the command `q`, at the end of the input, or by an error of the flush, of the
-- read or of a write; `open_ended` where the turns that are given run out.
pub data RunEnd : Type 0 where
  left_by_command input_ended not_flushed not_read not_written open_ended : RunEnd

abbrev pub after_messages : List HostMsg → List HostMsg × RunEnd → List HostMsg × RunEnd
after_messages messages (more, ended) = (messages ++ more, ended)

-- The loop of `run`: the messages that are written, and how it ends. `writes` is how many more can
-- be before a write fails.
unfoldable pub run : (writes : ℕ) → Monitor → List Turn → Option (List HostMsg × RunEnd)
unfolding on_cmd
run writes m [] = some ([], open_ended)
run writes m (turn ∷ turns) = elim turn.flushed [
  | false ↦ some ([], not_flushed)
  | true ↦ elim turn.line [
    | end_of_input ↦ some ([], input_ended)
    | line_error ↦ some ([], not_read)
    | words parts ↦ on_cmd m.key_counter parts (cmd_of parts) >>= λ c.
        elim (leb (length c.messages) writes) [
          | false ↦ some (take writes c.messages, not_written)
          | true ↦ elim c.quits [
            | true ↦ some (c.messages, left_by_command)
            | false ↦
                run (writes - length c.messages)
                  (record {
                    slots = drain_messages m.slots turn.received;
                    key_counter = c.key_counter;
                  })
                  turns
                >>= λ more. some (after_messages c.messages more)
          ]
        ]
  ]
]
