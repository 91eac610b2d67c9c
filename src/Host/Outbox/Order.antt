-- ===== src/Host/Outbox/Order.antt =====
-- What the serial writer gets from the outbox of host/src/capture/outbox.rs, for any order in which
-- the capture threads push and the writer receives.
use esp32_universal_control.Base.{
  ℕ, ◌≡◌, refl, sym, subst, ◌∙◌, Bool, true, false, Option, none, some, List, [], ◌∷◌, ◌++◌, arith,
  if◌then◌else◌, All, append_assoc, append-nil, Option-cases, inl, inr, memᴰ-append_left,
  memᴰ-append_right, All-append,
}
use mathlib.Core.List.{Memᴰ}
use esp32_universal_control.Protocol.Input.{TouchFrame}
use esp32_universal_control.Protocol.Wire.{
  HostMsg, hello, select_peer, keyboard_state, consumer_state, touch_frame,
}
use esp32_universal_control.Host.Outbox.{Outbox, new_outbox, push, recv, recv_from, take_touch}

-- A push by a capture thread, or a call of `recv` that does not wait.
pub data Op : Type 0 where
  pushed : HostMsg → Op
  received : Op

-- The outbox after the calls, and the messages received. A `recv` that would wait is not a step.
unfoldable pub run : Outbox → List Op → Outbox × List HostMsg
run box [] = (box, [])
run box (pushed msg ∷ ops) = run (push box msg) ops
run box (received ∷ ops) =
    let waits = run box ops in
    elim (recv box) [
      | none ↦ waits
      | some (msg, box') ↦ let (last, msgs) = run box' ops in (last, msg ∷ msgs)
    ]

abbrev pub is_touch : HostMsg → Bool
is_touch (touch_frame frame) = true
is_touch (hello version) = false
is_touch (select_peer slot) = false
is_touch (keyboard_state keys) = false
is_touch (consumer_state bits) = false

-- The messages that are no touch frames.
abbrev pub controls : List HostMsg → List HostMsg
controls [] = []
controls (msg ∷ msgs) = if is_touch msg then controls msgs else msg ∷ controls msgs

abbrev pub pushes : List Op → List HostMsg
pushes [] = []
pushes (pushed msg ∷ ops) = msg ∷ pushes ops
pushes (received ∷ ops) = pushes ops

controls-append : (xs ys : List HostMsg) → controls (xs ++ ys) ≡ controls xs ++ controls ys
controls-append [] ys = refl
controls-append (x ∷ xs) ys = ground (arith, controls-append xs ys)

-- What the queue holds are control messages.
abbrev pub IsOutbox : Outbox → Type 0
IsOutbox box = controls box.control ≡ box.control

push-controls :
    (box : Outbox) (msg : HostMsg) → (push box msg).control ≡ box.control ++ controls (msg ∷ [])
unfolding push
push-controls box (touch_frame frame) = sym (append-nil box.control)
push-controls box (hello version) = refl
push-controls box (select_peer slot) = refl
push-controls box (keyboard_state keys) = refl
push-controls box (consumer_state bits) = refl

recv-controls :
    (box box' : Outbox) (msg : HostMsg)
    → recv box ≡ some (msg, box')
    → controls (msg ∷ box'.control) ≡ controls box.control
unfolding recv
recv-controls box box' msg e = ground arith

-- Control messages are neither lost, nor repeated, nor reordered: those received, then those still
-- queued, are those queued at first, then those pushed.
pub run-controls :
    (box : Outbox) (ops : List Op)
    → let (last, msgs) = run box ops in
      controls msgs ++ controls last.control ≡ controls box.control ++ controls (pushes ops)
unfolding run
run-controls box [] = sym (append-nil (controls box.control))
run-controls box (pushed msg ∷ ops) =
    run-controls (push box msg) ops
    ∙ rw (push-controls box msg, controls-append box.control (controls (msg ∷ [])))
        (ground (
          arith,
          append_assoc (controls box.control) (controls (msg ∷ [])) (controls (pushes ops)),
        ))
run-controls box (received ∷ ops) = elim (Option-cases (recv box)) [
  | inl waits ↦ rw (waits, run) (run-controls box ops)
  | inr ((msg, box'), e) ↦
      rw (e, run) (ground (arith, run-controls box' ops, recv-controls box box' msg e))
]

-- A touch frame among `frames`, or no touch frame at all.
abbrev pub IsAmong : List HostMsg → HostMsg → Type 0
IsAmong frames msg = is_touch msg ≡ true → Memᴰ msg frames

abbrev IsLatestAmong : List HostMsg → Option TouchFrame → Type 0
IsLatestAmong frames none = Unit {0}
IsLatestAmong frames (some frame) = Memᴰ (touch_frame frame) frames

abbrev pub NoTouch : List HostMsg → Type 0
NoTouch = All (λ msg. is_touch msg ≡ false)

push-NoTouch : (box : Outbox) (msg : HostMsg) → NoTouch box.control → NoTouch (push box msg).control
unfolding push
push-NoTouch box (touch_frame frame) h = h
push-NoTouch box (hello version) h = All-append _ box.control (hello version ∷ []) h (refl, tt)
push-NoTouch box (select_peer slot) h =
    All-append _ box.control (select_peer slot ∷ []) h (refl, tt)
push-NoTouch box (keyboard_state keys) h =
    All-append _ box.control (keyboard_state keys ∷ []) h (refl, tt)
push-NoTouch box (consumer_state bits) h =
    All-append _ box.control (consumer_state bits ∷ []) h (refl, tt)

IsLatestAmong-mono :
    (frames more : List HostMsg) (latest : Option TouchFrame)
    → IsLatestAmong frames latest
    → IsLatestAmong (frames ++ more) latest
IsLatestAmong-mono frames more none h = tt
IsLatestAmong-mono frames more (some frame) h = memᴰ-append_left more h

push-latest :
    (frames : List HostMsg) (box : Outbox) (msg : HostMsg)
    → IsLatestAmong frames box.latest_touch
    → IsLatestAmong (frames ++ msg ∷ []) (push box msg).latest_touch
unfolding push
push-latest frames box (touch_frame frame) h = memᴰ-append_right frames (Memᴰ.head refl)
push-latest frames box (select_peer slot) h = tt
push-latest frames box (hello version) h =
    IsLatestAmong-mono frames (hello version ∷ []) box.latest_touch h
push-latest frames box (keyboard_state keys) h =
    IsLatestAmong-mono frames (keyboard_state keys ∷ []) box.latest_touch h
push-latest frames box (consumer_state bits) h =
    IsLatestAmong-mono frames (consumer_state bits ∷ []) box.latest_touch h

recv_from-IsAmong :
    (frames control : List HostMsg) (latest : Option TouchFrame) (msg : HostMsg) (box' : Outbox)
    → NoTouch control
    → IsLatestAmong frames latest
    → recv_from control latest ≡ some (msg, box')
    → IsAmong frames msg × NoTouch box'.control × IsLatestAmong frames box'.latest_touch
unfolding recv_from take_touch
recv_from-IsAmong frames [] none msg box' n l e = absurd (cc)
recv_from-IsAmong frames [] (some frame) msg box' n l e =
    let same : touch_frame frame ≡ msg = ground arith in
    let rest : new_outbox ≡ box' = ground arith in
    ((λ _. subst (λ m. Memᴰ m frames) same l), rw (← rest) tt, rw (← rest) tt)
recv_from-IsAmong frames (c ∷ control) latest msg box' n l e = ground arith

run-IsAmong :
    (frames : List HostMsg) (box : Outbox) (ops : List Op)
    → NoTouch box.control
    → IsLatestAmong frames box.latest_touch
    → All (IsAmong (frames ++ pushes ops)) (run box ops).1
unfolding run
run-IsAmong frames box [] n l = tt
run-IsAmong frames box (pushed msg ∷ ops) n l =
    subst (λ fs. All (IsAmong fs) (run (push box msg) ops).1)
      (append_assoc frames (msg ∷ []) (pushes ops))
      (run-IsAmong (frames ++ msg ∷ []) (push box msg) ops (push-NoTouch box msg n)
        (push-latest frames box msg l))
run-IsAmong frames box (received ∷ ops) n l = elim (Option-cases (recv box)) [
  | inl waits ↦ rw (waits, run) (run-IsAmong frames box ops n l)
  | inr ((msg, box'), e) ↦
      let (among, n', l') =
        recv_from-IsAmong frames box.control box.latest_touch msg box' n l (unfold recv in e) in
      rw (e, run)
        ((λ touch. memᴰ-append_left (pushes ops) (among touch)), run-IsAmong frames box' ops n' l')
]

received_among :
    (frames msgs : List HostMsg) (frame : TouchFrame)
    → All (IsAmong frames) msgs
    → Memᴰ (touch_frame frame) msgs
    → Memᴰ (touch_frame frame) frames
received_among frames [] frame a m = elim m [ ]
received_among frames (msg ∷ msgs) frame a (Memᴰ.head e) =
    subst (λ n. Memᴰ n frames) (sym e) (a.0 (subst (λ n. is_touch n ≡ true) e refl))
received_among frames (msg ∷ msgs) frame a (Memᴰ.tail m) = received_among frames msgs frame a.1 m

-- No stale touch frame reaches a newly selected target: after a selection is pushed on an outbox
-- whose queue has no touch frame, each touch frame received was pushed after the selection, in any
-- order of later pushes and receipts.
pub no_stale_touch :
    (box : Outbox) (slot : Option ℕ) (ops : List Op) (frame : TouchFrame)
    → NoTouch box.control
    → Memᴰ (touch_frame frame) (run (push box (select_peer slot)) ops).1
    → Memᴰ (touch_frame frame) (pushes ops)
unfolding push
no_stale_touch box slot ops frame n m =
    received_among (pushes ops) (run (push box (select_peer slot)) ops).1 frame
      (run-IsAmong [] (push box (select_peer slot)) ops (push-NoTouch box (select_peer slot) n) tt)
      m
