-- ===== src/Firmware/Session/Stream/Ghosts.antt =====
-- Whole runs of the session of firmware/src/session.rs and the peer that its reports reach.
use esp32_universal_control.Base.{
  ℕ, ◌+◌, ◌^◌, ◌≤◌, ◌<◌, ◌≡◌, refl, sym, ap, subst, ◌∙◌, Bool, true, false, none, some, inl, inr,
  Option-cases, append_assoc, append-nil, List, [], ◌∷◌, ◌++◌, arith, ◌>>=◌, All,
}
use esp32_universal_control.Protocol.Input.{TouchFrame, populated}
use esp32_universal_control.Protocol.Wire.{touch_frame}
use esp32_universal_control.Protocol.Ptp.Receiver.{touches}
use esp32_universal_control.Protocol.Ptp.Delivery.{AreDistinct}
use esp32_universal_control.Firmware.Ble.{BleStack}
use esp32_universal_control.Firmware.Session.{
  Outcome, Session, Effect, active_conn_handle, flush_touch_if_due, handle_host_msg,
}
use esp32_universal_control.Firmware.Session.Valid.{Returns}
use esp32_universal_control.Firmware.Session.Stream.{
  Action, from_host, flush_at, handle_action, handle_actions, receive_at, receive_at-append,
  IsSteady, InStep, Returns-bind, Returns-weaken,
}
use esp32_universal_control.Firmware.Session.Stream.Steps.{Flushed, flush-InStep, action-InStep}

-- The session and its peer stay in step. They are in step where the session is well-formed, the
-- peer's connection is the active one, the peer holds exactly the fingers to be down that the
-- encoder follows, each of which touches in the latest frame while no frame waits, that frame
-- repeats no identifier, and the next report is due 8 ms after some time at the latest. So it is again, with no panic, after any run
-- of host messages that select no peer and repeat no identifier in a frame, and of flushes up to
-- that time, below 2 ^ 63, on stacks that have the connection open and send.
pub handle_actions-InStep :
    (conn_handle latest : ℕ) (actions : List Action) (s : Session) (down : ℕ → Bool)
    → latest < 2 ^ 63
    → All (IsSteady conn_handle latest) actions
    → InStep conn_handle latest s down
    → Returns
        (handle_actions s actions)
        (λ s' effects. InStep conn_handle latest s' (receive_at conn_handle effects down))
unfolding handle_actions
handle_actions-InStep conn_handle latest [] s down small q i = i
handle_actions-InStep conn_handle latest (action ∷ actions) s down small (q, qs) i =
    Returns-bind _ _ (handle_action s action) _
      (action-InStep conn_handle latest action s down small q i)
      (λ s₁ sent i₁.
        Returns-bind _ _ (handle_actions s₁ actions) _
          (handle_actions-InStep conn_handle latest actions s₁ (receive_at conn_handle sent down)
            small qs i₁)
          (λ s₂ later i₂.
            subst (InStep conn_handle latest s₂)
              (sym (receive_at-append conn_handle sent later down)) i₂))

prefixed :
    (P : Session → List Effect → Type 0) (first : List Effect) (o : Outcome)
    → (Returns (o >>= λ q. some (q.0, first ++ q.1)) P
        → Returns o (λ s later. P s (first ++ later)))
      × (Returns o (λ s later. P s (first ++ later))
          → Returns (o >>= λ q. some (q.0, first ++ q.1)) P)
prefixed P first none = (λ p. p, λ p. p)
prefixed P first (some r) = (λ p. p, λ p. p)

append-Returns :
    (P Q : Session → List Effect → Type 0) (xs ys : List Action) (s : Session)
    → Returns (handle_actions s xs) P
    → ((s' : Session) (sent : List Effect)
        → P s' sent
        → Returns (handle_actions s' ys) (λ s'' later. Q s'' (sent ++ later)))
    → Returns (handle_actions s (xs ++ ys)) Q
unfolding handle_actions
append-Returns P Q [] ys s p f = f s [] p
append-Returns P Q (x ∷ xs) ys s p f = elim (Option-cases (handle_action s x)) [
  | inl stops ↦ absurd (subst (λ o. Returns (o >>= rest) P) stops p)
  | inr ((s₁, first), runs) ↦ rw runs (
      (prefixed Q first (handle_actions s₁ (xs ++ ys))).1 (
        append-Returns (λ s' sent. P s' (first ++ sent)) (λ s' sent. Q s' (first ++ sent)) xs ys s₁
          ((prefixed P first (handle_actions s₁ xs)).0 (subst (λ o. Returns (o >>= rest) P) runs p))
          (λ s' sent held.
            Returns-weaken _ _ (handle_actions s' ys) (f s' (first ++ sent) held)
              (λ s'' later. subst (Q s'') (append_assoc first sent later)))))
]
  where
    rest : Session × List Effect → Outcome
    rest r = handle_actions r.0 xs >>= λ q. some (q.0, r.1 ++ q.1)

-- A touch frame waits from then on.
stored :
    (now : ℕ) (s : Session) (frame : TouchFrame) (conn_handle : ℕ)
    → active_conn_handle s ≡ some (some conn_handle)
    → handle_host_msg now s (touch_frame frame)
      ≡ some (record s { latest_touch = frame; touch_dirty = true }, [])
unfolding handle_host_msg
stored now s frame conn_handle active = rw active refl

-- A frame and a flush whose time has come.
abbrev AtRest : ℕ → TouchFrame → (ℕ → Bool) → Session → List Effect → Type 0
AtRest conn_handle frame down s effects =
    (s.touch_dirty ≡ false)
    × ((id : ℕ) → receive_at conn_handle effects down id ≡ true → touches frame id ≡ true)

flushed-AtRest :
    (conn_handle latest now later : ℕ) (ble : BleStack) (frame : TouchFrame) (s : Session)
    (down : ℕ → Bool)
    → later < 2 ^ 63
    → latest + 8000 ≤ later
    → AreDistinct (populated frame)
    → IsSteady conn_handle later (flush_at later ble)
    → InStep conn_handle latest s down
    → Returns
        (handle_actions s (from_host now (touch_frame frame) ∷ flush_at later ble ∷ []))
        (AtRest conn_handle frame down)
unfolding handle_actions
flushed-AtRest conn_handle latest now later ble frame s down small due distinct q i =
    let s₁ : Session = record s { latest_touch = frame; touch_dirty = true } in
    let i₁ : InStep conn_handle later s₁ down = record {
      valid = record { four = i.valid.four; active = i.valid.active; encoder = i.valid.encoder };
      active = i.active;
      follows = i.follows;
      distinct = distinct;
      paced = omega (arith, i.paced);
      no_ghost = λ clean. absurd (cc);
    } in
    rw (stored now s frame conn_handle i.active) (
      Returns-bind (AtRest conn_handle frame down) _ _ _
        (Returns-bind (Flushed conn_handle later later s₁ down) _ (flush_touch_if_due ble later s₁)
          _ (flush-InStep conn_handle later later ble s₁ down small q i₁)
          (λ s' sent (i', same, clears). (
            clears (omega (arith, i.paced)),
            subst
                (λ es.
                  (id : ℕ) → receive_at conn_handle es down id ≡ true → touches frame id ≡ true)
                (sym (append-nil sent))
                (subst
                  (λ g. (id : ℕ) → receive_at conn_handle sent down id ≡ true → touches g id ≡ true)
                  same (i'.no_ghost (clears (omega (arith, i.paced))))),
          )))
        (λ s' sent rest. rest))

-- No ghost finger at the peer: from a session and a peer that are in step, the firmware runs any
-- host messages that select no peer and repeat no identifier in a frame, and any flushes up to some
-- time on stacks that have the active connection open and send. Then a touch frame that repeats no
-- identifier is stored, and flushed on such a stack, 8 ms or more after that time and below 2 ^ 63.
-- No handler panics, in the end no frame waits, and each finger that the peer holds to be down
-- touches in the stored frame.
pub flushed_frame_holds :
    (conn_handle latest now later : ℕ) (actions : List Action) (ble : BleStack) (frame : TouchFrame)
    (s : Session) (down : ℕ → Bool)
    → later < 2 ^ 63
    → latest + 8000 ≤ later
    → All (IsSteady conn_handle latest) actions
    → AreDistinct (populated frame)
    → IsSteady conn_handle later (flush_at later ble)
    → InStep conn_handle latest s down
    → Returns
        (handle_actions s (actions ++ from_host now (touch_frame frame) ∷ flush_at later ble ∷ []))
        (λ s' effects.
          (s'.touch_dirty ≡ false)
          × ((id : ℕ) → receive_at conn_handle effects down id ≡ true → touches frame id ≡ true))
flushed_frame_holds conn_handle latest now later actions ble frame s down small due qs distinct q
      i =
    append-Returns _ (AtRest conn_handle frame down) actions _ s
      (handle_actions-InStep conn_handle latest actions s down (omega arith) qs i)
      (λ s' sent held.
        Returns-weaken _ _
          (handle_actions s' (from_host now (touch_frame frame) ∷ flush_at later ble ∷ []))
          (flushed-AtRest conn_handle latest now later ble frame s'
            (receive_at conn_handle sent down) small due distinct q held)
          (λ s'' more (clean, shown). (
            clean,
            λ id there.
                shown id
                  (ap (λ d. d id) (sym (receive_at-append conn_handle sent more down)) ∙ there),
          )))
