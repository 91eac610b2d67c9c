-- ===== src/Host/Cursor/Balance.antt =====
-- What the cursor controller of host/src/capture/cursor.rs does over a whole session.
use esp32_universal_control.Base.{
  ℕ, suc, ◌+◌, ◌≡◌, refl, Bool, true, false, Option, some, List, [], ◌∷◌, ◌++◌, arith,
  if◌then◌else◌, All,
}
use esp32_universal_control.Host.Cursor.{
  CursorSession, CursorCommand, hide_mac_cursor, warp_cursor_position, show_mac_cursor,
  default_cursor, sync_forwarding,
}

module _ {P : Type 0} where
  -- A run of `sync_forwarding` calls, each with its flag and the position at that time.
  unfoldable pub sync_all :
      CursorSession P → List (Bool × Option P) → CursorSession P × List (CursorCommand P)
  sync_all s [] = (s, [])
  sync_all s ((next, current) ∷ calls) =
      let (s', commands) = sync_forwarding s next current in
      let (s'', more) = sync_all s' calls in (s'', commands ++ more)

  abbrev pub hides : List (CursorCommand P) → ℕ
  hides [] = 0
  hides (hide_mac_cursor ∷ cs) = suc (hides cs)
  hides (warp_cursor_position p ∷ cs) = hides cs
  hides (show_mac_cursor ∷ cs) = hides cs

  abbrev pub shows : List (CursorCommand P) → ℕ
  shows [] = 0
  shows (hide_mac_cursor ∷ cs) = shows cs
  shows (warp_cursor_position p ∷ cs) = shows cs
  shows (show_mac_cursor ∷ cs) = suc (shows cs)

  abbrev pub level : CursorSession P → ℕ
  level s = if s.forwarding then 1 else 0

  hides-append : (xs ys : List (CursorCommand P)) → hides (xs ++ ys) ≡ hides xs + hides ys
  hides-append [] ys = omega arith
  hides-append (hide_mac_cursor ∷ xs) ys = omega (arith, hides-append xs ys)
  hides-append (warp_cursor_position p ∷ xs) ys = hides-append xs ys
  hides-append (show_mac_cursor ∷ xs) ys = hides-append xs ys

  shows-append : (xs ys : List (CursorCommand P)) → shows (xs ++ ys) ≡ shows xs + shows ys
  shows-append [] ys = omega arith
  shows-append (hide_mac_cursor ∷ xs) ys = shows-append xs ys
  shows-append (warp_cursor_position p ∷ xs) ys = shows-append xs ys
  shows-append (show_mac_cursor ∷ xs) ys = omega (arith, shows-append xs ys)

  sync_forwarding-balance :
      (s : CursorSession P) (next : Bool) (current : Option P)
      → let (s', commands) = sync_forwarding s next current in
        level s + hides commands ≡ level s' + shows commands
  unfolding sync_forwarding
  sync_forwarding-balance s next current = ground arith

  -- Over any run of syncs, the calls that hide the cursor, and one more if input was forwarded
  -- at the start, are as many as the calls that show it, and one more if input is forwarded at
  -- the end.
  pub sync_all-balance :
      (s : CursorSession P) (calls : List (Bool × Option P))
      → let (s', commands) = sync_all s calls in
        level s + hides commands ≡ level s' + shows commands
  unfolding sync_all
  sync_all-balance s [] = refl
  sync_all-balance s ((next, current) ∷ calls) =
      let (s', commands) = sync_forwarding s next current in
      let (s'', more) = sync_all s' calls in
      omega (
        arith,
        sync_forwarding-balance s next current,
        sync_all-balance s' calls,
        hides-append commands more,
        shows-append commands more,
      )

  leaving :
      (point : P) (switches : List (Bool × Option P)) (last : Option P)
      → All (λ call. call.0 ≡ true) switches
      → sync_all
          (record { forwarding = true; restore_point = some point })
          (switches ++ (false, last) ∷ [])
        ≡ (default_cursor, warp_cursor_position point ∷ show_mac_cursor ∷ [])
  unfolding sync_all sync_forwarding
  leaving point [] last h = refl
  leaving point ((true, current) ∷ calls) last h = ground (arith, leaving point calls last h.1)
  leaving point ((false, current) ∷ calls) last h = absurd (cc)

  -- A session that enters forwarding with the cursor at `point`, is synced as forwarding any
  -- number of times, and returns, hides the cursor, puts it back to `point` and shows it, does
  -- nothing else, and has forgotten the point.
  pub returns_to_entry_point :
      (point : P) (switches : List (Bool × Option P)) (last : Option P)
      → All (λ call. call.0 ≡ true) switches
      → sync_all default_cursor ((true, some point) ∷ (switches ++ (false, last) ∷ []))
        ≡ (default_cursor, hide_mac_cursor ∷ warp_cursor_position point ∷ show_mac_cursor ∷ [])
  unfolding sync_all sync_forwarding
  returns_to_entry_point point switches last h = ground (arith, leaving point switches last h)
