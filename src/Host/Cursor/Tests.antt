-- ===== src/Host/Cursor/Tests.antt =====
-- Runs of the cursor controller of host/src/capture/cursor.rs, with numbers as positions.
use esp32_universal_control.Base.{ℕ, ◌+◌, ◌≡◌, refl, Bool, true, false, Option, some, List, [], ◌∷◌}
use esp32_universal_control.Host.Cursor.{
  hide_mac_cursor, warp_cursor_position, show_mac_cursor, default_cursor,
}
use esp32_universal_control.Host.Cursor.Balance.{
  sync_all, hides, shows, level, sync_all-balance, returns_to_entry_point,
}

-- To one peer, to another, and back.
abbrev there_and_back : List (Bool × Option ℕ)
there_and_back = (true, some 12) ∷ (true, some 99) ∷ (false, some 50) ∷ []

sync_all-balance_example :
    let (s', commands) = sync_all default_cursor there_and_back in
    level {P = ℕ} default_cursor + hides commands ≡ level s' + shows commands
sync_all-balance_example = sync_all-balance default_cursor there_and_back

returns_to_entry_point_example :
    sync_all default_cursor there_and_back
    ≡ (default_cursor, hide_mac_cursor ∷ warp_cursor_position 12 ∷ show_mac_cursor ∷ [])
returns_to_entry_point_example =
    returns_to_entry_point 12 ((true, some 99) ∷ []) (some 50) (refl, tt)
