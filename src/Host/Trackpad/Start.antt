-- ===== src/Host/Trackpad/Start.antt =====
-- `run` of host/src/capture/trackpad.rs, as the calls that it makes. The framework's devices, and
-- which calls succeed, are parameters.
use esp32_universal_control.Base.{
  ◌≡◌, refl, Bool, true, false, List, [], ◌∷◌, ◌++◌, any, All, run_calls, made_after, makes_all,
}

-- The three cells of the callback are set, which fails where they are set already; the framework is
-- loaded, its three symbols found, and its devices listed, which fails where the list is null.
pub data TrackpadCall (D : Type 0) : Type 0 where
  sets_outbox sets_click sets_forwarding : TrackpadCall D
  loads_framework finds_create_list finds_register_callback finds_start : TrackpadCall D
  creates_list : TrackpadCall D
  registers_callback starts_device : D → TrackpadCall D
  runs_loop : TrackpadCall D

module _ {D : Type 0} where
  -- The loop over the devices.
  abbrev pub device_calls : List D → List (TrackpadCall D)
  device_calls [] = []
  device_calls (device ∷ devices) =
      registers_callback device ∷ starts_device device ∷ device_calls devices

  abbrev pub trackpad_calls : List D → List (TrackpadCall D)
  trackpad_calls devices =
      sets_outbox
      ∷ sets_click
      ∷ sets_forwarding
      ∷ loads_framework
      ∷ finds_create_list
      ∷ finds_register_callback
      ∷ finds_start
      ∷ creates_list
      ∷ (device_calls devices ++ runs_loop ∷ [])

  abbrev pub trackpad_is_fallible : TrackpadCall D → Bool
  trackpad_is_fallible sets_outbox = true
  trackpad_is_fallible sets_click = true
  trackpad_is_fallible sets_forwarding = true
  trackpad_is_fallible loads_framework = true
  trackpad_is_fallible finds_create_list = true
  trackpad_is_fallible finds_register_callback = true
  trackpad_is_fallible finds_start = true
  trackpad_is_fallible creates_list = true
  trackpad_is_fallible (registers_callback device) = false
  trackpad_is_fallible (starts_device device) = false
  trackpad_is_fallible runs_loop = false

  -- The calls that `run` makes, and whether it returns without an error.
  abbrev pub run_trackpad :
      (succeeds : TrackpadCall D → Bool) → List D → List (TrackpadCall D) × Bool
  run_trackpad succeeds devices = run_calls trackpad_is_fallible succeeds (trackpad_calls devices)

  abbrev pub is_registering : TrackpadCall D → Bool
  is_registering (registers_callback device) = true
  is_registering sets_outbox = false
  is_registering sets_click = false
  is_registering sets_forwarding = false
  is_registering loads_framework = false
  is_registering finds_create_list = false
  is_registering finds_register_callback = false
  is_registering finds_start = false
  is_registering creates_list = false
  is_registering (starts_device device) = false
  is_registering runs_loop = false

  -- Where the callback is registered for some device, its three cells have been set, so that it
  -- finds the outbox, the button and the flag there.
  pub callback_after_cells :
      (succeeds : TrackpadCall D → Bool) (devices : List D)
      → any is_registering (run_trackpad succeeds devices).0 ≡ true
      → All (λ call. succeeds call ≡ true) (sets_outbox ∷ sets_click ∷ sets_forwarding ∷ [])
  callback_after_cells succeeds devices registered =
      let behind = made_after trackpad_is_fallible succeeds is_registering in
      (
        behind [] sets_outbox _ refl refl registered,
        (
          behind (sets_outbox ∷ []) sets_click _ refl refl registered,
          (behind (sets_outbox ∷ sets_click ∷ []) sets_forwarding _ refl refl registered, tt),
        ),
      )

  -- Without an error every device gets the callback, and is started right after.
  pub all_devices_started :
      (succeeds : TrackpadCall D → Bool) (devices : List D)
      → (run_trackpad succeeds devices).1 ≡ true
      → (run_trackpad succeeds devices).0 ≡ trackpad_calls devices
  all_devices_started succeeds devices =
      makes_all trackpad_is_fallible succeeds (trackpad_calls devices)
