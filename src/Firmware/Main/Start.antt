-- ===== src/Firmware/Main/Start.antt =====
-- The start of the firmware in firmware/src/main.rs: the calls of `run` up to its loop, and what
-- `main` does when `run` returns. What the peripherals do is a parameter.
use esp32_universal_control.Base.{
  ℕ, ◌≡◌, refl, Bool, true, false, List, [], ◌∷◌, any, All, run_calls, made_after,
}

abbrev pub idle_read_timeout_ticks : ℕ
idle_read_timeout_ticks = 1

abbrev pub active_touch_read_timeout_ticks : ℕ
active_touch_read_timeout_ticks = 1

abbrev pub uart_baud_rate : ℕ
uart_baud_rate = 921600

-- `read_timeout_ticks` of the loop.
abbrev pub read_timeout_ticks : (has_pending_touch : Bool) → ℕ
read_timeout_ticks true = active_touch_read_timeout_ticks
read_timeout_ticks false = idle_read_timeout_ticks

pub data FirmwareCall : Type 0 where
  takes_nvs takes_peripherals inits_ble : FirmwareCall
  opens_uart : (baudrate : ℕ) → FirmwareCall
  takes_event_rx spawns_uart_tx enters_loop : FirmwareCall

abbrev pub firmware_calls : List FirmwareCall
firmware_calls =
    takes_nvs
    ∷ takes_peripherals
    ∷ inits_ble
    ∷ opens_uart uart_baud_rate
    ∷ takes_event_rx
    ∷ spawns_uart_tx
    ∷ enters_loop
    ∷ []

-- The calls with the operator ?; the loop is left by an error only.
abbrev pub firmware_is_fallible : FirmwareCall → Bool
firmware_is_fallible takes_nvs = true
firmware_is_fallible takes_peripherals = true
firmware_is_fallible inits_ble = true
firmware_is_fallible (opens_uart baudrate) = true
firmware_is_fallible takes_event_rx = false
firmware_is_fallible spawns_uart_tx = true
firmware_is_fallible enters_loop = true

-- `run` up to the end of its loop: the calls that it makes.
abbrev pub start_firmware : (succeeds : FirmwareCall → Bool) → List FirmwareCall
start_firmware succeeds = (run_calls firmware_is_fallible succeeds firmware_calls).0

abbrev pub is_loop : FirmwareCall → Bool
is_loop enters_loop = true
is_loop takes_nvs = false
is_loop takes_peripherals = false
is_loop inits_ble = false
is_loop (opens_uart baudrate) = false
is_loop takes_event_rx = false
is_loop spawns_uart_tx = false

-- The loop is entered only where the BLE service and the UART are set up, and the thread that
-- writes to the host was started.
pub loop_after_setup :
    (succeeds : FirmwareCall → Bool)
    → any is_loop (start_firmware succeeds) ≡ true
    → All
        (λ call. succeeds call ≡ true)
        (inits_ble ∷ opens_uart uart_baud_rate ∷ spawns_uart_tx ∷ [])
loop_after_setup succeeds entered =
    let behind = made_after firmware_is_fallible succeeds is_loop in
    (
      behind (takes_nvs ∷ takes_peripherals ∷ []) inits_ble _ refl refl entered,
      (
        behind (takes_nvs ∷ takes_peripherals ∷ inits_ble ∷ []) (opens_uart uart_baud_rate) _ refl
            refl entered,
        (
          behind
              (takes_nvs
                ∷ takes_peripherals
                ∷ inits_ble
                ∷ opens_uart uart_baud_rate
                ∷ takes_event_rx
                ∷ [])
              spawns_uart_tx _ refl refl entered,
          tt,
        ),
      ),
    )
