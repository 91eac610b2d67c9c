-- ===== src/Firmware/Ble.antt =====
-- firmware/src/ble_hid.rs: its callbacks, and what the session uses of it. What NimBLE answers is a
-- parameter.
pub mod Blob
pub mod Setup
pub mod Values
mod Tests
use esp32_universal_control.Base.{
  ℕ, Bool, Option, List, [], ◌∷◌, ◌++◌, any, ltb, ◌==◌, if◌then◌else◌,
}
use esp32_universal_control.Protocol.Wire.{Address}
use esp32_universal_control.Protocol.Ptp.{PtpReport}

pub data BleEvent : Type 0 where
  connected : (conn_handle : ℕ) (addr : Address) → BleEvent
  disconnected : (conn_handle : ℕ) → BleEvent
  led_changed : ℕ → BleEvent

-- NimBLE at one moment: the handles of the open connections, what a touch notification returns
-- (`none` if it is sent, else the code of the error), and its two codes for a stack that is busy.
pub record BleStack : Type 0 where
  pub connections : List ℕ
  pub notify_touch : ℕ → PtpReport → Option ℕ
  pub enomem : ℕ
  pub ebusy : ℕ

-- `BleHid::has_connection`.
abbrev pub has_connection : BleStack → ℕ → Bool
has_connection ble conn_handle = any (λ handle. handle == conn_handle) ble.connections

abbrev pub fast_conn_interval : ℕ
fast_conn_interval = 6

abbrev pub fast_conn_latency : ℕ
fast_conn_latency = 0

abbrev pub fast_conn_timeout : ℕ
fast_conn_timeout = 60

-- What the callbacks of `init` do, in order.
pub data BleAction : Type 0 where
  update_conn_params : (conn_handle min_interval max_interval latency timeout : ℕ) → BleAction
  send_event : BleEvent → BleAction
  start_advertising : BleAction

-- A call of NimBLE: a connection is opened, with the count of those that are then open, or closed,
-- or the keyboard's output report is written.
pub data Callback : Type 0 where
  opened : (connected_count conn_handle : ℕ) (id_address : Address) → Callback
  closed : (conn_handle : ℕ) → Callback
  written : (recv_data : List ℕ) → Callback

-- `server.on_connect`.
abbrev pub on_connect : (max_connections connected_count conn_handle : ℕ) → Address → List BleAction
on_connect max_connections connected_count conn_handle id_address =
    update_conn_params conn_handle fast_conn_interval fast_conn_interval fast_conn_latency
      fast_conn_timeout
    ∷ send_event (connected conn_handle id_address)
    ∷ (if ltb connected_count max_connections then start_advertising ∷ [] else [])

-- `server.on_disconnect`.
abbrev pub on_disconnect : (conn_handle : ℕ) → List BleAction
on_disconnect conn_handle = send_event (disconnected conn_handle) ∷ []

-- `keyboard_output.on_write`, by the first byte.
abbrev pub on_write : List ℕ → List BleAction
on_write [] = []
on_write (bits ∷ more) = send_event (led_changed bits) ∷ []

abbrev pub on_callback : (max_connections : ℕ) → Callback → List BleAction
on_callback max_connections (opened connected_count conn_handle id_address) =
    on_connect max_connections connected_count conn_handle id_address
on_callback max_connections (closed conn_handle) = on_disconnect conn_handle
on_callback max_connections (written recv_data) = on_write recv_data

-- The events that go into the channel.
abbrev pub events_of : List BleAction → List BleEvent
events_of [] = []
events_of (update_conn_params conn_handle min max latency timeout ∷ actions) = events_of actions
events_of (send_event event ∷ actions) = event ∷ events_of actions
events_of (start_advertising ∷ actions) = events_of actions

abbrev pub channel : (max_connections : ℕ) → List Callback → List BleEvent
channel max_connections [] = []
channel max_connections (callback ∷ callbacks) =
    events_of (on_callback max_connections callback) ++ channel max_connections callbacks
