-- ===== src/Safe3/Bus.antt =====
-- The bus events of platform/safe3/usb_supervisor.c: handle_bus_event. What usb_worker_protocol.h
-- and the kernel's gpio.h define is the parameter `Platform`.
use virtual_trezor.Prelude.{
  ℕ, Bool, true, false, ◌&&◌, ◌||◌, List, length, drop, ◌==◌, ◌!=◌, if◌then◌else◌,
}
use virtual_trezor.Bytes.{byte}
use virtual_trezor.Exec.{◌>>=◌, ◌>>◌, pure, die}
use virtual_trezor.Safe3.State.{
  Worker, WorkerRecord, modify_usb, invalid_bus_event, activation_changed, unknown_bus_event,
}
use virtual_trezor.Safe3.Endpoints.{get_usb, stop_endpoint_threads, start_endpoint_threads}

pub record Platform : Type 0 where
  -- UGSP_USB_BUS_EVENT_BODY_LENGTH
  pub bus_event_body_length : ℕ
  -- ugsp_read_be64
  pub read_be64 : List ℕ → ℕ
  -- sizeof (struct gpio_v2_line_event)
  pub line_event_size : ℕ

-- bind, unbind and disable
unfoldable pub bus_disable : Worker (Unit {0})
bus_disable =
    modify_usb (λ u. record u { enabled = false; suspended = false }) >> stop_endpoint_threads

-- `if (!g_usb.enabled) { … }`
abbrev pub enable_unless : Bool → Worker (Unit {0})
enable_unless true = pure tt
enable_unless false = start_endpoint_threads >> modify_usb (λ u. record u { enabled = true })

unfoldable pub bus_enable : Worker (Unit {0})
bus_enable = do u ← get_usb; enable_unless u.enabled; modify_usb λ u. record u { suspended = false }

-- The switch.
unfoldable pub bus_event : ℕ → Worker (Unit {0})
unfolding bus_disable bus_enable
bus_event code =
    if code == 0 || code == 1 || code == 3
    then bus_disable
    else if code == 2
    then bus_enable
    else if code == 5
    then modify_usb (λ u. record u { suspended = true })
    else if code == 6
    then modify_usb (λ u. record u { suspended = false })
    else die unknown_bus_event

unfoldable pub handle_bus_event : Platform → WorkerRecord → Worker (Unit {0})
handle_bus_event p r = do
  u ← get_usb
  let code = byte r.body 0
  let activation = p.read_be64 (drop 1 r.body)
  if r.generation != u.generation
        || r.request_id != 0
        || length r.body != p.bus_event_body_length
        || length r.fds != 0
      then die invalid_bus_event
      else if (code == 5 || code == 6) && activation != u.activation
      then die activation_changed
      else (modify_usb (λ u. record u { activation = activation }) >> bus_event code)
