-- ===== src/Legacy/Bus.antt =====
-- The runtime records of platform/raspberry-pi/usb_functionfs.c, handle_usb_bus_event, handle_quiesce
-- and handle_runtime_record, with worker_timer_suspend and worker_timer_resume of timer_linux.c.
pub mod Clock
pub mod Stale
pub mod Suspending
use virtual_trezor.Prelude.{
  ℕ, Bool, true, false, ◌&&◌, ◌||◌, Option, none, some, List, [], ◌∷◌, length, drop, ◌==◌, ◌!=◌,
  if◌then◌else◌,
}
use virtual_trezor.Bytes.{byte}
use virtual_trezor.Exec.{◌>>=◌, ◌>>◌, pure, die, done}
use virtual_trezor.Timer.{worker_timer_state_suspend, worker_timer_state_resume, timer_ms}
use virtual_trezor.Protocol.{
  WorkerRecord, Answer, failed, number, buffer, kind_usb_bus_event, kind_usb_control_request,
  kind_quiesce, kind_quiesced,
}
use virtual_trezor.Legacy.State.{
  Worker, Firmware, call, emit, modify_usb, get_usb, get_device, monotonic_ms, checkpointed_flash,
  invalid_bus_event, activation_changed, unknown_bus_event, rejected_set_configuration,
  invalid_quiesce, unexpected_runtime_record,
}
use virtual_trezor.Legacy.Records.{send_record, close_record_fds}
use virtual_trezor.Legacy.Endpoints.{
  stop_endpoint_threads, start_endpoint_threads, close_usb_endpoints,
}
use virtual_trezor.Legacy.Display.{worker_display_suspend, worker_display_resume}
use virtual_trezor.Legacy.Transfer.{run_control_transfer, handle_usb_control_request}

unfoldable pub worker_timer_suspend : Worker (Unit {0})
worker_timer_suspend =
    monotonic_ms >>= λ raw w. done tt (record w { timer = worker_timer_state_suspend w.timer raw })

unfoldable pub worker_timer_resume : Worker (Unit {0})
worker_timer_resume =
    monotonic_ms >>= λ raw w. done tt (record w { timer = worker_timer_state_resume w.timer raw })

unfoldable pub worker_timer_is_suspended : Worker Bool
worker_timer_is_suspended w = done w.timer.suspended w

-- timer_ms of timer_linux.c
unfoldable pub read_timer_ms : Worker ℕ
read_timer_ms = monotonic_ms >>= λ raw w. done (timer_ms w.timer raw) w

-- bind, unbind and disable
unfoldable pub bus_disable : Firmware → Worker (Unit {0})
bus_disable f = do
  modify_usb λ u. record u { usb_enabled = false }
  stop_endpoint_threads
  f.usbd_reset

abbrev pub set_configuration : List ℕ
set_configuration = 0x00 ∷ 0x09 ∷ 0x01 ∷ 0x00 ∷ 0x00 ∷ 0x00 ∷ 0x00 ∷ 0x00 ∷ []

abbrev pub serve_unless_stalled : Bool × List ℕ → Worker (Unit {0})
serve_unless_stalled (true, response) = die rejected_set_configuration
serve_unless_stalled (false, response) =
    start_endpoint_threads >> modify_usb (λ u. record u { usb_enabled = true })

unfoldable pub bus_enable : Firmware → Worker (Unit {0})
bus_enable f = do
  worker_timer_resume
  worker_display_resume f.kinds
  u ← get_usb
  if u.usb_enabled
      then pure tt
      else (run_control_transfer f set_configuration [] >>= serve_unless_stalled)

abbrev pub callback_if : (ℕ → Worker (Unit {0})) → Option ℕ → Worker (Unit {0})
callback_if run none = pure tt
callback_if run (some address) = run address

-- What msync returned, where the flash is mapped.
abbrev pub synced : Answer → Worker (Unit {0})
synced (failed errno) = pure tt
synced (number n) = emit checkpointed_flash
synced (buffer bytes) = emit checkpointed_flash

abbrev pub checkpoint : Bool → Worker (Unit {0})
checkpoint true = call >>= synced
checkpoint false = pure tt

unfoldable pub bus_suspend : Firmware → Worker (Unit {0})
bus_suspend f = do
  worker_timer_suspend
  d ← get_device
  callback_if f.bus_callback d.user_callback_suspend
  λ w. checkpoint w.flash w
  worker_display_suspend

unfoldable pub bus_resume : Firmware → Worker (Unit {0})
bus_resume f = do
  worker_timer_resume
  d ← get_device
  callback_if f.bus_callback d.user_callback_resume
  worker_display_resume f.kinds

-- The switch.
unfoldable pub bus_event : Firmware → ℕ → Worker (Unit {0})
bus_event f code =
    if code == 0 || code == 1 || code == 3
    then bus_disable f
    else if code == 2
    then bus_enable f
    else if code == 5
    then bus_suspend f
    else if code == 6
    then bus_resume f
    else die unknown_bus_event

unfoldable pub handle_usb_bus_event : Firmware → WorkerRecord → Worker (Unit {0})
handle_usb_bus_event f r = get_usb >>= λ u.
    let code = byte r.body 0 in
    let activation = f.read_be64 (drop 1 r.body) in
    if r.generation != u.generation
      || r.request_id != 0
      || length r.body != f.bus_event_body_length
      || length r.fds != 0
    then die invalid_bus_event
    else if (code == 5 || code == 6) && activation != u.endpoint_activation
    then die activation_changed
    else (modify_usb (λ u. record u { endpoint_activation = activation }) >> bus_event f code)

unfoldable pub handle_quiesce : Firmware → WorkerRecord → Worker (Unit {0})
handle_quiesce f r = get_usb >>= λ u.
    if r.generation != u.generation || length r.body != 0 || length r.fds != 0
    then die invalid_quiesce
    else do
      close_usb_endpoints
      u ← get_usb
      send_record kind_quiesced u.generation r.request_id []
      f.usbd_reset

unfoldable pub handle_runtime_record : Firmware → WorkerRecord → Worker (Unit {0})
handle_runtime_record f r =
    if r.kind == kind_quiesce
    then handle_quiesce f r
    else if r.kind == kind_usb_bus_event
    then handle_usb_bus_event f r
    else if r.kind == kind_usb_control_request
    then handle_usb_control_request f r
    else (close_record_fds r >> die unexpected_runtime_record)
