-- ===== src/Safe3/Service.antt =====
-- The event loop of platform/safe3/usb_supervisor.c: handle_runtime_record,
-- refresh_reconnect_state, drain_button_interrupts, service_controller and
-- virtual_trezor_wait_for_interrupt. poll and ppoll return the `revents` of their entries as a
-- buffer; POLLIN is bit 0.
pub mod Stale
pub mod Sleep
use virtual_trezor.Prelude.{
  ℕ, zero, suc, ◌+◌, ◌-◌, ◌*◌, ◌/◌, ◌%◌, ◌^◌, Bool, true, false, not, ◌&&◌, ◌||◌, Option, none,
  some, List, [], ◌∷◌, length, drop, get_elem?, ltb, leb, ◌==◌, ◌!=◌, if◌then◌else◌,
}
use virtual_trezor.Bytes.{byte}
use virtual_trezor.Exec.{◌>>=◌, ◌>>◌, pure, die, done, died, exited, blocked}
use virtual_trezor.Safe3.State.{
  World, Worker, Answer, Errno, Fault, Driver, Endpoint, Interface, WorkerRecord, failed, number,
  buffer, interrupted, would_block, generation_over, other_errno, call, call_or_die, emit,
  modify_usb, signalled_read, signalled_write, kind_usb_bus_event, kind_usb_control_request,
  kind_quiesce, kind_quiesced, unexpected_runtime_record, reconnect_closed, read_reconnect,
  partial_reconnect_event, read_reconnect_level, poll_controller, reconnect_poll_event,
  insertion_rejected, read_endpoint_notification, button_closed, read_button_interrupt,
  partial_button_interrupt, wait_for_interrupt, button_poll_event,
}
use virtual_trezor.Safe3.Records.{receive_record, send_record, close_record_fds}
use virtual_trezor.Safe3.Endpoints.{get_usb, interface_for_number, close_endpoints}
use virtual_trezor.Safe3.Bus.{Platform, handle_bus_event}
use virtual_trezor.Safe3.Control.{answer_control_request}
use virtual_trezor.Safe3.Configure.{configure_until_endpoints, unconfigure_until_quiesced}

-- The quiesce branch of handle_runtime_record; request id 0 is the shutdown.
unfoldable pub runtime_quiesce : WorkerRecord → Worker (Unit {0})
runtime_quiesce r = do
  close_endpoints
  u ← get_usb
  send_record kind_quiesced u.generation r.request_id []
  if r.request_id == 0 then exited else pure tt

unfoldable pub handle_runtime_record : Platform → WorkerRecord → Worker (Unit {0})
handle_runtime_record p r = get_usb >>= λ u.
    if r.kind == kind_usb_bus_event
    then handle_bus_event p r
    else if r.kind == kind_usb_control_request
    then answer_control_request r
    else if r.kind == kind_quiesce
        && r.generation == u.generation
        && length r.body == 0
        && length r.fds == 0
    then runtime_quiesce r
    else (close_record_fds r >> die unexpected_runtime_record)

-- The messages of a loop that reads line events.
pub record LineFaults : Type 0 where
  pub closed_fault : Fault
  pub read_fault : Fault
  pub partial_fault : Fault

-- The loop that reads line events until there is none left. Each round takes one answer of read.
unfoldable pub drain_from : Platform → LineFaults → List Answer → Worker (Unit {0})
drain_from p faults [] w = blocked (record w { answers = [] })
drain_from p faults (failed interrupted ∷ rest) w = drain_from p faults rest w
drain_from p faults (failed would_block ∷ rest) w = done tt (record w { answers = rest })
drain_from p faults (failed generation_over ∷ rest) w =
    died faults.read_fault (record w { answers = rest })
drain_from p faults (failed other_errno ∷ rest) w =
    died faults.read_fault (record w { answers = rest })
drain_from p faults (buffer bytes ∷ rest) w =
    died faults.partial_fault (record w { answers = rest })
drain_from p faults (number n ∷ rest) w =
    let more = drain_from p faults rest w in
    if n == p.line_event_size
    then more
    else if n == 0
    then died faults.closed_fault (record w { answers = rest })
    else died faults.partial_fault (record w { answers = rest })

unfoldable pub drain_lines : Platform → LineFaults → Worker (Unit {0})
drain_lines p faults w = drain_from p faults w.answers w

-- Bit 0 of the values that the ioctl read.
abbrev pub level_is_high : ℕ → Bool
level_is_high bits = bits % 2 == 1

unfoldable pub refresh_reconnect_state : Platform → Worker (Unit {0})
refresh_reconnect_state p = do
  drain_lines p (record {
    closed_fault = reconnect_closed;
    read_fault = read_reconnect;
    partial_fault = partial_reconnect_event;
  })
  bits ← call_or_die read_reconnect_level
  λ w. done tt (record w { reconnect_pressed = level_is_high bits })

unfoldable pub drain_button_interrupts : Platform → Worker (Unit {0})
drain_button_interrupts p = drain_lines p (record {
  closed_fault = button_closed;
  read_fault = read_button_interrupt;
  partial_fault = partial_button_interrupt;
})

-- The positions of the endpoints that are polled, from `i` on.
unfoldable pub ready_from : ℕ → List Endpoint → List ℕ
ready_from i [] = []
ready_from i (e ∷ es) = elim e.event_fd [
  | none ↦ ready_from (i + 1) es
  | some fd ↦ i ∷ ready_from (i + 1) es
]

unfoldable pub ready_endpoints : Driver → List ℕ
ready_endpoints u = if u.enabled then ready_from 0 u.endpoints else []

-- The handle's signal for an endpoint, if its interface is there.
unfoldable pub signal_interface : Option Interface → ℕ → Worker (Unit {0})
signal_interface none address = pure tt
signal_interface (some i) address =
    emit (if leb 128 address then signalled_write i.handle else signalled_read i.handle)

-- read on an eventfd; on -1 it fails (EBADF).
unfoldable pub read_notification : Option ℕ → Worker (Unit {0})
read_notification none = die read_endpoint_notification
read_notification (some fd) = do
  n ← call_or_die read_endpoint_notification
  if n == 8 then pure tt else die read_endpoint_notification

abbrev pub take_at : List Interface → Option Endpoint → Worker (Unit {0})
take_at interfaces none = pure tt
take_at interfaces (some e) =
    read_notification e.event_fd
    >> signal_interface (interface_for_number interfaces ((e.address % 128 + 255) % 256)) e.address

unfoldable pub take_notification : ℕ → Worker (Unit {0})
take_notification i = get_usb >>= λ u. take_at u.interfaces (get_elem? u.endpoints i)

-- The last loop of service_controller.
unfoldable pub take_notifications : List ℕ → List ℕ → Worker (Unit {0})
take_notifications [] revents = pure tt
take_notifications (i ∷ is) revents =
    (if byte revents 0 % 2 == 1 then take_notification i else pure tt)
    >> take_notifications is (drop 1 revents)

unfoldable pub insert : Worker (Unit {0})
insert = do
  accepted ← configure_until_endpoints false
  if accepted then modify_usb (λ u. record u { ejected = false }) else die insertion_rejected

-- What follows the reconnect button in service_controller.
unfoldable pub follow_reconnect : List ℕ → List ℕ → Worker (Unit {0})
follow_reconnect ready revents w =
    if w.reconnect_pressed && w.usb.started && not w.usb.ejected
    then unconfigure_until_quiesced w
    else if not w.reconnect_pressed && w.usb.started && w.usb.ejected
    then insert w
    else take_notifications ready revents w

unfoldable pub service_ready : Platform → List ℕ → List ℕ → Worker (Unit {0})
service_ready p ready revents = do
  (if byte revents 0 != 0 then (receive_record true >>= handle_runtime_record p) else pure tt)
  (if byte revents 1 % 2 == 1 then refresh_reconnect_state p else pure tt)
  if byte revents 1 / 2 != 0
      then die reconnect_poll_event
      else follow_reconnect ready (drop 2 revents)

abbrev pub service_polled : Platform → List ℕ → Answer → Worker (Unit {0})
service_polled p ready (buffer revents) = service_ready p ready revents
service_polled p ready (number n) = service_ready p ready []
service_polled p ready (failed interrupted) = pure tt
service_polled p ready (failed would_block) = die poll_controller
service_polled p ready (failed generation_over) = die poll_controller
service_polled p ready (failed other_errno) = die poll_controller

unfoldable pub service_controller : Platform → Worker (Unit {0})
service_controller p = get_usb >>= λ u. call >>= service_polled p (ready_endpoints u)

-- The time to sleep, (int32_t)(deadline - systick_ms()), if it is positive.
unfoldable pub remaining_ms : ℕ → ℕ → Option ℕ
remaining_ms deadline now =
    let remaining = (deadline + 2 ^ 32 - now) % 2 ^ 32 in
    if remaining == 0 || leb (2 ^ 31) remaining then none else some remaining

-- struct timespec timeout
pub record Timespec : Type 0 where
  pub tv_sec : ℕ
  pub tv_nsec : ℕ

unfoldable pub timeout_of : ℕ → Timespec
timeout_of remaining = record { tv_sec = remaining / 1000; tv_nsec = remaining % 1000 * 1000000 }

abbrev pub woken : Platform → Answer → Worker (Unit {0})
woken p (failed interrupted) = pure tt
woken p (failed would_block) = die wait_for_interrupt
woken p (failed generation_over) = die wait_for_interrupt
woken p (failed other_errno) = die wait_for_interrupt
woken p (number n) = pure tt
woken p (buffer revents) = do
  (if byte revents 2 % 2 == 1 then drain_button_interrupts p else pure tt)
  (if byte revents 2 / 2 != 0 then die button_poll_event else pure tt)
  service_controller p

abbrev pub wait_for : Platform → Option ℕ → Worker (Unit {0})
wait_for p none = pure tt
wait_for p (some remaining) = call >>= woken p

-- `now` is systick_ms() at the call; ppoll's result is a number where it timed out.
unfoldable pub virtual_trezor_wait_for_interrupt : Platform → ℕ → ℕ → Worker (Unit {0})
virtual_trezor_wait_for_interrupt p deadline now = wait_for p (remaining_ms deadline now)
