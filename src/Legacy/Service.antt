-- ===== src/Legacy/Service.antt =====
-- The event loop of platform/raspberry-pi/usb_functionfs.c: service_virtual_usb,
-- service_virtual_usb_until_resumed and virtual_poll. poll returns the `revents` of its entries as a
-- buffer; POLLIN is bit 0, and POLLERR, POLLHUP and POLLNVAL are the bits 3 to 5.
use virtual_trezor.Prelude.{
  ℕ, zero, suc, ◌+◌, ◌*◌, ◌/◌, ◌%◌, Bool, true, false, not, ◌&&◌, Option, none, some, is_some, List,
  [], ◌∷◌, drop, get_elem?, ◌==◌, ◌!=◌, if◌then◌else◌,
}
use virtual_trezor.Bytes.{byte}
use virtual_trezor.Prelude.Int.{ℤ}
use virtual_trezor.Exec.{◌>>=◌, ◌>>◌, pure, die, done, died, blocked}
use virtual_trezor.PollTimeout.{worker_poll_timeout_ms}
use virtual_trezor.Protocol.{
  Answer, failed, number, buffer, interrupted, would_block, generation_over, other_errno,
}
use virtual_trezor.Legacy.State.{
  Worker, Row, Usb, Device, Firmware, call, modify_usb, get_usb, get_device, poll_controller,
  invalid_notification, null_callback,
}
use virtual_trezor.Legacy.Records.{receive_record}
use virtual_trezor.Legacy.Display.{worker_display_retry_timeout_ms}
use virtual_trezor.Legacy.Buttons.{button_event_fd, button_drain_events}
use virtual_trezor.Legacy.Bus.{handle_runtime_record, worker_timer_is_suspended}

-- An entry of a table that is read within its bounds.
abbrev pub entry_of : Option (Option ℕ) → Option ℕ
entry_of none = none
entry_of (some entry) = entry

-- user_callback_ctr [number] [USB_TRANSACTION_OUT]
abbrev pub out_callback : Device → ℕ → Option ℕ
out_callback d n = entry_of (get_elem? d.user_callbacks (2 * n))

abbrev pub is_polled : Device → ℕ → Row → Bool
is_polled d n row = is_some row.out_endpoint.event_fd && is_some (out_callback d n)

-- endpoint_numbers, for the rows from `n` on.
unfoldable pub polled_from : Device → ℕ → List Row → List ℕ
polled_from d n [] = []
polled_from d n (row ∷ rows) =
    let rest = polled_from d (n + 1) rows in if is_polled d n row then n ∷ rest else rest

unfoldable pub polled_endpoints : Usb → Device → List ℕ
polled_endpoints u d = if u.usb_enabled then polled_from d 1 (drop 1 u.endpoints) else []

-- The read of a notification, with its loop over EINTR.
unfoldable pub notification_from : List Answer → Worker (Unit {0})
notification_from [] w = blocked (record w { answers = [] })
notification_from (failed interrupted ∷ rest) w = notification_from rest w
notification_from (failed generation_over ∷ rest) w =
    died invalid_notification (record w { answers = rest })
notification_from (failed would_block ∷ rest) w =
    died invalid_notification (record w { answers = rest })
notification_from (failed other_errno ∷ rest) w =
    died invalid_notification (record w { answers = rest })
notification_from (buffer bytes ∷ rest) w = died invalid_notification (record w { answers = rest })
notification_from (number n ∷ rest) w =
    if n == 1
    then done tt (record w { answers = rest })
    else died invalid_notification (record w { answers = rest })

abbrev pub out_event_fd : Option Row → Option ℕ
out_event_fd none = none
out_event_fd (some row) = row.out_endpoint.event_fd

-- read on -1 fails with EBADF.
abbrev pub read_notification : Option ℕ → Worker (Unit {0})
read_notification none w = died invalid_notification w
read_notification (some fd) w = notification_from w.answers w

abbrev pub run_callback : Firmware → ℕ → Option ℕ → Worker (Unit {0})
run_callback f n none = die null_callback
run_callback f n (some address) = f.endpoint_callback address n

unfoldable pub take_out_transfer : Firmware → ℕ → Worker (Unit {0})
unfolding notification_from
take_out_transfer f n = do
  u ← get_usb
  read_notification (out_event_fd (get_elem? u.endpoints n))
  d ← get_device
  run_callback f n (out_callback d n)

-- The last loop: an error ends it, and so does a controller that is not enabled.
unfoldable pub service_endpoints : Firmware → List ℕ → List ℕ → Worker (Unit {0})
service_endpoints f [] revents = pure tt
service_endpoints f (n ∷ ns) revents =
    let rest = service_endpoints f ns (drop 1 revents) in
    get_usb >>= λ u.
    if not u.usb_enabled
    then pure tt
    else if byte revents 0 / 8 % 8 != 0
    then modify_usb (λ u. record u { usb_enabled = false })
    else if byte revents 0 % 2 == 1
    then (take_out_transfer f n >> rest)
    else rest

unfoldable pub service_buttons : Firmware → Option ℕ → List ℕ → Worker (List ℕ)
service_buttons f none revents = pure revents
service_buttons f (some fd) revents =
    (if byte revents 0 != 0 then button_drain_events f else pure tt) >> pure (drop 1 revents)

-- What follows poll.
unfoldable pub dispatch : Firmware → Option ℕ → List ℕ → List ℕ → Worker (Unit {0})
unfolding service_buttons
dispatch f button_fd numbers revents = do
  (if byte revents 0 != 0
      then (receive_record true >>= λ r. handle_runtime_record f r)
      else pure tt)
  rest ← service_buttons f button_fd (drop 1 revents)
  service_endpoints f numbers rest

abbrev pub polled : Firmware → Option ℕ → List ℕ → Answer → Worker (Unit {0})
polled f button_fd numbers (buffer revents) = dispatch f button_fd numbers revents
polled f button_fd numbers (failed interrupted) = pure tt
polled f button_fd numbers (failed would_block) = die poll_controller
polled f button_fd numbers (failed generation_over) = die poll_controller
polled f button_fd numbers (failed other_errno) = die poll_controller
-- Not a result of poll here: it returns what its entries became.
polled f button_fd numbers (number n) = die poll_controller

-- How long poll waits, `timeout_ms`, is the system's matter: it decides when the next answer comes.
unfoldable pub service_virtual_usb : Firmware → ℤ → Worker (Unit {0})
unfolding polled_endpoints
service_virtual_usb f timeout_ms = do
  button_fd ← button_event_fd
  u ← get_usb
  d ← get_device
  revents ← call
  polled f button_fd (polled_endpoints u d) revents

-- A suspended firmware stays in the loop as long as the host leaves the bus suspended, so the fuel is
-- the number of rounds that are looked at.
unfoldable pub service_virtual_usb_until_resumed : ℕ → Firmware → ℕ → Worker (Unit {0})
service_virtual_usb_until_resumed zero f firmware_timeout_ms = blocked
service_virtual_usb_until_resumed (suc fuel) f firmware_timeout_ms =
    let again = service_virtual_usb_until_resumed fuel f firmware_timeout_ms in
    worker_timer_is_suspended >>= λ suspended. worker_display_retry_timeout_ms >>= λ retry.
    service_virtual_usb f (worker_poll_timeout_ms suspended firmware_timeout_ms retry)
    >> worker_timer_is_suspended
    >>= λ still. if still then again else pure tt

-- The controller's poll hook; 0 is the timeout.
unfoldable pub virtual_poll : Firmware → ℤ → Worker (Unit {0})
virtual_poll f no_wait = get_usb >>= λ u.
    if u.controller_already_serviced then pure tt else service_virtual_usb f no_wait
