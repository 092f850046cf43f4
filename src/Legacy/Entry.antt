-- ===== src/Legacy/Entry.antt =====
-- The functions by which the firmware enters the controller of platform/raspberry-pi/usb_functionfs.c:
-- usbInit, usbPoll, waitAndProcessUSBRequests, usbReconnect and usbFlush.
use virtual_trezor.Prelude.{ℕ, zero, suc, ◌+◌, ◌-◌, ◌^◌, Bool, true, false, leb, if◌then◌else◌}
use virtual_trezor.Prelude.Int.{ℤ}
use virtual_trezor.Exec.{◌>>=◌, ◌>>◌, pure, die, blocked}
use virtual_trezor.Timer.{u32}
use virtual_trezor.Legacy.State.{Worker, Firmware, modify_usb, initial_configuration_rejected}
use virtual_trezor.Legacy.Display.{emulator_poll}
use virtual_trezor.Legacy.Configure.{configure_until_endpoints}
use virtual_trezor.Legacy.Bus.{read_timer_ms}
use virtual_trezor.Legacy.Service.{service_virtual_usb_until_resumed, virtual_poll}

unfoldable pub usb_init : Firmware → Worker (Unit {0})
usb_init f = do
  f.firmware_usb_init
  accepted ← configure_until_endpoints f false
  if accepted then pure tt else die initial_configuration_rejected

-- firmwareUsbPoll with the driver's poll hook.
unfoldable pub usb_poll : Firmware → ℤ → Worker (Unit {0})
usb_poll f no_wait = f.firmware_usb_poll (virtual_poll f no_wait)

abbrev pub set_serviced : Bool → Worker (Unit {0})
set_serviced b = modify_usb λ u. record u { controller_already_serviced = b }

unfoldable pub wait_and_process_usb_requests : ℕ → Firmware → ℤ → ℕ → Worker (Unit {0})
wait_and_process_usb_requests fuel f no_wait millis = do
  emulator_poll f.kinds
  service_virtual_usb_until_resumed fuel f millis
  set_serviced true
  usb_poll f no_wait
  set_serviced false

unfoldable pub usb_reconnect : Firmware → Worker (Unit {0})
usb_reconnect f = configure_until_endpoints f true >>= λ _. pure tt

-- The loop of usbFlush; each round waits for the rest of the time, and `fuel` bounds the rounds.
unfoldable pub flush_from : ℕ → Firmware → ℤ → (start millis : ℕ) → Worker (Unit {0})
flush_from zero f no_wait start millis = blocked
flush_from (suc fuel) f no_wait start millis =
    let again = flush_from fuel f no_wait start millis in
    usb_poll f no_wait >> read_timer_ms >>= λ now.
    let elapsed = u32 (now + 2 ^ 32 - start) in
    if leb millis elapsed
    then pure tt
    else (service_virtual_usb_until_resumed fuel f (millis - elapsed) >> again)

unfoldable pub usb_flush : ℕ → Firmware → ℤ → ℕ → Worker (Unit {0})
unfolding flush_from
usb_flush fuel f no_wait millis = read_timer_ms >>= λ start. flush_from fuel f no_wait start millis
