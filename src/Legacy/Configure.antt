-- ===== src/Legacy/Configure.antt =====
-- The exchange about a configuration in platform/raspberry-pi/usb_functionfs.c: send_configuration and
-- configure_until_endpoints.
pub mod Rounds
use virtual_trezor.Prelude.{
  ℕ, zero, suc, ◌+◌, ◌%◌, ◌^◌, Bool, true, false, not, ◌&&◌, ◌||◌, Option, none, some, List, [],
  length, ◌==◌, ◌!=◌, if◌then◌else◌,
}
use virtual_trezor.Exec.{◌>>=◌, ◌>>◌, pure, die, blocked}
use virtual_trezor.Protocol.{
  WorkerRecord, kind_configuration_rejected, kind_quiesce, kind_usb_endpoints, kind_configure,
  kind_quiesced, kind_serving,
}
use virtual_trezor.Legacy.State.{
  World, Worker, Usb, Firmware, modify_usb, get_usb, discovery_failed, request_id_overflow,
  unexpected_configuration_record,
}
use virtual_trezor.Legacy.Records.{receive_record, send_record, close_record_fds}
use virtual_trezor.Legacy.Endpoints.{close_usb_endpoints, install_usb_endpoints}
use virtual_trezor.Legacy.Transfer.{firmware_control_transfer}

abbrev pub require_bundle : Option (List ℕ) → Worker (List ℕ)
require_bundle none = die discovery_failed
require_bundle (some bundle) = pure bundle

-- next_configuration_request++, which may not have wrapped to 0.
unfoldable pub next_request_id : Worker ℕ
next_request_id = do
  u ← get_usb
  modify_usb
      λ u. record u { next_configuration_request = (u.next_configuration_request + 1) % 2 ^ 32 }
  if u.next_configuration_request == 0
      then die request_id_overflow
      else pure u.next_configuration_request

unfoldable pub send_configuration : Firmware → Worker ℕ
send_configuration f = do
  bundle ← f.discover (firmware_control_transfer f) >>= require_bundle
  f.usbd_reset
  request_id ← next_request_id
  u ← get_usb
  send_record kind_configure u.generation request_id bundle
  pure request_id

unfoldable pub is_rejection : ℕ → ℕ → WorkerRecord → Bool
is_rejection generation request_id r =
    r.kind == kind_configuration_rejected
    && r.generation == generation
    && r.request_id == request_id
    && length r.fds == 0

unfoldable pub is_quiesce : ℕ → ℕ → WorkerRecord → Bool
is_quiesce generation request_id r =
    r.kind == kind_quiesce
    && r.generation == generation
    && r.request_id == request_id
    && length r.body == 0
    && length r.fds == 0

unfoldable pub quiesce : Firmware → ℕ → Worker (Unit {0})
quiesce f request_id = do
  close_usb_endpoints
  u ← get_usb
  send_record kind_quiesced u.generation request_id []
  f.usbd_reset

unfoldable pub serve : WorkerRecord → ℕ → Worker Bool
serve r request_id = do
  install_usb_endpoints r
  u ← get_usb
  send_record kind_serving u.generation request_id []
  pure true

-- The loop comes round once at most, after QUIESCE, so two rounds of fuel are enough.
unfoldable pub configure_loop : ℕ → Firmware → Bool → Bool → ℕ → Worker Bool
configure_loop zero f replacement quiesced request_id = blocked
configure_loop (suc fuel) f replacement quiesced request_id =
    let again = configure_loop fuel f replacement true request_id in
    receive_record false >>= λ r. get_usb >>= λ u.
    if is_rejection u.generation request_id r
    then pure false
    else if replacement && not quiesced && is_quiesce u.generation request_id r
    then (quiesce f request_id >> again)
    else if r.kind == kind_usb_endpoints && quiesced && r.request_id == request_id
    then serve r request_id
    else (close_record_fds r >> die unexpected_configuration_record)

unfoldable pub configure_until_endpoints : Firmware → Bool → Worker Bool
configure_until_endpoints f replacement = send_configuration f >>= λ request_id.
    configure_loop 2 f replacement (not replacement) request_id
