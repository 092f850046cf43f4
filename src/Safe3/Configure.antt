-- ===== src/Safe3/Configure.antt =====
-- The exchanges about a configuration in platform/safe3/usb_supervisor.c: send_configuration,
-- configure_until_endpoints and unconfigure_until_quiesced.
pub mod Rounds
use virtual_trezor.Prelude.{
  ℕ, zero, suc, ◌+◌, ◌%◌, ◌^◌, Bool, true, false, not, ◌&&◌, ◌||◌, List, [], length, ◌==◌, ◌!=◌,
  if◌then◌else◌,
}
use virtual_trezor.Exec.{◌>>=◌, ◌>>◌, pure, die, died, done, blocked}
use virtual_trezor.Safe3.State.{
  Worker, Driver, Answer, Fault, WorkerRecord, failed, number, buffer, call, modify_usb,
  kind_configuration_rejected, kind_quiesce, kind_usb_endpoints, kind_configure, kind_quiesced,
  kind_serving, finish_personality, request_id_overflow, unexpected_configuration_record,
  unexpected_ejection_record,
}
use virtual_trezor.Safe3.Records.{receive_record, send_record, close_record_fds}
use virtual_trezor.Safe3.Endpoints.{get_usb, close_endpoints, install_endpoints}

-- g_usb.next_request_id++, which may not have wrapped to 0.
unfoldable pub next_request_id : Worker ℕ
next_request_id = do
  u ← get_usb
  modify_usb λ u. record u { next_request_id = (u.next_request_id + 1) % 2 ^ 32 }
  if u.next_request_id == 0 then die request_id_overflow else pure u.next_request_id

abbrev pub expect_buffer : Fault → Answer → Worker (List ℕ)
expect_buffer e (buffer bytes) w = done bytes w
expect_buffer e (number n) w = died e w
expect_buffer e (failed errno) w = died e w

unfoldable pub send_configuration : Worker ℕ
send_configuration = do
  bundle ← call >>= expect_buffer finish_personality
  request_id ← next_request_id
  u ← get_usb
  send_record kind_configure u.generation request_id bundle
  pure request_id

-- The tests of a record's kind and of the fields that an answer repeats.
abbrev pub answers_request : ℕ → ℕ → ℕ → WorkerRecord → Bool
answers_request kind generation request_id r =
    r.kind == kind && r.generation == generation && r.request_id == request_id && length r.fds == 0

unfoldable pub is_rejection : ℕ → ℕ → WorkerRecord → Bool
is_rejection generation request_id r =
    answers_request kind_configuration_rejected generation request_id r

unfoldable pub is_quiesce : ℕ → ℕ → WorkerRecord → Bool
is_quiesce generation request_id r =
    answers_request kind_quiesce generation request_id r && length r.body == 0

-- What both exchanges do on QUIESCE.
unfoldable pub quiesce : ℕ → Worker (Unit {0})
quiesce request_id = do
  close_endpoints
  u ← get_usb
  send_record kind_quiesced u.generation request_id []

unfoldable pub serve : WorkerRecord → ℕ → Worker Bool
serve r request_id = do
  install_endpoints r
  u ← get_usb
  send_record kind_serving u.generation request_id []
  pure true

-- The loop of configure_until_endpoints. It comes round once at most, after QUIESCE, so two rounds
-- of fuel are enough.
unfoldable pub configure_loop : ℕ → Bool → Bool → ℕ → Worker Bool
configure_loop zero replacement quiesced request_id = blocked
configure_loop (suc fuel) replacement quiesced request_id =
    let again = configure_loop fuel replacement true request_id in
    receive_record false >>= λ r. get_usb >>= λ u.
    if is_rejection u.generation request_id r
    then pure false
    else if replacement && not quiesced && is_quiesce u.generation request_id r
    then (quiesce request_id >> again)
    else if r.kind == kind_usb_endpoints && quiesced && r.request_id == request_id
    then serve r request_id
    else (close_record_fds r >> die unexpected_configuration_record)

unfoldable pub configure_until_endpoints : Bool → Worker Bool
configure_until_endpoints replacement =
    send_configuration >>= λ request_id. configure_loop 2 replacement (not replacement) request_id

-- The loop of unconfigure_until_quiesced always ends in its first round.
unfoldable pub unconfigure_until_quiesced : Worker (Unit {0})
unconfigure_until_quiesced = do
  request_id ← next_request_id
  u ← get_usb
  send_record kind_configure u.generation request_id []
  r ← receive_record false
  v ← get_usb
  if is_rejection v.generation request_id r
      then pure tt
      else if not (is_quiesce v.generation request_id r)
      then (close_record_fds r >> die unexpected_ejection_record)
      else (quiesce request_id >> modify_usb (λ u. record u { ejected = true }))
