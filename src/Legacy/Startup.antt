-- ===== src/Legacy/Startup.antt =====
-- The start of the worker in platform/raspberry-pi/usb_functionfs.c: worker_process_setup,
-- assign_resource and workerReceiveSupervisorResources.
use virtual_trezor.Prelude.{
  ℕ, ◌+◌, Bool, false, not, ◌&&◌, ◌||◌, Option, none, some, is_some, List, [], ◌∷◌, length, take,
  drop, ltb, ◌==◌, ◌!=◌, if◌then◌else◌,
}
use virtual_trezor.Prelude.Text.{Text, codes, text_eq}
use virtual_trezor.Bytes.{be16}
use virtual_trezor.Exec.{◌>>=◌, ◌>>◌, pure, die}
use virtual_trezor.Protocol.{kind_initial_resources}
use virtual_trezor.Legacy.State.{
  Worker, Usb, call_or_die, modify_usb, get_usb, close_fd, running_as_root, invalid_state_directory,
  enter_state_directory, unknown_resource_name, expected_initial_resources, resource_counts_differ,
  truncated_resource_name, invalid_resource_name, incomplete_resources,
}
use virtual_trezor.Legacy.Records.{receive_record, close_fds, close_record_fds}

abbrev pub is_absolute : Option Text → Bool
is_absolute none = false
is_absolute (some []) = false
is_absolute (some (c ∷ rest)) = c == b'/'

-- `euid` is geteuid (), `state_directory` getenv ("STATE_DIRECTORY").
unfoldable pub worker_process_setup : ℕ → Option Text → Worker (Unit {0})
worker_process_setup euid state_directory =
    if euid == 0
    then die running_as_root
    else if not (is_absolute state_directory)
    then die invalid_state_directory
    else (call_or_die enter_state_directory >>= λ _. pure tt)

unfoldable pub assign_resource : Text → Option ℕ → Worker (Unit {0})
assign_resource name fd =
    if text_eq name (codes "display-spi") || text_eq name (codes "display-i2c")
    then modify_usb (λ u. record u { display_resource_fd = fd })
    else if text_eq name (codes "display-control")
    then modify_usb (λ u. record u { display_control_fd = fd })
    else if text_eq name (codes "buttons")
    then modify_usb (λ u. record u { button_lines_fd = fd })
    else (close_fd fd >> die unknown_resource_name)

-- The loop over the descriptors; `rest` is the body from `offset` on. The bytes left are returned.
unfoldable pub assign_resources : List ℕ → List (Option ℕ) → Worker (List ℕ)
assign_resources rest [] = pure rest
assign_resources rest (fd ∷ fds) =
    let count = be16 rest 0 in
    let more = assign_resources (drop count (drop 2 rest)) fds in
    if ltb (length rest) 2
    then (close_fds (fd ∷ fds) >> die truncated_resource_name)
    else if count == 0 || ltb (length rest) (2 + count)
    then (close_fds (fd ∷ fds) >> die invalid_resource_name)
    else (assign_resource (take count (drop 2 rest)) fd >> more)

unfoldable pub set_is_complete : Usb → Bool
set_is_complete u =
    is_some u.display_resource_fd && is_some u.display_control_fd && is_some u.button_lines_fd

unfoldable pub require_complete : List ℕ → Worker (Unit {0})
require_complete rest = get_usb >>= λ u.
    if length rest == 0 && set_is_complete u then pure tt else die incomplete_resources

unfoldable pub worker_receive_supervisor_resources : Worker (Unit {0})
worker_receive_supervisor_resources = do
  r ← receive_record false
  if r.kind != kind_initial_resources
        || r.generation != 0
        || r.request_id != 0
        || ltb (length r.body) 2
      then (close_record_fds r >> die expected_initial_resources)
      else if be16 r.body 0 != length r.fds
      then (close_record_fds r >> die resource_counts_differ)
      else (assign_resources (drop 2 r.body) r.fds >>= require_complete)
