-- ===== src/Safe3/Resources.antt =====
-- The start of platform/safe3/usb_supervisor.c: assign_resource and receive_initial_resources.
pub mod Complete
use virtual_trezor.Prelude.{
  ℕ, zero, suc, ◌+◌, ◌%◌, Bool, true, false, not, ◌&&◌, ◌||◌, Option, none, some, is_some, List, [],
  ◌∷◌, length, take, drop, ltb, ◌==◌, ◌!=◌, if◌then◌else◌,
}
use virtual_trezor.Prelude.Text.{Text, codes, text_eq}
use virtual_trezor.Bytes.{be16}
use virtual_trezor.Config.{WorkerConfig, ConfigError, worker_display_select_backend}
use virtual_trezor.Exec.{◌>>=◌, ◌>>◌, pure, die, done}
use virtual_trezor.Safe3.State.{
  World, Worker, WorkerRecord, kind_initial_resources, call_or_die, close_fd,
  duplicate_display_resource, unknown_resource_name, expected_initial_resources,
  resource_counts_differ, truncated_resource_name, invalid_resource_name, incomplete_resources,
  button_nonblocking, reconnect_nonblocking, read_reconnect_level, unsupported_display_backend,
  running_as_root, invalid_state_directory, set_profile_directory, enter_state_directory,
}
use virtual_trezor.Safe3.Records.{receive_record, close_record_fds}
use virtual_trezor.Safe3.Service.{level_is_high}

-- The table `displays`: the backend of a display resource's name.
unfoldable pub display_backend_of : Text → Option Text
display_backend_of name =
    if text_eq name (codes "display-ssd1306-i2c")
    then some (codes "ssd1306-i2c")
    else if text_eq name (codes "display-sh1106-i2c")
    then some (codes "sh1106-i2c")
    else if text_eq name (codes "display-sh1106-spi")
    then some (codes "sh1106-spi")
    else if text_eq name (codes "display-st7789-spi")
    then some (codes "st7789-spi")
    else none

abbrev select_display : Option ℕ → WorkerConfig × Option ConfigError → Worker (Unit {0})
select_display fd (c, none) w = done tt (record w { display_bus_fd = fd; config = c })
select_display fd (c, some e) w =
    (close_fd fd >> die unsupported_display_backend) (record w { config = c })

-- The body of the loop over the table.
unfoldable pub assign_display : Text → Option ℕ → Worker (Unit {0})
assign_display backend fd w =
    if is_some w.display_bus_fd
    then (close_fd fd >> die duplicate_display_resource) w
    else select_display fd (worker_display_select_backend w.config backend) w

unfoldable pub assign_resource : Text → Option ℕ → Worker (Unit {0})
assign_resource name fd w = elim (display_backend_of name) [
  | some backend ↦ assign_display backend fd w
  | none ↦
      if text_eq name (codes "display-control")
      then done tt (record w { display_control_fd = fd })
      else if text_eq name (codes "buttons")
      then done tt (record w { button_lines_fd = fd })
      else if text_eq name (codes "reconnect-button")
      then done tt (record w { reconnect_button_fd = fd })
      else (close_fd fd >> die unknown_resource_name) w
]

-- The loop over the descriptors; `rest` is the body from `offset` on. The bytes left are returned.
unfoldable pub assign_resources : List ℕ → List (Option ℕ) → Worker (List ℕ)
assign_resources rest [] = pure rest
assign_resources rest (fd ∷ fds) =
    let count = be16 rest 0 in
    let more = assign_resources (drop count (drop 2 rest)) fds in
    if ltb (length rest) 2
    then die truncated_resource_name
    else if count == 0 || ltb (length rest) (2 + count)
    then die invalid_resource_name
    else (assign_resource (take count (drop 2 rest)) fd >> more)

unfoldable pub set_is_complete : World → Bool
set_is_complete w =
    is_some w.display_bus_fd
    && is_some w.display_control_fd
    && is_some w.button_lines_fd
    && is_some w.reconnect_button_fd

-- Two calls of fcntl.
unfoldable pub make_nonblocking : Worker ℕ → Worker (Unit {0})
make_nonblocking fcntl = fcntl >>= λ flags. fcntl >>= λ _. pure tt

-- The end of receive_initial_resources: the set must be complete and the body used up.
unfoldable pub prepare_lines : List ℕ → Worker (Unit {0})
unfolding make_nonblocking
prepare_lines rest w =
    if not (length rest == 0 && set_is_complete w)
    then die incomplete_resources w
    else (make_nonblocking (call_or_die button_nonblocking)
          >> (make_nonblocking (call_or_die reconnect_nonblocking)
              >> (call_or_die read_reconnect_level >>= λ bits v.
                  done tt (record v { reconnect_pressed = level_is_high bits }))))
        w

-- receive_initial_resources, from the first record on.
unfoldable pub receive_resources : Worker (Unit {0})
receive_resources = do
  r ← receive_record false
  if r.kind != kind_initial_resources
        || r.generation != 0
        || r.request_id != 0
        || ltb (length r.body) 2
      then (close_record_fds r >> die expected_initial_resources)
      else if be16 r.body 0 != length r.fds
      then (close_record_fds r >> die resource_counts_differ)
      else (assign_resources (drop 2 r.body) r.fds >>= prepare_lines)

abbrev pub is_absolute : Option Text → Bool
is_absolute none = false
is_absolute (some []) = false
is_absolute (some (c ∷ rest)) = c == b'/'

-- The constructor function: `euid` is geteuid (), `state_directory` getenv ("STATE_DIRECTORY").
unfoldable pub receive_initial_resources : ℕ → Option Text → Worker (Unit {0})
receive_initial_resources euid state_directory =
    if euid == 0
    then die running_as_root
    else if not (is_absolute state_directory)
    then die invalid_state_directory
    else (call_or_die set_profile_directory >>= λ _.
        call_or_die enter_state_directory >>= λ _. receive_resources)
