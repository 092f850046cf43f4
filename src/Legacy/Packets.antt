-- ===== src/Legacy/Packets.antt =====
-- The driver that libopencm3 calls in platform/raspberry-pi/usb_functionfs.c: stm32f107_usb_driver. A
-- packet is the list of its bytes; virtual_ep_read_packet returns the bytes that it copied.
pub mod Control
pub mod Stalling
use virtual_trezor.Prelude.{
  ℕ, ◌+◌, ◌-◌, ◌*◌, ◌%◌, Bool, true, false, not, ◌&&◌, ◌||◌, Option, none, some, List, [], ◌∷◌,
  ◌++◌, map, replicate, length, take, drop, set, ltb, leb, ◌==◌, ◌!=◌, if◌then◌else◌,
}
use virtual_trezor.Exec.{◌>>=◌, ◌>>◌, pure, die, done, died, blocked}
use virtual_trezor.Protocol.{
  Answer, failed, number, buffer, interrupted, would_block, generation_over, other_errno,
}
use virtual_trezor.Legacy.State.{
  World, Worker, Usb, Device, VirtualEndpoint, Row, idle, call_or_die, emit, modify_usb, get_usb,
  wrote, initialize_endpoint, unsupported_endpoint, oversized_in_transfer, failed_in_transfer,
  short_out_buffer,
}
use virtual_trezor.Legacy.Endpoints.{direction_in, endpoint_for, put_endpoint, for_rows, store_rows}

abbrev pub control_buffer_length : ℕ
control_buffer_length = 65535

abbrev pub modify_device : (Device → Device) → Worker (Unit {0})
modify_device f w = done tt (record w { device = f w.device })

-- The mutex of an endpoint, once.
abbrev initialize_mutex : Bool → Worker (Unit {0})
initialize_mutex true = pure tt
initialize_mutex false = call_or_die initialize_endpoint >>= λ _. pure tt

abbrev pub without_fds : VirtualEndpoint → VirtualEndpoint
without_fds e = record e { functionfs_fd = none; event_fd = none }

unfoldable pub init_row : Bool → Row → Worker Row
init_row initialized row = do
  initialize_mutex initialized
  initialize_mutex initialized
  pure (record {
    out_endpoint = without_fds row.out_endpoint;
    in_endpoint = without_fds row.in_endpoint;
  })

-- The memset of virtual_device; the state that is 0 is IDLE.
abbrev pub zero_device : Device
zero_device = record {
  control_state = idle;
  request = [];
  user_callbacks = replicate 16 none;
  user_callback_suspend = none;
  user_callback_resume = none;
}

unfoldable pub virtual_init : Worker (Unit {0})
unfolding init_row
virtual_init = do
  modify_device λ _. zero_device
  u ← get_usb
  rows ← for_rows (init_row u.endpoints_initialized) u.endpoints
  store_rows rows
  modify_usb λ u. record u { endpoints_initialized = true }

abbrev install_callback : ℕ → Option ℕ → Worker (Unit {0})
install_callback position none = pure tt
install_callback position (some callback) =
    modify_device λ d. record d { user_callbacks = set d.user_callbacks position (some callback) }

abbrev setup_endpoint : ℕ → ℕ → ℕ → Option VirtualEndpoint → Worker (Unit {0})
setup_endpoint address transfer_type max_size none = pure tt
setup_endpoint address transfer_type max_size (some e) = modify_usb λ u. record u {
  endpoints =
      put_endpoint address
        (record e { address = address; transfer_type = transfer_type; max_packet_size = max_size })
        u.endpoints;
}

unfoldable pub virtual_ep_setup :
    (address transfer_type max_size : ℕ) (callback : Option ℕ) → Worker (Unit {0})
virtual_ep_setup address transfer_type max_size callback =
    if ltb 7 (address % 128)
    then die unsupported_endpoint
    else if address % 128 == 0
    then pure tt
    else do
      u ← get_usb
      setup_endpoint address transfer_type max_size (endpoint_for u.endpoints address)
      install_callback (address % 128 * 2 + (if direction_in address then 1 else 0)) callback

abbrev pub set_stalled : Bool → VirtualEndpoint → VirtualEndpoint
set_stalled b e = record e { stalled = b }

abbrev pub reset_row : Row → Row
reset_row row = record {
  out_endpoint = set_stalled false row.out_endpoint;
  in_endpoint = set_stalled false row.in_endpoint;
}

unfoldable pub virtual_ep_reset : Worker (Unit {0})
virtual_ep_reset = modify_usb λ u. record u { endpoints = map reset_row u.endpoints }

abbrev stall_at : ℕ → Bool → Option VirtualEndpoint → Worker (Unit {0})
stall_at address b none = pure tt
stall_at address b (some e) =
    modify_usb λ u. record u { endpoints = put_endpoint address (set_stalled b e) u.endpoints }

unfoldable pub virtual_ep_stall_set : ℕ → Bool → Worker (Unit {0})
virtual_ep_stall_set address b = get_usb >>= λ u.
    if address % 128 == 0 && u.control_active
    then modify_usb (λ u. record u { control_stalled = b })
    else stall_at address b (endpoint_for u.endpoints address)

abbrev stalled_or_missing : Option VirtualEndpoint → Bool
stalled_or_missing none = true
stalled_or_missing (some e) = e.stalled

unfoldable pub virtual_ep_stall_get : ℕ → Worker Bool
virtual_ep_stall_get address = get_usb >>= λ u.
    if address % 128 == 0 && u.control_active
    then pure u.control_stalled
    else pure (stalled_or_missing (endpoint_for u.endpoints address))

-- The loop around write, and what follows it.
unfoldable pub written_from : ℕ → List ℕ → List Answer → Worker ℕ
written_from fd bytes [] w = blocked (record w { answers = [] })
written_from fd bytes (failed interrupted ∷ rest) w = written_from fd bytes rest w
written_from fd bytes (failed would_block ∷ rest) w =
    died failed_in_transfer (record w { answers = rest })
written_from fd bytes (failed other_errno ∷ rest) w =
    died failed_in_transfer (record w { answers = rest })
written_from fd bytes (failed generation_over ∷ rest) w =
    done (length bytes) (record w { answers = rest; usb = record (w.usb) { usb_enabled = false } })
written_from fd bytes (buffer b ∷ rest) w = died failed_in_transfer (record w { answers = rest })
written_from fd bytes (number n ∷ rest) w =
    if n == length bytes
    then done n (record w { answers = rest; log = wrote fd bytes ∷ w.log })
    else died failed_in_transfer (record w { answers = rest })

abbrev write_endpoint : Bool → List ℕ → Option VirtualEndpoint → Worker ℕ
write_endpoint enabled bytes none = pure (length bytes)
write_endpoint enabled bytes (some e) = elim e.functionfs_fd [
  | none ↦ pure (length bytes)
  | some fd ↦
      if not enabled || e.stalled
      then pure (length bytes)
      else if ltb e.max_packet_size (length bytes)
      then die oversized_in_transfer
      else (λ w. written_from fd bytes w.answers w)
]

-- The part of virtual_ep_write_packet for a control transfer.
unfoldable pub write_control : List ℕ → Worker ℕ
write_control bytes = get_usb >>= λ u.
    if ltb control_buffer_length (length u.control_in + length bytes)
    then (modify_usb (λ u. record u { control_stalled = true }) >> pure 0)
    else (modify_usb (λ u. record u { control_in = u.control_in ++ bytes }) >> pure (length bytes))

-- `address | 0x80` is the IN endpoint of its number.
unfoldable pub virtual_ep_write_packet : ℕ → List ℕ → Worker ℕ
unfolding write_control
virtual_ep_write_packet address bytes = get_usb >>= λ u.
    if address % 128 == 0 && u.control_active
    then write_control bytes
    else write_endpoint u.usb_enabled bytes (endpoint_for u.endpoints (address % 128 + 128))

abbrev pub smaller : ℕ → ℕ → ℕ
smaller a b = if ltb a b then a else b

-- The part of virtual_ep_read_packet for a control transfer.
unfoldable pub read_control : ℕ → Worker (List ℕ)
read_control count = get_usb >>= λ u.
    let copied = smaller (length u.control_out_data - u.control_out_offset) count in
    modify_usb (λ u. record u { control_out_offset = u.control_out_offset + copied })
    >> pure (take copied (drop u.control_out_offset u.control_out_data))

abbrev consume_packet : ℕ → ℕ → VirtualEndpoint → Option (List ℕ) → Worker (List ℕ)
consume_packet address count e none = pure []
consume_packet address count e (some bytes) =
    if not e.transfer_occupied
    then pure []
    else if ltb count e.transfer_length
    then die short_out_buffer
    else (modify_usb (λ u. record u {
      endpoints = put_endpoint address (record e { transfer_occupied = false }) u.endpoints;
    })
        >> pure (take e.transfer_length bytes))

abbrev read_endpoint : Bool → ℕ → ℕ → Option VirtualEndpoint → Worker (List ℕ)
read_endpoint enabled address count none = pure []
read_endpoint enabled address count (some e) =
    if not enabled || e.stalled then pure [] else consume_packet address count e e.transfer_data

-- `address & 0x7f` is the OUT endpoint of its number.
unfoldable pub virtual_ep_read_packet : ℕ → ℕ → Worker (List ℕ)
unfolding read_control
virtual_ep_read_packet address count = get_usb >>= λ u.
    if address % 128 == 0 && u.control_active
    then read_control count
    else read_endpoint u.usb_enabled (address % 128) count
        (endpoint_for u.endpoints (address % 128))

unfoldable pub virtual_disconnect : Bool → Worker (Unit {0})
virtual_disconnect disconnected =
    if disconnected then modify_usb (λ u. record u { usb_enabled = false }) else pure tt
