-- ===== src/Safe3/Endpoints.antt =====
-- The endpoints of platform/safe3/usb_supervisor.c: their lookup, the start and stop of their
-- threads, and the installation of the descriptors that the supervisor hands over.
pub mod Closing
pub mod Ending
use virtual_trezor.Prelude.{
  ℕ, ◌+◌, ◌*◌, ◌-◌, ◌%◌, Bool, true, false, not, ◌&&◌, ◌||◌, Option, none, some, List, [], ◌∷◌,
  length, drop, get_elem?, set, ltb, leb, ◌==◌, if◌then◌else◌,
}
use virtual_trezor.Bytes.{byte, be16}
use virtual_trezor.Exec.{◌>>=◌, ◌>>◌, pure, die, done}
use virtual_trezor.Safe3.State.{
  World, Worker, Driver, Endpoint, Interface, InterfaceType, WorkerRecord, disabled, webusb, hid,
  max_interfaces, max_endpoint_number, call_or_die, close_fd, modify_usb, stop_endpoint_thread,
  allocate_endpoint_buffers, create_endpoint_notification, start_endpoint_thread,
  invalid_endpoint_map, endpoint_map_differs, invalid_endpoint_address,
}
use virtual_trezor.Safe3.Records.{close_record_fds}

abbrev pub get_usb : Worker Driver
get_usb w = done w.usb w

-- endpoint_for, as the position in `endpoints`: rows 1 to 8, each OUT and then IN.
unfoldable pub endpoint_for : ℕ → Option ℕ
endpoint_for address =
    let number = address % 128 in
    if number == 0 || ltb max_endpoint_number number
    then none
    else some ((number - 1) * 2 + (if leb 128 address then 1 else 0))

abbrev pub is_disabled : InterfaceType → Bool
is_disabled disabled = true
is_disabled webusb = false
is_disabled hid = false

abbrev enabled_interface : Option Interface → Option Interface
enabled_interface none = none
enabled_interface (some i) = if is_disabled i.interface_type then none else some i

unfoldable pub interface_for_number : List Interface → ℕ → Option Interface
interface_for_number interfaces number =
    if leb max_interfaces number then none else enabled_interface (get_elem? interfaces number)

-- One round of the loop of stop_endpoint_threads: pthread_cancel and pthread_join, close and free.
unfoldable pub stop_endpoint : Endpoint → Worker Endpoint
stop_endpoint e = do
  (if e.thread_running
      then (call_or_die stop_endpoint_thread >>= λ _.
          call_or_die stop_endpoint_thread >>= λ _. pure tt)
      else pure tt)
  close_fd e.event_fd
  pure (record e {
    thread_running = false;
    event_fd = none;
    packet = none;
    read_buffer = none;
    packet_length = 0;
    occupied = false;
  })

-- A loop over the endpoints that may replace each; they are stored when the loop has ended.
unfoldable pub for_endpoints : (Endpoint → Worker Endpoint) → List Endpoint → Worker (List Endpoint)
for_endpoints f [] = pure []
for_endpoints f (e ∷ es) = f e >>= λ e'. for_endpoints f es >>= λ es'. pure (e' ∷ es')

abbrev pub store_endpoints : List Endpoint → Worker (Unit {0})
store_endpoints es = modify_usb λ u. record u { endpoints = es }

unfoldable pub stop_endpoint_threads : Worker (Unit {0})
stop_endpoint_threads = get_usb >>= λ u. for_endpoints stop_endpoint u.endpoints >>= store_endpoints

-- One round of the loop of start_endpoint_threads; the flag is `direction == 1`. The contents of a
-- fresh buffer are not known; they are [] here, and nothing reads them before they are written.
abbrev pub allocate_read_buffer : Bool → Worker (Unit {0})
allocate_read_buffer true = pure tt
allocate_read_buffer false = call_or_die allocate_endpoint_buffers >>= λ _. pure tt

abbrev pub start_at : Bool → Endpoint → Option ℕ → Worker Endpoint
start_at direction_in e none = pure e
start_at direction_in e (some fd) = do
  _ ← call_or_die allocate_endpoint_buffers
  allocate_read_buffer direction_in
  event_fd ← call_or_die create_endpoint_notification
  _ ← call_or_die start_endpoint_thread
  pure (record e {
    packet = some [];
    read_buffer = if direction_in then e.read_buffer else some [];
    event_fd = some event_fd;
    thread_running = true;
  })

unfoldable pub start_endpoint : Bool → Endpoint → Worker Endpoint
start_endpoint direction_in e = start_at direction_in e e.fd

-- The loop over the rows and, in each, over the directions.
unfoldable pub start_endpoints : Bool → List Endpoint → Worker (List Endpoint)
start_endpoints direction_in [] = pure []
start_endpoints direction_in (e ∷ es) = start_endpoint direction_in e >>= λ e'.
    start_endpoints (not direction_in) es >>= λ es'. pure (e' ∷ es')

unfoldable pub start_endpoint_threads : Worker (Unit {0})
start_endpoint_threads = get_usb >>= λ u. start_endpoints false u.endpoints >>= store_endpoints

unfoldable pub close_endpoint : Endpoint → Worker Endpoint
close_endpoint e = close_fd e.fd >> pure (record e { fd = none })

unfoldable pub close_endpoints : Worker (Unit {0})
close_endpoints = do
  modify_usb λ u. record u { enabled = false }
  stop_endpoint_threads
  u ← get_usb
  es ← for_endpoints close_endpoint u.endpoints
  store_endpoints es

abbrev pub take_entry : List ℕ → Option ℕ → Endpoint → Endpoint
take_entry entry fd e = record e {
  address = byte entry 0;
  transfer_type = byte entry 1;
  max_packet_size = be16 entry 2;
  fd = fd;
}

-- The endpoint that an entry names, with its position, if it is there and has no descriptor.
unfoldable pub free_endpoint : List Endpoint → ℕ → Option (ℕ × Endpoint)
free_endpoint endpoints address = elim (endpoint_for address) [
  | none ↦ none
  | some i ↦ elim (get_elem? endpoints i) [
    | none ↦ none
    | some e ↦ elim e.fd [ none ↦ some (i, e) | some fd ↦ none ]
  ]
]

-- The body of the loop of install_endpoints, with the rest of the loop; `fds` are the descriptors
-- that have not been handed over.
abbrev pub install_entry :
    WorkerRecord
    → List ℕ
    → Option ℕ
    → List (Option ℕ)
    → Option (ℕ × Endpoint)
    → Worker (Unit {0})
    → Worker (Unit {0})
install_entry r entry fd fds none rest =
    close_record_fds (record r { fds = fd ∷ fds }) >> die invalid_endpoint_address
install_entry r entry fd fds (some (i, e)) rest =
    modify_usb (λ u. record u { endpoints = set u.endpoints i (take_entry entry fd e) }) >> rest

-- The loop of install_endpoints: `entries` is the rest of the map, `fds` that of the descriptors.
unfoldable pub install_entries : WorkerRecord → List ℕ → List (Option ℕ) → Worker (Unit {0})
install_entries r entries [] = pure tt
install_entries r entries (fd ∷ fds) =
    let rest = install_entries r (drop 4 entries) fds in
    get_usb >>= λ u.
    install_entry r entries fd fds (free_endpoint u.endpoints (byte entries 0)) rest

unfoldable pub install_endpoints : WorkerRecord → Worker (Unit {0})
install_endpoints r =
    let count = be16 r.body 0 in
    if ltb (length r.body) 2
    then die invalid_endpoint_map
    else if not (length r.body == 2 + count * 4 && length r.fds == count)
    then (close_record_fds r >> die endpoint_map_differs)
    else do
      close_endpoints
      install_entries r (drop 2 r.body) r.fds
      modify_usb λ u. record u { generation = r.generation }
