-- ===== src/Legacy/Endpoints.antt =====
-- The endpoints of platform/raspberry-pi/usb_functionfs.c: the table, the threads of its OUT endpoints,
-- and the map that the supervisor sends.
pub mod Closing
pub mod Table
use virtual_trezor.Prelude.{
  ℕ, ◌+◌, ◌*◌, ◌%◌, Bool, true, false, not, ◌&&◌, Option, none, some, List, [], ◌∷◌, length, drop,
  set, get_elem?, ltb, leb, ◌==◌, if◌then◌else◌,
}
use virtual_trezor.Bytes.{byte, be16}
use virtual_trezor.Exec.{◌>>=◌, ◌>>◌, pure, die}
use virtual_trezor.Protocol.{WorkerRecord}
use virtual_trezor.Legacy.State.{
  Worker, VirtualEndpoint, Row, call_or_die, modify_usb, get_usb, close_fd, stop_endpoint_thread,
  zero_sized_endpoint, allocate_handoff, create_notification, start_endpoint_thread,
  invalid_endpoint_map, endpoint_map_differs, invalid_endpoint_address,
}
use virtual_trezor.Legacy.Records.{close_record_fds}

abbrev pub direction_in : ℕ → Bool
direction_in address = leb 128 (address % 256)

abbrev pub side : Bool → Row → VirtualEndpoint
side true row = row.in_endpoint
side false row = row.out_endpoint

abbrev pub with_side : Bool → VirtualEndpoint → Row → Row
with_side true e row = record row { in_endpoint = e }
with_side false e row = record row { out_endpoint = e }

abbrev side_of : Bool → Option Row → Option VirtualEndpoint
side_of d none = none
side_of d (some row) = some (side d row)

-- endpoint_for
unfoldable pub endpoint_for : List Row → ℕ → Option VirtualEndpoint
endpoint_for rows address =
    if ltb 7 (address % 128)
    then none
    else side_of (direction_in address) (get_elem? rows (address % 128))

abbrev put_side : ℕ → Bool → VirtualEndpoint → List Row → Option Row → List Row
put_side n d e rows none = rows
put_side n d e rows (some row) = set rows n (with_side d e row)

-- The table with the endpoint at an address replaced.
unfoldable pub put_endpoint : ℕ → VirtualEndpoint → List Row → List Row
put_endpoint address e rows =
    put_side (address % 128) (direction_in address) e rows (get_elem? rows (address % 128))

abbrev pub store_rows : List Row → Worker (Unit {0})
store_rows rows = modify_usb λ u. record u { endpoints = rows }

-- A loop over rows that may replace each.
unfoldable pub for_rows : (Row → Worker Row) → List Row → Worker (List Row)
for_rows f [] = pure []
for_rows f (row ∷ rows) = f row >>= λ row'. for_rows f rows >>= λ rows'. pure (row' ∷ rows')

-- A loop from row 1 on, whose rows are stored when it has ended.
abbrev pub past_first : (Row → Worker Row) → List Row → Worker (List Row)
past_first f [] = pure []
past_first f (row ∷ rows) = for_rows f rows >>= λ rows'. pure (row ∷ rows')

-- One round of the loop of stop_endpoint_threads: pthread_cancel and pthread_join, close and free.
unfoldable pub stop_endpoint : VirtualEndpoint → Worker VirtualEndpoint
stop_endpoint e = do
  (if e.thread_running
      then (call_or_die stop_endpoint_thread >>= λ _.
          call_or_die stop_endpoint_thread >>= λ _. pure tt)
      else pure tt)
  close_fd e.event_fd
  pure (record e {
    thread_running = false;
    event_fd = none;
    transfer_data = none;
    read_data = none;
    transfer_length = 0;
    transfer_occupied = false;
  })

abbrev pub on_out : (VirtualEndpoint → Worker VirtualEndpoint) → Row → Worker Row
on_out f row = f row.out_endpoint >>= λ e. pure (record row { out_endpoint = e })

unfoldable pub stop_endpoint_threads : Worker (Unit {0})
unfolding stop_endpoint
stop_endpoint_threads =
    get_usb >>= λ u. past_first (on_out stop_endpoint) u.endpoints >>= store_rows

-- One round of the loop of start_endpoint_threads. The contents of a fresh buffer are not known; they
-- are [] here, and nothing reads them before they are written.
abbrev pub start_at : VirtualEndpoint → Option ℕ → Worker VirtualEndpoint
start_at e none = pure e
start_at e (some fd) = if e.max_packet_size == 0 then die zero_sized_endpoint else do
  _ ← call_or_die allocate_handoff
  _ ← call_or_die allocate_handoff
  event_fd ← call_or_die create_notification
  _ ← call_or_die start_endpoint_thread
  pure (record e {
    transfer_data = some [];
    read_data = some [];
    transfer_length = 0;
    transfer_occupied = false;
    event_fd = some event_fd;
    thread_running = true;
  })

unfoldable pub start_endpoint : VirtualEndpoint → Worker VirtualEndpoint
start_endpoint e = start_at e e.functionfs_fd

unfoldable pub start_endpoint_threads : Worker (Unit {0})
unfolding start_endpoint
start_endpoint_threads =
    get_usb >>= λ u. past_first (on_out start_endpoint) u.endpoints >>= store_rows

unfoldable pub close_endpoint : VirtualEndpoint → Worker VirtualEndpoint
close_endpoint e = close_fd e.functionfs_fd >> pure (record e { functionfs_fd = none })

-- The two endpoints of a row, OUT first.
unfoldable pub close_row : Row → Worker Row
unfolding close_endpoint
close_row row = do
  o ← close_endpoint row.out_endpoint
  i ← close_endpoint row.in_endpoint
  pure (record { out_endpoint = o; in_endpoint = i })

unfoldable pub close_usb_endpoints : Worker (Unit {0})
unfolding close_row
close_usb_endpoints = do
  modify_usb λ u. record u { usb_enabled = false }
  stop_endpoint_threads
  u ← get_usb
  rows ← past_first close_row u.endpoints
  store_rows rows

abbrev pub take_entry : List ℕ → Option ℕ → VirtualEndpoint → VirtualEndpoint
take_entry entry fd e = record e {
  address = byte entry 0;
  transfer_type = byte entry 1;
  max_packet_size = be16 entry 2;
  functionfs_fd = fd;
}

abbrev unopened : Option VirtualEndpoint → Option VirtualEndpoint
unopened none = none
unopened (some e) = elim e.functionfs_fd [ none ↦ some e | some fd ↦ none ]

-- The endpoint that an entry names, if it is there, is not endpoint 0 and has no descriptor.
unfoldable pub free_endpoint : List Row → ℕ → Option VirtualEndpoint
unfolding endpoint_for
free_endpoint rows address =
    if address % 128 == 0 then none else unopened (endpoint_for rows address)

-- The body of the loop of install_usb_endpoints, with the rest of the loop; `fds` are the descriptors
-- that have not been handed over.
abbrev pub install_entry :
    WorkerRecord
    → List ℕ
    → Option ℕ
    → List (Option ℕ)
    → Option VirtualEndpoint
    → Worker (Unit {0})
    → Worker (Unit {0})
install_entry r entry fd fds none rest =
    close_record_fds (record r { fds = fd ∷ fds }) >> die invalid_endpoint_address
install_entry r entry fd fds (some e) rest =
    modify_usb (λ u. record u {
      endpoints = put_endpoint (byte entry 0) (take_entry entry fd e) u.endpoints;
    })
    >> rest

unfoldable pub install_entries : WorkerRecord → List ℕ → List (Option ℕ) → Worker (Unit {0})
install_entries r entries [] = pure tt
install_entries r entries (fd ∷ fds) = λ w.
    install_entry r entries fd fds (free_endpoint w.usb.endpoints (byte entries 0))
      (install_entries r (drop 4 entries) fds) w

unfoldable pub install_usb_endpoints : WorkerRecord → Worker (Unit {0})
install_usb_endpoints r =
    let count = be16 r.body 0 in
    if ltb (length r.body) 2
    then (close_record_fds r >> die invalid_endpoint_map)
    else if not (length r.body == 2 + count * 4 && length r.fds == count)
    then (close_record_fds r >> die endpoint_map_differs)
    else do
      close_usb_endpoints
      install_entries r (drop 2 r.body) r.fds
      modify_usb λ u. record u { generation = r.generation }
