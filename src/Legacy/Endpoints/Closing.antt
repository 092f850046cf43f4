-- ===== src/Legacy/Endpoints/Closing.antt =====
-- What stop_endpoint_threads and close_usb_endpoints of platform/raspberry-pi/usb_functionfs.c leave
-- behind.
use virtual_trezor.Prelude.{
  ℕ, ◌≡◌, refl, ◌∙◌, ap, Bool, true, false, Option, none, some, List, [], ◌∷◌, map,
}
use virtual_trezor.Exec.{done, Returns, Returns->>=, ◌>>=◌, pure}
use virtual_trezor.Protocol.{Answer, number, failed, buffer}
use virtual_trezor.Legacy.State.{
  World, Worker, Event, Usb, VirtualEndpoint, Row, closed, call, call_or_die,
}
use virtual_trezor.Legacy.Endpoints.{
  for_rows, past_first, on_out, stop_endpoint, close_endpoint, close_row, stop_endpoint_threads,
  close_usb_endpoints, store_rows,
}

-- What closing a descriptor adds to the log.
abbrev pub closing : Option ℕ → List Event → List Event
closing none log = log
closing (some fd) log = closed fd ∷ log

-- An endpoint whose thread is stopped.
abbrev pub stopped : VirtualEndpoint → VirtualEndpoint
stopped e = record e {
  thread_running = false;
  event_fd = none;
  transfer_data = none;
  read_data = none;
  transfer_length = 0;
  transfer_occupied = false;
}

abbrev pub without_fd : VirtualEndpoint → VirtualEndpoint
without_fd e = record e { functionfs_fd = none }

abbrev pub stopped_row : Row → Row
stopped_row row = record row { out_endpoint = stopped row.out_endpoint }

abbrev pub closed_row : Row → Row
closed_row row = record {
  out_endpoint = without_fd row.out_endpoint;
  in_endpoint = without_fd row.in_endpoint;
}

-- What a loop over rows adds to the log, one row after the other.
unfoldable pub logged : (Row → List Event → List Event) → List Row → List Event → List Event
logged out [] log = log
logged out (row ∷ rows) log = logged out rows (out row log)

abbrev pub after_first : (Row → Row) → List Row → List Row
after_first g [] = []
after_first g (row ∷ rows) = row ∷ map g rows

abbrev pub log_after_first : (Row → List Event → List Event) → List Row → List Event → List Event
log_after_first out [] log = log
log_after_first out (row ∷ rows) log = logged out rows log

-- The variables of the controller are as before, and the log is this.
abbrev Logs : World → List Event → World → Type 0
Logs w log w' = (w'.usb ≡ w.usb) × (w'.log ≡ log)

module _ (f : Row → Worker Row) (g : Row → Row) (out : Row → List Event → List Event)
    (one : (row : Row) (w : World)
      → Returns (f row w) λ r w'. (r ≡ g row) × Logs w (out row w.log) w') where
  for_rows-logged :
      (rows : List Row) (w : World)
      → Returns (for_rows f rows w) λ rs w'. (rs ≡ map g rows) × Logs w (logged out rows w.log) w'
  unfolding for_rows logged
  for_rows-logged [] w = (refl, (refl, refl))
  for_rows-logged (row ∷ rows) w =
      Returns->>= (f row) (λ r. for_rows f rows >>= λ rs. pure (r ∷ rs))
        (λ r v. (r ≡ g row) × Logs w (out row w.log) v)
        (λ rs v. (rs ≡ map g (row ∷ rows)) × Logs w (logged out rows (out row w.log)) v) w
        (one row w)
        λ r v (p, (q, l)).
          Returns->>= (for_rows f rows) (λ rs. pure (r ∷ rs))
            (λ rs x. (rs ≡ map g rows) × Logs v (logged out rows v.log) x)
            (λ rs x. (rs ≡ map g (row ∷ rows)) × Logs w (logged out rows (out row w.log)) x) v
            (for_rows-logged rows v)
            λ rs x (p', (q', l')). (
              let e : (r ∷ rs) ≡ map g (row ∷ rows) = cc in e,
              (q' ∙ q, l' ∙ ap (logged out rows) l),
            )

  past_first-logged :
      (rows : List Row) (w : World)
      → Returns
          (past_first f rows w)
          λ rs w'. (rs ≡ after_first g rows) × Logs w (log_after_first out rows w.log) w'
  past_first-logged [] w = (refl, (refl, refl))
  past_first-logged (row ∷ rows) w =
      Returns->>= (for_rows f rows) (λ rs. pure (row ∷ rs))
        (λ rs v. (rs ≡ map g rows) × Logs w (logged out rows w.log) v)
        (λ rs v. (rs ≡ row ∷ map g rows) × Logs w (logged out rows w.log) v) w
        (for_rows-logged rows w) λ rs v (p, q). (ap (◌∷◌ row) p, q)

stop_endpoint-logged :
    (running : Bool) (fd : Option ℕ) (answers : List Answer) (e : VirtualEndpoint) (w : World)
    → Returns
        (stop_endpoint
          (record e { thread_running = running; event_fd = fd })
          (record w { answers = answers }))
        λ r w'. (r ≡ stopped e) × Logs w (closing fd w.log) w'
unfolding stop_endpoint call_or_die call
stop_endpoint-logged false none answers e w = (refl, (refl, refl))
stop_endpoint-logged false (some fd) answers e w = (refl, (refl, refl))
stop_endpoint-logged true fd [] e w = tt
stop_endpoint-logged true fd (failed x ∷ rest) e w = tt
stop_endpoint-logged true fd (buffer x ∷ rest) e w = tt
stop_endpoint-logged true fd (number n ∷ []) e w = tt
stop_endpoint-logged true fd (number n ∷ failed x ∷ rest) e w = tt
stop_endpoint-logged true fd (number n ∷ buffer x ∷ rest) e w = tt
stop_endpoint-logged true none (number n ∷ number m ∷ rest) e w = (refl, (refl, refl))
stop_endpoint-logged true (some fd) (number n ∷ number m ∷ rest) e w = (refl, (refl, refl))

stop_row-logged :
    (row : Row) (w : World)
    → Returns
        (on_out stop_endpoint row w)
        λ r w'. (r ≡ stopped_row row) × Logs w (closing row.out_endpoint.event_fd w.log) w'
stop_row-logged row w =
    Returns->>= (stop_endpoint row.out_endpoint) (λ e. pure (record row { out_endpoint = e }))
      (λ r v. (r ≡ stopped row.out_endpoint) × Logs w (closing row.out_endpoint.event_fd w.log) v)
      (λ r v. (r ≡ stopped_row row) × Logs w (closing row.out_endpoint.event_fd w.log) v) w
      (stop_endpoint-logged row.out_endpoint.thread_running row.out_endpoint.event_fd w.answers
        row.out_endpoint w)
      λ r v (p, q). (ap (λ e. record row { out_endpoint = e }) p, q)

-- The event descriptors of the OUT endpoints, and all FunctionFS descriptors, OUT first.
abbrev pub event_fds : Row → List Event → List Event
event_fds row log = closing row.out_endpoint.event_fd log

abbrev pub data_fds : Row → List Event → List Event
data_fds row log =
    closing row.in_endpoint.functionfs_fd (closing row.out_endpoint.functionfs_fd log)

close_row-logged :
    (o i : Option ℕ) (row : Row) (w : World)
    → Returns
        (close_row
          (record {
            out_endpoint = record (row.out_endpoint) { functionfs_fd = o };
            in_endpoint = record (row.in_endpoint) { functionfs_fd = i };
          })
          w)
        λ r w'. (r ≡ closed_row row) × Logs w (closing i (closing o w.log)) w'
unfolding close_row close_endpoint
close_row-logged none none row w = (refl, (refl, refl))
close_row-logged none (some i) row w = (refl, (refl, refl))
close_row-logged (some o) none row w = (refl, (refl, refl))
close_row-logged (some o) (some i) row w = (refl, (refl, refl))

-- The controller with its threads stopped.
abbrev pub stopped_usb : Usb → Usb
stopped_usb u = record u { endpoints = after_first stopped_row u.endpoints }

pub stop_endpoint_threads-logged :
    (w : World)
    → Returns (stop_endpoint_threads w) λ _ w'.
      (w'.usb ≡ stopped_usb w.usb) × (w'.log ≡ log_after_first event_fds w.usb.endpoints w.log)
unfolding stop_endpoint_threads
stop_endpoint_threads-logged w =
    Returns->>= (past_first (on_out stop_endpoint) w.usb.endpoints)
      (λ rows v. done tt (record v { usb = record (v.usb) { endpoints = rows } }))
      (λ rs v.
        (rs ≡ after_first stopped_row w.usb.endpoints)
        × Logs w (log_after_first event_fds w.usb.endpoints w.log) v)
      (λ _ v.
        (v.usb ≡ stopped_usb w.usb) × (v.log ≡ log_after_first event_fds w.usb.endpoints w.log))
      w
      (past_first-logged (on_out stop_endpoint) stopped_row event_fds stop_row-logged
        w.usb.endpoints w)
      λ rs v (p, (q, l)). (λ i. record (q i) { endpoints = p i }, l)

-- The controller with its endpoints closed: it is disabled, and past the first row no endpoint has a
-- thread, an event descriptor, a packet or a FunctionFS descriptor.
abbrev pub closed_usb : Usb → Usb
closed_usb u = record u {
  usb_enabled = false;
  endpoints = after_first (λ row. closed_row (stopped_row row)) u.endpoints;
}

after_first-both :
    (rows : List Row)
    → after_first closed_row (after_first stopped_row rows)
      ≡ after_first (λ row. closed_row (stopped_row row)) rows
after_first-both [] = refl
after_first-both (row ∷ rows) = ap (◌∷◌ row) (map-both rows)
  where
    map-both :
        (rows : List Row)
        → map closed_row (map stopped_row rows) ≡ map (λ row. closed_row (stopped_row row)) rows
    map-both [] = refl
    map-both (row ∷ rows) = ap (◌∷◌ (closed_row (stopped_row row))) (map-both rows)

logged-stopped :
    (rows : List Row) (log : List Event)
    → logged data_fds (map stopped_row rows) log ≡ logged data_fds rows log
unfolding logged
logged-stopped [] log = refl
logged-stopped (row ∷ rows) log = logged-stopped rows (data_fds row log)

data_fds-stopped :
    (rows : List Row) (log : List Event)
    → log_after_first data_fds (after_first stopped_row rows) log
      ≡ log_after_first data_fds rows log
data_fds-stopped [] log = refl
data_fds-stopped (row ∷ rows) log = logged-stopped rows log

-- Whenever close_usb_endpoints returns, the controller is the closed one and nothing else of it has
-- changed; and it has closed the event descriptor of each OUT endpoint and then the FunctionFS
-- descriptors of each row, OUT before IN, each once and in the order of the table.
pub close_usb_endpoints-logged :
    (w : World)
    → Returns (close_usb_endpoints w) λ _ w'.
      (w'.usb ≡ closed_usb w.usb)
      × (w'.log
          ≡ log_after_first data_fds w.usb.endpoints
              (log_after_first event_fds w.usb.endpoints w.log))
unfolding close_usb_endpoints
close_usb_endpoints-logged w =
    let w0 : World = record w { usb = record (w.usb) { usb_enabled = false } } in
    let events = log_after_first event_fds w.usb.endpoints w.log in
    let all_closed = λ (_ : Unit {0}) (x : World).
      (x.usb ≡ closed_usb w.usb) × (x.log ≡ log_after_first data_fds w.usb.endpoints events) in
    Returns->>= stop_endpoint_threads
      (λ _ v. (past_first close_row v.usb.endpoints >>= store_rows) v)
      (λ _ v. (v.usb ≡ stopped_usb w0.usb) × (v.log ≡ events)) all_closed w0
      (stop_endpoint_threads-logged w0)
      λ _ v (p, l).
        Returns->>= (past_first close_row v.usb.endpoints) store_rows
          (λ rs x.
            (rs ≡ after_first closed_row v.usb.endpoints)
            × Logs v (log_after_first data_fds v.usb.endpoints v.log) x)
          all_closed v
          (past_first-logged close_row closed_row data_fds
            (λ row x.
              close_row-logged row.out_endpoint.functionfs_fd row.in_endpoint.functionfs_fd row x)
            v.usb.endpoints v)
          λ rs x (r, (q, m)).
            let rows : rs ≡ after_first (λ row. closed_row (stopped_row row)) w.usb.endpoints =
              r
              ∙ ap (λ (u : Usb). after_first closed_row u.endpoints) p
              ∙ after_first-both w.usb.endpoints in
            let all : x.usb ≡ stopped_usb w0.usb = q ∙ p in
            let log : log_after_first data_fds v.usb.endpoints v.log
                ≡ log_after_first data_fds (after_first stopped_row w.usb.endpoints) events =
              λ i. log_after_first data_fds ((p i).endpoints) (l i) in
            (
              λ i. record (all i) { endpoints = rows i },
              m ∙ log ∙ data_fds-stopped w.usb.endpoints events,
            )
