-- ===== src/Safe3/Endpoints/Closing.antt =====
-- What stop_endpoint_threads and close_endpoints of platform/safe3/usb_supervisor.c do: the state
-- that they leave, and every descriptor that they close.
use virtual_trezor.Prelude.{
  ℕ, ◌≡◌, refl, ◌∙◌, ap, false, Option, none, some, List, [], ◌∷◌, map, arith, if◌then◌else◌,
  Bool-cases, inl, inr,
}
use virtual_trezor.Exec.{Returns, Returns->>=, ◌>>=◌, pure}
use virtual_trezor.Safe3.State.{
  World, Worker, Fault, Driver, Endpoint, Answer, Event, closed, number, failed, buffer, call,
  call_or_die, close_fd, stop_endpoint_thread,
}
use virtual_trezor.Safe3.Endpoints.{
  stop_endpoint, close_endpoint, for_endpoints, stop_endpoint_threads, close_endpoints,
}

abbrev pub stopped : Endpoint → Endpoint
stopped e = record e {
  thread_running = false;
  event_fd = none;
  packet = none;
  read_buffer = none;
  packet_length = 0;
  occupied = false;
}

abbrev pub without_fd : Endpoint → Endpoint
without_fd e = record e { fd = none }

-- The log when a descriptor, if it is one, has been closed.
abbrev pub closing : Option ℕ → List Event → List Event
closing none log = log
closing (some fd) log = closed fd ∷ log

-- The log when that has been done for every endpoint in turn.
abbrev pub closings : (Endpoint → Option ℕ) → List Endpoint → List Event → List Event
closings d [] log = log
closings d (e ∷ es) log = closings d es (closing (d e) log)

-- Only the answers have changed.
abbrev pub SameBut : World → World → Type 0
SameBut w w' = (rest : List Answer) × (w' ≡ record w { answers = rest })

pub call_or_die-SameBut : (e : Fault) (w : World) → Returns (call_or_die e w) λ n w'. SameBut w w'
unfolding call_or_die
call_or_die-SameBut e w = by_answers w.answers refl
  where
    by_answers :
        (next : List Answer) → w.answers ≡ next → Returns (call_or_die e w) λ n w'. SameBut w w'
    by_answers [] p = rw (p, call_or_die, call) tt
    by_answers (number n ∷ rest) p = rw (p, call_or_die, call) (rest, refl)
    by_answers (failed errno ∷ rest) p = rw (p, call_or_die, call) tt
    by_answers (buffer bytes ∷ rest) p = rw (p, call_or_die, call) tt

pub close_fd-closing :
    (fd : Option ℕ) (w : World)
    → Returns (close_fd fd w) λ _ w'. w' ≡ record w { log = closing fd w.log }
close_fd-closing none w = refl
close_fd-closing (some n) w = refl

-- A round that leaves the endpoint `g e` and closes the descriptor `d e`.
abbrev Leaves :
    (Endpoint → Worker Endpoint) → (Endpoint → Endpoint) → (Endpoint → Option ℕ) → Type 0
Leaves f g d =
    (e : Endpoint) (w : World)
    → Returns (f e w) λ e' w'.
      (rest : List Answer) × (e' ≡ g e)
      × (w' ≡ record w { answers = rest; log = closing (d e) w.log })

stop_thread : Endpoint → Worker (Unit {0})
stop_thread e =
    if e.thread_running
    then (call_or_die stop_endpoint_thread >>= λ _.
        call_or_die stop_endpoint_thread >>= λ _. pure tt)
    else pure tt

stop_thread-SameBut : (e : Endpoint) (w : World) → Returns (stop_thread e w) λ _ w'. SameBut w w'
unfolding stop_thread
stop_thread-SameBut e w = elim (Bool-cases e.thread_running) [
  | inr off ↦ rw off (w.answers, refl)
  | inl on ↦ rw on (
      Returns->>= (call_or_die stop_endpoint_thread) _ (λ _ w'. SameBut w w') _ w
        (call_or_die-SameBut _ w)
        λ _ v (rest, p).
          Returns->>= (call_or_die stop_endpoint_thread) _ (λ _ w'. SameBut v w') _ v
            (call_or_die-SameBut _ v)
            λ _ x (more, q). (more, q ∙ ap {A = World} (λ y. record y { answers = more }) p))
]

pub stop_endpoint-Leaves : Leaves stop_endpoint stopped (λ e. e.event_fd)
unfolding stop_endpoint stop_thread
stop_endpoint-Leaves e w =
    Returns->>= (stop_thread e) _ (λ _ w'. SameBut w w') _ w (stop_thread-SameBut e w)
      λ _ v (rest, p).
        Returns->>= (close_fd e.event_fd) _ _ _ v (close_fd-closing e.event_fd v) λ _ x q.
          (rest, refl, q ∙ ap {A = World} (λ y. record y { log = closing e.event_fd y.log }) p)

pub close_endpoint-Leaves : Leaves close_endpoint without_fd (λ e. e.fd)
unfolding close_endpoint
close_endpoint-Leaves e w =
    Returns->>= (close_fd e.fd) _ _ _ w (close_fd-closing e.fd w) λ _ x q. (w.answers, refl, q)

pub for_endpoints-Leaves :
    (f : Endpoint → Worker Endpoint) (g : Endpoint → Endpoint) (d : Endpoint → Option ℕ)
    → Leaves f g d
    → (es : List Endpoint) (w : World)
    → Returns (for_endpoints f es w) λ es' w'.
      (rest : List Answer) × (es' ≡ map g es)
      × (w' ≡ record w { answers = rest; log = closings d es w.log })
unfolding for_endpoints
for_endpoints-Leaves f g d h [] w = (w.answers, refl, refl)
for_endpoints-Leaves f g d h (e ∷ es) w = Returns->>= (f e) _ _ _ w (h e w) λ e' v (rest, p, q).
    Returns->>= (for_endpoints f es) _ _ _ v (for_endpoints-Leaves f g d h es v)
      λ es' x (more, r, t). (
        more,
        ground (arith, p, r),
        t ∙ ap {A = World} (λ y. record y { answers = more; log = closings d es y.log }) q,
      )

-- The driver when its endpoints have been stopped, and when they have been closed.
abbrev pub stopped_driver : Driver → Driver
stopped_driver u = record u { endpoints = map stopped u.endpoints }

abbrev pub closed_endpoint : Endpoint → Endpoint
closed_endpoint e = record (stopped e) { fd = none }

abbrev pub closed_driver : Driver → Driver
closed_driver u = record u { enabled = false; endpoints = map closed_endpoint u.endpoints }

abbrev pub event_fds : List Endpoint → List Event → List Event
event_fds = closings λ e. e.event_fd

abbrev pub data_fds : List Endpoint → List Event → List Event
data_fds = closings λ e. e.fd

pub data_fds-stopped :
    (es : List Endpoint) (log : List Event) → data_fds (map stopped es) log ≡ data_fds es log
data_fds-stopped [] log = refl
data_fds-stopped (e ∷ es) log = data_fds-stopped es (closing e.fd log)

pub map-closed : (es : List Endpoint) → map without_fd (map stopped es) ≡ map closed_endpoint es
map-closed [] = refl
map-closed (e ∷ es) = ap (◌∷◌ (closed_endpoint e)) (map-closed es)

-- stop_endpoint_threads, if it returns, closes every event descriptor once, in the order of the
-- endpoints, stops every thread and empties every slot; it leaves the FunctionFS descriptors and
-- all else alone.
pub stop_endpoint_threads_lem :
    (w : World)
    → Returns (stop_endpoint_threads w) λ _ w'.
      (rest : List Answer) × (w' ≡ record w {
        usb = stopped_driver w.usb;
        answers = rest;
        log = event_fds w.usb.endpoints w.log;
      })
unfolding stop_endpoint_threads
stop_endpoint_threads_lem w =
    Returns->>= (for_endpoints stop_endpoint w.usb.endpoints) _ _ _ w
      (for_endpoints-Leaves stop_endpoint stopped (λ e. e.event_fd) stop_endpoint-Leaves
        w.usb.endpoints w)
      λ es v (rest, p, q). (rest, rw (p, q))

-- close_endpoints, if it returns, disables the driver, closes every event descriptor and then every
-- FunctionFS descriptor once, in the order of the endpoints, and leaves every endpoint stopped and
-- without a descriptor; nothing else changes.
pub close_endpoints_lem :
    (w : World)
    → Returns (close_endpoints w) λ _ w'.
      (rest : List Answer) × (w' ≡ record w {
        usb = closed_driver w.usb;
        answers = rest;
        log = data_fds w.usb.endpoints (event_fds w.usb.endpoints w.log);
      })
unfolding close_endpoints
close_endpoints_lem w =
    let w0 : World = record w { usb = record (w.usb) { enabled = false } } in
    Returns->>= stop_endpoint_threads _ _ _ w0 (stop_endpoint_threads_lem w0) λ _ v (rest, p).
      Returns->>= (for_endpoints close_endpoint v.usb.endpoints) _ _ _ v
        (for_endpoints-Leaves close_endpoint without_fd (λ e. e.fd) close_endpoint-Leaves
          v.usb.endpoints v)
        λ es x (more, q, r).
          (more, rw (r, q, p) (rw (map-closed w.usb.endpoints, data_fds-stopped w.usb.endpoints)))
