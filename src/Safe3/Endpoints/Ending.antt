-- ===== src/Safe3/Endpoints/Ending.antt =====
-- When stop_endpoint_threads and close_endpoints of platform/safe3/usb_supervisor.c return.
use virtual_trezor.Prelude.{
  ℕ, ◌≡◌, refl, ◌∙◌, Bool, true, false, Option, none, some, List, [], ◌∷◌, map, if◌then◌else◌,
}
use virtual_trezor.Exec.{>>=-done, ◌>>=◌, pure, done}
use virtual_trezor.Safe3.State.{World, Endpoint, Answer, number, call, call_or_die}
use virtual_trezor.Safe3.Endpoints.{
  stop_endpoint, close_endpoint, for_endpoints, stop_endpoint_threads, close_endpoints,
}
use virtual_trezor.Safe3.Endpoints.Closing.{
  stopped, without_fd, closing, stopped_driver, closed_driver, event_fds, data_fds, map-closed,
  data_fds-stopped,
}

-- The answers of pthread_cancel and pthread_join for each running thread, and then `rest`.
abbrev pub joined : List Endpoint → List Answer → List Answer
joined [] rest = rest
joined (e ∷ es) rest =
    if e.thread_running then number 0 ∷ number 0 ∷ joined es rest else joined es rest

stop_endpoint-joined :
    (running : Bool) (o : Option ℕ) (e : Endpoint) (rest : List Answer) (w : World)
    → stop_endpoint
        (record e { thread_running = running; event_fd = o })
        (record w { answers = if running then number 0 ∷ number 0 ∷ rest else rest })
      ≡ done (stopped e) (record w { answers = rest; log = closing o w.log })
unfolding stop_endpoint call_or_die call
stop_endpoint-joined true none e rest w = refl
stop_endpoint-joined true (some fd) e rest w = refl
stop_endpoint-joined false none e rest w = refl
stop_endpoint-joined false (some fd) e rest w = refl

stop_endpoints-joined :
    (es : List Endpoint) (rest : List Answer) (w : World)
    → for_endpoints stop_endpoint es (record w { answers = joined es rest })
      ≡ done (map stopped es) (record w { answers = rest; log = event_fds es w.log })
unfolding for_endpoints
stop_endpoints-joined [] rest w = refl
stop_endpoints-joined (e ∷ es) rest w =
    let v : World = record w { answers = joined es rest; log = closing e.event_fd w.log } in
    >>=-done (stop_endpoint e) (λ e'. for_endpoints stop_endpoint es >>= λ es'. pure (e' ∷ es'))
      (record w { answers = joined (e ∷ es) rest }) v (stopped e)
      (stop_endpoint-joined e.thread_running e.event_fd e (joined es rest) w)
    ∙ >>=-done (for_endpoints stop_endpoint es) (λ es'. pure (stopped e ∷ es')) v
        (record w { answers = rest; log = event_fds (e ∷ es) w.log }) (map stopped es)
        (stop_endpoints-joined es rest v)

-- With the answers of the joins there, stop_endpoint_threads returns.
pub stop_endpoint_threads-joined :
    (rest : List Answer) (w : World)
    → stop_endpoint_threads (record w { answers = joined w.usb.endpoints rest })
      ≡ done tt (record w {
        usb = stopped_driver w.usb;
        answers = rest;
        log = event_fds w.usb.endpoints w.log;
      })
unfolding stop_endpoint_threads
stop_endpoint_threads-joined rest w =
    >>=-done (for_endpoints stop_endpoint w.usb.endpoints) _ _ _ _
      (stop_endpoints-joined w.usb.endpoints rest w)

close_endpoint-without_fd :
    (o : Option ℕ) (e : Endpoint) (w : World)
    → close_endpoint (record e { fd = o }) w
      ≡ done (without_fd e) (record w { log = closing o w.log })
unfolding close_endpoint
close_endpoint-without_fd none e w = refl
close_endpoint-without_fd (some fd) e w = refl

close_each-without_fd :
    (es : List Endpoint) (w : World)
    → for_endpoints close_endpoint es w
      ≡ done (map without_fd es) (record w { log = data_fds es w.log })
unfolding for_endpoints
close_each-without_fd [] w = refl
close_each-without_fd (e ∷ es) w =
    let v : World = record w { log = closing e.fd w.log } in
    >>=-done (close_endpoint e) (λ e'. for_endpoints close_endpoint es >>= λ es'. pure (e' ∷ es')) w
      v (without_fd e) (close_endpoint-without_fd e.fd e w)
    ∙ >>=-done (for_endpoints close_endpoint es) (λ es'. pure (without_fd e ∷ es')) v
        (record w { log = data_fds (e ∷ es) w.log }) (map without_fd es)
        (close_each-without_fd es v)

-- Where pthread_cancel and pthread_join succeed for every running thread, close_endpoints returns, with
-- the driver disabled and every endpoint stopped and without a descriptor, after it has closed every
-- event descriptor and then every FunctionFS descriptor once, in the order of the endpoints.
pub close_endpoints-joined :
    (rest : List Answer) (w : World)
    → close_endpoints (record w { answers = joined w.usb.endpoints rest })
      ≡ done tt (record w {
        usb = closed_driver w.usb;
        answers = rest;
        log = data_fds w.usb.endpoints (event_fds w.usb.endpoints w.log);
      })
unfolding close_endpoints
close_endpoints-joined rest w =
    let w0 : World = record w { usb = record (w.usb) { enabled = false } } in
    let v : World = record w0 {
      usb = stopped_driver w0.usb;
      answers = rest;
      log = event_fds w.usb.endpoints w.log;
    } in
    >>=-done stop_endpoint_threads _ (record w0 { answers = joined w.usb.endpoints rest }) v tt
      (stop_endpoint_threads-joined rest w0)
    ∙ (>>=-done (for_endpoints close_endpoint (map stopped w.usb.endpoints)) _ v _ _
          (close_each-without_fd (map stopped w.usb.endpoints) v)
        ∙ rw
            (
              map-closed w.usb.endpoints,
              data_fds-stopped w.usb.endpoints (event_fds w.usb.endpoints w.log),
            )
            refl)
