-- ===== src/Safe3/Invariant/Serving.antt =====
-- The event loop of platform/safe3/usb_supervisor.c keeps the driver sound.
use virtual_trezor.Prelude.{
  ℕ, ◌≡◌, ◌∙◌, Bool, true, false, not, ◌&&◌, Option, none, some, List, [], ◌∷◌, length, ◌==◌, ◌!=◌,
  ◌%◌, ◌/◌, drop, if◌then◌else◌,
}
use virtual_trezor.Bytes.{byte}
use virtual_trezor.Exec.{Outcome, Returns, ◌>>=◌, pure, die, exited}
use virtual_trezor.Safe3.State.{
  World, Fault, Driver, Interface, WorkerRecord, Answer, number, buffer, failed, interrupted,
  would_block, generation_over, other_errno, call, call_or_die, modify_usb,
  allocate_control_response, kind_usb_control_response, kind_usb_bus_event,
  kind_usb_control_request, kind_quiesce, kind_quiesced, unexpected_runtime_record,
  reconnect_poll_event, insertion_rejected, button_poll_event, invalid_control_request,
  control_data_mismatch,
}
use virtual_trezor.Safe3.Records.{receive_record, send_record, close_record_fds}
use virtual_trezor.Safe3.Endpoints.{get_usb, close_endpoints}
use virtual_trezor.Safe3.Bus.{Platform}
use virtual_trezor.Safe3.Configure.{configure_until_endpoints}
use virtual_trezor.Safe3.Control.{
  Reply, stall, acknowledge, respond, control_reply, read_setup, request_is_valid,
  send_control_response, send_reply, answer_control_request,
}
use virtual_trezor.Safe3.Control.Replies.{
  KeepsSlots, KeepsSlots-acknowledged, control_reply-KeepsSlots,
}
use virtual_trezor.Safe3.Service.{
  runtime_quiesce, handle_runtime_record, refresh_reconnect_state, drain_button_interrupts,
  take_notifications, insert, follow_reconnect, service_ready, service_polled, service_controller,
  ready_endpoints, remaining_ms, woken, wait_for, virtual_trezor_wait_for_interrupt,
}
use virtual_trezor.Safe3.Keeps.{
  Keeps-call_or_die, Keeps-take_notifications, Keeps-refresh_reconnect_state,
  Keeps-drain_button_interrupts,
}
use virtual_trezor.Safe3.Invariant.{
  IsSound, Sound, Preserves, Preserves->>=, Preserves-if, Preserves-die, Preserves-modify,
  Keeps→Preserves, preserved, Preserves-at,
}
use virtual_trezor.Safe3.Invariant.BusEvents.{Preserves-handle_bus_event}
use virtual_trezor.Safe3.Invariant.Exchanges.{
  Keeps-call, Preserves-get_usb, Preserves-send_record, Preserves-receive_record,
  Preserves-close_endpoints, Preserves-configure_until_endpoints, Preserves-unconfigure,
}

Preserves-send_control_response :
    (request_id disposition : ℕ) (response : List ℕ)
    → Preserves (send_control_response request_id disposition response)
unfolding send_control_response
Preserves-send_control_response request_id disposition response =
    Preserves->>= (call_or_die allocate_control_response) _
      (Keeps→Preserves (call_or_die allocate_control_response) (Keeps-call_or_die _))
      λ _. Preserves->>= get_usb _ Preserves-get_usb λ u.
        Preserves-send_record kind_usb_control_response u.generation request_id
          (disposition ∷ response)

set_interfaces-IsSound :
    (interfaces : List Interface) (u : Driver)
    → length interfaces ≡ length u.interfaces
    → IsSound u
    → IsSound (record u { interfaces = interfaces })
set_interfaces-IsSound interfaces u l s = record {
  rows = s.rows;
  slots = l ∙ s.slots;
  parked = s.parked;
  served = s.served;
}

send_reply-Sound :
    (request_id requested : ℕ) (reply : Reply) (w : World)
    → KeepsSlots (length w.usb.interfaces) reply
    → Returns (send_reply request_id requested reply w) λ _ w'. Sound w w'
unfolding send_reply
send_reply-Sound request_id requested stall w h = Preserves-send_control_response request_id 0 [] w
send_reply-Sound request_id requested (respond response) w h =
    Preserves-send_control_response request_id 2 _ w
send_reply-Sound request_id requested (acknowledge interfaces) w h =
    let w0 : World = record w { usb = record (w.usb) { interfaces = interfaces } } in
    preserved (send_control_response request_id 1 [] w0) w λ s.
      Preserves-at (send_control_response request_id 1 []) w0
        (Preserves-send_control_response request_id 1 [])
        (set_interfaces-IsSound interfaces w.usb (KeepsSlots-acknowledged _ interfaces h) s)

Preserves-answer_control_request : (r : WorkerRecord) → Preserves (answer_control_request r)
unfolding answer_control_request
Preserves-answer_control_request r w = by_guards (request_is_valid w.usb r) _
  where
    by_guards :
        (valid match : Bool)
        → Returns
            ((if not valid
                then die invalid_control_request
                else if not match
                then die control_data_mismatch
                else send_reply r.request_id
                    (read_setup r.body).requested
                    (control_reply w.usb (read_setup r.body)))
              w)
            λ _ w'. Sound w w'
    by_guards false match = tt
    by_guards true false = tt
    by_guards true true =
        send_reply-Sound r.request_id (read_setup r.body).requested _ w
          (control_reply-KeepsSlots w.usb (read_setup r.body))

Preserves-runtime_quiesce : (r : WorkerRecord) → Preserves (runtime_quiesce r)
unfolding runtime_quiesce
Preserves-runtime_quiesce r = Preserves->>= close_endpoints _ Preserves-close_endpoints λ _.
    Preserves->>= get_usb _ Preserves-get_usb λ u.
      Preserves->>= (send_record kind_quiesced u.generation r.request_id []) _
        (Preserves-send_record kind_quiesced u.generation r.request_id [])
        λ _. Preserves-if (r.request_id == 0) exited (pure tt) (λ _. tt) (λ _ q. q)

Preserves-handle_runtime_record :
    (p : Platform) (r : WorkerRecord) → Preserves (handle_runtime_record p r)
unfolding handle_runtime_record
Preserves-handle_runtime_record p r = Preserves->>= get_usb _ Preserves-get_usb λ u.
    Preserves-if (r.kind == kind_usb_bus_event) _ _ (Preserves-handle_bus_event p r) (
      Preserves-if (r.kind == kind_usb_control_request) _ _ (Preserves-answer_control_request r) (
        Preserves-if
          (r.kind == kind_quiesce
            && r.generation == u.generation
            && length r.body == 0
            && length r.fds == 0)
          _ _ (Preserves-runtime_quiesce r)
          (Preserves-die (Unit {0}) (close_record_fds r) unexpected_runtime_record)))

set_inserted-IsSound : (u : Driver) → IsSound u → IsSound (record u { ejected = false })
set_inserted-IsSound u s = record {
  rows = s.rows;
  slots = s.slots;
  parked = s.parked;
  served = s.served;
}

Preserves-insert : Preserves insert
unfolding insert
Preserves-insert =
    Preserves->>= (configure_until_endpoints false) _ (Preserves-configure_until_endpoints false)
      λ accepted.
        Preserves-if accepted (modify_usb (λ u. record u { ejected = false }))
          (die insertion_rejected) (Preserves-modify _ set_inserted-IsSound) (λ _. tt)

Sound-if :
    (w : World) (b : Bool) (x y : Outcome Fault World (Unit {0}))
    → Returns x (λ _ w'. Sound w w')
    → Returns y (λ _ w'. Sound w w')
    → Returns (if b then x else y) λ _ w'. Sound w w'
Sound-if w true x y h k = h
Sound-if w false x y h k = k

Preserves-follow_reconnect : (ready revents : List ℕ) → Preserves (follow_reconnect ready revents)
unfolding follow_reconnect
Preserves-follow_reconnect ready revents w =
    Sound-if w (w.reconnect_pressed && w.usb.started && not w.usb.ejected) _ _
      (Preserves-unconfigure w)
      (Sound-if w (not w.reconnect_pressed && w.usb.started && w.usb.ejected) _ _
        (Preserves-insert w)
        (Keeps→Preserves (take_notifications ready revents) (Keeps-take_notifications ready revents)
          w))

Preserves-service_ready :
    (p : Platform) (ready revents : List ℕ) → Preserves (service_ready p ready revents)
unfolding service_ready
Preserves-service_ready p ready revents =
    Preserves->>=
      (if byte revents 0 != 0 then (receive_record true >>= handle_runtime_record p) else pure tt) _
      (Preserves-if (byte revents 0 != 0) _ _
        (Preserves->>= (receive_record true) _ (Preserves-receive_record true)
          (Preserves-handle_runtime_record p))
        (λ _ q. q))
      λ _.
        Preserves->>= (if byte revents 1 % 2 == 1 then refresh_reconnect_state p else pure tt) _
          (Preserves-if (byte revents 1 % 2 == 1) _ _
            (Keeps→Preserves (refresh_reconnect_state p) (Keeps-refresh_reconnect_state p))
            (λ _ q. q))
          λ _.
            Preserves-if (byte revents 1 / 2 != 0) (die reconnect_poll_event)
              (follow_reconnect ready (drop 2 revents)) (λ _. tt)
              (Preserves-follow_reconnect ready (drop 2 revents))

Preserves-service_polled :
    (p : Platform) (ready : List ℕ) (a : Answer) → Preserves (service_polled p ready a)
Preserves-service_polled p ready (buffer revents) = Preserves-service_ready p ready revents
Preserves-service_polled p ready (number n) = Preserves-service_ready p ready []
Preserves-service_polled p ready (failed interrupted) = λ _ q. q
Preserves-service_polled p ready (failed would_block) = λ _. tt
Preserves-service_polled p ready (failed generation_over) = λ _. tt
Preserves-service_polled p ready (failed other_errno) = λ _. tt

-- A pass of the event loop that returns, whatever records, button events and notifications it
-- finds, leaves a sound driver sound.
pub Preserves-service_controller : (p : Platform) → Preserves (service_controller p)
unfolding service_controller
Preserves-service_controller p = Preserves->>= get_usb _ Preserves-get_usb λ u.
    Preserves->>= call _ (Keeps→Preserves call Keeps-call)
      λ a. Preserves-service_polled p (ready_endpoints u) a

Preserves-woken : (p : Platform) (a : Answer) → Preserves (woken p a)
Preserves-woken p (number n) = λ _ q. q
Preserves-woken p (failed interrupted) = λ _ q. q
Preserves-woken p (failed would_block) = λ _. tt
Preserves-woken p (failed generation_over) = λ _. tt
Preserves-woken p (failed other_errno) = λ _. tt
Preserves-woken p (buffer revents) =
    Preserves->>= (if byte revents 2 % 2 == 1 then drain_button_interrupts p else pure tt) _
      (Preserves-if (byte revents 2 % 2 == 1) _ _
        (Keeps→Preserves (drain_button_interrupts p) (Keeps-drain_button_interrupts p)) (λ _ q. q))
      λ _.
        Preserves->>= (if byte revents 2 / 2 != 0 then die button_poll_event else pure tt) _
          (Preserves-if (byte revents 2 / 2 != 0) (die button_poll_event) (pure tt) (λ _. tt)
            (λ _ q. q))
          λ _. Preserves-service_controller p

wait-Sound : (p : Platform) (o : Option ℕ) → Preserves (wait_for p o)
wait-Sound p none = λ _ q. q
wait-Sound p (some remaining) =
    Preserves->>= call _ (Keeps→Preserves call Keeps-call) (Preserves-woken p)

-- A wait that returns leaves a sound driver sound.
pub Preserves-wait :
    (p : Platform) (deadline now : ℕ) → Preserves (virtual_trezor_wait_for_interrupt p deadline now)
unfolding virtual_trezor_wait_for_interrupt
Preserves-wait p deadline now = wait-Sound p (remaining_ms deadline now)
