-- ===== src/Safe3/Invariant/BusEvents.antt =====
-- handle_bus_event of platform/safe3/usb_supervisor.c keeps the driver sound.
use virtual_trezor.Prelude.{
  ℕ, ◌≡◌, refl, ◌∙◌, ap, Bool, true, false, ◌&&◌, ◌||◌, All, length, drop, ◌==◌, ◌!=◌,
}
use virtual_trezor.Bytes.{byte}
use virtual_trezor.Exec.{Returns, Returns->>=, Returns_imp}
use virtual_trezor.Safe3.State.{World, Driver, WorkerRecord, modify_usb}
use virtual_trezor.Safe3.Endpoints.{
  get_usb, start_endpoints, start_endpoint_threads, stop_endpoint_threads,
}
use virtual_trezor.Safe3.Bus.{
  Platform, bus_disable, enable_unless, bus_enable, bus_event, handle_bus_event,
}
use virtual_trezor.Safe3.Invariant.{
  IsServed, IsSound, IsParked, Preserves, Preserves->>=, Preserves-if, Preserves-modify,
  stopped-IsParked, stop-IsParked, preserved,
}
use virtual_trezor.Safe3.Invariant.Installing.{start_endpoints-IsServed}

Preserves-bus_disable : Preserves bus_disable
unfolding bus_disable
Preserves-bus_disable w = preserved (bus_disable w) w λ s.
    let w0 : World = record w { usb = record (w.usb) { enabled = false; suspended = false } } in
    Returns_imp (λ _ w'. IsParked w'.usb) (λ _ w'. IsSound w'.usb) (stop_endpoint_threads w0)
      (λ _ _ q. q.0) (stop-IsParked w0 (stopped-IsParked w0.usb s.rows s.slots refl))

start_endpoint_threads-IsServed :
    (w : World)
    → Returns (start_endpoint_threads w) λ _ w'.
      All IsServed w'.usb.endpoints
      × (length w'.usb.endpoints ≡ length w.usb.endpoints)
      × (w'.usb ≡ record (w.usb) { endpoints = w'.usb.endpoints })
unfolding start_endpoint_threads
start_endpoint_threads-IsServed w =
    Returns->>= (start_endpoints false w.usb.endpoints) _ _ _ w
      (start_endpoints-IsServed false w.usb.endpoints w)
      λ es v (all, l, p). (all, l, ap {A = Driver} (λ u. record u { endpoints = es }) p)

Preserves-enable :
    (on : Bool) (w : World)
    → w.usb.enabled ≡ on
    → IsSound w.usb
    → Returns (enable_unless on w) λ _ w'. IsSound w'.usb
Preserves-enable true w p s = s
Preserves-enable false w p s =
    Returns->>= start_endpoint_threads (λ _. modify_usb (λ u. record u { enabled = true })) _
      (λ _ w'. IsSound w'.usb) w (start_endpoint_threads-IsServed w)
      λ _ v (all, l, q). record {
        rows = l ∙ s.rows;
        slots = ap {A = Driver} (λ u. length u.interfaces) q ∙ s.slots;
        parked = λ off. absurd (cc);
        served = λ _. all;
      }

set_suspended-IsSound : (b : Bool) (u : Driver) → IsSound u → IsSound (record u { suspended = b })
set_suspended-IsSound b u s = record {
  rows = s.rows;
  slots = s.slots;
  parked = s.parked;
  served = s.served;
}

Preserves-bus_enable : Preserves bus_enable
unfolding bus_enable
Preserves-bus_enable w = preserved (bus_enable w) w λ s.
    Returns->>= (enable_unless w.usb.enabled)
      (λ _. modify_usb (λ u. record u { suspended = false })) (λ _ v. IsSound v.usb)
      (λ _ v. IsSound v.usb) w (Preserves-enable w.usb.enabled w refl s)
      (λ _ v q. set_suspended-IsSound false v.usb q)

Preserves-bus_event : (code : ℕ) → Preserves (bus_event code)
unfolding bus_event
Preserves-bus_event code =
    Preserves-if (code == 0 || code == 1 || code == 3) _ _ Preserves-bus_disable (
      Preserves-if (code == 2) _ _ Preserves-bus_enable (
        Preserves-if (code == 5) _ _ (Preserves-modify _ (set_suspended-IsSound true)) (
          Preserves-if (code == 6) _ _ (Preserves-modify _ (set_suspended-IsSound false))
            (λ _. tt))))

set_activation-IsSound : (n : ℕ) (u : Driver) → IsSound u → IsSound (record u { activation = n })
set_activation-IsSound n u s = record {
  rows = s.rows;
  slots = s.slots;
  parked = s.parked;
  served = s.served;
}

-- Every bus event keeps the driver sound.
pub Preserves-handle_bus_event :
    (p : Platform) (r : WorkerRecord) → Preserves (handle_bus_event p r)
unfolding handle_bus_event
Preserves-handle_bus_event p r =
    Preserves->>= get_usb _ (λ w q. q)
      λ u.
        Preserves-if {A = Unit {0}}
          (r.generation != u.generation
            || r.request_id != 0
            || length r.body != p.bus_event_body_length
            || length r.fds != 0)
          _ _ (λ _. tt)
          (Preserves-if
            ((byte r.body 0 == 5 || byte r.body 0 == 6)
              && p.read_be64 (drop 1 r.body) != u.activation)
            _ _ (λ _. tt)
            (Preserves->>= (modify_usb _) _
              (Preserves-modify _ (set_activation-IsSound (p.read_be64 (drop 1 r.body))))
              λ _. Preserves-bus_event (byte r.body 0)))
