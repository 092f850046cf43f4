-- ===== src/Safe3/Invariant/Lifecycle.antt =====
-- The handlers that Core calls to set the device up and to take it down, in
-- platform/safe3/usb_supervisor.c, keep the driver sound.
use virtual_trezor.Prelude.{
  ℕ, suc, ◌≡◌, refl, ◌∙◌, ap, Bool, true, false, not, ◌&&◌, Option, none, some, List, [], ◌∷◌,
  length, All, ◌!=◌, inl, is_some, if◌then◌else◌, subst, sym,
}
use virtual_trezor.Exec.{Returns, Returns->>=, ◌>>=◌, ◌>>◌, pure}
use virtual_trezor.Safe3.State.{
  World, Worker, Event, Driver, DeviceInfo, Endpoint, Interface, call, call_or_die, emit,
  modify_usb, registered, unregistered, built_serial_number, built_webusb, built_device,
  freed_personality, initialize_synchronization, kind_configure,
}
use virtual_trezor.Safe3.Records.{send_record}
use virtual_trezor.Safe3.Endpoints.{
  get_usb, is_disabled, for_endpoints, store_endpoints, stop_endpoint_threads,
}
use virtual_trezor.Safe3.Configure.{next_request_id, configure_until_endpoints}
use virtual_trezor.Safe3.Lifecycle.{
  Core, attempt, initialize_slot, init_endpoint, announce, init_driver, personality_device,
  expect_pointer, usb_init, unregister_all, usb_stop, usb_deinit,
}
use virtual_trezor.Safe3.Starting.{
  StartParams, params_are_current, apply_params, register_all, landing_url, begin_serving,
  usb_start,
}
use virtual_trezor.Safe3.Keeps.{Keeps, Keeps->>=, Keeps-if, Keeps-call_or_die}
use virtual_trezor.Safe3.Invariant.{
  IsQuiet, IsServed, IsSound, IsParked, Preserves, Preserves->>=, Preserves-if, Preserves-modify,
  Keeps→Preserves, stopped-IsParked, stop-IsParked, preserved, Preserves-at, Preserves-at,
}
use virtual_trezor.Safe3.Invariant.Installing.{SameUsb_then}
use virtual_trezor.Safe3.Invariant.Exchanges.{
  Keeps-call, Preserves-get_usb, Preserves-next_request_id, Preserves-send_record,
  Preserves-configure_until_endpoints,
}

pub Keeps-attempt : (event : Event) → Keeps (attempt event)
unfolding attempt
Keeps-attempt event = Keeps->>= call _ Keeps-call λ a w. refl

pub Keeps-unregister_all : (is : List Interface) → Keeps (unregister_all is)
unfolding unregister_all
Keeps-unregister_all [] = λ w. refl
Keeps-unregister_all (i ∷ is) =
    Keeps->>= (if is_disabled i.interface_type then pure tt else emit (unregistered i.handle)) _
      (Keeps-if (is_disabled i.interface_type) (pure tt) _ (λ _. refl) (λ _. refl))
      λ _. Keeps-unregister_all is

Keeps-register_all : (is : List Interface) → Keeps (register_all is)
unfolding register_all
Keeps-register_all [] = λ w. refl
Keeps-register_all (i ∷ is) = Keeps-if (is_disabled i.interface_type) _ _ (Keeps-register_all is) (
    Keeps->>= (attempt (registered i.handle)) _ (Keeps-attempt _)
      λ ok. Keeps-if ok _ (pure false) (Keeps-register_all is) (λ _. refl))

-- Fields that the invariant does not read.
pub set_started-IsSound : (b : Bool) (u : Driver) → IsSound u → IsSound (record u { started = b })
set_started-IsSound b u s = record {
  rows = s.rows;
  slots = s.slots;
  parked = s.parked;
  served = s.served;
}

set_initialized-IsSound :
    (b : Bool) (u : Driver) → IsSound u → IsSound (record u { initialized = b })
set_initialized-IsSound b u s = record {
  rows = s.rows;
  slots = s.slots;
  parked = s.parked;
  served = s.served;
}

set_device-IsSound : (d : DeviceInfo) (u : Driver) → IsSound u → IsSound (record u { device = d })
set_device-IsSound d u s = record {
  rows = s.rows;
  slots = s.slots;
  parked = s.parked;
  served = s.served;
}

set_personality-IsSound :
    (o : Option ℕ) (u : Driver) → IsSound u → IsSound (record u { personality = o })
set_personality-IsSound o u s = record {
  rows = s.rows;
  slots = s.slots;
  parked = s.parked;
  served = s.served;
}

apply_params-IsSound :
    (c : Core) (params : Option StartParams) (u : Driver)
    → IsSound u
    → IsSound (apply_params c params u)
apply_params-IsSound c none u s = s
apply_params-IsSound c (some q) u s = record {
  rows = s.rows;
  slots = s.slots;
  parked = s.parked;
  served = s.served;
}

-- From the test of `started` on.
halt-IsSound :
    (w : World)
    → IsSound w.usb
    → Returns
        ((modify_usb (λ u. record u { enabled = false }) >>= λ _.
            stop_endpoint_threads >>= λ _. modify_usb (λ u. record u { started = false }))
          w)
        λ _ w'. IsSound w'.usb
halt-IsSound w s =
    let w0 : World = record w { usb = record (w.usb) { enabled = false } } in
    Returns->>= stop_endpoint_threads _ (λ _ v. IsParked v.usb) _ w0
      (stop-IsParked w0 (stopped-IsParked w0.usb s.rows s.slots refl))
      λ _ v q. set_started-IsSound false v.usb q.0

pub Preserves-usb_stop : Preserves usb_stop
unfolding usb_stop
Preserves-usb_stop = Preserves->>= get_usb _ Preserves-get_usb λ u.
    Preserves-if (not u.started) (pure tt) _ (λ _ q. q)
      (Preserves->>= (unregister_all u.interfaces) _
        (Keeps→Preserves (unregister_all u.interfaces) (Keeps-unregister_all u.interfaces))
        λ _ w. preserved _ w (halt-IsSound w))

pub Preserves-usb_deinit : (c : Core) → Preserves (usb_deinit c)
unfolding usb_deinit
Preserves-usb_deinit c = Preserves->>= get_usb _ Preserves-get_usb λ u.
    Preserves-if (not u.initialized) (pure tt) _ (λ _ q. q)
      (Preserves->>= usb_stop _ Preserves-usb_stop
        λ _ w s. record { rows = s.rows; slots = s.slots; parked = s.parked; served = s.served })

Preserves-begin_serving : Preserves begin_serving
unfolding begin_serving
Preserves-begin_serving = Preserves->>= get_usb _ Preserves-get_usb λ u.
    Preserves->>= (attempt (built_serial_number u.device.serial_number)) _
      (Keeps→Preserves (attempt _) (Keeps-attempt _))
      λ named.
        Preserves->>=
          (if named
            then attempt (built_webusb u.device.usb21_enabled (landing_url u.landing_page))
            else pure false)
          _
          (Preserves-if named _ (pure false) (Keeps→Preserves (attempt _) (Keeps-attempt _))
            (λ _ q. q))
          λ linked.
            Preserves-if (not linked) (pure false) _ (λ _ q. q)
              (Preserves->>= (configure_until_endpoints (u.generation != 0)) _
                (Preserves-configure_until_endpoints (u.generation != 0))
                λ configured.
                  Preserves-if (not configured) (pure false) _ (λ _ q. q)
                    (Preserves->>= get_usb _ Preserves-get_usb λ v.
                      Preserves->>= (register_all v.interfaces) _
                        (Keeps→Preserves (register_all v.interfaces)
                          (Keeps-register_all v.interfaces))
                        λ all_registered.
                          Preserves-if all_registered _ (pure false)
                            (λ w s. set_started-IsSound true w.usb s) (λ _ q. q)))

-- A start, with the stop that new parameters ask for, keeps the driver sound, whichever step fails.
pub Preserves-usb_start : (c : Core) (params : Option StartParams) → Preserves (usb_start c params)
unfolding usb_start
Preserves-usb_start c params = Preserves->>= get_usb _ Preserves-get_usb λ u.
    Preserves-if (not u.initialized) (pure false) _ (λ _ q. q)
      (Preserves-if (u.started && params_are_current c u params) (pure true) _ (λ _ q. q)
        (Preserves->>= (if u.started then usb_stop else pure tt) _
          (Preserves-if u.started usb_stop (pure tt) Preserves-usb_stop (λ _ q. q))
          λ _.
            Preserves->>= (modify_usb (apply_params c params)) _
              (Preserves-modify (apply_params c params) (apply_params-IsSound c params))
              λ _. Preserves-begin_serving))

Keeps-initialize_slot : Keeps initialize_slot
unfolding initialize_slot
Keeps-initialize_slot =
    Keeps->>= (call_or_die initialize_synchronization) _ (Keeps-call_or_die _) λ _.
      Keeps->>= (call_or_die initialize_synchronization) _ (Keeps-call_or_die _)
        λ _. Keeps->>= (call_or_die initialize_synchronization) _ (Keeps-call_or_die _) λ _ _. refl

init_endpoint-IsServed :
    (e : Endpoint) (w : World)
    → Returns (init_endpoint e w) λ e' w'. IsServed e' × (IsQuiet e → IsQuiet e') × (w'.usb ≡ w.usb)
unfolding init_endpoint
init_endpoint-IsServed e w =
    SameUsb_then (if e.synchronization_initialized then pure tt else initialize_slot) _ _ w
      (Keeps-if e.synchronization_initialized (pure tt) _ (λ _. refl) Keeps-initialize_slot)
      λ _ v p. (
        inl refl,
        (λ (running, _, packet, read, occupied, l). (running, refl, packet, read, occupied, l)),
        p,
      )

pub init_endpoints-IsServed :
    (es : List Endpoint) (w : World)
    → Returns (for_endpoints init_endpoint es w) λ es' w'.
      (length es' ≡ length es)
      × All IsServed es'
      × (All IsQuiet es → All IsQuiet es')
      × (w'.usb ≡ w.usb)
unfolding for_endpoints
init_endpoints-IsServed [] w = (refl, tt, (λ q. q), refl)
init_endpoints-IsServed (e ∷ es) w =
    Returns->>= (init_endpoint e) _ _ _ w (init_endpoint-IsServed e w) λ e' v (served, quiet, p).
      Returns->>= (for_endpoints init_endpoint es) _ _ _ v (init_endpoints-IsServed es v)
        λ es' x (l, all, quiets, q).
          (ap suc l, (served, all), (λ (h, hs). (quiet h, quiets hs)), q ∙ p)

stored-IsSound :
    (u v : Driver) (es : List Endpoint)
    → v ≡ u
    → length es ≡ length u.endpoints
    → All IsServed es
    → (All IsQuiet u.endpoints → All IsQuiet es)
    → IsSound u
    → IsSound (record v { endpoints = es })
stored-IsSound u v es p l all quiets s =
    subst IsSound (sym (ap {A = Driver} (λ x. record x { endpoints = es }) p)) (record {
      rows = l ∙ s.rows;
      slots = s.slots;
      parked = λ off. quiets (s.parked off);
      served = λ on. all;
    })

Preserves-announce : Preserves announce
unfolding announce
Preserves-announce =
    Preserves->>= (modify_usb (λ u. record u { initialized = true })) _
      (Preserves-modify _ (set_initialized-IsSound true))
      λ _. Preserves->>= next_request_id _ Preserves-next_request_id λ request_id.
        Preserves->>= get_usb _ Preserves-get_usb λ u.
          Preserves->>= (send_record kind_configure u.generation request_id []) (λ _. pure true)
            (Preserves-send_record kind_configure u.generation request_id []) λ _ _ q. q

-- What follows the loop over the endpoints in usb_init.
abbrev registration : Core → Worker Bool
registration c = attempt (registered c.usb_handle) >>= λ ok.
    if ok
    then announce
    else (emit freed_personality >> modify_usb (λ u. record u { personality = none }) >> pure false)

Preserves-registration : (c : Core) → Preserves (registration c)
Preserves-registration c =
    Preserves->>= (attempt (registered c.usb_handle)) _
      (Keeps→Preserves (attempt _) (Keeps-attempt _))
      λ ok.
        Preserves-if ok announce _ Preserves-announce (λ w s. set_personality-IsSound none w.usb s)

Preserves-init_driver : (c : Core) → Preserves (init_driver c)
unfolding init_driver
Preserves-init_driver c w = preserved (init_driver c w) w λ s.
    Returns->>= (for_endpoints init_endpoint w.usb.endpoints)
      (λ es. store_endpoints es >>= λ _. registration c) _ (λ _ v. IsSound v.usb) w
      (init_endpoints-IsServed w.usb.endpoints w)
      λ es v (l, all, quiets, p).
        Preserves-at (registration c) (record v { usb = record (v.usb) { endpoints = es } })
          (Preserves-registration c) (stored-IsSound w.usb v.usb es p l all quiets s)

pub Preserves-usb_init : (c : Core) (device : DeviceInfo) → Preserves (usb_init c device)
unfolding usb_init
Preserves-usb_init c device = Preserves->>= get_usb _ Preserves-get_usb λ u.
    Preserves-if u.initialized (pure true) _ (λ _ q. q)
      (Preserves->>= (modify_usb (λ v. record v { device = device })) _
        (Preserves-modify _ (set_device-IsSound device))
        λ _. Preserves->>= call _ (Keeps→Preserves call Keeps-call) λ a.
          Preserves->>= (emit (built_device (personality_device device))) _ (λ _ q. q)
            λ _.
              Preserves->>= (modify_usb (λ v. record v { personality = expect_pointer a })) _
                (Preserves-modify _ (set_personality-IsSound (expect_pointer a)))
                λ _.
                  Preserves-if (is_some (expect_pointer a)) (init_driver c) (pure false)
                    (Preserves-init_driver c) (λ _ q. q))
