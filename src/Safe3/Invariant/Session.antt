-- ===== src/Safe3/Invariant/Session.antt =====
-- A whole session of Core with the driver of platform/safe3/usb_supervisor.c: the calls that Core may
-- make, in any order, keep the driver sound.
use virtual_trezor.Prelude.{
  ℕ, ◌∙◌, Bool, true, false, not, ◌&&◌, ◌==◌, Option, none, some, List, [], ◌∷◌, set, get_or,
  length-set, if◌then◌else◌,
}
use virtual_trezor.Exec.{Returns, ◌>>=◌, pure}
use virtual_trezor.Safe3.State.{
  World, Worker, Driver, DeviceInfo, Interface, webusb, emit, modify_usb, built_interface,
  built_compatible_id, signalled_read,
}
use virtual_trezor.Safe3.Endpoints.{get_usb}
use virtual_trezor.Safe3.Bus.{Platform}
use virtual_trezor.Safe3.Service.{service_controller, virtual_trezor_wait_for_interrupt}
use virtual_trezor.Safe3.Interfaces.{
  iface_read, iface_write, iface_read_ready, iface_write_ready, iface_event_poll, usb_event_poll,
}
use virtual_trezor.Safe3.Lifecycle.{Core, attempt, usb_init, usb_stop, usb_deinit}
use virtual_trezor.Safe3.Adding.{
  InterfaceInfo, free_interface, personality_interface, filled, hid_filled, store_interface,
  webusb_add_at, hid_add_at, usb_webusb_add, usb_hid_add,
}
use virtual_trezor.Safe3.Starting.{StartParams, usb_start}
use virtual_trezor.Safe3.Tasks.{UsbEvent, usb_get_event, on_task_created}
use virtual_trezor.Safe3.Invariant.{
  IsSound, Preserves, Preserves->>=, Preserves-if, Keeps→Preserves, Preserves-at,
}
use virtual_trezor.Safe3.Invariant.Exchanges.{Preserves-get_usb}
use virtual_trezor.Safe3.Invariant.Serving.{Preserves-service_controller, Preserves-wait}
use virtual_trezor.Safe3.Invariant.Lifecycle.{
  Keeps-attempt, Preserves-usb_init, Preserves-usb_stop, Preserves-usb_deinit, Preserves-usb_start,
}
use virtual_trezor.Safe3.Invariant.Packets.{Preserves-iface_read, Preserves-iface_write}

-- The calls into the driver, with their arguments.
pub data Request : Type 0 where
  init : DeviceInfo → Request
  deinit stop : Request
  start : Option StartParams → Request
  webusb_add hid_add : InterfaceInfo → Request
  poll_usb : (handle : ℕ) (read_awaited : Bool) → Request
  poll_iface : Interface → (read_awaited write_awaited : Bool) → Request
  read : Interface → ℕ → Request
  write : Interface → List ℕ → Request
  wait : (deadline now : ℕ) → Request
  task_created get_event : ℕ → Request

abbrev forget {ℓ} : {A : Type ℓ} → Worker A → Worker (Unit {0})
forget m = m >>= λ _. pure tt

-- The call itself; its result goes to Core.
unfoldable pub perform : Core → Platform → Request → Worker (Unit {0})
perform c p (init device) = forget (usb_init c device)
perform c p deinit = usb_deinit c
perform c p stop = usb_stop
perform c p (start params) = forget (usb_start c params)
perform c p (webusb_add info) = forget (usb_webusb_add info)
perform c p (hid_add info) = forget (usb_hid_add info)
perform c p (poll_usb handle read_awaited) = usb_event_poll p handle read_awaited
perform c p (poll_iface i read_awaited write_awaited) =
    iface_event_poll p i read_awaited write_awaited
perform c p (read i length') = forget (iface_read i length')
perform c p (write i bytes) = forget (iface_write i bytes)
perform c p (wait deadline now) = virtual_trezor_wait_for_interrupt p deadline now
perform c p (task_created task) = modify_usb (λ u. on_task_created u task)
perform c p (get_event task) = modify_usb (λ u. (usb_get_event u task).1)

unfoldable pub perform_all : Core → Platform → List Request → Worker (Unit {0})
perform_all c p [] = pure tt
perform_all c p (request ∷ requests) = perform c p request >>= λ _. perform_all c p requests

Preserves-forget {ℓ} : {A : Type ℓ} (m : Worker A) → Preserves m → Preserves (forget m)
Preserves-forget m h = Preserves->>= m (λ _. pure tt) h λ _ _ q. q

set_interface-IsSound :
    (n : ℕ) (i : Interface) (u : Driver)
    → IsSound u
    → IsSound (record u { interfaces = set u.interfaces n i })
set_interface-IsSound n i u s = record {
  rows = s.rows;
  slots = length-set u.interfaces n i ∙ s.slots;
  parked = s.parked;
  served = s.served;
}

Preserves-store_interface : (n : ℕ) (i : Interface) → Preserves (store_interface n i)
unfolding store_interface
Preserves-store_interface n i w s = set_interface-IsSound n i w.usb s

Preserves-webusb_filled :
    (info : InterfaceInfo) (i : Interface)
    → Preserves (
        attempt (built_interface (personality_interface info 0xff [])) >>= λ added.
        (if added && info.iface_num == 0
          then attempt (built_compatible_id info.iface_num)
          else pure true)
        >>= λ named.
            if added && named
            then store_interface info.iface_num (filled i info webusb)
            else pure false)
Preserves-webusb_filled info i =
    Preserves->>= (attempt _) _ (Keeps→Preserves (attempt _) (Keeps-attempt _)) λ added.
      Preserves->>=
        (if added && info.iface_num == 0
          then attempt (built_compatible_id info.iface_num)
          else pure true)
        _
        (Preserves-if (added && info.iface_num == 0) _ (pure true)
          (Keeps→Preserves (attempt _) (Keeps-attempt _)) (λ _ q. q))
        λ named.
          Preserves-if (added && named) _ (pure false)
            (Preserves-store_interface info.iface_num (filled i info webusb)) (λ _ q. q)

Preserves-webusb_add_at :
    (info : InterfaceInfo) (o : Option Interface) → Preserves (webusb_add_at info o)
Preserves-webusb_add_at info none = λ _ q. q
Preserves-webusb_add_at info (some i) =
    Preserves-if (not info.has_rx_buffer) (pure false) _ (λ _ q. q) (Preserves-webusb_filled info i)

pub Preserves-usb_webusb_add : (info : InterfaceInfo) → Preserves (usb_webusb_add info)
unfolding usb_webusb_add
Preserves-usb_webusb_add info =
    Preserves->>= get_usb _ Preserves-get_usb
      λ u. Preserves-webusb_add_at info (free_interface u info.iface_num)

Preserves-hid_add_at :
    (info : InterfaceInfo) (report : Option (List ℕ)) (o : Option Interface)
    → Preserves (hid_add_at info report o)
Preserves-hid_add_at info report none = λ _ q. q
Preserves-hid_add_at info none (some i) = λ _ q. q
Preserves-hid_add_at info (some report) (some i) =
    Preserves-if (not info.has_rx_buffer) (pure false) _ (λ _ q. q)
      (Preserves->>= (attempt _) _ (Keeps→Preserves (attempt _) (Keeps-attempt _)) λ added.
        Preserves-if added _ (pure false)
          (Preserves-store_interface info.iface_num (hid_filled i info report)) (λ _ q. q))

pub Preserves-usb_hid_add : (info : InterfaceInfo) → Preserves (usb_hid_add info)
unfolding usb_hid_add
Preserves-usb_hid_add info =
    Preserves->>= get_usb _ Preserves-get_usb
      λ u. Preserves-hid_add_at info info.report_desc (free_interface u info.iface_num)

Preserves-usb_event_poll :
    (p : Platform) (handle : ℕ) (read_awaited : Bool)
    → Preserves (usb_event_poll p handle read_awaited)
unfolding usb_event_poll
Preserves-usb_event_poll p handle read_awaited =
    Preserves->>= (service_controller p) _ (Preserves-service_controller p)
      λ _. Preserves-if read_awaited (emit _) (pure tt) (λ _ q. q) (λ _ q. q)

Preserves-iface_event_poll :
    (p : Platform) (i : Interface) (read_awaited write_awaited : Bool)
    → Preserves (iface_event_poll p i read_awaited write_awaited)
unfolding iface_event_poll
Preserves-iface_event_poll p i read_awaited write_awaited =
    Preserves->>= (service_controller p) _ (Preserves-service_controller p) λ _.
      Preserves->>= get_usb _ Preserves-get_usb λ u.
        Preserves->>=
          (if read_awaited && iface_read_ready u i then emit (signalled_read i.handle) else pure tt)
          _
          (Preserves-if (read_awaited && iface_read_ready u i) (emit _) (pure tt) (λ _ q. q)
            (λ _ q. q))
          λ _.
            Preserves-if (write_awaited && iface_write_ready u i) (emit _) (pure tt) (λ _ q. q)
              (λ _ q. q)

task_state-IsSound :
    (ts : List Bool) (u : Driver) → IsSound u → IsSound (record u { task_state = ts })
task_state-IsSound ts u s = record {
  rows = s.rows;
  slots = s.slots;
  parked = s.parked;
  served = s.served;
}

usb_get_event-IsSound : (task : ℕ) (u : Driver) → IsSound u → IsSound (usb_get_event u task).1
unfolding usb_get_event
usb_get_event-IsSound task u s = chosen (not u.initialized) _ _ s (
    chosen (u.enabled && get_or u.task_state task false) _ _ s (
      chosen (not u.enabled && not (get_or u.task_state task false)) _ _ s
        (task_state-IsSound (set u.task_state task u.enabled) u s)))
  where
    chosen :
        (b : Bool) (x y : UsbEvent × Driver)
        → IsSound x.1
        → IsSound y.1
        → IsSound (if b then x else y).1
    chosen true x y h k = h
    chosen false x y h k = k

pub Preserves-perform :
    (c : Core) (p : Platform) (request : Request) → Preserves (perform c p request)
unfolding perform on_task_created
Preserves-perform c p (init device) =
    Preserves-forget (usb_init c device) (Preserves-usb_init c device)
Preserves-perform c p deinit = Preserves-usb_deinit c
Preserves-perform c p stop = Preserves-usb_stop
Preserves-perform c p (start params) =
    Preserves-forget (usb_start c params) (Preserves-usb_start c params)
Preserves-perform c p (webusb_add info) =
    Preserves-forget (usb_webusb_add info) (Preserves-usb_webusb_add info)
Preserves-perform c p (hid_add info) =
    Preserves-forget (usb_hid_add info) (Preserves-usb_hid_add info)
Preserves-perform c p (poll_usb handle read_awaited) =
    Preserves-usb_event_poll p handle read_awaited
Preserves-perform c p (poll_iface i read_awaited write_awaited) =
    Preserves-iface_event_poll p i read_awaited write_awaited
Preserves-perform c p (read i length') =
    Preserves-forget (iface_read i length') (Preserves-iface_read i length')
Preserves-perform c p (write i bytes) =
    Preserves-forget (iface_write i bytes) (Preserves-iface_write i bytes)
Preserves-perform c p (wait deadline now) = Preserves-wait p deadline now
Preserves-perform c p (task_created task) =
    λ w s. task_state-IsSound (set w.usb.task_state task false) w.usb s
Preserves-perform c p (get_event task) = λ w s. usb_get_event-IsSound task w.usb s

Preserves-perform_all :
    (c : Core) (p : Platform) (requests : List Request) → Preserves (perform_all c p requests)
unfolding perform_all
Preserves-perform_all c p [] = λ w s. s
Preserves-perform_all c p (request ∷ requests) =
    Preserves->>= (perform c p request) _ (Preserves-perform c p request)
      λ _. Preserves-perform_all c p requests

-- From a sound driver, every sequence of calls that returns, whatever the supervisor, the buttons and
-- the system answer meanwhile, ends in a sound driver: the tables have their sizes, no endpoint has
-- a thread, an event descriptor, a buffer or a packet while the driver is not enabled, and every endpoint
-- with a descriptor has its thread and its event descriptor while it is.
pub perform_all-IsSound :
    (c : Core) (p : Platform) (requests : List Request) (w : World)
    → IsSound w.usb
    → Returns (perform_all c p requests w) λ _ w'. IsSound w'.usb
perform_all-IsSound c p requests w s =
    Preserves-at (perform_all c p requests) w (Preserves-perform_all c p requests) s
