-- ===== src/Safe3/Invariant.antt =====
-- What holds of the driver of platform/safe3/usb_supervisor.c between two calls, and the functions on
-- endpoints that keep it. The children have the other functions of the file.
pub mod Installing
pub mod BusEvents
pub mod Exchanges
pub mod Serving
pub mod Lifecycle
pub mod Packets
pub mod Session
use virtual_trezor.Prelude.{
  ℕ, zero, suc, ◌+◌, ◌≡◌, refl, ◌∙◌, ap, Bool, true, false, not, Option, none, some, List, [], ◌∷◌,
  map, arith, length, set, ltb, ◌==◌, ◌*◌, ◌&&◌, length-set, All, All-set, All-get_elem?, get_elem?,
  if◌then◌else◌, Option-cases, Bool-cases, ◌⊎◌, is_some, inl, inr, subst, sym, drop,
}
use virtual_trezor.Bytes.{byte, be16}
use virtual_trezor.Exec.{
  Returns, Returns->>=, Returns_imp, Respects, Respects->>=, Respects-if, Respects-die, ◌>>=◌, ◌>>◌,
  pure, done, died, exited, blocked, die, Outcome,
}
use virtual_trezor.Safe3.State.{
  World, Worker, Fault, Driver, Endpoint, Interface, WorkerRecord, call_or_die, modify_usb,
  allocate_endpoint_buffers, create_endpoint_notification, start_endpoint_thread,
  invalid_endpoint_address, invalid_endpoint_map, endpoint_map_differs,
}
use virtual_trezor.Safe3.Records.{close_record_fds}
use virtual_trezor.Safe3.Endpoints.{
  allocate_read_buffer, start_at, start_endpoint, start_endpoints, start_endpoint_threads,
  stop_endpoint_threads, close_endpoints, take_entry, free_endpoint, install_entry, install_entries,
  install_endpoints, endpoint_for,
}
use virtual_trezor.Safe3.Endpoints.Closing.{
  stopped, closed_endpoint, stopped_driver, closed_driver, stop_endpoint_threads_lem,
  close_endpoints_lem,
}
use virtual_trezor.Safe3.Keeps.{SameUsb, Keeps, Keeps->>=, Keeps-call_or_die}

-- No thread, no event descriptor, no buffer and no packet.
abbrev pub IsQuiet : Endpoint → Type 0
IsQuiet e =
    (e.thread_running ≡ false)
    × (e.event_fd ≡ none)
    × (e.packet ≡ none)
    × (e.read_buffer ≡ none)
    × (e.occupied ≡ false)
    × (e.packet_length ≡ 0)

-- An endpoint that has a descriptor has its thread and its event descriptor.
abbrev pub IsServed : Endpoint → Type 0
IsServed e = (e.fd ≡ none) ⊎ ((e.thread_running ≡ true) × (is_some e.event_fd ≡ true))

-- The tables keep their sizes; while the driver is not enabled every endpoint is quiet, and while it
-- is, every one with a descriptor is served.
pub record IsSound (u : Driver) : Type 0 where
  pub rows : length u.endpoints ≡ 16
  pub slots : length u.interfaces ≡ 8
  pub parked : u.enabled ≡ false → All IsQuiet u.endpoints
  pub served : u.enabled ≡ true → All IsServed u.endpoints

abbrev pub Sound : World → World → Type 0
Sound w w' = IsSound w.usb → IsSound w'.usb

Sound-trans : (u v w : World) → Sound u v → Sound v w → Sound u w
Sound-trans u v w p q s = q (p s)

-- Whenever the call returns, a sound driver is still sound.
abbrev pub Preserves {ℓ} : {A : Type ℓ} → Worker A → Type 0
Preserves m = Respects Sound m

pub Preserves->>= {ℓ κ} :
    {A : Type ℓ} {B : Type κ} (m : Worker A) (f : A → Worker B)
    → Preserves m
    → ((a : A) → Preserves (f a))
    → Preserves (m >>= f)
Preserves->>= = Respects->>= Sound Sound-trans

pub Preserves-if {ℓ} :
    {A : Type ℓ} (b : Bool) (m n : Worker A)
    → Preserves m
    → Preserves n
    → Preserves (if b then m else n)
Preserves-if = Respects-if Sound

pub Preserves-die {ℓ} :
    (A : Type ℓ) (m : Worker (Unit {0})) (e : Fault) → Preserves (m >>= λ _. die {A = A} e)
Preserves-die A m e = Respects-die A Sound m e

pub Keeps→Preserves {ℓ} : {A : Type ℓ} (m : Worker A) → Keeps m → Preserves m
Keeps→Preserves m h w =
    Returns_imp (λ _ w'. SameUsb w w') (λ _ w'. Sound w w') (m w)
      (λ _ w' p s. subst IsSound (sym p) s) (h w)

-- To prove `Preserves` at a state, assume that the driver is sound there; and to use it.
pub preserved {ℓ} :
    {A : Type ℓ} (o : Outcome Fault World A) (w : World)
    → (IsSound w.usb → Returns o λ _ w'. IsSound w'.usb)
    → Returns o λ _ w'. Sound w w'
preserved (done a v) w h = h
preserved (died e v) w h = tt
preserved (exited v) w h = tt
preserved (blocked v) w h = tt

pub Preserves-at {ℓ} :
    {A : Type ℓ} (m : Worker A) (w : World)
    → Preserves m
    → IsSound w.usb
    → Returns (m w) λ _ w'. IsSound w'.usb
Preserves-at m w h s =
    Returns_imp (λ _ w'. Sound w w') (λ _ w'. IsSound w'.usb) (m w) (λ _ _ k. k s) (h w)

pub length-map : (f : Endpoint → Endpoint) (es : List Endpoint) → length (map f es) ≡ length es
length-map f [] = refl
length-map f (e ∷ es) = ap suc (length-map f es)

All-stopped : (es : List Endpoint) → All IsQuiet (map stopped es)
All-stopped [] = tt
All-stopped (e ∷ es) = ((refl, refl, refl, refl, refl, refl), All-stopped es)

All-closed : (es : List Endpoint) → All IsQuiet (map closed_endpoint es)
All-closed [] = tt
All-closed (e ∷ es) = ((refl, refl, refl, refl, refl, refl), All-closed es)

-- A driver that is sound and not enabled.
abbrev pub IsParked : Driver → Type 0
IsParked u = IsSound u × (u.enabled ≡ false)

pub stopped-IsParked :
    (u : Driver)
    → length u.endpoints ≡ 16
    → length u.interfaces ≡ 8
    → u.enabled ≡ false
    → IsParked (stopped_driver u)
stopped-IsParked u rows slots off = (
  record {
    rows = length-map stopped u.endpoints ∙ rows;
    slots = slots;
    parked = λ _. All-stopped u.endpoints;
    served = λ on. absurd (cc);
  },
  off,
)

pub closed-IsParked : (u : Driver) → IsSound u → IsParked (closed_driver u)
closed-IsParked u s = (
  record {
    rows = length-map closed_endpoint u.endpoints ∙ s.rows;
    slots = s.slots;
    parked = λ _. All-closed u.endpoints;
    served = λ on. absurd (cc);
  },
  refl,
)

-- stop_endpoint_threads leaves a parked driver, if it was sound before it was disabled.
pub stop-IsParked :
    (w : World)
    → IsParked (stopped_driver w.usb)
    → Returns (stop_endpoint_threads w) λ _ w'. IsParked w'.usb
stop-IsParked w s =
    Returns_imp _ (λ _ w'. IsParked w'.usb) (stop_endpoint_threads w)
      (λ _ w' (rest, p). subst IsParked (sym (ap {A = World} (λ y. y.usb) p)) s)
      (stop_endpoint_threads_lem w)

pub close-IsParked :
    (w : World) → IsSound w.usb → Returns (close_endpoints w) λ _ w'. IsParked w'.usb
close-IsParked w s =
    Returns_imp _ (λ _ w'. IsParked w'.usb) (close_endpoints w)
      (λ _ w' (rest, p).
        subst IsParked (sym (ap {A = World} (λ y. y.usb) p)) (closed-IsParked w.usb s))
      (close_endpoints_lem w)

pub Preserves-modify :
    (f : Driver → Driver) → ((u : Driver) → IsSound u → IsSound (f u)) → Preserves (modify_usb f)
Preserves-modify f h w s = h w.usb s
