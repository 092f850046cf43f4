-- ===== src/Safe3/Adding/Again.antt =====
-- The interfaces of platform/safe3/usb_supervisor.c across usb_deinit and a later usb_init.
use virtual_trezor.Prelude.{
  ℕ, ◌+◌, ◌%◌, ◌^◌, ◌≡◌, refl, ◌∙◌, ap, Bool, true, false, not, none, some, is_some, [], ◌==◌,
  get_elem?, leb, Bool-cases, inl, inr, if◌then◌else◌,
}
use virtual_trezor.Exec.{
  Returns, Returns->>=, Returns_imp, Respects, Respects->>=, Respects-if, ◌>>=◌, ◌>>◌, pure, die,
}
use virtual_trezor.Safe3.State.{
  World, Worker, Driver, Interface, DeviceInfo, modify_usb, emit, call, registered, unregistered,
  freed_personality, built_device, kind_configure, request_id_overflow,
}
use virtual_trezor.Safe3.Records.{send_record}
use virtual_trezor.Safe3.Endpoints.{
  get_usb, is_disabled, for_endpoints, store_endpoints, stop_endpoint_threads,
}
use virtual_trezor.Safe3.Endpoints.Closing.{stop_endpoint_threads_lem}
use virtual_trezor.Safe3.Configure.{next_request_id}
use virtual_trezor.Safe3.Lifecycle.{
  Core, attempt, init_endpoint, announce, init_driver, personality_device, expect_pointer, usb_init,
  unregister_all, usb_stop, usb_deinit,
}
use virtual_trezor.Safe3.Keeps.{Keeps, Keeps-send_record}
use virtual_trezor.Safe3.Invariant.Exchanges.{Keeps-call}
use virtual_trezor.Safe3.Invariant.Lifecycle.{
  Keeps-attempt, Keeps-unregister_all, init_endpoints-IsServed,
}
use virtual_trezor.Safe3.Adding.{InterfaceInfo, free_interface, usb_webusb_add, usb_hid_add}

abbrev pub SameInterfaces : World → World → Type 0
SameInterfaces w w' = w'.usb.interfaces ≡ w.usb.interfaces

-- Whenever the call returns, the interfaces are what they were.
abbrev KeepsInterfaces {ℓ} : {A : Type ℓ} → Worker A → Type 0
KeepsInterfaces m = Respects SameInterfaces m

KeepsInterfaces->>= {ℓ κ} :
    {A : Type ℓ} {B : Type κ} (m : Worker A) (f : A → Worker B)
    → KeepsInterfaces m
    → ((a : A) → KeepsInterfaces (f a))
    → KeepsInterfaces (m >>= f)
KeepsInterfaces->>= = Respects->>= SameInterfaces (λ u v w p q. q ∙ p)

KeepsInterfaces-if {ℓ} :
    {A : Type ℓ} (b : Bool) (m n : Worker A)
    → KeepsInterfaces m
    → KeepsInterfaces n
    → KeepsInterfaces (if b then m else n)
KeepsInterfaces-if = Respects-if SameInterfaces

Keeps-KeepsInterfaces {ℓ} : {A : Type ℓ} (m : Worker A) → Keeps m → KeepsInterfaces m
Keeps-KeepsInterfaces m h w =
    Returns_imp (λ _ v. v.usb ≡ w.usb) (λ _ v. SameInterfaces w v) (m w)
      (λ _ _ p. ap (λ (u : Driver). u.interfaces) p) (h w)

stop_endpoint_threads-KeepsInterfaces : KeepsInterfaces stop_endpoint_threads
stop_endpoint_threads-KeepsInterfaces w =
    Returns_imp _ (λ _ v. SameInterfaces w v) (stop_endpoint_threads w)
      (λ _ _ (rest, p). ap (λ (v : World). v.usb.interfaces) p) (stop_endpoint_threads_lem w)

usb_stop-KeepsInterfaces : KeepsInterfaces usb_stop
unfolding usb_stop
usb_stop-KeepsInterfaces =
    KeepsInterfaces->>= get_usb _ (λ _. refl)
      λ u.
        KeepsInterfaces-if (not u.started) (pure tt) _ (λ _. refl)
          (KeepsInterfaces->>= (unregister_all u.interfaces) _
            (Keeps-KeepsInterfaces _ (Keeps-unregister_all u.interfaces))
            λ _.
              KeepsInterfaces->>= (modify_usb λ v. record v { enabled = false }) _ (λ _. refl)
                λ _.
                  KeepsInterfaces->>= stop_endpoint_threads
                    (λ _. modify_usb λ v. record v { started = false })
                    stop_endpoint_threads-KeepsInterfaces λ _ _. refl)

usb_deinit-KeepsInterfaces : (c : Core) → KeepsInterfaces (usb_deinit c)
unfolding usb_deinit
usb_deinit-KeepsInterfaces c =
    KeepsInterfaces->>= get_usb _ (λ _. refl)
      λ u.
        KeepsInterfaces-if (not u.initialized) (pure tt) _ (λ _. refl)
          (KeepsInterfaces->>= usb_stop
            (λ _.
              emit (unregistered c.usb_handle)
              >> (emit freed_personality
                  >> modify_usb (λ v. record v { personality = none; initialized = false })))
            usb_stop-KeepsInterfaces λ _ _. refl)

next_request_id-KeepsInterfaces : KeepsInterfaces next_request_id
unfolding next_request_id
next_request_id-KeepsInterfaces =
    KeepsInterfaces->>= get_usb _ (λ _. refl)
      λ u.
        KeepsInterfaces->>=
          (modify_usb λ v. record v { next_request_id = (u.next_request_id + 1) % 2 ^ 32 }) _
          (λ _. refl)
          λ _.
            KeepsInterfaces-if (u.next_request_id == 0) (die request_id_overflow)
              (pure u.next_request_id) (λ _. tt) (λ _. refl)

announce-KeepsInterfaces : KeepsInterfaces announce
unfolding announce
announce-KeepsInterfaces =
    KeepsInterfaces->>= (modify_usb λ u. record u { initialized = true }) _ (λ _. refl)
      λ _. KeepsInterfaces->>= next_request_id _ next_request_id-KeepsInterfaces λ request_id.
        KeepsInterfaces->>= get_usb _ (λ _. refl)
          λ u.
            KeepsInterfaces->>= (send_record kind_configure u.generation request_id [])
              (λ _. pure true)
              (Keeps-KeepsInterfaces _
                (Keeps-send_record kind_configure u.generation request_id []))
              λ _ _. refl

init_driver-KeepsInterfaces : (c : Core) → KeepsInterfaces (init_driver c)
unfolding init_driver
init_driver-KeepsInterfaces c =
    KeepsInterfaces->>= get_usb _ (λ _. refl)
      λ u.
        KeepsInterfaces->>= (for_endpoints init_endpoint u.endpoints) _
          (λ w.
            Returns_imp _ (λ _ v. SameInterfaces w v) (for_endpoints init_endpoint u.endpoints w)
              (λ _ _ (_, _, _, p). ap (λ (x : Driver). x.interfaces) p)
              (init_endpoints-IsServed u.endpoints w))
          λ es.
            KeepsInterfaces->>= (store_endpoints es) _ (λ _. refl)
              λ _.
                KeepsInterfaces->>= (attempt (registered c.usb_handle)) _
                  (Keeps-KeepsInterfaces _ (Keeps-attempt (registered c.usb_handle)))
                  λ ok.
                    KeepsInterfaces-if ok announce
                      (emit freed_personality
                        >> modify_usb (λ v. record v { personality = none })
                        >> pure false)
                      announce-KeepsInterfaces (λ _. refl)

usb_init-KeepsInterfaces : (c : Core) (device : DeviceInfo) → KeepsInterfaces (usb_init c device)
unfolding usb_init
usb_init-KeepsInterfaces c device =
    KeepsInterfaces->>= get_usb _ (λ _. refl)
      λ u.
        KeepsInterfaces-if u.initialized (pure true) _ (λ _. refl)
          (KeepsInterfaces->>= (modify_usb λ v. record v { device = device }) _ (λ _. refl)
            λ _. KeepsInterfaces->>= call _ (Keeps-KeepsInterfaces _ Keeps-call) λ a.
              KeepsInterfaces->>= (emit (built_device (personality_device device))) _ (λ _. refl)
                λ _.
                  KeepsInterfaces->>= (modify_usb λ v. record v { personality = expect_pointer a })
                    _ (λ _. refl)
                    λ _.
                      KeepsInterfaces-if (is_some (expect_pointer a)) (init_driver c) (pure false)
                        (init_driver-KeepsInterfaces c) (λ _. refl))

-- The slot is taken.
free_interface-taken :
    (u : Driver) (n : ℕ) (i : Interface)
    → get_elem? u.interfaces n ≡ some i
    → is_disabled i.interface_type ≡ false
    → free_interface u n ≡ none
unfolding free_interface
free_interface-taken u n i p q = elim (Bool-cases (leb 8 n)) [
  | inl far ↦ rw far refl
  | inr near ↦ rw (near, p, free_interface) (rw q refl)
]

webusb_refused :
    (info : InterfaceInfo) (i : Interface) (w : World)
    → get_elem? w.usb.interfaces info.iface_num ≡ some i
    → is_disabled i.interface_type ≡ false
    → Returns (usb_webusb_add info w) λ added _. added ≡ false
unfolding usb_webusb_add
webusb_refused info i w p q = rw (free_interface-taken w.usb info.iface_num i p q) refl

hid_refused :
    (info : InterfaceInfo) (i : Interface) (w : World)
    → get_elem? w.usb.interfaces info.iface_num ≡ some i
    → is_disabled i.interface_type ≡ false
    → Returns (usb_hid_add info w) λ added _. added ≡ false
unfolding usb_hid_add
hid_refused info i w p q = rw (free_interface-taken w.usb info.iface_num i p q) refl

-- Core tears the driver down, sets it up again and adds an interface.
unfoldable pub add_after_setup : Core → DeviceInfo → Worker Bool → Worker Bool
add_after_setup c device add = usb_deinit c >> (usb_init c device >>= λ _. add)

again_refused :
    (c : Core) (device : DeviceInfo) (add : Worker Bool) (w : World)
    → ((v : World) → SameInterfaces w v → Returns (add v) λ added _. added ≡ false)
    → Returns (add_after_setup c device add w) λ added _. added ≡ false
unfolding add_after_setup
again_refused c device add w refused =
    Returns->>= (usb_deinit c) _ (λ _ v. SameInterfaces w v) _ w (usb_deinit-KeepsInterfaces c w)
      λ _ v p.
        Returns->>= (usb_init c device) _ (λ _ x. SameInterfaces v x) _ v
          (usb_init-KeepsInterfaces c device v) (λ _ x q. refused x (q ∙ p))

-- An interface that was in use before usb_deinit cannot be added after the next usb_init: both
-- usb_webusb_add and usb_hid_add, where they return, refuse it.
pub add_after_setup-refused :
    (c : Core) (device : DeviceInfo) (info : InterfaceInfo) (i : Interface) (w : World)
    → get_elem? w.usb.interfaces info.iface_num ≡ some i
    → is_disabled i.interface_type ≡ false
    → Returns (add_after_setup c device (usb_webusb_add info) w) (λ added _. added ≡ false)
      × Returns (add_after_setup c device (usb_hid_add info) w) (λ added _. added ≡ false)
add_after_setup-refused c device info i w p q = (
  again_refused c device (usb_webusb_add info) w
      λ v same. webusb_refused info i v (ap (λ is. get_elem? is info.iface_num) same ∙ p) q,
  again_refused c device (usb_hid_add info) w
      λ v same. hid_refused info i v (ap (λ is. get_elem? is info.iface_num) same ∙ p) q,
)
