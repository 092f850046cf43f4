-- ===== src/Safe3/Invariant/Installing.antt =====
-- install_endpoints and start_endpoint_threads of platform/safe3/usb_supervisor.c keep the driver
-- sound.
use virtual_trezor.Prelude.{
  ℕ, suc, ◌+◌, ◌≡◌, refl, ◌∙◌, ap, Bool, true, false, not, Option, none, some, List, [], ◌∷◌, arith,
  length, set, ltb, ◌==◌, ◌*◌, ◌&&◌, length-set, All, All-set, All-get_elem?, get_elem?, Bool-cases,
  inl, inr, drop,
}
use virtual_trezor.Bytes.{byte, be16}
use virtual_trezor.Exec.{Returns, Returns->>=, Returns_imp, Respects, Respects-die, ◌>>=◌}
use virtual_trezor.Safe3.State.{
  World, Worker, Driver, Endpoint, WorkerRecord, call_or_die, allocate_endpoint_buffers,
  create_endpoint_notification, start_endpoint_thread, invalid_endpoint_address,
  endpoint_map_differs,
}
use virtual_trezor.Safe3.Records.{close_record_fds}
use virtual_trezor.Safe3.Endpoints.{
  allocate_read_buffer, start_at, start_endpoint, start_endpoints, close_endpoints, take_entry,
  free_endpoint, install_entry, install_entries, install_endpoints, endpoint_for,
}
use virtual_trezor.Safe3.Keeps.{Keeps, Keeps->>=, Keeps-call_or_die}
use virtual_trezor.Safe3.Invariant.{IsQuiet, IsServed, IsSound, IsParked, close-IsParked}

-- Handing an entry of the map over changes no thread, buffer or packet.
install-IsParked :
    (u : Driver) (i : ℕ) (e : Endpoint) (entry : List ℕ) (fd : Option ℕ)
    → get_elem? u.endpoints i ≡ some e
    → IsParked u
    → IsParked (record u { endpoints = set u.endpoints i (take_entry entry fd e) })
install-IsParked u i e entry fd p (s, off) = (
  record {
    rows = length-set u.endpoints i (take_entry entry fd e) ∙ s.rows;
    slots = s.slots;
    parked = λ _.
        All-set IsQuiet u.endpoints i (take_entry entry fd e) (s.parked off)
          (All-get_elem? IsQuiet u.endpoints i (s.parked off) p);
    served = λ on. absurd (cc);
  },
  off,
)

-- The endpoint that an entry names is the one in the table.
pub free_endpoint-get_elem? :
    (es : List Endpoint) (address i : ℕ) (e : Endpoint)
    → free_endpoint es address ≡ some (i, e)
    → (get_elem? es i ≡ some e) × (endpoint_for address ≡ some i) × (e.fd ≡ none)
unfolding free_endpoint
free_endpoint-get_elem? es address i e h = ground arith

abbrev Parked : World → World → Type 0
Parked w w' = IsParked w.usb → IsParked w'.usb

install_entry-Parked :
    (r : WorkerRecord) (entry : List ℕ) (fd : Option ℕ) (fds : List (Option ℕ))
    (o : Option (ℕ × Endpoint)) (rest : Worker (Unit {0})) (w : World)
    → free_endpoint w.usb.endpoints (byte entry 0) ≡ o
    → Respects Parked rest
    → Returns (install_entry r entry fd fds o rest w) λ _ w'. Parked w w'
install_entry-Parked r entry fd fds none rest w p h =
    Respects-die (Unit {0}) Parked (close_record_fds (record r { fds = fd ∷ fds }))
      invalid_endpoint_address w
install_entry-Parked r entry fd fds (some (i, e)) rest w p h =
    let u = w.usb in
    let w0 : World = record w {
      usb = record u { endpoints = set u.endpoints i (take_entry entry fd e) };
    } in
    Returns_imp (λ _ w'. Parked w0 w') (λ _ w'. Parked w w') (rest w0)
      (λ _ w' k s. k (
        install-IsParked u i e entry fd (free_endpoint-get_elem? u.endpoints (byte entry 0) i e p).0
          s))
      (h w0)

install_entries-Parked :
    (r : WorkerRecord) (entries : List ℕ) (fds : List (Option ℕ))
    → Respects Parked (install_entries r entries fds)
unfolding install_entries
install_entries-Parked r entries [] = λ w s. s
install_entries-Parked r entries (fd ∷ fds) = λ w.
    install_entry-Parked r entries fd fds (free_endpoint w.usb.endpoints (byte entries 0))
      (install_entries r (drop 4 entries) fds) w refl
      (install_entries-Parked r (drop 4 entries) fds)

pub install_endpoints-IsParked :
    (r : WorkerRecord) (w : World)
    → IsSound w.usb
    → Returns (install_endpoints r w) λ _ w'. IsParked w'.usb
unfolding install_endpoints
install_endpoints-IsParked r w s = elim (Bool-cases (ltb (length r.body) 2)) [
  | inl short ↦ rw short tt
  | inr long ↦
      elim (Bool-cases (length r.body == 2 + be16 r.body 0 * 4 && length r.fds == be16 r.body 0)) [
        | inr differ ↦
            rw (long, differ)
              (Respects-die (Unit {0}) (λ _ w'. IsParked w'.usb) (close_record_fds r)
                endpoint_map_differs w)
        | inl agree ↦
            rw (long, agree)
              (Returns->>= close_endpoints _ (λ _ v. IsParked v.usb) _ w (close-IsParked w s)
                λ _ v q.
                  Returns->>= (install_entries r (drop 2 r.body) r.fds) _ (λ _ x. Parked v x) _ v
                    (install_entries-Parked r (drop 2 r.body) r.fds v) λ _ x k. renumber (k q))
      ]
]
  where
    renumber : {u : Driver} → IsParked u → IsParked (record u { generation = r.generation })
    renumber (q, off) =
        (record { rows = q.rows; slots = q.slots; parked = q.parked; served = q.served }, off)

pub SameUsb_then {ℓ κ} :
    {A : Type ℓ} {B : Type κ} (m : Worker A) (f : A → Worker B) (P : B → World → Type 0) (w : World)
    → Keeps m
    → ((a : A) (v : World) → v.usb ≡ w.usb → Returns (f a v) P)
    → Returns ((m >>= f) w) P
SameUsb_then m f P w h k = Returns->>= m f (λ _ v. v.usb ≡ w.usb) P w (h w) k

Keeps-allocate_read_buffer : (d : Bool) → Keeps (allocate_read_buffer d)
Keeps-allocate_read_buffer true = λ w. refl
Keeps-allocate_read_buffer false =
    Keeps->>= (call_or_die allocate_endpoint_buffers) _ (Keeps-call_or_die _) λ _ w. refl

start_at-IsServed :
    (d : Bool) (e : Endpoint) (o : Option ℕ) (w : World)
    → e.fd ≡ o
    → Returns (start_at d e o w) λ e' w'. IsServed e' × (w'.usb ≡ w.usb)
start_at-IsServed d e none w p = (inl p, refl)
start_at-IsServed d e (some fd) w p =
    SameUsb_then (call_or_die allocate_endpoint_buffers) _ _ w (Keeps-call_or_die _) λ _ v p1.
      SameUsb_then (allocate_read_buffer d) _ _ v (Keeps-allocate_read_buffer d) λ _ x p2.
        SameUsb_then (call_or_die create_endpoint_notification) _ _ x (Keeps-call_or_die _)
          λ n y p3.
            SameUsb_then (call_or_die start_endpoint_thread) _ _ y (Keeps-call_or_die _)
              λ _ z p4. (inr (refl, refl), p4 ∙ (p3 ∙ (p2 ∙ p1)))

pub start_endpoints-IsServed :
    (d : Bool) (es : List Endpoint) (w : World)
    → Returns
        (start_endpoints d es w)
        λ es' w'. All IsServed es' × (length es' ≡ length es) × (w'.usb ≡ w.usb)
unfolding start_endpoints start_endpoint
start_endpoints-IsServed d [] w = (tt, refl, refl)
start_endpoints-IsServed d (e ∷ es) w =
    Returns->>= (start_endpoint d e) _ _ _ w (start_at-IsServed d e e.fd w refl) λ e' v (served, p).
      Returns->>= (start_endpoints (not d) es) _ _ _ v (start_endpoints-IsServed (not d) es v)
        λ es' x (all, l, q). ((served, all), ap suc l, q ∙ p)
