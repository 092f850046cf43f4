-- ===== src/Safe3/Service/Stale.antt =====
-- The list of ready endpoints in service_controller of platform/safe3/usb_supervisor.c, where the
-- record that came with them stops the endpoints.
use virtual_trezor.Prelude.{
  ℕ, ◌%◌, ◌≡◌, refl, sym, subst, false, Option, none, some, List, [], ◌∷◌, map, length, get_elem?,
  suc, zero, ◌==◌, ◌<◌, arith, if◌then◌else◌,
}
use virtual_trezor.Bytes.{byte}
use virtual_trezor.Exec.{Returns, Returns->>=, ◌>>=◌, pure}
use virtual_trezor.Safe3.State.{World, Worker, Endpoint}
use virtual_trezor.Safe3.Endpoints.{stop_endpoint_threads}
use virtual_trezor.Safe3.Endpoints.Closing.{stopped, stop_endpoint_threads_lem}
use virtual_trezor.Safe3.Bus.{bus_disable}
use virtual_trezor.Safe3.Service.{take_at, take_notification, take_notifications, read_notification}

-- The call does not return.
abbrev pub NeverReturns {ℓ} : {A : Type ℓ} → Worker A → World → Type 0
NeverReturns m w = Returns (m w) λ _ _. ⊥

get_elem?-stopped :
    (es : List Endpoint) (i : ℕ)
    → i < length es
    → (e : Endpoint) × (get_elem? (map stopped es) i ≡ some (stopped e))
get_elem?-stopped [] i h = absurd (omega arith)
get_elem?-stopped (e ∷ es) zero h = (e, refl)
get_elem?-stopped (e ∷ es) (suc i) h = get_elem?-stopped es i (omega arith)

take_notification-stopped :
    (w : World) (i : ℕ) (e : Endpoint)
    → get_elem? w.usb.endpoints i ≡ some e
    → e.event_fd ≡ none
    → NeverReturns (take_notification i) w
unfolding take_notification read_notification
take_notification-stopped w i e p q = by_endpoint (get_elem? w.usb.endpoints i) p
  where
    by_endpoint :
        (o : Option Endpoint) → o ≡ some e → Returns (take_at w.usb.interfaces o w) λ _ _. ⊥
    by_endpoint o r = rw (r, q, read_notification) tt

-- Reading the notification of an endpoint that was ready when the poll was made, after the endpoints
-- have been stopped, never returns: the worker dies.
pub bus_disable-take_notifications :
    (i : ℕ) (is revents : List ℕ) (w : World)
    → i < length w.usb.endpoints
    → byte revents 0 % 2 ≡ 1
    → NeverReturns (bus_disable >>= λ _. take_notifications (i ∷ is) revents) w
unfolding bus_disable take_notifications
bus_disable-take_notifications i is revents w h p =
    let w0 : World = record w { usb = record (w.usb) { enabled = false; suspended = false } } in
    Returns->>= stop_endpoint_threads (λ _. take_notifications (i ∷ is) revents) _ (λ _ _. ⊥) w0
      (stop_endpoint_threads_lem w0)
      λ _ v (rest, q).
        let (e, r) = get_elem?-stopped w.usb.endpoints i h in
        ready v (stopped e)
          (subst (λ (y : World). get_elem? y.usb.endpoints i ≡ some (stopped e)) (sym q) r) refl
  where
    ready :
        (v : World) (e : Endpoint)
        → get_elem? v.usb.endpoints i ≡ some e
        → e.event_fd ≡ none
        → NeverReturns (take_notifications (i ∷ is) revents) v
    ready v e r s =
        Returns->>= (if byte revents 0 % 2 == 1 then take_notification i else pure tt) _ (λ _ _. ⊥)
          _ v (rw p (take_notification-stopped v i e r s)) λ _ _ no. absurd no
