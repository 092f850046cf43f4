-- ===== src/Legacy/Bus/Stale.antt =====
-- The endpoints that service_virtual_usb of platform/raspberry-pi/usb_functionfs.c found ready, where the
-- record that came with them stops them.
use virtual_trezor.Prelude.{ℕ, ◌≡◌, refl, ap, false, List, [], ◌∷◌}
use virtual_trezor.Exec.{
  Outcome, Returns, Returns->>=, Returns_imp, done, died, exited, blocked, ◌>>◌,
}
use virtual_trezor.Legacy.State.{World, Worker, Fault, Firmware}
use virtual_trezor.Legacy.Endpoints.{stop_endpoint_threads}
use virtual_trezor.Legacy.Endpoints.Closing.{stopped_usb, stop_endpoint_threads-logged}
use virtual_trezor.Legacy.Bus.{bus_disable}
use virtual_trezor.Legacy.Service.{service_endpoints}

-- A call that does nothing where the one before it returns.
then_nothing :
    (o : Outcome Fault World (Unit {0})) (f : Worker (Unit {0}))
    → Returns o (λ _ v. f v ≡ done tt v)
    → (elim o as (λ _. Outcome Fault World (Unit {0})) [
      | done _ v ↦ f v
      | died e v ↦ died e v
      | exited v ↦ exited v
      | blocked v ↦ blocked v
    ])
      ≡ o
then_nothing (done tt v) f h = h
then_nothing (died e v) f h = refl
then_nothing (exited v) f h = refl
then_nothing (blocked v) f h = refl

service_endpoints-disabled :
    (f : Firmware) (numbers revents : List ℕ) (w : World)
    → w.usb.usb_enabled ≡ false
    → service_endpoints f numbers revents w ≡ done tt w
unfolding service_endpoints
service_endpoints-disabled f [] revents w h = refl
service_endpoints-disabled f (n ∷ numbers) revents w h = rw h refl

-- libopencm3's reset does not enable the controller.
abbrev pub StaysDisabled : Worker (Unit {0}) → Type 0
StaysDisabled m =
    (w : World) → w.usb.usb_enabled ≡ false → Returns (m w) λ _ v. v.usb.usb_enabled ≡ false

bus_disable-disabled :
    (f : Firmware) (w : World)
    → StaysDisabled f.usbd_reset
    → Returns (bus_disable f w) λ _ v. v.usb.usb_enabled ≡ false
unfolding bus_disable
bus_disable-disabled f w stays =
    let w0 : World = record w { usb = record (w.usb) { usb_enabled = false } } in
    Returns->>= stop_endpoint_threads (λ _. f.usbd_reset) (λ _ v. v.usb ≡ stopped_usb w0.usb)
      (λ _ v. v.usb.usb_enabled ≡ false) w0
      (Returns_imp _ (λ _ v. v.usb ≡ stopped_usb w0.usb) (stop_endpoint_threads w0)
        (λ _ v (p, _). p) (stop_endpoint_threads-logged w0))
      λ _ v p. stays v (ap (λ u. u.usb_enabled) p)

-- After a bus event that stops the endpoints, the notifications and errors that were polled before it
-- are left alone, whatever they are: the rest of the round does nothing. libopencm3's reset must not
-- enable the controller.
pub bus_disable-service_endpoints :
    (f : Firmware) (numbers revents : List ℕ) (w : World)
    → StaysDisabled f.usbd_reset
    → (bus_disable f >> service_endpoints f numbers revents) w ≡ bus_disable f w
bus_disable-service_endpoints f numbers revents w stays =
    then_nothing (bus_disable f w) (service_endpoints f numbers revents) (
      Returns_imp _ (λ _ v. service_endpoints f numbers revents v ≡ done tt v) (bus_disable f w)
        (λ _ v h. service_endpoints-disabled f numbers revents v h)
        (bus_disable-disabled f w stays))
