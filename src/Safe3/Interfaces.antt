-- ===== src/Safe3/Interfaces.antt =====
-- The interface handles of platform/safe3/usb_supervisor.c: iface_read_ready, iface_write_ready,
-- iface_read, iface_write, iface_event_poll, and the USB handle's usb_event_poll. A `void *context`
-- that is an interface is that interface.
use virtual_trezor.Prelude.{
  ℕ, ◌+◌, ◌%◌, Bool, true, false, not, ◌&&◌, ◌||◌, Option, none, some, List, [], length, take,
  get_elem?, set, ltb, ◌==◌, if◌then◌else◌,
}
use virtual_trezor.Prelude.Int.{ℤ, pos, minus_one}
use virtual_trezor.Exec.{◌>>=◌, ◌>>◌, pure, done}
use virtual_trezor.Safe3.State.{
  Worker, Driver, Endpoint, Interface, emit, signalled_read, signalled_write,
}
use virtual_trezor.Safe3.Endpoints.{get_usb, endpoint_for}
use virtual_trezor.Safe3.Bus.{Platform}
use virtual_trezor.Safe3.Service.{service_controller}

-- The addresses of an interface's endpoints, as uint8_t.
abbrev pub out_address : Interface → ℕ
out_address i = (1 + i.number) % 256

-- 0x80 | (1 + number), where the bits overlap only past 127.
abbrev pub in_address : Interface → ℕ
in_address i = 128 + (1 + i.number) % 128

unfoldable pub endpoint_at : Driver → ℕ → Option Endpoint
unfolding endpoint_for
endpoint_at u address = elim (endpoint_for address) [
  | none ↦ none
  | some i ↦ get_elem? u.endpoints i
]

-- A test that an endpoint must pass, false where there is none.
abbrev pub endpoint_is : (Endpoint → Bool) → Option Endpoint → Bool
endpoint_is test none = false
endpoint_is test (some e) = test e

unfoldable pub iface_read_ready : Driver → Interface → Bool
iface_read_ready u i =
    u.enabled && not u.suspended && endpoint_is (λ e. e.occupied) (endpoint_at u (out_address i))

unfoldable pub iface_write_ready : Driver → Interface → Bool
iface_write_ready u i =
    u.enabled && not u.suspended && endpoint_is (λ e. not e.occupied) (endpoint_at u (in_address i))

-- Replace the endpoint at an address.
unfoldable pub put_endpoint : ℕ → Endpoint → Driver → Driver
unfolding endpoint_for
put_endpoint address e u = elim (endpoint_for address) [
  | none ↦ u
  | some i ↦ record u { endpoints = set u.endpoints i e }
]

abbrev pub contents : Option (List ℕ) → List ℕ
contents none = []
contents (some bytes) = bytes

abbrev pub smaller : ℕ → ℕ → ℕ
smaller a b = if ltb a b then a else b

-- The critical section of iface_read, if a packet is there: `copied`, and the bytes copied.
unfoldable pub consume : Endpoint → ℕ → Option (ℕ × List ℕ × Endpoint)
consume e length' =
    let copied = smaller e.packet_length length' in
    if e.occupied
    then some
        (copied, take copied (contents e.packet), record e { occupied = false; packet_length = 0 })
    else none

abbrev pub read_result : ℕ → Driver → Option (ℕ × List ℕ × Endpoint) → (ℤ × List ℕ) × Driver
read_result address u none = ((pos 0, []), u)
read_result address u (some (copied, bytes, e)) = ((pos copied, bytes), put_endpoint address e u)

-- iface_read: the result and the bytes written to `buffer`.
unfoldable pub iface_read : Interface → ℕ → Worker (ℤ × List ℕ)
iface_read i length' w = elim (endpoint_at w.usb (out_address i)) [
  | none ↦ done (minus_one, []) w
  | some e ↦
      let (result, u) = read_result (out_address i) w.usb (consume e length') in
      done result (record w { usb = u })
]

-- The critical section of iface_write.
unfoldable pub produce : Endpoint → List ℕ → Option Endpoint
produce e bytes =
    if e.occupied
    then none
    else some (record e {
      packet = if length bytes == 0 then e.packet else some bytes;
      packet_length = length bytes % 65536;
      occupied = true;
    })

abbrev pub has_fd : Option ℕ → Bool
has_fd none = false
has_fd (some fd) = true

abbrev pub write_result : ℕ → Driver → List ℕ → Option Endpoint → ℤ × Driver
write_result address u bytes none = (pos 0, u)
write_result address u bytes (some e) = (pos (length bytes), put_endpoint address e u)

unfoldable pub iface_write : Interface → List ℕ → Worker ℤ
iface_write i bytes w = elim (endpoint_at w.usb (in_address i)) [
  | none ↦ done (pos 0) w
  | some e ↦
      if not w.usb.enabled
        || w.usb.suspended
        || not (has_fd e.fd)
        || ltb e.max_packet_size (length bytes)
      then done (pos 0) w
      else (let (result, u) = write_result (in_address i) w.usb bytes (produce e bytes) in
          done result (record w { usb = u }))
]

unfoldable pub iface_event_poll : Platform → Interface → Bool → Bool → Worker (Unit {0})
iface_event_poll p i read_awaited write_awaited = do
  service_controller p
  u ← get_usb
  (if read_awaited && iface_read_ready u i then emit (signalled_read i.handle) else pure tt)
  if write_awaited && iface_write_ready u i then emit (signalled_write i.handle) else pure tt

-- `usb_handle` is SYSHANDLE_USB.
unfoldable pub usb_event_poll : Platform → ℕ → Bool → Worker (Unit {0})
usb_event_poll p usb_handle read_awaited = do
  service_controller p
  if read_awaited then emit (signalled_read usb_handle) else pure tt
