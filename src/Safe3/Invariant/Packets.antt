-- ===== src/Safe3/Invariant/Packets.antt =====
-- iface_read and iface_write of platform/safe3/usb_supervisor.c keep the driver sound.
use virtual_trezor.Prelude.{
  ℕ, ◌≡◌, refl, ◌∙◌, true, false, not, ◌||◌, Option, none, some, List, length, set, length-set, All,
  All-set, All-get_elem?, get_elem?, ltb, inl, inr, arith, Bool-cases, subst, sym,
}
use virtual_trezor.Exec.{Returns}
use virtual_trezor.Safe3.State.{Driver, Endpoint, Interface}
use virtual_trezor.Safe3.Endpoints.{endpoint_for}
use virtual_trezor.Safe3.Interfaces.{
  out_address, in_address, endpoint_at, put_endpoint, consume, produce, read_result, write_result,
  has_fd, iface_read, iface_write,
}
use virtual_trezor.Safe3.Invariant.{IsQuiet, IsServed, IsSound, Preserves}

-- An endpoint that is put back keeps its thread, its descriptors and its buffers.
put_endpoint-IsSound :
    (u : Driver) (address : ℕ) (e : Endpoint)
    → (u.enabled ≡ false → All IsQuiet u.endpoints → IsQuiet e)
    → (u.enabled ≡ true → All IsServed u.endpoints → IsServed e)
    → IsSound u
    → IsSound (put_endpoint address e u)
unfolding put_endpoint
put_endpoint-IsSound u address e quiet served s = by_position (endpoint_for address)
  where
    by_position :
        (o : Option ℕ)
        → IsSound (elim o [ none ↦ u | some i ↦ record u { endpoints = set u.endpoints i e } ])
    by_position none = s
    by_position (some i) = record {
      rows = length-set u.endpoints i e ∙ s.rows;
      slots = s.slots;
      parked = λ off. All-set IsQuiet u.endpoints i e (s.parked off) (quiet off (s.parked off));
      served = λ on. All-set IsServed u.endpoints i e (s.served on) (served on (s.served on));
    }

-- An endpoint in the table is as quiet or as served as all of them.
endpoint_at-All :
    (P : Endpoint → Type 0) (u : Driver) (address : ℕ) (e : Endpoint)
    → endpoint_at u address ≡ some e
    → All P u.endpoints
    → P e
unfolding endpoint_at
endpoint_at-All P u address e h all = by_position (endpoint_for address) h
  where
    by_position :
        (o : Option ℕ)
        → elim o as (λ _. Option Endpoint) [ none ↦ none | some i ↦ get_elem? u.endpoints i ]
          ≡ some e
        → P e
    by_position none p = absurd (cc)
    by_position (some i) p = All-get_elem? P u.endpoints i all p

pub consume-emptied :
    (e e' : Endpoint) (length' copied : ℕ) (bytes : List ℕ)
    → consume e length' ≡ some (copied, bytes, e')
    → (e' ≡ record e { occupied = false; packet_length = 0 }) × (e.occupied ≡ true)
unfolding consume
consume-emptied e e' length' copied bytes h = ground arith

read_result-IsSound :
    (u : Driver) (address length' : ℕ) (e : Endpoint) (o : Option (ℕ × List ℕ × Endpoint))
    → endpoint_at u address ≡ some e
    → consume e length' ≡ o
    → IsSound u
    → IsSound (read_result address u o).1
read_result-IsSound u address length' e none h p s = s
read_result-IsSound u address length' e (some (copied, bytes, e')) h p s =
    let (q, _) = consume-emptied e e' length' copied bytes p in
    put_endpoint-IsSound u address e'
      (λ off all.
        subst IsQuiet (sym q) (emptied-IsQuiet e (endpoint_at-All IsQuiet u address e h all)))
      (λ on all. subst IsServed (sym q) (endpoint_at-All IsServed u address e h all)) s
  where
    emptied-IsQuiet :
        (e : Endpoint) → IsQuiet e → IsQuiet (record e { occupied = false; packet_length = 0 })
    emptied-IsQuiet e (running, event, packet, read, occupied, l) =
        (running, event, packet, read, refl, refl)

pub Preserves-iface_read : (i : Interface) (length' : ℕ) → Preserves (iface_read i length')
unfolding iface_read
Preserves-iface_read i length' w = by_endpoint (endpoint_at w.usb (out_address i)) refl
  where
    by_endpoint :
        (o : Option Endpoint)
        → endpoint_at w.usb (out_address i) ≡ o
        → Returns (iface_read i length' w) λ _ w'. IsSound w.usb → IsSound w'.usb
    by_endpoint none h = rw (iface_read, h) (λ s. s)
    by_endpoint (some e) h =
        rw (iface_read, h) (read_result-IsSound w.usb (out_address i) length' e _ h refl)

produce-filled :
    (e e' : Endpoint) (bytes : List ℕ) → produce e bytes ≡ some e' → IsServed e → IsServed e'
unfolding produce
produce-filled e e' bytes h s = ground arith

write_result-IsSound :
    (u : Driver) (address : ℕ) (bytes : List ℕ) (e : Endpoint) (o : Option Endpoint)
    → u.enabled ≡ true
    → endpoint_at u address ≡ some e
    → produce e bytes ≡ o
    → IsSound u
    → IsSound (write_result address u bytes o).1
write_result-IsSound u address bytes e none on h p s = s
write_result-IsSound u address bytes e (some e') on h p s =
    put_endpoint-IsSound u address e' (λ off. absurd (cc))
      (λ _ all. produce-filled e e' bytes p (endpoint_at-All IsServed u address e h all)) s

pub Preserves-iface_write : (i : Interface) (bytes : List ℕ) → Preserves (iface_write i bytes)
unfolding iface_write
Preserves-iface_write i bytes w = by_endpoint (endpoint_at w.usb (in_address i)) refl
  where
    by_endpoint :
        (o : Option Endpoint)
        → endpoint_at w.usb (in_address i) ≡ o
        → Returns (iface_write i bytes w) λ _ w'. IsSound w.usb → IsSound w'.usb
    by_endpoint none h = rw (iface_write, h) (λ s. s)
    by_endpoint (some e) h =
        elim (Bool-cases (
          not w.usb.enabled
          || w.usb.suspended
          || not (has_fd e.fd)
          || ltb e.max_packet_size (length bytes))) [
            | inl refused ↦ rw (iface_write, h, refused) (λ s. s)
            | inr accepted ↦
                rw (iface_write, h, accepted)
                  (write_result-IsSound w.usb (in_address i) bytes e _ (ground arith) h refl)
          ]
