-- ===== src/Safe3/Keeps.antt =====
-- The calls of platform/safe3/usb_supervisor.c that leave the driver's state alone, and the rules by
-- which that is proved of a chain of calls.
use virtual_trezor.Prelude.{
  ℕ, ◌≡◌, refl, ◌∙◌, ap, Bool, true, false, Option, none, some, List, [], ◌∷◌, ◌++◌, if◌then◌else◌,
  Bool-cases, inl, inr, length, ltb, drop, get_elem?, ◌==◌, ◌+◌, ◌%◌,
}
use virtual_trezor.Exec.{Returns, Returns_imp, Respects, Respects->>=, Respects-if, ◌>>=◌, pure}
use virtual_trezor.Safe3.State.{
  World, Worker, Fault, Event, Answer, Message, Ancillary, Interface, Endpoint, rights, other,
  number, failed, buffer, interrupted, would_block, generation_over, other_errno, call_or_die, emit,
  max_transferred_fds, max_record_length, protocol_header_length, allocate_record, send_failed,
  read_reconnect_level, read_endpoint_notification,
}
use virtual_trezor.Safe3.Records.{
  receive_message, collect_fds, decode_message, receive_record, send_record,
}
use virtual_trezor.Safe3.Records.RoundTrip.{IsRead, decode_message-IsWellFormed}
use virtual_trezor.Safe3.Endpoints.Closing.{SameBut, call_or_die-SameBut}
use virtual_trezor.Bytes.{byte}
use virtual_trezor.Safe3.Bus.{Platform}
use virtual_trezor.Safe3.Service.{
  LineFaults, drain_from, drain_lines, refresh_reconnect_state, drain_button_interrupts,
  signal_interface, read_notification, take_at, take_notification, take_notifications,
}

abbrev pub SameUsb : World → World → Type 0
SameUsb w w' = w'.usb ≡ w.usb

SameUsb-trans : (u v w : World) → SameUsb u v → SameUsb v w → SameUsb u w
SameUsb-trans u v w p q = q ∙ p

-- Whenever the call returns, the driver's state is what it was.
abbrev pub Keeps {ℓ} : {A : Type ℓ} → Worker A → Type 0
Keeps m = Respects SameUsb m

pub Keeps->>= {ℓ κ} :
    {A : Type ℓ} {B : Type κ} (m : Worker A) (f : A → Worker B)
    → Keeps m
    → ((a : A) → Keeps (f a))
    → Keeps (m >>= f)
Keeps->>= = Respects->>= SameUsb SameUsb-trans

pub Keeps-if {ℓ} :
    {A : Type ℓ} (b : Bool) (m n : Worker A) → Keeps m → Keeps n → Keeps (if b then m else n)
Keeps-if = Respects-if SameUsb

pub Keeps-call_or_die : (e : Fault) → Keeps (call_or_die e)
Keeps-call_or_die e w =
    Returns_imp (λ _ w'. SameBut w w') (λ _ w'. SameUsb w w') (call_or_die e w)
      (λ _ _ (rest, p). ap (λ y. y.usb) p) (call_or_die-SameBut e w)

pub Keeps-emit : (event : Event) → Keeps (emit event)
Keeps-emit event w = refl

pub Keeps-collect_fds : (items : List Ancillary) (fds : List ℕ) → Keeps (collect_fds items fds)
unfolding collect_fds
Keeps-collect_fds [] fds = λ w. refl
Keeps-collect_fds (other ∷ items) fds = λ w. tt
Keeps-collect_fds (rights new ∷ items) fds =
    Keeps-if (ltb max_transferred_fds (length fds + length new)) _ _ (λ _. tt)
      (Keeps-collect_fds items (fds ++ new))

pub Keeps-decode_message : (m : Message) → Keeps (decode_message m)
Keeps-decode_message m w =
    Returns_imp (IsRead m w) (λ _ w'. SameUsb w w') (decode_message m w)
      (λ _ _ (_, _, _, p). ap (λ y. y.usb) p) (decode_message-IsWellFormed m w)

pub Keeps-receive_message : (dont_wait : Bool) → Keeps (receive_message dont_wait)
unfolding receive_message
Keeps-receive_message dont_wait w = by_inbox dont_wait w.inbox refl
  where
    by_inbox :
        (b : Bool) (next : List (Option Message))
        → w.inbox ≡ next
        → Returns (receive_message b w) λ _ w'. SameUsb w w'
    by_inbox true [] p = rw (p, receive_message) tt
    by_inbox false [] p = rw (p, receive_message) tt
    by_inbox b (none ∷ rest) p = rw (p, receive_message) tt
    by_inbox b (some m ∷ rest) p = rw (p, receive_message) refl

pub Keeps-receive_record : (dont_wait : Bool) → Keeps (receive_record dont_wait)
unfolding receive_record
Keeps-receive_record dont_wait =
    Keeps->>= (receive_message dont_wait) decode_message (Keeps-receive_message dont_wait)
      Keeps-decode_message

pub Keeps-send_record :
    (kind generation request_id : ℕ) (body : List ℕ)
    → Keeps (send_record kind generation request_id body)
unfolding send_record
Keeps-send_record kind generation request_id body =
    Keeps-if (ltb max_record_length (length body)) _ _ (λ _. tt)
      (Keeps->>= (call_or_die allocate_record) _ (Keeps-call_or_die _) λ _.
        Keeps->>= (call_or_die send_failed) _ (Keeps-call_or_die _) λ count.
          Keeps-if (count == protocol_header_length + length body) _ _ (λ _. refl) (λ _. tt))

Keeps-drain_from :
    (p : Platform) (faults : LineFaults) (next : List Answer) → Keeps (drain_from p faults next)
unfolding drain_from
Keeps-drain_from p faults [] w = tt
Keeps-drain_from p faults (failed interrupted ∷ rest) w = Keeps-drain_from p faults rest w
Keeps-drain_from p faults (failed would_block ∷ rest) w = refl
Keeps-drain_from p faults (failed generation_over ∷ rest) w = tt
Keeps-drain_from p faults (failed other_errno ∷ rest) w = tt
Keeps-drain_from p faults (buffer bytes ∷ rest) w = tt
Keeps-drain_from p faults (number n ∷ rest) w = elim (Bool-cases (n == p.line_event_size)) [
  | inl more ↦ rw more (Keeps-drain_from p faults rest w)
  | inr less ↦ elim (Bool-cases (n == 0)) [ inl e ↦ rw (less, e) tt | inr e ↦ rw (less, e) tt ]
]

Keeps-drain_lines : (p : Platform) (faults : LineFaults) → Keeps (drain_lines p faults)
unfolding drain_lines
Keeps-drain_lines p faults w = Keeps-drain_from p faults w.answers w

pub Keeps-refresh_reconnect_state : (p : Platform) → Keeps (refresh_reconnect_state p)
unfolding refresh_reconnect_state
Keeps-refresh_reconnect_state p =
    Keeps->>= (drain_lines p _) _ (Keeps-drain_lines p _)
      λ _. Keeps->>= (call_or_die read_reconnect_level) _ (Keeps-call_or_die _) (λ bits w. refl)

pub Keeps-drain_button_interrupts : (p : Platform) → Keeps (drain_button_interrupts p)
unfolding drain_button_interrupts
Keeps-drain_button_interrupts p = Keeps-drain_lines p _

Keeps-signal_interface : (i : Option Interface) (address : ℕ) → Keeps (signal_interface i address)
unfolding signal_interface
Keeps-signal_interface none address w = refl
Keeps-signal_interface (some i) address w = refl

Keeps-read_notification : (fd : Option ℕ) → Keeps (read_notification fd)
unfolding read_notification
Keeps-read_notification none = λ w. tt
Keeps-read_notification (some fd) =
    Keeps->>= (call_or_die read_endpoint_notification) _ (Keeps-call_or_die _)
      λ n. Keeps-if (n == 8) _ _ (λ _. refl) (λ _. tt)

Keeps-take_at : (interfaces : List Interface) (e : Option Endpoint) → Keeps (take_at interfaces e)
Keeps-take_at interfaces none = λ w. refl
Keeps-take_at interfaces (some e) =
    Keeps->>= (read_notification e.event_fd) _ (Keeps-read_notification e.event_fd)
      λ _. Keeps-signal_interface _ e.address

Keeps-take_notification : (i : ℕ) → Keeps (take_notification i)
unfolding take_notification
Keeps-take_notification i w = Keeps-take_at w.usb.interfaces (get_elem? w.usb.endpoints i) w

pub Keeps-take_notifications : (is revents : List ℕ) → Keeps (take_notifications is revents)
unfolding take_notifications
Keeps-take_notifications [] revents = λ w. refl
Keeps-take_notifications (i ∷ is) revents =
    Keeps->>= (if byte revents 0 % 2 == 1 then take_notification i else pure tt) _
      (Keeps-if (byte revents 0 % 2 == 1) _ _ (Keeps-take_notification i) (λ _. refl))
      λ _. Keeps-take_notifications is (drop 1 revents)
