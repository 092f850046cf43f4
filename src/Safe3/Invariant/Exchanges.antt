-- ===== src/Safe3/Invariant/Exchanges.antt =====
-- The exchanges about a configuration in platform/safe3/usb_supervisor.c keep the driver sound.
use virtual_trezor.Prelude.{
  ℕ, zero, suc, ◌+◌, ◌≡◌, refl, Bool, true, false, not, ◌&&◌, List, [], ◌∷◌, ◌==◌, ◌^◌, ◌%◌,
}
use virtual_trezor.Exec.{Returns, Returns_imp, ◌>>=◌, pure, die}
use virtual_trezor.Safe3.State.{
  Fault, Driver, WorkerRecord, Answer, call, modify_usb, number, buffer, failed, finish_personality,
  request_id_overflow, kind_configure, kind_quiesced, kind_serving, kind_usb_endpoints,
  unexpected_configuration_record, unexpected_ejection_record,
}
use virtual_trezor.Safe3.Records.{close_record_fds, receive_record, send_record}
use virtual_trezor.Safe3.Endpoints.{get_usb, close_endpoints, install_endpoints}
use virtual_trezor.Safe3.Configure.{
  expect_buffer, is_rejection, is_quiesce, next_request_id, send_configuration, quiesce, serve,
  configure_loop, configure_until_endpoints, unconfigure_until_quiesced,
}
use virtual_trezor.Safe3.Keeps.{SameUsb, Keeps, Keeps->>=, Keeps-receive_record, Keeps-send_record}
use virtual_trezor.Safe3.Invariant.{
  IsSound, IsParked, Preserves, Preserves->>=, Preserves-if, Preserves-die, Preserves-modify,
  Keeps→Preserves, close-IsParked, preserved,
}
use virtual_trezor.Safe3.Invariant.Installing.{install_endpoints-IsParked}

pub Preserves-get_usb : Preserves get_usb
Preserves-get_usb w s = s

next_request-IsSound : (n : ℕ) (u : Driver) → IsSound u → IsSound (record u { next_request_id = n })
next_request-IsSound n u s = record {
  rows = s.rows;
  slots = s.slots;
  parked = s.parked;
  served = s.served;
}

pub Preserves-next_request_id : Preserves next_request_id
unfolding next_request_id
Preserves-next_request_id = Preserves->>= get_usb _ Preserves-get_usb λ u.
    Preserves->>= (modify_usb _) _
      (Preserves-modify _ (next_request-IsSound ((u.next_request_id + 1) % 2 ^ 32)))
      λ _.
        Preserves-if (u.next_request_id == 0) (die request_id_overflow) (pure u.next_request_id)
          (λ _. tt) (λ _ q. q)

pub Keeps-call : Keeps call
unfolding call
Keeps-call w = by_answers w.answers refl
  where
    by_answers : (next : List Answer) → w.answers ≡ next → Returns (call w) λ _ w'. SameUsb w w'
    by_answers [] p = rw (p, call) tt
    by_answers (a ∷ rest) p = rw (p, call) refl

Keeps-expect_buffer : (e : Fault) (a : Answer) → Keeps (expect_buffer e a)
Keeps-expect_buffer e (buffer bytes) = λ _. refl
Keeps-expect_buffer e (number n) = λ _. tt
Keeps-expect_buffer e (failed errno) = λ _. tt

pub Preserves-send_record :
    (kind generation request_id : ℕ) (body : List ℕ)
    → Preserves (send_record kind generation request_id body)
Preserves-send_record kind generation request_id body =
    Keeps→Preserves (send_record kind generation request_id body)
      (Keeps-send_record kind generation request_id body)

pub Preserves-receive_record : (dont_wait : Bool) → Preserves (receive_record dont_wait)
Preserves-receive_record dont_wait =
    Keeps→Preserves (receive_record dont_wait) (Keeps-receive_record dont_wait)

pub Preserves-send_configuration : Preserves send_configuration
unfolding send_configuration
Preserves-send_configuration =
    Preserves->>= (call >>= expect_buffer finish_personality) _
      (Keeps→Preserves (call >>= expect_buffer finish_personality) (
        Keeps->>= call (expect_buffer finish_personality) Keeps-call
          (Keeps-expect_buffer finish_personality)))
      λ bundle. Preserves->>= next_request_id _ Preserves-next_request_id λ request_id.
        Preserves->>= get_usb _ Preserves-get_usb λ u.
          Preserves->>= (send_record kind_configure u.generation request_id bundle) _
            (Preserves-send_record kind_configure u.generation request_id bundle) λ _ _ q. q

pub Preserves-close_endpoints : Preserves close_endpoints
Preserves-close_endpoints w = preserved (close_endpoints w) w λ s.
    Returns_imp (λ _ w'. IsParked w'.usb) (λ _ w'. IsSound w'.usb) (close_endpoints w)
      (λ _ _ q. q.0) (close-IsParked w s)

pub Preserves-install_endpoints : (r : WorkerRecord) → Preserves (install_endpoints r)
Preserves-install_endpoints r w = preserved (install_endpoints r w) w λ s.
    Returns_imp (λ _ w'. IsParked w'.usb) (λ _ w'. IsSound w'.usb) (install_endpoints r w)
      (λ _ _ q. q.0) (install_endpoints-IsParked r w s)

pub Preserves-quiesce : (request_id : ℕ) → Preserves (quiesce request_id)
unfolding quiesce
Preserves-quiesce request_id = Preserves->>= close_endpoints _ Preserves-close_endpoints λ _.
    Preserves->>= get_usb _ Preserves-get_usb
      λ u. Preserves-send_record kind_quiesced u.generation request_id []

pub Preserves-serve : (r : WorkerRecord) (request_id : ℕ) → Preserves (serve r request_id)
unfolding serve
Preserves-serve r request_id =
    Preserves->>= (install_endpoints r) _ (Preserves-install_endpoints r) λ _.
      Preserves->>= get_usb _ Preserves-get_usb λ u.
        Preserves->>= (send_record kind_serving u.generation request_id []) _
          (Preserves-send_record kind_serving u.generation request_id []) λ _ _ q. q

pub Preserves-configure_loop :
    (fuel : ℕ) (replacement quiesced : Bool) (request_id : ℕ)
    → Preserves (configure_loop fuel replacement quiesced request_id)
unfolding configure_loop
Preserves-configure_loop zero replacement quiesced request_id = λ _. tt
Preserves-configure_loop (suc fuel) replacement quiesced request_id =
    Preserves->>= (receive_record false) _ (Preserves-receive_record false) λ r.
      Preserves->>= get_usb _ Preserves-get_usb λ u.
        Preserves-if (is_rejection u.generation request_id r) _ _ (λ _ q. q)
          (Preserves-if (replacement && not quiesced && is_quiesce u.generation request_id r) _ _
            (Preserves->>= (quiesce request_id) _ (Preserves-quiesce request_id)
              λ _. Preserves-configure_loop fuel replacement true request_id)
            (Preserves-if (r.kind == kind_usb_endpoints && quiesced && r.request_id == request_id) _
              _ (Preserves-serve r request_id)
              (Preserves-die Bool (close_record_fds r) unexpected_configuration_record)))

pub Preserves-configure_until_endpoints :
    (replacement : Bool) → Preserves (configure_until_endpoints replacement)
unfolding configure_until_endpoints
Preserves-configure_until_endpoints replacement =
    Preserves->>= send_configuration _ Preserves-send_configuration
      λ request_id. Preserves-configure_loop 2 replacement (not replacement) request_id

set_ejected-IsSound : (b : Bool) (u : Driver) → IsSound u → IsSound (record u { ejected = b })
set_ejected-IsSound b u s = record {
  rows = s.rows;
  slots = s.slots;
  parked = s.parked;
  served = s.served;
}

pub Preserves-unconfigure : Preserves unconfigure_until_quiesced
unfolding unconfigure_until_quiesced
Preserves-unconfigure = Preserves->>= next_request_id _ Preserves-next_request_id λ request_id.
    Preserves->>= get_usb _ Preserves-get_usb λ u.
      Preserves->>= (send_record kind_configure u.generation request_id []) _
        (Preserves-send_record kind_configure u.generation request_id [])
        λ _. Preserves->>= (receive_record false) _ (Preserves-receive_record false) λ r.
          Preserves->>= get_usb _ Preserves-get_usb λ v.
            Preserves-if (is_rejection v.generation request_id r) _ _ (λ _ q. q)
              (Preserves-if (not (is_quiesce v.generation request_id r)) _ _
                (Preserves-die (Unit {0}) (close_record_fds r) unexpected_ejection_record)
                (Preserves->>= (quiesce request_id) _ (Preserves-quiesce request_id)
                  λ _. Preserves-modify _ (set_ejected-IsSound true)))
