-- ===== src/Safe3/Control/Response.antt =====
-- The response of answer_control_request in platform/safe3/usb_supervisor.c.
use virtual_trezor.Prelude.{
  ℕ, suc, ◌+◌, ◌-◌, ◌≤◌, ◌<◌, ◌≡◌, refl, true, false, List, [], ◌∷◌, length, take, length-take-le,
  ltb, ◌==◌, arith,
}
use virtual_trezor.Exec.{done}
use virtual_trezor.Safe3.State.{
  World, Driver, WorkerRecord, Answer, number, sent, call, call_or_die, max_record_length,
  kind_usb_control_response,
}
use virtual_trezor.Safe3.Records.{encode_record, send_record}
use virtual_trezor.Safe3.Control.{
  Reply, stall, acknowledge, respond, read_setup, control_reply, send_control_response, send_reply,
  request_is_valid, data_match, answer_control_request,
}

-- RESPONSE_STALL, RESPONSE_ACK and RESPONSE_DATA, with the data, at most as long as requested.
abbrev pub response_body : ℕ → Reply → List ℕ
response_body requested stall = 0 ∷ []
response_body requested (acknowledge interfaces) = 1 ∷ []
response_body requested (respond response) = 2 ∷ take requested response

-- The driver when the reply has been made.
abbrev pub replied : Driver → Reply → Driver
replied u stall = u
replied u (acknowledge interfaces) = record u { interfaces = interfaces }
replied u (respond response) = u

-- malloc twice, and send, which sends all.
abbrev pub sends : List ℕ → List Answer → List Answer
sends body rest = number 0 ∷ number 0 ∷ number (20 + length body) ∷ rest

length-response_body-le :
    (requested : ℕ) (reply : Reply) → length (response_body requested reply) ≤ suc requested
length-response_body-le requested stall = omega arith
length-response_body-le requested (acknowledge interfaces) = omega arith
length-response_body-le requested (respond response) =
    omega (arith, length-take-le requested response)

send_record-sent :
    (kind generation request_id : ℕ) (body : List ℕ) (rest : List Answer) (w : World)
    → length body ≤ max_record_length
    → send_record kind generation request_id body
        (record w { answers = number 0 ∷ number (20 + length body) ∷ rest })
      ≡ done tt (record w {
        answers = rest;
        log = sent (encode_record kind generation request_id body) ∷ w.log;
      })
unfolding send_record call_or_die call
send_record-sent kind generation request_id body rest w h =
    let small : ltb max_record_length (length body) ≡ false = ground arith in
    let whole : ((20 + length body) == (20 + length body)) ≡ true = ground arith in
    rw (small, whole) refl

send_reply-replied :
    (request_id requested : ℕ) (reply : Reply) (rest : List Answer) (w : World)
    → requested < 65536
    → send_reply request_id requested reply
        (record w { answers = sends (response_body requested reply) rest })
      ≡ done tt (record w {
        usb = replied w.usb reply;
        answers = rest;
        log =
            sent (
              encode_record kind_usb_control_response w.usb.generation request_id
                (response_body requested reply))
            ∷ w.log;
      })
unfolding send_reply send_control_response call_or_die call
send_reply-replied request_id requested stall rest w h =
    send_record-sent kind_usb_control_response w.usb.generation request_id (0 ∷ []) rest w
      (omega arith)
send_reply-replied request_id requested (acknowledge interfaces) rest w h =
    send_record-sent kind_usb_control_response w.usb.generation request_id (1 ∷ []) rest
      (record w { usb = record (w.usb) { interfaces = interfaces } }) (omega arith)
send_reply-replied request_id requested (respond response) rest w h =
    send_record-sent kind_usb_control_response w.usb.generation request_id
      (2 ∷ take requested response) rest w
      (omega (arith, length-response_body-le requested (respond response)))

-- A valid control request is answered, where malloc and send succeed, with exactly one response, which has
-- the request's id and the driver's generation: a stall, an acknowledgement, or as many bytes of the
-- data as the host asked for; and an acknowledged request is the only one that changes the driver,
-- and changes only its interfaces.
pub answer_control_request-replied :
    (r : WorkerRecord) (rest : List Answer) (w : World)
    → request_is_valid w.usb r ≡ true
    → data_match (read_setup r.body) (length r.body - 8) ≡ true
    → (read_setup r.body).requested < 65536
    → let reply = control_reply w.usb (read_setup r.body) in
      let body = response_body (read_setup r.body).requested reply in
      answer_control_request r (record w { answers = sends body rest })
      ≡ done tt (record w {
        usb = replied w.usb reply;
        answers = rest;
        log =
            sent (encode_record kind_usb_control_response w.usb.generation r.request_id body)
            ∷ w.log;
      })
unfolding answer_control_request
answer_control_request-replied r rest w p q h =
    rw (p, q)
      (send_reply-replied r.request_id (read_setup r.body).requested
        (control_reply w.usb (read_setup r.body)) rest w h)
