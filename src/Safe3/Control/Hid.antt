-- ===== src/Safe3/Control/Hid.antt =====
-- The HID class requests of answer_control_request in platform/safe3/usb_supervisor.c.
use virtual_trezor.Prelude.{
  ℕ, ◌/◌, ◌%◌, ◌<◌, ◌≡◌, refl, ap, ◌∙◌, ◌⊎◌, inl, inr, some, [], ◌∷◌, set, get_elem?,
  get_elem?-set_found, arith,
}
use virtual_trezor.Safe3.State.{Driver, Interface, hid}
use virtual_trezor.Safe3.Endpoints.{interface_for_number}
use virtual_trezor.Safe3.Control.{Setup, acknowledge, respond, control_reply, hid_reply}

-- SET_IDLE and SET_PROTOCOL, GET_IDLE and GET_PROTOCOL, to interface n.
abbrev pub set_request : ℕ → ℕ → ℕ → Setup
set_request request value n = record {
  request_type = 0x21;
  request = request;
  value = value;
  index = n;
  requested = 0;
}

abbrev pub get_request : ℕ → ℕ → Setup
get_request request n = record {
  request_type = 0xa1;
  request = request;
  value = 0;
  index = n;
  requested = 1;
}

-- A class request to a HID interface is answered by the HID branches.
hid_branch :
    (u : Driver) (s : Setup) (i : Interface)
    → s.index < 8
    → get_elem? u.interfaces s.index ≡ some i
    → i.interface_type ≡ hid
    → (s.request_type ≡ 0x21) ⊎ (s.request_type ≡ 0xa1)
    → control_reply u s ≡ hid_reply u.interfaces s.index i s
unfolding control_reply interface_for_number
hid_branch u s i h p q r = ground arith

abbrev pub with_interface : Driver → ℕ → Interface → Driver
with_interface u n i = record u { interfaces = set u.interfaces n i }

stored :
    (u : Driver) (n : ℕ) (i j : Interface)
    → get_elem? u.interfaces n ≡ some i
    → get_elem? (with_interface u n j).interfaces n ≡ some j
stored u n i j p = get_elem?-set_found u.interfaces n j p

gets_idle :
    (u : Driver) (n : ℕ) (i : Interface)
    → hid_reply u.interfaces n i (get_request 0x02 n) ≡ respond (i.hid_idle ∷ [])
unfolding hid_reply
gets_idle u n i = refl

gets_protocol :
    (u : Driver) (n : ℕ) (i : Interface)
    → hid_reply u.interfaces n i (get_request 0x03 n) ≡ respond (i.hid_protocol ∷ [])
unfolding hid_reply
gets_protocol u n i = refl

sets_idle :
    (u : Driver) (n value : ℕ) (i : Interface)
    → value < 65536
    → hid_reply u.interfaces n i (set_request 0x0a value n)
      ≡ acknowledge (set u.interfaces n (record i { hid_idle = value / 256 }))
unfolding hid_reply
sets_idle u n value i k =
    ap (λ b. acknowledge (set u.interfaces n (record i { hid_idle = b }))) {x = value / 256 % 256}
      {y = value / 256} (omega arith)

sets_protocol :
    (u : Driver) (n value : ℕ) (i : Interface)
    → hid_reply u.interfaces n i (set_request 0x0b value n)
      ≡ acknowledge (set u.interfaces n (record i { hid_protocol = value % 256 }))
unfolding hid_reply
sets_protocol u n value i = refl

-- What a request writes, the next reads: SET_IDLE is acknowledged and GET_IDLE then answers its
-- duration, the high byte of its value; SET_PROTOCOL is acknowledged and GET_PROTOCOL then answers its
-- protocol, the low byte; neither changes another interface or the other setting.
pub control_reply-set-get :
    (u : Driver) (n value : ℕ) (i : Interface)
    → n < 8
    → value < 65536
    → get_elem? u.interfaces n ≡ some i
    → i.interface_type ≡ hid
    → let idle = with_interface u n (record i { hid_idle = value / 256 }) in
      let protocol = with_interface u n (record i { hid_protocol = value % 256 }) in
      (control_reply u (set_request 0x0a value n) ≡ acknowledge idle.interfaces)
      × (control_reply idle (get_request 0x02 n) ≡ respond (value / 256 ∷ []))
      × (control_reply idle (get_request 0x03 n) ≡ respond (i.hid_protocol ∷ []))
      × (control_reply u (set_request 0x0b value n) ≡ acknowledge protocol.interfaces)
      × (control_reply protocol (get_request 0x03 n) ≡ respond (value % 256 ∷ []))
      × (control_reply protocol (get_request 0x02 n) ≡ respond (i.hid_idle ∷ []))
control_reply-set-get u n value i h k p q =
    let j = record i { hid_idle = value / 256 } in
    let o = record i { hid_protocol = value % 256 } in
    (
      hid_branch u (set_request 0x0a value n) i h p q (inl refl) ∙ sets_idle u n value i k,
      hid_branch (with_interface u n j) (get_request 0x02 n) j h (stored u n i j p) q (inr refl)
          ∙ gets_idle (with_interface u n j) n j,
      hid_branch (with_interface u n j) (get_request 0x03 n) j h (stored u n i j p) q (inr refl)
          ∙ gets_protocol (with_interface u n j) n j,
      hid_branch u (set_request 0x0b value n) i h p q (inl refl) ∙ sets_protocol u n value i,
      hid_branch (with_interface u n o) (get_request 0x03 n) o h (stored u n i o p) q (inr refl)
          ∙ gets_protocol (with_interface u n o) n o,
      hid_branch (with_interface u n o) (get_request 0x02 n) o h (stored u n i o p) q (inr refl)
          ∙ gets_idle (with_interface u n o) n o,
    )
