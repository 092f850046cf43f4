-- ===== src/Safe3/Control.antt =====
-- The control requests of platform/safe3/usb_supervisor.c: answer_control_request and
-- send_control_response. The function is split at its last `if`: `control_reply` is the ladder that
-- sets `handled`, `acknowledge`, `response` and `response_length`, and `answer_control_request` has
-- the checks before it and the response behind it.
pub mod Replies
pub mod Hid
pub mod Response
use virtual_trezor.Prelude.{
  ℕ, ◌+◌, ◌-◌, ◌/◌, ◌%◌, Bool, true, false, not, ◌&&◌, ◌||◌, Option, none, some, is_some, List, [],
  ◌∷◌, length, drop, take, set, ltb, leb, ◌==◌, ◌!=◌, if◌then◌else◌,
}
use virtual_trezor.Prelude.Text.{codes}
use virtual_trezor.Bytes.{byte, le16}
use virtual_trezor.Exec.{◌>>=◌, ◌>>◌, pure, die}
use virtual_trezor.Safe3.State.{
  Worker, Driver, Interface, InterfaceType, WorkerRecord, disabled, webusb, hid, call_or_die,
  modify_usb, kind_usb_control_response, allocate_control_response, invalid_control_request,
  control_data_mismatch,
}
use virtual_trezor.Safe3.Records.{send_record}
use virtual_trezor.Safe3.Endpoints.{get_usb, interface_for_number}

-- The setup packet, its fields read.
pub record Setup : Type 0 where
  pub request_type : ℕ
  pub request : ℕ
  pub value : ℕ
  pub index : ℕ
  pub requested : ℕ

unfoldable pub read_setup : List ℕ → Setup
unfolding le16
read_setup setup = record {
  request_type = byte setup 0;
  request = byte setup 1;
  value = le16 setup 2;
  index = le16 setup 4;
  requested = le16 setup 6;
}

-- request_type & 0x80, request_type & 0x60 in units of 0x20, and request_type & 0x1f.
abbrev pub direction_in : Setup → Bool
direction_in s = leb 128 (s.request_type % 256)

abbrev pub request_class : Setup → ℕ
request_class s = s.request_type / 32 % 4

abbrev pub recipient : Setup → ℕ
recipient s = s.request_type % 32

-- What the ladder decides: no branch took the request; it is acknowledged, with the interfaces as
-- they are then; or these bytes are the response.
pub data Reply : Type 0 where
  stall : Reply
  acknowledge : List Interface → Reply
  respond : List ℕ → Reply

abbrev pub is_hid : InterfaceType → Bool
is_hid hid = true
is_hid webusb = false
is_hid disabled = false

abbrev pub hid_interface : Option Interface → Bool
hid_interface none = false
hid_interface (some i) = is_hid i.interface_type

abbrev pub msft : List ℕ
msft =
    18 ∷ 3 ∷ b'M' ∷ 0 ∷ b'S' ∷ 0 ∷ b'F' ∷ 0 ∷ b'T' ∷ 0 ∷ b'1' ∷ 0 ∷ b'0' ∷ 0 ∷ b'0' ∷ 0 ∷ b'!' ∷ 0
    ∷ []

abbrev pub url : List ℕ
url = 18 ∷ 3 ∷ 1 ∷ codes "trezor.io/start"

abbrev pub report_reply : Option Interface → Reply
report_reply none = stall
report_reply (some i) = respond (take i.report_descriptor_len i.report_descriptor)

-- The branches of a HID class request to an interface; `slot` is the interface's number.
unfoldable pub hid_reply : List Interface → ℕ → Interface → Setup → Reply
hid_reply interfaces slot i s =
    if direction_in s && s.request == 0x02
    then respond (i.hid_idle ∷ [])
    else if direction_in s && s.request == 0x03
    then respond (i.hid_protocol ∷ [])
    else if not (direction_in s) && s.request == 0x0a
    then acknowledge (set interfaces slot (record i { hid_idle = s.value / 256 % 256 }))
    else if not (direction_in s) && s.request == 0x0b
    then acknowledge (set interfaces slot (record i { hid_protocol = s.value % 256 }))
    else if not (direction_in s) && s.request == 0x09
    then acknowledge interfaces
    else if direction_in s && s.request == 0x01
    then respond []
    else stall

abbrev pub hid_reply_to : List Interface → ℕ → Option Interface → Setup → Reply
hid_reply_to interfaces slot none s = stall
hid_reply_to interfaces slot (some i) s = hid_reply interfaces slot i s

unfoldable pub control_reply : Driver → Setup → Reply
control_reply u s =
    let slot = s.index % 256 in
    let iface = interface_for_number u.interfaces slot in
    let kind = request_class s in
    if kind == 0
      && direction_in s
      && s.request == 0x06
      && s.value / 256 == 0x22
      && hid_interface iface
    then report_reply iface
    else if kind == 0
        && direction_in s
        && s.request == 0x06
        && s.value / 256 == 3
        && s.value % 256 == 0xee
    then respond msft
    else if kind == 0 && direction_in s && s.request == 0x00
    then respond (0 ∷ 0 ∷ [])
    else if kind == 0 && direction_in s && s.request == 0x08
    then respond ((if u.enabled then 1 else 0) ∷ [])
    else if kind == 0 && recipient s == 1 && direction_in s && s.request == 0x0a && is_some iface
    then respond (0 ∷ [])
    else if kind == 0
        && not (direction_in s)
        && (s.request == 0x0b || s.request == 0x09 || s.request == 0x01 || s.request == 0x03)
    then acknowledge u.interfaces
    else if kind == 1 && recipient s == 1 && hid_interface iface
    then hid_reply_to u.interfaces slot iface s
    else if kind == 2
        && recipient s == 0
        && direction_in s
        && s.request == 0x01
        && s.index == 0x0002
        && s.value == 0x0001
    then respond url
    else stall

unfoldable pub send_control_response : ℕ → ℕ → List ℕ → Worker (Unit {0})
send_control_response request_id disposition response = do
  _ ← call_or_die allocate_control_response
  u ← get_usb
  send_record kind_usb_control_response u.generation request_id (disposition ∷ response)

-- The last `if`: RESPONSE_STALL, RESPONSE_ACK or RESPONSE_DATA.
unfoldable pub send_reply : ℕ → ℕ → Reply → Worker (Unit {0})
unfolding send_control_response
send_reply request_id requested stall = send_control_response request_id 0 []
send_reply request_id requested (acknowledge interfaces) =
    modify_usb (λ u. record u { interfaces = interfaces }) >> send_control_response request_id 1 []
send_reply request_id requested (respond response) =
    send_control_response request_id 2 (take requested response)

-- The guards: the record is a request of this generation, and its data fit its setup packet.
unfoldable pub request_is_valid : Driver → WorkerRecord → Bool
request_is_valid u r =
    r.generation == u.generation && r.request_id != 0 && leb 8 (length r.body) && length r.fds == 0

unfoldable pub data_match : Setup → ℕ → Bool
data_match s out_length = if direction_in s then out_length == 0 else out_length == s.requested

unfoldable pub answer_control_request : WorkerRecord → Worker (Unit {0})
answer_control_request r = do
  u ← get_usb
  let s = read_setup r.body
  if not (request_is_valid u r)
      then die invalid_control_request
      else if not (data_match s (length r.body - 8))
      then die control_data_mismatch
      else send_reply r.request_id s.requested (control_reply u s)
