-- ===== src/Legacy/Transfer.antt =====
-- Control transfers in platform/raspberry-pi/usb_functionfs.c: run_control_transfer, which drives the
-- state machine of libopencm3, and handle_usb_control_request.
pub mod Stalled
use virtual_trezor.Prelude.{
  ℕ, zero, suc, ◌+◌, ◌-◌, Bool, true, false, not, ◌&&◌, ◌||◌, Option, none, some, List, [], ◌∷◌,
  length, take, drop, ltb, leb, ◌==◌, ◌!=◌, if◌then◌else◌,
}
use virtual_trezor.Bytes.{byte, le16}
use virtual_trezor.Exec.{◌>>=◌, ◌>>◌, pure, die, blocked}
use virtual_trezor.Protocol.{WorkerRecord, kind_usb_control_response}
use virtual_trezor.Legacy.State.{
  World, Worker, Usb, Device, Firmware, ControlState, idle, stalled_state, data_in, last_data_in,
  status_in, data_out, last_data_out, status_out, call_or_die, modify_usb, get_usb, get_device,
  invalid_control_request, control_data_mismatch, allocate_control_response,
}
use virtual_trezor.Legacy.Records.{send_record}
use virtual_trezor.Legacy.Packets.{modify_device}

abbrev pub is_data_out : ControlState → Bool
is_data_out s = elim s [ data_out ↦ true | last_data_out ↦ true | _ ↦ false ]

abbrev pub is_data_in : ControlState → Bool
is_data_in s = elim s [ data_in ↦ true | _ ↦ false ]

abbrev pub is_last_data_in : ControlState → Bool
is_last_data_in s = elim s [ last_data_in ↦ true | _ ↦ false ]

abbrev pub is_status_out : ControlState → Bool
is_status_out s = elim s [ status_out ↦ true | _ ↦ false ]

abbrev pub is_status_in : ControlState → Bool
is_status_in s = elim s [ status_in ↦ true | _ ↦ false ]

abbrev pub is_stalled : ControlState → Bool
is_stalled s = elim s [ stalled_state ↦ true | _ ↦ false ]

abbrev pub setup_is_in : List ℕ → Bool
setup_is_in setup = leb 128 (byte setup 0)

-- The first test: the data must fit the setup packet.
unfoldable pub data_match : List ℕ → List ℕ → Bool
unfolding le16
data_match setup out = if setup_is_in setup then length out == 0 else length out == le16 setup 6

-- The test of the loop over the OUT data.
abbrev pub wants_data_out : World → Bool
wants_data_out w = not w.usb.control_stalled && is_data_out w.device.control_state

abbrev pub wants_data_in : World → Bool
wants_data_in w = is_data_in w.device.control_state

-- while (test) { step }
unfoldable pub repeat_while : (World → Bool) → Worker (Unit {0}) → ℕ → Worker (Unit {0})
repeat_while test step zero = blocked
repeat_while test step (suc fuel) =
    let again = repeat_while test step fuel in λ w. (if test w then (step >> again) else pure tt) w

-- What follows SETUP for a transfer to the host.
unfoldable pub finish_in : Firmware → Worker (Unit {0})
unfolding repeat_while
finish_in f = do
  repeat_while wants_data_in f.control_in f.rounds
  d ← get_device
  (if is_last_data_in d.control_state then f.control_in else pure tt)
  d ← get_device
  if is_status_out d.control_state then f.control_out else pure tt

unfoldable pub begin_transfer : List ℕ → List ℕ → Worker (Unit {0})
begin_transfer setup out =
    modify_usb (λ u. record u {
      control_active = true;
      control_stalled = false;
      control_out_data = out;
      control_out_offset = 0;
      control_in = [];
    })
    >> modify_device (λ d. record d { request = setup })

-- From SETUP to the end of the status stage.
unfoldable pub run_stages : Firmware → List ℕ → Worker (Unit {0})
unfolding repeat_while finish_in le16
run_stages f setup = do
  f.control_setup
  u ← get_usb
  (if not u.control_stalled && not (setup_is_in setup) && le16 setup 6 != 0
      then repeat_while wants_data_out f.control_out f.rounds
      else pure tt)
  u ← get_usb
  d ← get_device
  if not u.control_stalled && setup_is_in setup
      then finish_in f
      else if not u.control_stalled && is_status_in d.control_state
      then f.control_in
      else pure tt

-- The result: whether the transfer stalled, and the response.
unfoldable pub run_control_transfer : Firmware → List ℕ → List ℕ → Worker (Bool × List ℕ)
unfolding begin_transfer run_stages
run_control_transfer f setup out = if not (data_match setup out) then pure (true, []) else do
  begin_transfer setup out
  run_stages f setup
  u ← get_usb
  d ← get_device
  modify_usb λ u. record u { control_active = false }
  pure (u.control_stalled || is_stalled d.control_state, u.control_in)

abbrev unless_stalled : Bool × List ℕ → Option (List ℕ)
unless_stalled (true, response) = none
unless_stalled (false, response) = some response

unfoldable pub firmware_control_transfer : Firmware → List ℕ → List ℕ → Worker (Option (List ℕ))
firmware_control_transfer f setup out =
    run_control_transfer f setup out >>= λ r. pure (unless_stalled r)

unfoldable pub request_is_valid : Usb → WorkerRecord → Bool
request_is_valid u r =
    r.generation == u.generation && r.request_id != 0 && leb 8 (length r.body) && length r.fds == 0

-- RESPONSE_STALL, RESPONSE_ACK or RESPONSE_DATA.
abbrev pub respond : ℕ → Bool → ℕ → Bool × List ℕ → Worker (Unit {0})
respond request_id is_in requested (true, response) =
    get_usb >>= λ u. send_record kind_usb_control_response u.generation request_id (0 ∷ [])
respond request_id is_in requested (false, response) =
    if not is_in
    then (get_usb >>= λ u. send_record kind_usb_control_response u.generation request_id (1 ∷ []))
    else do
      _ ← call_or_die allocate_control_response
      u ← get_usb
      send_record kind_usb_control_response u.generation request_id (2 ∷ take requested response)

unfoldable pub handle_usb_control_request : Firmware → WorkerRecord → Worker (Unit {0})
unfolding le16
handle_usb_control_request f r = get_usb >>= λ u.
    if not (request_is_valid u r)
    then die invalid_control_request
    else if not (data_match r.body (drop 8 r.body))
    then die control_data_mismatch
    else (run_control_transfer f (take 8 r.body) (drop 8 r.body)
        >>= respond r.request_id (setup_is_in r.body) (le16 r.body 6))
