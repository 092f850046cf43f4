-- ===== src/Examples/Requests.antt =====
-- Instances of the theorems about the control requests, the events and the loops of the Safe 3
-- driver.
use virtual_trezor.Prelude.{◌≡◌, refl, true, false, some, [], ◌∷◌, get_or, arith}
use virtual_trezor.Exec.{done, ◌>>=◌}
use virtual_trezor.Bytes.{le16}
use virtual_trezor.Safe3.State.{WorkerRecord, sent}
use virtual_trezor.Safe3.Records.{encode_record}
use virtual_trezor.Safe3.Endpoints.{interface_for_number}
use virtual_trezor.Safe3.Bus.{bus_disable}
use virtual_trezor.Safe3.Configure.{configure_loop}
use virtual_trezor.Safe3.Configure.Rounds.{configure_loop-rounds}
use virtual_trezor.Safe3.Control.Response.{sends, answer_control_request-replied}
use virtual_trezor.Safe3.Control.{
  read_setup, request_is_valid, data_match, answer_control_request, control_reply, acknowledge,
  respond,
}
use virtual_trezor.Safe3.Control.Hid.{
  set_request, get_request, with_interface, control_reply-set-get,
}
use virtual_trezor.Safe3.Service.{take_notifications}
use virtual_trezor.Safe3.Service.Stale.{NeverReturns, bus_disable-take_notifications}
use virtual_trezor.Safe3.Tasks.{event_none, usb_get_event, usb_get_state, usb_state_changed}
use virtual_trezor.Safe3.Tasks.Events.{told, usb_get_event-told}
use virtual_trezor.Examples.Setup.{hid_slot, enabled_driver, some_world}

-- GET_STATUS, of whose two bytes the host asks for one.
abbrev get_status : WorkerRecord
get_status = record {
  kind = 0x04;
  generation = 3;
  request_id = 7;
  body = 0x80 ∷ 0 ∷ 0 ∷ 0 ∷ 0 ∷ 0 ∷ 1 ∷ 0 ∷ [];
  fds = [];
}

answer_control_request-replied_example :
    answer_control_request get_status (record some_world { answers = sends (2 ∷ 0 ∷ []) [] })
    ≡ done tt
        (record some_world { answers = []; log = sent (encode_record 0x81 3 7 (2 ∷ 0 ∷ [])) ∷ [] })
unfolding request_is_valid data_match read_setup le16 control_reply interface_for_number
answer_control_request-replied_example =
    answer_control_request-replied get_status [] some_world refl refl (omega arith)

control_reply-set-get_example :
    (control_reply enabled_driver (set_request 0x0a 0x1200 0)
      ≡ acknowledge
          (with_interface enabled_driver 0 (record hid_slot { hid_idle = 18 })).interfaces)
    × (control_reply
          (with_interface enabled_driver 0 (record hid_slot { hid_idle = 18 }))
          (get_request 0x02 0)
        ≡ respond (18 ∷ []))
    × (control_reply
          (with_interface enabled_driver 0 (record hid_slot { hid_idle = 18 }))
          (get_request 0x03 0)
        ≡ respond (0 ∷ []))
    × (control_reply enabled_driver (set_request 0x0b 0x1200 0)
        ≡ acknowledge
            (with_interface enabled_driver 0 (record hid_slot { hid_protocol = 0 })).interfaces)
    × (control_reply
          (with_interface enabled_driver 0 (record hid_slot { hid_protocol = 0 }))
          (get_request 0x03 0)
        ≡ respond (0 ∷ []))
    × (control_reply
          (with_interface enabled_driver 0 (record hid_slot { hid_protocol = 0 }))
          (get_request 0x02 0)
        ≡ respond (0 ∷ []))
control_reply-set-get_example =
    control_reply-set-get enabled_driver 0 0x1200 hid_slot (omega arith) (omega arith) refl refl

usb_get_event-told_example :
    (told false (usb_get_event enabled_driver 0).0 ≡ true)
    × (get_or (usb_get_event enabled_driver 0).1.task_state 0 false
        ≡ usb_get_state (usb_get_event enabled_driver 0).1)
    × ((usb_get_event (usb_get_event enabled_driver 0).1 0).0 ≡ event_none)
    × (usb_state_changed (usb_get_event enabled_driver 0).1 0 (some true) ≡ false)
unfolding usb_get_event usb_get_state
usb_get_event-told_example = usb_get_event-told enabled_driver 0 refl (omega arith)

configure_loop-rounds_example : configure_loop 5 true false 9 ≡ configure_loop 2 true false 9
configure_loop-rounds_example = configure_loop-rounds 3 true false 9

bus_disable-take_notifications_example :
    NeverReturns (bus_disable >>= λ _. take_notifications (0 ∷ 1 ∷ []) (1 ∷ 0 ∷ [])) some_world
bus_disable-take_notifications_example =
    bus_disable-take_notifications 0 (1 ∷ []) (1 ∷ 0 ∷ []) some_world (omega arith) refl
