-- ===== src/Safe3/Tasks.antt =====
-- What platform/safe3/usb_supervisor.c tells each task of the USB state: usb_get_event,
-- on_task_created and usb_get_state. A task's state is its `configured`.
pub mod Events
use virtual_trezor.Prelude.{
  Option, none, some, ℕ, ◌+◌, ◌%◌, ◌*◌, Bool, true, false, not, ◌&&◌, ◌||◌, Option, none, some,
  is_some, List, [], ◌∷◌, length, take, get_elem?, get_or, set, leb, ◌==◌, ◌!=◌, if◌then◌else◌,
}
use virtual_trezor.Prelude.Text.{Text, codes, text_eq}
use virtual_trezor.Exec.{◌>>=◌, ◌>>◌, pure, die, done}
use virtual_trezor.Safe3.State.{
  World, Worker, Answer, Event, Driver, DeviceInfo, Endpoint, Interface, InterfaceType,
  PersonalityDevice, PersonalityInterface, failed, number, buffer, webusb, hid, call, call_or_die,
  emit, modify_usb, max_interfaces, kind_configure, registered, unregistered, built_device,
  built_interface, built_compatible_id, built_serial_number, built_webusb, freed_personality,
  initialize_synchronization,
}
use virtual_trezor.Safe3.Records.{send_record}
use virtual_trezor.Safe3.Endpoints.{
  get_usb, is_disabled, for_endpoints, store_endpoints, stop_endpoint_threads,
}
use virtual_trezor.Safe3.Configure.{next_request_id, configure_until_endpoints}

-- usb_event_t
pub data UsbEvent : Type 0 where
  event_none event_configured event_deconfigured : UsbEvent

-- usb_get_event for the active task; the new state of the driver and the event.
unfoldable pub usb_get_event : Driver → ℕ → UsbEvent × Driver
usb_get_event u task =
    if not u.initialized
    then (event_none, u)
    else if u.enabled && get_or u.task_state task false
    then (event_none, u)
    else if not u.enabled && not (get_or u.task_state task false)
    then (event_none, u)
    else (
      if u.enabled then event_configured else event_deconfigured,
      record u { task_state = set u.task_state task u.enabled },
    )

unfoldable pub on_task_created : Driver → ℕ → Driver
on_task_created u task = record u { task_state = set u.task_state task false }

-- usb_get_state
unfoldable pub usb_get_state : Driver → Bool
usb_get_state u = u.enabled

-- The handle's read test: `parameter` is the `configured` of the state that the caller has, `none` for
-- a null pointer.
unfoldable pub usb_state_changed : Driver → ℕ → Option Bool → Bool
usb_state_changed u task none = false
usb_state_changed u task (some configured) = differ configured (get_or u.task_state task false)
  where
    differ : Bool → Bool → Bool
    differ true b = not b
    differ false b = b
