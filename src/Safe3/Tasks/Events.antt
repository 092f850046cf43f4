-- ===== src/Safe3/Tasks/Events.antt =====
-- usb_get_event of platform/safe3/usb_supervisor.c.
use virtual_trezor.Prelude.{some, ℕ, ◌≡◌, Bool, true, false, length, get_or, get_or-set, ◌<◌, arith}
use virtual_trezor.Safe3.State.{Driver}
use virtual_trezor.Safe3.Tasks.{
  UsbEvent, event_none, event_configured, event_deconfigured, usb_get_event, usb_get_state,
  usb_state_changed,
}

-- What a task knows of the device, from the events that it has had.
abbrev pub told : Bool → UsbEvent → Bool
told known event_none = known
told known event_configured = true
told known event_deconfigured = false

-- While the driver is initialized, a poll tells a task the current state: what the task knew, changed
-- by the event, is what usb_get_state returns; the table then has it, a second poll has
-- no event, and the handle sees no change against that state.
pub usb_get_event-told :
    (u : Driver) (task : ℕ)
    → u.initialized ≡ true
    → task < length u.task_state
    → let (event, v) = usb_get_event u task in
      (told (get_or u.task_state task false) event ≡ usb_get_state u)
      × (get_or v.task_state task false ≡ usb_get_state v)
      × ((usb_get_event v task).0 ≡ event_none)
      × (usb_state_changed v task (some (usb_get_state v)) ≡ false)
unfolding usb_get_event usb_get_state usb_state_changed
usb_get_event-told u task on h = ground (arith, get_or-set u.task_state task u.enabled false h)
