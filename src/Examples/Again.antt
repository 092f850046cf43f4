-- ===== src/Examples/Again.antt =====
-- A Safe 3 driver that is torn down and set up a second time.
use virtual_trezor.Prelude.{◌≡◌, refl, true, false, some, [], ◌∷◌}
use virtual_trezor.Exec.{Returns}
use virtual_trezor.Safe3.State.{World, number, call, call_or_die}
use virtual_trezor.Safe3.Records.{send_record}
use virtual_trezor.Safe3.Endpoints.{for_endpoints, stop_endpoint, stop_endpoint_threads}
use virtual_trezor.Safe3.Configure.{next_request_id}
use virtual_trezor.Safe3.Lifecycle.{
  attempt, init_endpoint, announce, init_driver, usb_init, unregister_all, usb_stop, usb_deinit,
}
use virtual_trezor.Safe3.Adding.{InterfaceInfo, free_interface, usb_webusb_add, usb_hid_add}
use virtual_trezor.Safe3.Adding.Again.{add_after_setup, add_after_setup-refused}
use virtual_trezor.Examples.Setup.{hid_slot, no_device, core, some_world}

abbrev first_interface : InterfaceInfo
first_interface = record {
  iface_num = 0;
  handle = 5;
  subclass = 0;
  protocol = 0;
  polling_interval = 1;
  max_packet_len = 64;
  has_rx_buffer = true;
  report_desc = some (1 ∷ 2 ∷ []);
  report_desc_len = 2;
}

-- The threads are stopped, and the personality, the handle and the record succeed.
abbrev answering_world : World
answering_world = record some_world {
  answers =
      number 0 ∷ number 0 ∷ number 0 ∷ number 0 ∷ number 1 ∷ number 0 ∷ number 0 ∷ number 20 ∷ [];
}

-- The driver is set up again, and refuses the interface.
add_after_setup_returns :
    Returns
      (add_after_setup core no_device (usb_webusb_add first_interface) answering_world)
      λ added v. (added ≡ false) × (v.usb.initialized ≡ true) × (v.answers ≡ [])
unfolding add_after_setup usb_deinit usb_stop unregister_all stop_endpoint_threads for_endpoints
    stop_endpoint call_or_die call usb_init init_driver init_endpoint attempt announce
    next_request_id send_record usb_webusb_add free_interface
add_after_setup_returns = (refl, refl, refl)

add_after_setup-refused_example :
    Returns
      (add_after_setup core no_device (usb_webusb_add first_interface) answering_world)
      (λ added _. added ≡ false)
    × Returns
        (add_after_setup core no_device (usb_hid_add first_interface) answering_world)
        (λ added _. added ≡ false)
add_after_setup-refused_example =
    add_after_setup-refused core no_device first_interface hid_slot answering_world refl refl
