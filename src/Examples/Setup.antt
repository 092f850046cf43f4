-- ===== src/Examples/Setup.antt =====
-- A Safe 3 driver with one interface, and instances of the theorems about its invariant, its
-- endpoints and its records.
use virtual_trezor.Prelude.{◌≡◌, refl, true, false, none, some, List, [], ◌∷◌, replicate, arith}
use virtual_trezor.Exec.{Returns, done}
use virtual_trezor.Bytes.{be32}
use virtual_trezor.Config.{default_config}
use virtual_trezor.Safe3.State.{
  World, Driver, Endpoint, Interface, hid, disabled, DeviceInfo, Answer, number, closed, call,
  call_or_die,
}
use virtual_trezor.Safe3.Records.{decode_message, encode_record}
use virtual_trezor.Safe3.Records.RoundTrip.{carries, decode-encode_record}
use virtual_trezor.Safe3.Endpoints.{
  endpoint_for, for_endpoints, stop_endpoint, stop_endpoint_threads, close_endpoints,
}
use virtual_trezor.Safe3.Endpoints.Closing.{
  stopped_driver, closed_driver, stop_endpoint_threads_lem,
}
use virtual_trezor.Safe3.Endpoints.Ending.{joined, close_endpoints-joined}
use virtual_trezor.Safe3.Bus.{Platform}
use virtual_trezor.Safe3.Interfaces.{
  produce, consume, iface_read, iface_write, endpoint_at, put_endpoint,
}
use virtual_trezor.Safe3.Lifecycle.{Core, usb_stop, unregister_all}
use virtual_trezor.Safe3.Tasks.{usb_get_event}
use virtual_trezor.Safe3.Invariant.{IsSound}
use virtual_trezor.Safe3.Invariant.Session.{
  stop, read, write, get_event, perform, perform_all, perform_all-IsSound,
}

abbrev idle_endpoint : Endpoint
idle_endpoint = record {
  fd = none;
  event_fd = none;
  synchronization_initialized = true;
  thread_running = false;
  occupied = false;
  address = 0;
  transfer_type = 0;
  max_packet_size = 0;
  packet_length = 0;
  packet = none;
  read_buffer = none;
}

-- OUT endpoint 1, with a packet, and IN endpoint 1, empty.
abbrev pub out_endpoint : Endpoint
out_endpoint = record idle_endpoint {
  fd = some 10;
  event_fd = some 20;
  thread_running = true;
  occupied = true;
  address = 0x01;
  transfer_type = 3;
  max_packet_size = 64;
  packet_length = 3;
  packet = some (7 ∷ 8 ∷ 9 ∷ []);
  read_buffer = some [];
}

abbrev pub in_endpoint : Endpoint
in_endpoint = record idle_endpoint {
  fd = some 11;
  event_fd = some 21;
  thread_running = true;
  address = 0x81;
  transfer_type = 3;
  max_packet_size = 64;
  packet = some [];
}

abbrev free_slot : Interface
free_slot = record {
  interface_type = disabled;
  handle = 0;
  number = 0;
  subclass = 0;
  protocol = 0;
  polling_interval = 0;
  max_packet_len = 0;
  report_descriptor = [];
  report_descriptor_len = 0;
  hid_protocol = 0;
  hid_idle = 0;
}

abbrev pub hid_slot : Interface
hid_slot = record free_slot { interface_type = hid; handle = 5; max_packet_len = 64 }

abbrev pub no_device : DeviceInfo
no_device = record {
  usb21_enabled = false;
  vendor_id = 0;
  product_id = 0;
  release_num = 0;
  device_class = 0;
  device_subclass = 0;
  device_protocol = 0;
  manufacturer = [];
  product = [];
  serial_number = [];
  interface_name = [];
}

-- An enabled driver with one interface.
abbrev pub enabled_driver : Driver
enabled_driver = record {
  initialized = true;
  started = true;
  enabled = true;
  suspended = false;
  ejected = false;
  landing_page = false;
  generation = 3;
  next_request_id = 9;
  activation = 0;
  device = no_device;
  personality = some 1;
  interfaces = hid_slot ∷ replicate 7 free_slot;
  endpoints = out_endpoint ∷ in_endpoint ∷ replicate 14 idle_endpoint;
  task_state = false ∷ [];
}

abbrev pub some_world : World
some_world = record {
  usb = enabled_driver;
  display_bus_fd = some 30;
  display_control_fd = some 31;
  button_lines_fd = some 32;
  reconnect_button_fd = some 33;
  reconnect_pressed = false;
  config = default_config;
  inbox = [];
  answers = replicate 8 (number 8);
  log = [];
}

abbrev platform : Platform
platform = record {
  bus_event_body_length = 9;
  read_be64 = λ bytes. be32 bytes 4;
  line_event_size = 48;
}

abbrev pub core : Core
core = record { usb_handle = 1; max_str_size = 62 }

enabled_driver-IsSound : IsSound enabled_driver
enabled_driver-IsSound = record {
  rows = refl;
  slots = refl;
  parked = λ off. absurd (cc);
  served = λ on. ground arith;
}

-- Core reads a packet, writes one, asks for the event and stops the device: the calls return.
session_returns :
    Returns
      (perform_all core platform
        (read hid_slot 64 ∷ write hid_slot (1 ∷ 2 ∷ []) ∷ get_event 0 ∷ stop ∷ [])
        some_world)
      λ _ w'. (w'.usb.enabled ≡ false)
unfolding perform_all perform iface_read iface_write endpoint_at endpoint_for put_endpoint consume
    produce usb_get_event usb_stop unregister_all stop_endpoint_threads for_endpoints stop_endpoint
    call_or_die call
session_returns = refl

perform_all-IsSound_example :
    Returns
      (perform_all core platform
        (read hid_slot 64 ∷ write hid_slot (1 ∷ 2 ∷ []) ∷ get_event 0 ∷ stop ∷ [])
        some_world)
      λ _ w'. IsSound w'.usb
perform_all-IsSound_example =
    perform_all-IsSound core platform
      (read hid_slot 64 ∷ write hid_slot (1 ∷ 2 ∷ []) ∷ get_event 0 ∷ stop ∷ []) some_world
      enabled_driver-IsSound

close_endpoints-joined_example :
    close_endpoints
      (record some_world { answers = joined enabled_driver.endpoints (number 7 ∷ []) })
    ≡ done tt (record some_world {
      usb = closed_driver enabled_driver;
      answers = number 7 ∷ [];
      log = closed 11 ∷ closed 10 ∷ closed 21 ∷ closed 20 ∷ [];
    })
close_endpoints-joined_example = close_endpoints-joined (number 7 ∷ []) some_world

stop_endpoint_threads_lem_example : Returns (stop_endpoint_threads some_world) λ _ w'.
    (rest : List Answer) × (w' ≡ record some_world {
      usb = stopped_driver enabled_driver;
      answers = rest;
      log = closed 21 ∷ closed 20 ∷ [];
    })
stop_endpoint_threads_lem_example = stop_endpoint_threads_lem some_world

decode-encode_record_example :
    decode_message (carries (encode_record 0x80 3 9 (1 ∷ 2 ∷ []))) some_world
    ≡ done
        (record { kind = 0x80; generation = 3; request_id = 9; body = 1 ∷ 2 ∷ []; fds = [] })
        some_world
decode-encode_record_example =
    decode-encode_record 0x80 3 9 (1 ∷ 2 ∷ []) some_world (omega arith) (omega arith) (omega arith)
