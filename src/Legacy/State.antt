-- ===== src/Legacy/State.antt =====
-- The variables of the worker in platform/raspberry-pi, and the system and the firmware around it. As
-- in the Safe 3 worker, a descriptor of -1 and a null pointer are `none`, `inbox` has what recvmsg
-- will return and `answers` what the other calls will, in their order; `log` is newest first.
use virtual_trezor.Prelude.{ℕ, Bool, Option, none, some, List, [], ◌∷◌}
use virtual_trezor.Exec.{Exec, ◌>>=◌, done, died, blocked}
use virtual_trezor.Timer.{TimerState}
use virtual_trezor.Config.{WorkerConfig}
use virtual_trezor.Protocol.{Message, Answer, failed, number, buffer}

-- struct virtual_endpoint, without the mutex, which a call holds only while it runs. A buffer is its
-- contents.
pub record VirtualEndpoint : Type 0 where
  pub functionfs_fd : Option ℕ
  pub event_fd : Option ℕ
  pub thread_running : Bool
  pub address : ℕ
  pub transfer_type : ℕ
  pub max_packet_size : ℕ
  pub stalled : Bool
  pub transfer_data : Option (List ℕ)
  pub read_data : Option (List ℕ)
  pub transfer_length : ℕ
  pub transfer_occupied : Bool

-- The two endpoints of a number.
pub record Row : Type 0 where
  pub out_endpoint : VirtualEndpoint
  pub in_endpoint : VirtualEndpoint

-- The state of libopencm3's control transfers, an enum of the library.
pub data ControlState : Type 0 where
  idle stalled_state data_in last_data_in status_in data_out last_data_out status_out : ControlState

-- The fields of libopencm3's usbd_device that the controller uses. A callback is its address, and the
-- list has the entries of user_callback_ctr for the endpoint 0 to 7, each OUT and then IN; the
-- callbacks of endpoint 0 are the library's own.
pub record Device : Type 0 where
  pub control_state : ControlState
  pub request : List ℕ
  pub user_callbacks : List (Option ℕ)
  pub user_callback_suspend : Option ℕ
  pub user_callback_resume : Option ℕ

-- The variables of usb_functionfs.c. `endpoints` has the rows 0 to 7; `control_in` is the first control_in_length bytes of control_in_data.
pub record Usb : Type 0 where
  pub display_resource_fd : Option ℕ
  pub display_control_fd : Option ℕ
  pub button_lines_fd : Option ℕ
  pub generation : ℕ
  pub next_configuration_request : ℕ
  pub usb_enabled : Bool
  pub endpoint_activation : ℕ
  pub controller_already_serviced : Bool
  pub endpoints_initialized : Bool
  pub endpoints : List Row
  pub control_active : Bool
  pub control_stalled : Bool
  pub control_out_data : List ℕ
  pub control_out_offset : ℕ
  pub control_in : List ℕ

-- The variables of display_linux.c. `last_framebuffer` is the address of a buffer of the firmware.
pub record Display : Type 0 where
  pub display : Option ℕ
  pub error_reported : Bool
  pub suspended : Bool
  pub retry_after_ms : ℕ
  pub last_pixel_format : ℕ
  pub last_width : ℕ
  pub last_height : ℕ
  pub last_stride : ℕ
  pub last_framebuffer : Option ℕ
  pub last_length : ℕ

-- The variables of buttons_gpio.c.
pub record Buttons : Type 0 where
  pub lines_fd : Option ℕ
  pub cached_gpio_pressed : ℕ

-- A frame as display_backends_write_frame is given it.
pub record Frame : Type 0 where
  pub handle : ℕ
  pub pixel_format : ℕ
  pub width : ℕ
  pub height : ℕ
  pub stride : ℕ
  pub framebuffer : List ℕ
  pub length : ℕ

-- What the worker does to the outside.
pub data Event : Type 0 where
  sent : List ℕ → Event
  closed : ℕ → Event
  -- A write to a FunctionFS endpoint.
  wrote : ℕ → List ℕ → Event
  created_display : (kind : ℕ) (bus control : Option ℕ) → Event
  wrote_frame : Frame → Event
  shut_down_display destroyed_display : ℕ → Event
  checkpointed_flash : Event

-- `memory` has the firmware's buffers by their addresses, `device` what libopencm3 keeps, `flash` tells
-- whether emulator_flash_base is set.
pub record World : Type 0 where
  pub usb : Usb
  pub device : Device
  pub timer : TimerState
  pub display : Display
  pub buttons : Buttons
  pub config : WorkerConfig
  pub memory : ℕ → List ℕ
  pub flash : Bool
  pub inbox : List (Option Message)
  pub answers : List Answer
  pub log : List Event

-- The calls of `die_message`, `die_errno` and `fail`, one constructor for each message; and the call of
-- a callback that is null, which C leaves undefined.
pub data Fault : Type 0 where
  running_as_root invalid_state_directory enter_state_directory : Fault
  receive_supervisor_record invalid_record_header invalid_record_length : Fault
  invalid_descriptor_transfer too_many_descriptors descriptor_count_mismatch : Fault
  record_too_large allocate_record send_failed unknown_resource_name : Fault
  expected_initial_resources resource_counts_differ truncated_resource_name : Fault
  invalid_resource_name incomplete_resources : Fault
  initialize_endpoint unsupported_endpoint oversized_in_transfer failed_in_transfer : Fault
  short_out_buffer discovery_failed request_id_overflow : Fault
  stop_endpoint_thread zero_sized_endpoint allocate_handoff create_notification : Fault
  start_endpoint_thread invalid_endpoint_map endpoint_map_differs invalid_endpoint_address : Fault
  unexpected_configuration_record invalid_bus_event activation_changed unknown_bus_event : Fault
  rejected_set_configuration invalid_control_request control_data_mismatch : Fault
  allocate_control_response invalid_quiesce unexpected_runtime_record poll_controller : Fault
  invalid_notification null_callback initial_configuration_rejected : Fault
  read_out_endpoint oversized_out_transfer unconsumed_transfer notify_firmware : Fault
  button_nonblocking read_buttons read_button_event partial_button_event : Fault

-- A function of the worker.
abbrev pub Worker {ℓ} : Type ℓ → Type ℓ
Worker A = Exec Fault World A

abbrev answer_from : List Answer → Worker Answer
answer_from [] w = blocked w
answer_from (a ∷ rest) w = done a (record w { answers = rest })

-- The next call's result; a call whose result is not there yet does not return.
unfoldable pub call : Worker Answer
call w = answer_from w.answers w

abbrev pub expect_number : Fault → Answer → Worker ℕ
expect_number e (number n) w = done n w
expect_number e (buffer bytes) w = died e w
expect_number e (failed errno) w = died e w

-- A call that must succeed, and the number that it returns.
unfoldable pub call_or_die : Fault → Worker ℕ
unfolding call
call_or_die e = call >>= expect_number e

abbrev pub emit : Event → Worker (Unit {0})
emit event w = done tt (record w { log = event ∷ w.log })

abbrev pub modify_usb : (Usb → Usb) → Worker (Unit {0})
modify_usb f w = done tt (record w { usb = f w.usb })

abbrev pub modify_display : (Display → Display) → Worker (Unit {0})
modify_display f w = done tt (record w { display = f w.display })

abbrev pub get_usb : Worker Usb
get_usb w = done w.usb w

abbrev pub get_display : Worker Display
get_display w = done w.display w

abbrev pub get_device : Worker Device
get_device w = done w.device w

-- close (fd) where fd is not -1.
abbrev pub close_fd : Option ℕ → Worker (Unit {0})
close_fd none w = done tt w
close_fd (some fd) w = done tt (record w { log = closed fd ∷ w.log })

-- clock_gettime (CLOCK_MONOTONIC), in milliseconds; 0 where it fails.
abbrev pub clock_reading : Answer → ℕ
clock_reading (number n) = n
clock_reading (buffer bytes) = 0
clock_reading (failed errno) = 0

unfoldable pub monotonic_ms : Worker ℕ
unfolding call
monotonic_ms = call >>= λ a w. done (clock_reading a) w

-- DISPLAY_BACKENDS_SSD1306_I2C and the others, the library's numbers.
pub record Kinds : Type 0 where
  pub ssd1306_i2c_kind : ℕ
  pub sh1106_i2c_kind : ℕ
  pub sh1106_spi_kind : ℕ
  pub st7789_spi_kind : ℕ
  pub mono1_msb_reverse_page : ℕ

-- What the controller is linked with: the firmware, libopencm3 and the personality's library.
pub record Firmware : Type 0 where
  -- libopencm3's callbacks of endpoint 0: _usbd_control_setup, _out and _in.
  pub control_setup : Worker (Unit {0})
  pub control_out : Worker (Unit {0})
  pub control_in : Worker (Unit {0})
  -- _usbd_reset
  pub usbd_reset : Worker (Unit {0})
  -- The function at an address, called for an endpoint.
  pub endpoint_callback : (address number : ℕ) → Worker (Unit {0})
  -- The function at an address, called for suspend or resume.
  pub bus_callback : ℕ → Worker (Unit {0})
  -- ugsp_discover_usb_personality, with the transfer that it is given, setup and data to a response or
  -- a stall; and the bundle, where it succeeds.
  pub discover : (List ℕ → List ℕ → Worker (Option (List ℕ))) → Worker (Option (List ℕ))
  -- firmwareUsbInit and firmwareUsbPoll; the latter calls the driver's poll hook.
  pub firmware_usb_init : Worker (Unit {0})
  pub firmware_usb_poll : Worker (Unit {0}) → Worker (Unit {0})
  pub kinds : Kinds
  -- oledGetBuffer ()
  pub oled_buffer : ℕ
  -- How often the loops of a control transfer may go round.
  pub rounds : ℕ
  -- UGSP_USB_BUS_EVENT_BODY_LENGTH, ugsp_read_be64, sizeof (struct gpio_v2_line_event)
  pub bus_event_body_length : ℕ
  pub read_be64 : List ℕ → ℕ
  pub line_event_size : ℕ
