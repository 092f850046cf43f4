-- ===== src/Safe3/State.antt =====
-- The variables of platform/safe3/usb_supervisor.c, and the system around it: what its calls return
-- (`inbox`, `answers`), and what it has done to the outside (`log`). A descriptor of -1 and a NULL
-- pointer are `none`; a fixed array is a list of its entries.
pub use virtual_trezor.Protocol.{
  protocol_header_length, max_record_length, max_transferred_fds, kind_initial_resources,
  kind_usb_endpoints, kind_usb_bus_event, kind_usb_control_request, kind_quiesce,
  kind_configuration_rejected, kind_configure, kind_usb_control_response, kind_serving,
  kind_quiesced, Ancillary, rights, other, Message, WorkerRecord, Errno, interrupted, would_block,
  generation_over, other_errno, Answer, failed, number, buffer,
}
use virtual_trezor.Prelude.{ℕ, Bool, Option, none, some, List, [], ◌∷◌}
use virtual_trezor.Prelude.Text.{Text}
use virtual_trezor.Exec.{Exec, ◌>>=◌, done, died, blocked}
use virtual_trezor.Config.{WorkerConfig}

abbrev pub max_interfaces : ℕ
max_interfaces = 8

abbrev pub max_endpoint_number : ℕ
max_endpoint_number = 8

-- endpoint_t, without the mutex and the conditions, which a call holds only while it runs. A buffer
-- is its contents.
pub record Endpoint : Type 0 where
  pub fd : Option ℕ
  pub event_fd : Option ℕ
  pub synchronization_initialized : Bool
  pub thread_running : Bool
  pub occupied : Bool
  pub address : ℕ
  pub transfer_type : ℕ
  pub max_packet_size : ℕ
  pub packet_length : ℕ
  pub packet : Option (List ℕ)
  pub read_buffer : Option (List ℕ)

-- interface_type_t
pub data InterfaceType : Type 0 where
  disabled webusb hid : InterfaceType

-- interface_t
pub record Interface : Type 0 where
  pub interface_type : InterfaceType
  pub handle : ℕ
  pub number : ℕ
  pub subclass : ℕ
  pub protocol : ℕ
  pub polling_interval : ℕ
  pub max_packet_len : ℕ
  pub report_descriptor : List ℕ
  pub report_descriptor_len : ℕ
  pub hid_protocol : ℕ
  pub hid_idle : ℕ

-- usb_dev_info_t, as far as the driver reads it.
pub record DeviceInfo : Type 0 where
  pub usb21_enabled : Bool
  pub vendor_id : ℕ
  pub product_id : ℕ
  pub release_num : ℕ
  pub device_class : ℕ
  pub device_subclass : ℕ
  pub device_protocol : ℕ
  pub manufacturer : Text
  pub product : Text
  pub serial_number : Text
  pub interface_name : Text

-- safe3_usb_driver_t. `endpoints` has the rows 1 to 8, each OUT and then IN; row 0 is not used.
-- `task_state` is the `configured` of each task.
pub record Driver : Type 0 where
  pub initialized : Bool
  pub started : Bool
  pub enabled : Bool
  pub suspended : Bool
  pub ejected : Bool
  pub landing_page : Bool
  pub generation : ℕ
  pub next_request_id : ℕ
  pub activation : ℕ
  pub device : DeviceInfo
  pub personality : Option ℕ
  pub interfaces : List Interface
  pub endpoints : List Endpoint
  pub task_state : List Bool

-- struct ugsp_usb_device, as `usb_init` fills it.
pub record PersonalityDevice : Type 0 where
  pub usb_version : ℕ
  pub max_packet_size_0 : ℕ
  pub info : DeviceInfo

-- struct ugsp_usb_interface
pub record PersonalityInterface : Type 0 where
  pub number : ℕ
  pub class_code : ℕ
  pub subclass : ℕ
  pub protocol : ℕ
  pub string_index : ℕ
  pub endpoint_in : ℕ
  pub endpoint_out : ℕ
  pub transfer_type : ℕ
  pub max_packet_size : ℕ
  pub interval : ℕ
  pub class_descriptors : List ℕ

-- What the driver does to the outside.
pub data Event : Type 0 where
  sent : List ℕ → Event
  closed : ℕ → Event
  signalled_read signalled_write : ℕ → Event
  registered unregistered : ℕ → Event
  built_device : PersonalityDevice → Event
  built_interface : PersonalityInterface → Event
  built_compatible_id : ℕ → Event
  built_serial_number : Text → Event
  built_webusb : Bool → Text → Event
  freed_personality : Event

-- Every variable of the file and the system. `inbox` has what recvmsg on the control channel will
-- return, oldest first and `none` for a failure, `answers` what the other calls will, in the order in which they are made;
-- `log` is newest first. `config` is the state of worker_config.c.
pub record World : Type 0 where
  pub usb : Driver
  pub display_bus_fd : Option ℕ
  pub display_control_fd : Option ℕ
  pub button_lines_fd : Option ℕ
  pub reconnect_button_fd : Option ℕ
  pub reconnect_pressed : Bool
  pub config : WorkerConfig
  pub inbox : List (Option Message)
  pub answers : List Answer
  pub log : List Event

-- The calls of `die` and `die_errno`, one constructor for each message.
pub data Fault : Type 0 where
  receive_supervisor_record invalid_record_header invalid_record_length : Fault
  invalid_descriptor_transfer too_many_descriptors descriptor_count_mismatch : Fault
  record_too_large allocate_record send_failed : Fault
  duplicate_display_resource unknown_resource_name expected_initial_resources : Fault
  resource_counts_differ truncated_resource_name invalid_resource_name incomplete_resources : Fault
  button_nonblocking reconnect_nonblocking read_reconnect_level : Fault
  stop_endpoint_thread allocate_endpoint_buffers create_endpoint_notification : Fault
  start_endpoint_thread invalid_endpoint_map endpoint_map_differs invalid_endpoint_address : Fault
  finish_personality request_id_overflow unexpected_configuration_record : Fault
  unexpected_ejection_record reconnect_closed read_reconnect partial_reconnect_event : Fault
  allocate_control_response invalid_control_request control_data_mismatch : Fault
  invalid_bus_event activation_changed unknown_bus_event unexpected_runtime_record : Fault
  poll_controller reconnect_poll_event insertion_rejected read_endpoint_notification : Fault
  button_closed read_button_interrupt partial_button_interrupt wait_for_interrupt : Fault
  button_poll_event initialize_synchronization unsupported_display_backend : Fault
  read_out_endpoint write_in_endpoint short_in_write notify_packet : Fault
  running_as_root invalid_state_directory set_profile_directory enter_state_directory : Fault

-- A function of the file.
abbrev pub Worker {ℓ} : Type ℓ → Type ℓ
Worker A = Exec Fault World A

abbrev answer_from : List Answer → Worker Answer
answer_from [] w = blocked w
answer_from (a ∷ rest) w = done a (record w { answers = rest })

-- The next call's result; a call whose result is not there yet does not return.
unfoldable pub call : Worker Answer
call w = answer_from w.answers w

abbrev pub expect_number : Fault → Answer → Worker ℕ
expect_number e (number n) w = done n w
expect_number e (buffer bytes) w = died e w
expect_number e (failed errno) w = died e w

-- A call that must succeed, and the number that it returns.
unfoldable pub call_or_die : Fault → Worker ℕ
unfolding call
call_or_die e = call >>= expect_number e

abbrev pub emit : Event → Worker (Unit {0})
emit event w = done tt (record w { log = event ∷ w.log })

abbrev pub modify_usb : (Driver → Driver) → Worker (Unit {0})
modify_usb f w = done tt (record w { usb = f w.usb })

-- close (fd) where fd is not -1.
abbrev pub close_fd : Option ℕ → Worker (Unit {0})
close_fd none w = done tt w
close_fd (some fd) w = done tt (record w { log = closed fd ∷ w.log })
