-- ===== src/Examples/Legacy.antt =====
-- A worker of the Trezor One with a small firmware, and instances of the theorems about it.
use virtual_trezor.Prelude.{◌≡◌, refl, true, false, none, some, [], ◌∷◌, replicate, arith}
use virtual_trezor.Prelude.Int.{pos}
use virtual_trezor.Exec.{Returns, done, ◌>>◌, ◌>>=◌, pure}
use virtual_trezor.Config.{default_config}
use virtual_trezor.Protocol.{other_errno}
use virtual_trezor.Legacy.State as S
use virtual_trezor.Legacy.State.{
  call, call_or_die, monotonic_ms, World, Firmware, VirtualEndpoint, Row, Usb, Device, idle,
  status_out, wrote_frame, destroyed_display, closed, shut_down_display,
}
use virtual_trezor.Legacy.Endpoints.{endpoint_for, for_rows, stop_endpoint_threads}
use virtual_trezor.Legacy.Display.{FrameInfo, worker_display_suspend, release_display}
use virtual_trezor.Legacy.Display.Asleep as Asleep
use virtual_trezor.Legacy.Display.Asleep.{suspend-perform_all, IsAsleep, shown}
use virtual_trezor.Legacy.Display.Retry.{
  write_and_poll, recovering, lost, showing, frame_shown, creating, write_and_poll-recovering,
}
use virtual_trezor.Timer.{timer_ms, worker_timer_state_value, worker_timer_state_init}
use virtual_trezor.Protocol.{WorkerRecord, number}
use virtual_trezor.Legacy.Bus.{
  bus_disable, handle_usb_bus_event, bus_event, bus_suspend, worker_timer_suspend,
}
use virtual_trezor.Legacy.Bus.Clock.{read_around, read_around-frozen}
use virtual_trezor.Legacy.Bus.Stale.{bus_disable-service_endpoints}
use virtual_trezor.Legacy.Bus.Suspending.{handle_usb_bus_event-IsSuspended}
use virtual_trezor.Legacy.Endpoints.{close_usb_endpoints}
use virtual_trezor.Legacy.Endpoints.Closing.{
  closed_usb, log_after_first, data_fds, event_fds, close_usb_endpoints-logged,
}
use virtual_trezor.Legacy.Packets.{virtual_ep_stall_set, virtual_ep_stall_get}
use virtual_trezor.Legacy.Packets.Stalling.{virtual_ep_stall_set-get}
use virtual_trezor.Legacy.Service.{service_endpoints}
use virtual_trezor.Legacy.Configure.{configure_loop}
use virtual_trezor.Legacy.Configure.Rounds.{configure_loop-settled}

abbrev closed_endpoint : VirtualEndpoint
closed_endpoint = record {
  functionfs_fd = none;
  event_fd = none;
  thread_running = false;
  address = 0;
  transfer_type = 0;
  max_packet_size = 0;
  stalled = false;
  transfer_data = none;
  read_data = none;
  transfer_length = 0;
  transfer_occupied = false;
}

abbrev pub open_endpoint : VirtualEndpoint
open_endpoint = record closed_endpoint {
  functionfs_fd = some 10;
  event_fd = some 11;
  thread_running = true;
  address = 1;
  max_packet_size = 64;
  transfer_data = some [];
}

abbrev closed_row : Row
closed_row = record { out_endpoint = closed_endpoint; in_endpoint = closed_endpoint }

abbrev some_usb : Usb
some_usb = record {
  display_resource_fd = some 3;
  display_control_fd = some 4;
  button_lines_fd = some 5;
  generation = 7;
  next_configuration_request = 2;
  usb_enabled = true;
  endpoint_activation = 1;
  controller_already_serviced = false;
  endpoints_initialized = true;
  endpoints =
      closed_row ∷ record closed_row { out_endpoint = open_endpoint } ∷ replicate 6 closed_row;
  control_active = true;
  control_stalled = false;
  control_out_data = 1 ∷ 2 ∷ 3 ∷ [];
  control_out_offset = 0;
  control_in = [];
}

abbrev pub some_world : World
some_world = record {
  usb = some_usb;
  device = record {
    control_state = idle;
    request = [];
    user_callbacks = [];
    user_callback_suspend = none;
    user_callback_resume = none;
  };
  timer = worker_timer_state_init;
  display = record {
    display = none;
    error_reported = false;
    suspended = false;
    retry_after_ms = 0;
    last_pixel_format = 0;
    last_width = 0;
    last_height = 0;
    last_stride = 0;
    last_framebuffer = none;
    last_length = 0;
  };
  buttons = record { lines_fd = some 5; cached_gpio_pressed = 0 };
  config = default_config;
  memory = λ _. 255 ∷ [];
  flash = false;
  inbox = [];
  answers = [];
  log = [];
}

-- libopencm3's state machine, cut down to a response of one stage.
abbrev pub small_firmware : Firmware
small_firmware = record {
  control_setup =
      λ w. done tt (record w { device = record (w.device) { control_state = S.data_in } });
  control_out = λ w. done tt (record w { device = record (w.device) { control_state = idle } });
  control_in =
      λ w. done tt (record w { device = record (w.device) { control_state = status_out } });
  usbd_reset = pure tt;
  endpoint_callback = λ _ _. pure tt;
  bus_callback = λ _. pure tt;
  discover = λ _. pure (some []);
  firmware_usb_init = pure tt;
  firmware_usb_poll = λ hook. hook;
  kinds = record {
    ssd1306_i2c_kind = 1;
    sh1106_i2c_kind = 2;
    sh1106_spi_kind = 3;
    st7789_spi_kind = 4;
    mono1_msb_reverse_page = 5;
  };
  oled_buffer = 4096;
  rounds = 8;
  bus_event_body_length = 9;
  read_be64 = λ _. 1;
  line_event_size = 48;
}

abbrev some_frame : FrameInfo
some_frame = record {
  pixel_format = 5;
  width = 128;
  height = 64;
  stride = 128;
  framebuffer = some 4096;
  length = 1024;
}

suspend-perform_all_example :
    Returns
      ((worker_display_suspend
          >> Asleep.perform_all small_firmware.kinds
              (Asleep.write_frame some_frame ∷ Asleep.poll ∷ []))
        some_world)
      λ _ w'. IsAsleep w' × (shown w'.log ≡ 0)
unfolding shown
suspend-perform_all_example =
    suspend-perform_all small_firmware.kinds (Asleep.write_frame some_frame ∷ Asleep.poll ∷ [])
      some_world (λ h. absurd (cc))

-- A display is there, and will not take the frame.
abbrev shown_world : World
shown_world = record some_world { display = record (some_world.display) { display = some 70 } }

write_and_poll-recovering_example :
    write_and_poll small_firmware.kinds some_frame
      (record shown_world { answers = recovering (lost 70 other_errno) 100 400 1200 1201 77 0 [] })
    ≡ done (pos 700) (record shown_world {
      display = showing 77 some_frame shown_world.display;
      log =
          wrote_frame (frame_shown shown_world some_frame 77 4096)
          ∷ creating small_firmware.kinds shown_world
          ∷ destroyed_display 70
          ∷ wrote_frame (frame_shown shown_world some_frame 70 4096)
          ∷ [];
    })
write_and_poll-recovering_example =
    write_and_poll-recovering small_firmware.kinds some_frame (lost 70 other_errno) 4096 100 400
      1200 1201 77 0 [] shown_world refl refl tt (omega arith) (omega arith) (omega arith)
      (omega arith) (omega arith)

configure_loop-settled_example :
    configure_loop 5 small_firmware true false 9 ≡ configure_loop 2 small_firmware true false 9
configure_loop-settled_example = configure_loop-settled 3 small_firmware true false 9

read_around-frozen_example :
    (v : World) × (read_around
        (record some_world { answers = number 1000 ∷ number 5000 ∷ number 9000 ∷ number 9250 ∷ [] })
      ≡ done (1000, 1250) v)
unfolding timer_ms worker_timer_state_value worker_timer_state_init
read_around-frozen_example =
    read_around-frozen 1000 5000 9000 9250 [] some_world refl (omega arith) (omega arith)
      (omega arith) (omega arith)

-- The calls to come succeed.
abbrev answering_world : World
answering_world = record some_world { answers = replicate 8 (number 0) }

-- The thread is stopped, and its two descriptors are closed.
close_usb_endpoints_returns :
    Returns (close_usb_endpoints answering_world) λ _ v. v.log ≡ closed 10 ∷ closed 11 ∷ []
unfolding close_usb_endpoints stop_endpoint_threads for_rows call_or_die
close_usb_endpoints_returns = refl

close_usb_endpoints-logged_example : Returns (close_usb_endpoints answering_world) λ _ w'.
    (w'.usb ≡ closed_usb some_usb)
    × (w'.log
        ≡ log_after_first data_fds some_usb.endpoints
            (log_after_first event_fds some_usb.endpoints []))
close_usb_endpoints-logged_example = close_usb_endpoints-logged answering_world

-- The bus event is handled: it returns, with the thread stopped.
bus_disable_returns :
    Returns
      (bus_disable small_firmware answering_world)
      λ _ v. (v.usb.usb_enabled ≡ false) × (v.log ≡ closed 11 ∷ [])
unfolding bus_disable stop_endpoint_threads for_rows call_or_die
bus_disable_returns = (refl, refl)

bus_disable-service_endpoints_example :
    (bus_disable small_firmware >> service_endpoints small_firmware (1 ∷ []) (1 ∷ []))
      answering_world
    ≡ bus_disable small_firmware answering_world
bus_disable-service_endpoints_example =
    bus_disable-service_endpoints small_firmware (1 ∷ []) (1 ∷ []) answering_world (λ w h. h)

-- The supervisor's suspend of the endpoints' activation 1.
abbrev suspend_record : WorkerRecord
suspend_record = record {
  kind = 3;
  generation = 7;
  request_id = 0;
  body = 5 ∷ replicate 8 0;
  fds = [];
}

-- The display is on when the event comes.
abbrev lit_world : World
lit_world = record answering_world { display = record (some_world.display) { display = some 70 } }

handle_usb_bus_event_returns :
    Returns
      (handle_usb_bus_event small_firmware suspend_record lit_world)
      λ _ v. v.log ≡ destroyed_display 70 ∷ shut_down_display 70 ∷ []
unfolding handle_usb_bus_event bus_event bus_suspend worker_timer_suspend monotonic_ms call
    worker_display_suspend release_display
handle_usb_bus_event_returns = refl

handle_usb_bus_event-IsSuspended_example :
    Returns
      (handle_usb_bus_event small_firmware suspend_record lit_world)
      λ _ v. (v.timer.suspended ≡ true) × IsAsleep v
handle_usb_bus_event-IsSuspended_example =
    handle_usb_bus_event-IsSuspended small_firmware suspend_record lit_world refl
      (λ _ w. (refl, refl)) (λ h. absurd (cc))

virtual_ep_stall_set-get_example :
    (v : World) × ((virtual_ep_stall_set 1 true >>= λ _. virtual_ep_stall_get 1) some_world
      ≡ done true v)
unfolding endpoint_for
virtual_ep_stall_set-get_example = virtual_ep_stall_set-get 1 true open_endpoint some_world refl
