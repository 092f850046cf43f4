-- ===== src/Examples/Devices.antt =====
-- The display of a Safe 3 worker, and instances of the theorems about it.
use virtual_trezor.Prelude.{
  ℕ, refl, true, false, none, List, [], ◌∷◌, replicate, length-replicate, inl,
}
use virtual_trezor.Prelude.Int.{pos}
use virtual_trezor.Exec.{Returns, done}
use virtual_trezor.Config.{default_config}
use virtual_trezor.Protocol.{number}
use virtual_trezor.Devices.State.{World, Build}
use virtual_trezor.Devices.Balance.{acquired, released, started, stopped}
use virtual_trezor.Devices.Display.{reset_content, safe3_frame_length}
use virtual_trezor.Devices.Buttons.{button_is_down}
use virtual_trezor.Devices.Buttons.Levels.{button_is_down-lines}
use virtual_trezor.Prelude.{◌≡◌, arith}
use virtual_trezor.Devices.Display.Starting.{IsSound}
use virtual_trezor.Devices.Display.Session.{
  Call, init, deinit, set_backlight, set_orientation, fill, perform_all,
  perform_all-IsSound_display,
}

abbrev build : Build
build = record {
  supervisor_usb = false;
  linux = true;
  use_backlight = true;
  strtol = λ _. record { value = pos 0; consumed = 0; errno_set = false };
  gfx_mono8_fill = λ _ _ _ pixels. pixels;
  gfx_mono8_copy_mono1p = λ _ _ _ pixels. pixels;
  kinds = record {
    ssd1306_i2c_kind = 1;
    sh1106_i2c_kind = 2;
    sh1106_spi_kind = 3;
    st7789_spi_kind = 4;
    mono8 = 5;
  };
  btn_left = 0;
  btn_right = 1;
  btn_power = 2;
}

-- Nothing is set up, and the system's calls will succeed.
abbrev fresh_world : World
fresh_world = record {
  display = record {
    initialized = false;
    shutdown_registered = false;
    orientation_angle = pos 0;
    backlight_level = 0;
    framebuffer = replicate safe3_frame_length 0;
    display = none;
  };
  buttons = record {
    initialized = false;
    trace = false;
    traced_state_valid = false;
    traced_state = 0;
    resources = record { lines_fd = none; owns_lines_fd = false };
  };
  config = default_config;
  environment = record {
    display_bus_fd = none;
    display_control_fd = none;
    display_bus = none;
    display_gpio = none;
    buttons_fd = none;
    button_gpio = none;
    button_trace = none;
  };
  supervised = record { bus = none; control = none; lines = none };
  answers = number 0 ∷ number 3 ∷ number 4 ∷ number 5 ∷ number 77 ∷ number 0 ∷ number 0 ∷ [];
  log = [];
}

fresh_world-IsSound : IsSound fresh_world
unfolding acquired released started stopped
fresh_world-IsSound = record {
  panel = refl;
  handler = inl refl;
  whole = length-replicate {A = ℕ} safe3_frame_length 0;
  upright = inl refl;
  blitter = refl;
  balanced = refl;
}

abbrev some_calls : List Call
some_calls =
    init reset_content
    ∷ set_backlight 200
    ∷ fill (record { dst_y = 3; address = 0 })
    ∷ set_orientation (pos 180)
    ∷ deinit reset_content
    ∷ []

perform_all-IsSound_display_example :
    Returns (perform_all build some_calls fresh_world) λ _ v. IsSound v
perform_all-IsSound_display_example =
    perform_all-IsSound_display build some_calls fresh_world (λ _ _ _ _. refl) (λ _ _ _ _. refl)
      fresh_world-IsSound

-- The lines are there and the centre of the joystick is pressed.
abbrev pressed_world : World
pressed_world = record fresh_world {
  buttons = record (fresh_world.buttons) { initialized = true; trace = true };
}

button_is_down-lines_example :
    ((v : World) × (button_is_down build 0 (record pressed_world { answers = number 4 ∷ [] })
        ≡ done true v))
    × ((v : World) × (button_is_down build 1 (record pressed_world { answers = number 4 ∷ [] })
          ≡ done true v))
button_is_down-lines_example =
    button_is_down-lines build 4 [] pressed_world refl refl (λ p. absurd (omega arith))
      (omega arith) (omega arith)
