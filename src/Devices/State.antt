-- ===== src/Devices/State.antt =====
-- The variables of the Safe 3 display and buttons, and the system around them. A descriptor of -1 and a
-- null pointer are `none`; `answers` has what the calls outside of src/ will return, in their order;
-- `log` is newest first.
use virtual_trezor.Prelude.{ℕ, Bool, true, false, Option, none, some, List, [], ◌∷◌}
use virtual_trezor.Prelude.Int.{ℤ}
use virtual_trezor.Prelude.Text.{Text}
use virtual_trezor.Exec.{Exec, done, blocked}
use virtual_trezor.Config.{WorkerConfig}
use virtual_trezor.Protocol.{Answer, failed, number, buffer}

-- safe3_display_driver_t
pub record DisplayDriver : Type 0 where
  pub initialized : Bool
  pub shutdown_registered : Bool
  pub orientation_angle : ℤ
  pub backlight_level : ℕ
  pub framebuffer : List ℕ
  pub display : Option ℕ

-- safe3_display_resources_t
pub record DisplayResources : Type 0 where
  pub bus_fd : Option ℕ
  pub control_fd : Option ℕ
  pub owns_bus_fd : Bool
  pub owns_control_fd : Bool

-- safe3_button_resources_t
pub record ButtonResources : Type 0 where
  pub lines_fd : Option ℕ
  pub owns_lines_fd : Bool

-- safe3_button_driver_t
pub record ButtonDriver : Type 0 where
  pub initialized : Bool
  pub trace : Bool
  pub traced_state_valid : Bool
  pub traced_state : ℕ
  pub resources : ButtonResources

-- The flags GPIO_V2_LINE_FLAG_* of a line request.
pub data LineFlag : Type 0 where
  output_line input_line active_low bias_pull_up edge_rising edge_falling : LineFlag

-- The part of gpio_v2_line_request that is set; the lines' initial values are 0 for outputs.
pub record LineRequest : Type 0 where
  pub offsets : List ℕ
  pub flags : List LineFlag
  pub consumer : Text

-- A frame as display_backends_write_frame is given it.
pub record Frame : Type 0 where
  pub handle : ℕ
  pub pixel_format : ℕ
  pub width : ℕ
  pub height : ℕ
  pub stride : ℕ
  pub pixels : List ℕ

-- What the driver does to the outside. `opened` and `requested` are calls that succeeded, with the
-- descriptor that they returned.
pub data Event : Type 0 where
  opened : Text → ℕ → Event
  requested : LineRequest → ℕ → Event
  closed : ℕ → Event
  started_gfx stopped_gfx : Event
  created_display : (kind : ℕ) (bus control : Option ℕ) → Event
  wrote_frame : Frame → Event
  shut_down_display destroyed_display : ℕ → Event
  stopped_polling : Event
  traced : ℕ → Event

-- The variables of the environment that are read, each by getenv.
pub record Environment : Type 0 where
  pub display_bus_fd : Option Text
  pub display_control_fd : Option Text
  pub display_bus : Option Text
  pub display_gpio : Option Text
  pub buttons_fd : Option Text
  pub button_gpio : Option Text
  pub button_trace : Option Text

-- The descriptors that safe3_supervisor_display_bus_fd and the others return.
pub record Supervised : Type 0 where
  pub bus : Option ℕ
  pub control : Option ℕ
  pub lines : Option ℕ

pub record World : Type 0 where
  pub display : DisplayDriver
  pub buttons : ButtonDriver
  pub config : WorkerConfig
  pub environment : Environment
  pub supervised : Supervised
  pub answers : List Answer
  pub log : List Event

-- `exit (1)` behind a message.
pub data Fault : Type 0 where
  read_button_gpios : Fault

abbrev pub Driver {ℓ} : Type ℓ → Type ℓ
Driver A = Exec Fault World A

-- What strtol did with a string: its result, the characters that it read, and whether it set errno.
pub record Strtol : Type 0 where
  pub value : ℤ
  pub consumed : ℕ
  pub errno_set : Bool

-- The parameters of gfx_bitblt_t that the driver reads, `dst_y`, and the rest by its address.
pub record Bitblt : Type 0 where
  pub dst_y : ℕ
  pub address : ℕ

-- DISPLAY_BACKENDS_SSD1306_I2C and the others, the library's numbers.
pub record Kinds : Type 0 where
  pub ssd1306_i2c_kind : ℕ
  pub sh1106_i2c_kind : ℕ
  pub sh1106_spi_kind : ℕ
  pub st7789_spi_kind : ℕ
  pub mono8 : ℕ

-- The macros of the build, and what the driver is linked with.
pub record Build : Type 0 where
  -- VIRTUAL_TREZOR_SUPERVISOR_USB, __linux__ and USE_BACKLIGHT
  pub supervisor_usb : Bool
  pub linux : Bool
  pub use_backlight : Bool
  pub strtol : Text → Strtol
  -- gfx_mono8_fill and gfx_mono8_copy_mono1p on a frame buffer, with the offset of dst_row and
  -- dst_stride.
  pub gfx_mono8_fill : Bitblt → (offset stride : ℕ) → List ℕ → List ℕ
  pub gfx_mono8_copy_mono1p : Bitblt → (offset stride : ℕ) → List ℕ → List ℕ
  pub kinds : Kinds
  -- BTN_LEFT, BTN_RIGHT and BTN_POWER of the firmware's enum
  pub btn_left : ℕ
  pub btn_right : ℕ
  pub btn_power : ℕ

abbrev answer_from : List Answer → Driver Answer
answer_from [] w = blocked w
answer_from (a ∷ rest) w = done a (record w { answers = rest })

-- The next call's result; a call whose result is not there yet does not return.
unfoldable pub call : Driver Answer
call w = answer_from w.answers w

abbrev pub succeeded : Answer → Bool
succeeded (failed errno) = false
succeeded (number n) = true
succeeded (buffer bytes) = true

-- What a call that returns a descriptor returned.
abbrev pub descriptor_of : Answer → Option ℕ
descriptor_of (failed errno) = none
descriptor_of (number n) = some n
descriptor_of (buffer bytes) = none

abbrev pub emit : Event → Driver (Unit {0})
emit event w = done tt (record w { log = event ∷ w.log })

abbrev pub get : Driver World
get w = done w w

abbrev pub modify_display : (DisplayDriver → DisplayDriver) → Driver (Unit {0})
modify_display f w = done tt (record w { display = f w.display })

abbrev pub modify_buttons : (ButtonDriver → ButtonDriver) → Driver (Unit {0})
modify_buttons f w = done tt (record w { buttons = f w.buttons })
