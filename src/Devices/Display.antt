-- ===== src/Devices/Display.antt =====
-- platform/safe3/display_core.c: the frame buffer of Trezor Core and the panel behind it.
pub mod Starting
pub mod Session
use virtual_trezor.Prelude.{
  ℕ, ◌*◌, Bool, true, false, not, ◌&&◌, ◌||◌, Option, none, some, List, [], ◌∷◌, replicate, length,
  ◌==◌, ◌!=◌, if◌then◌else◌,
}
use virtual_trezor.Prelude.Int.{ℤ, pos, negsuc}
use virtual_trezor.Prelude.Text.{codes}
use virtual_trezor.Exec.{◌>>=◌, ◌>>◌, pure, done}
use virtual_trezor.Config.{
  Backend, ssd1306_i2c, sh1106_i2c, sh1106_spi, st7789_spi, WorkerConfig, ConfigError,
  worker_display_select_backend,
}
use virtual_trezor.Protocol.{Answer, failed, number, buffer}
use virtual_trezor.Devices.State.{
  World, Driver, Build, Bitblt, DisplayDriver, DisplayResources, Kinds, Frame, started_gfx,
  stopped_gfx, created_display, wrote_frame, shut_down_display, destroyed_display, call, succeeded,
  descriptor_of, emit, get, modify_display,
}
use virtual_trezor.Devices.Resources.{
  safe3_display_resources_acquire, safe3_display_resources_release,
}

abbrev pub safe3_frame_stride : ℕ
safe3_frame_stride = 128

abbrev pub safe3_frame_length : ℕ
safe3_frame_length = 8192

unfoldable pub display_backend_kind : Kinds → Backend → ℕ
display_backend_kind k ssd1306_i2c = k.ssd1306_i2c_kind
display_backend_kind k sh1106_i2c = k.sh1106_i2c_kind
display_backend_kind k sh1106_spi = k.sh1106_spi_kind
display_backend_kind k st7789_spi = k.st7789_spi_kind

-- display_content_mode_t, an enum of the firmware.
pub data ContentMode : Type 0 where
  reset_content retain_content : ContentMode

abbrev pub cleared : ContentMode → List ℕ → List ℕ
cleared reset_content pixels = replicate safe3_frame_length 0
cleared retain_content pixels = pixels

-- display_backends_write_frame, whose failure is only reported.
abbrev pub write_to : Build → Option ℕ → Driver (Unit {0})
write_to b none = pure tt
write_to b (some panel) = do
  w ← get
  emit (
      wrote_frame (record {
        handle = panel;
        pixel_format = b.kinds.mono8;
        width = 128;
        height = 64;
        stride = safe3_frame_stride;
        pixels = w.display.framebuffer;
      }))
  _ ← call
  pure tt

unfoldable pub display_refresh : Build → Driver (Unit {0})
display_refresh b w = (if w.display.initialized then write_to b w.display.display else pure tt) w

abbrev turn_off : Option ℕ → Driver (Unit {0})
turn_off none = pure tt
turn_off (some panel) = do emit (shut_down_display panel); _ ← call; emit (destroyed_display panel)

unfoldable pub display_deinit : ContentMode → Driver (Unit {0})
display_deinit mode = get >>= λ w. if not w.display.initialized then pure tt else do
  turn_off w.display.display
  modify_display λ d. record d { display = none }
  emit stopped_gfx
  modify_display λ d. record d { initialized = false; framebuffer = cleared mode d.framebuffer }

-- atexit, unless the handler is registered; whether it is now.
unfoldable pub register_shutdown : Driver Bool
register_shutdown = get >>= λ w. if w.display.shutdown_registered then pure true else do
  a ← call
  (if succeeded a then modify_display (λ d. record d { shutdown_registered = true }) else pure tt)
  pure (succeeded a)

abbrev pub backlight_of : Bool → ℕ
backlight_of true = 0
backlight_of false = 255

-- The values of a display that starts.
unfoldable pub reset_display : Build → ContentMode → Driver (Unit {0})
reset_display b mode = modify_display λ d. record d {
  framebuffer = cleared mode d.framebuffer;
  orientation_angle = pos 0;
  backlight_level = backlight_of b.use_backlight;
}

abbrev pub was_selected : WorkerConfig × Option ConfigError → Driver Bool
was_selected (c, none) w = done true (record w { config = c })
was_selected (c, some error) w = done false (record w { config = c })

-- The default backend, where the command line has none.
unfoldable pub select_backend : Driver Bool
select_backend w =
    (if w.config.display_backend_selected
        then pure true
        else was_selected (worker_display_select_backend w.config (codes "st7789-spi")))
      w

-- What display_backends_create returned, once the resources are released.
abbrev pub start_panel : Option ℕ → Driver Bool
start_panel none = emit stopped_gfx >> pure false
start_panel (some panel) =
    modify_display (λ d. record d { display = some panel; initialized = true }) >> pure true

abbrev pub create_panel : Build → Bool × DisplayResources → Driver Bool
create_panel b (false, resources) = emit stopped_gfx >> pure false
create_panel b (true, resources) = do
  w ← get
  emit (
      created_display (display_backend_kind b.kinds w.config.display_backend) resources.bus_fd
        resources.control_fd)
  a ← call
  safe3_display_resources_release resources >>= λ _. start_panel (descriptor_of a)

unfoldable pub start_display : Build → ContentMode → Driver Bool
unfolding reset_display select_backend
start_display b mode = do
  reset_display b mode
  emit started_gfx
  selected ← select_backend
  if not selected
      then (emit stopped_gfx >> pure false)
      else (safe3_display_resources_acquire b >>= create_panel b)

unfoldable pub display_init : Build → ContentMode → Driver Bool
unfolding register_shutdown start_display
display_init b mode = get >>= λ w.
    if w.display.initialized
    then pure true
    else do registered ← register_shutdown; if registered then start_display b mode else pure false

abbrev pub effective_level : Bool → ℕ → ℕ
effective_level true level = level
effective_level false level = 255

unfoldable pub display_set_backlight : Build → ℕ → Driver Bool
unfolding display_refresh
display_set_backlight b level = get >>= λ w.
    let level' = effective_level b.use_backlight level in
    if not w.display.initialized
    then pure false
    else if w.display.backlight_level == level'
    then pure true
    else do modify_display λ d. record d { backlight_level = level' }; display_refresh b; pure true

unfoldable pub display_get_backlight : World → ℕ
display_get_backlight w = if w.display.initialized then w.display.backlight_level else 0

abbrev pub is_supported : ℤ → Bool
is_supported (pos angle) = angle == 0 || angle == 180
is_supported (negsuc n) = false

unfoldable pub display_set_orientation : ℤ → Driver ℤ
display_set_orientation angle = get >>= λ w.
    if not w.display.initialized
    then pure (pos 0)
    else if is_supported angle
    then (modify_display (λ d. record d { orientation_angle = angle }) >> pure angle)
    else pure w.display.orientation_angle

unfoldable pub display_get_orientation : World → ℤ
display_get_orientation w = if w.display.initialized then w.display.orientation_angle else pos 0

-- The buffer with its stride and size, where display_get_frame_buffer returns true.
unfoldable pub display_get_frame_buffer : World → Option (List ℕ × ℕ × ℕ)
display_get_frame_buffer w =
    if w.display.initialized
    then some (w.display.framebuffer, safe3_frame_stride, safe3_frame_length)
    else none

abbrev pub draw : (Bitblt → ℕ → ℕ → List ℕ → List ℕ) → Bitblt → Driver (Unit {0})
draw gfx bb w =
    (if w.display.initialized
        then modify_display (λ d. record d {
          framebuffer = gfx bb (safe3_frame_stride * bb.dst_y) safe3_frame_stride d.framebuffer;
        })
        else pure tt)
      w

unfoldable pub display_fill : Build → Bitblt → Driver (Unit {0})
display_fill b bb = draw b.gfx_mono8_fill bb

unfoldable pub display_copy_mono1p : Build → Bitblt → Driver (Unit {0})
display_copy_mono1p b bb = draw b.gfx_mono8_copy_mono1p bb
