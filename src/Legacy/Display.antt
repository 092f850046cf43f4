-- ===== src/Legacy/Display.antt =====
-- platform/raspberry-pi/display_linux.c: the last frame, its retries, and the display's suspension.
-- A call of the display's library fails where the answer is a failure; display_backends_create
-- returns the handle.
pub mod Asleep
pub mod Retry
use virtual_trezor.Prelude.{
  ℕ, ◌+◌, ◌-◌, ◌%◌, ◌^◌, Bool, true, false, not, ◌&&◌, ◌||◌, Option, none, some, List, ltb, leb,
  ◌==◌, ◌!=◌, if◌then◌else◌,
}
use virtual_trezor.Prelude.Int.{ℤ, pos, minus_one}
use virtual_trezor.Exec.{◌>>=◌, ◌>>◌, pure, done}
use virtual_trezor.PollTimeout.{int_max}
use virtual_trezor.Config.{Backend, ssd1306_i2c, sh1106_i2c, sh1106_spi, st7789_spi}
use virtual_trezor.Protocol.{Answer, failed, number, buffer}
use virtual_trezor.Legacy.State.{
  World, Worker, Display, Frame, Kinds, call, emit, modify_display, get_display, monotonic_ms,
  created_display, wrote_frame, shut_down_display, destroyed_display,
}

abbrev pub retry_delay_ms : ℕ
retry_delay_ms = 1000

unfoldable pub display_backend_kind : Kinds → Backend → ℕ
display_backend_kind k ssd1306_i2c = k.ssd1306_i2c_kind
display_backend_kind k sh1106_i2c = k.sh1106_i2c_kind
display_backend_kind k sh1106_spi = k.sh1106_spi_kind
display_backend_kind k st7789_spi = k.st7789_spi_kind

abbrev destroy : Option ℕ → Worker (Unit {0})
destroy none = pure tt
destroy (some handle) = emit (destroyed_display handle)

unfoldable pub release_display : Worker (Unit {0})
release_display =
    get_display >>= λ d. destroy d.display >> modify_display (λ d. record d { display = none })

unfoldable pub report_error : Worker (Unit {0})
report_error = do
  modify_display λ d. record d { error_reported = true }
  release_display
  now ← monotonic_ms
  modify_display λ d. record d { retry_after_ms = (now + retry_delay_ms) % 2 ^ 64 }

-- What display_backends_create returned.
abbrev pub created : Answer → Worker Bool
created (failed errno) = report_error >> pure false
created (number handle) =
    modify_display
      (λ d. record d { display = some handle; error_reported = false; retry_after_ms = 0 })
    >> pure true
created (buffer bytes) = report_error >> pure false

unfoldable pub initialize_display : Kinds → Worker Bool
initialize_display k = do
  now ← monotonic_ms
  d ← get_display
  if d.retry_after_ms != 0 && ltb now d.retry_after_ms then pure false else λ w.
      (emit (
            created_display (display_backend_kind k w.config.display_backend)
              w.usb.display_resource_fd w.usb.display_control_fd)
          >> (call >>= created))
        w

abbrev pub frame_of : World → ℕ → ℕ → Frame
frame_of w handle framebuffer = record {
  handle = handle;
  pixel_format = w.display.last_pixel_format;
  width = w.display.last_width;
  height = w.display.last_height;
  stride = w.display.last_stride;
  framebuffer = w.memory framebuffer;
  length = w.display.last_length;
}

-- What display_backends_write_frame returned.
abbrev pub written : Answer → Worker (Unit {0})
written (failed errno) = report_error
written (number n) = pure tt
written (buffer bytes) = pure tt

abbrev pub write_to : Option ℕ → Option ℕ → Worker (Unit {0})
write_to none framebuffer = pure tt
write_to (some handle) none = pure tt
write_to (some handle) (some framebuffer) =
    (λ w. emit (wrote_frame (frame_of w handle framebuffer)) w) >> (call >>= written)

-- write_last_frame, once the display is there.
unfoldable pub write_frame_now : Worker (Unit {0})
write_frame_now = get_display >>= λ d. write_to d.display d.last_framebuffer

abbrev is_null : Option ℕ → Bool
is_null none = true
is_null (some p) = false

unfoldable pub write_last_frame : Kinds → Worker (Unit {0})
write_last_frame k = get_display >>= λ d.
    if d.suspended || is_null d.last_framebuffer
    then pure tt
    else if is_null d.display
    then (initialize_display k >>= λ ok. if ok then write_frame_now else pure tt)
    else write_frame_now

-- The parameters of worker_display_write_frame.
pub record FrameInfo : Type 0 where
  pub pixel_format : ℕ
  pub width : ℕ
  pub height : ℕ
  pub stride : ℕ
  pub framebuffer : Option ℕ
  pub length : ℕ

unfoldable pub worker_display_write_frame : Kinds → FrameInfo → Worker (Unit {0})
worker_display_write_frame k f = do
  modify_display λ d. record d {
    last_pixel_format = f.pixel_format;
    last_width = f.width;
    last_height = f.height;
    last_stride = f.stride;
    last_framebuffer = f.framebuffer;
    last_length = f.length;
  }
  write_last_frame k

-- display_backends_shutdown, whose failure is only reported, and the release.
abbrev pub turn_off : Option ℕ → Worker (Unit {0})
turn_off none = pure tt
turn_off (some handle) = emit (shut_down_display handle) >> (call >>= λ a. release_display)

unfoldable pub worker_display_shutdown : Worker (Unit {0})
worker_display_shutdown = do
  modify_display λ d. record d { suspended = true }
  d ← get_display
  turn_off d.display

unfoldable pub worker_display_suspend : Worker (Unit {0})
worker_display_suspend = get_display >>= λ d.
    if d.suspended
    then pure tt
    else (modify_display (λ d. record d { suspended = true }) >> turn_off d.display)

unfoldable pub worker_display_resume : Kinds → Worker (Unit {0})
worker_display_resume k = get_display >>= λ d.
    if not d.suspended
    then pure tt
    else (modify_display (λ d. record d { suspended = false; retry_after_ms = 0 })
        >> write_last_frame k)

unfoldable pub write_legacy_framebuffer : Kinds → ℕ → Worker (Unit {0})
write_legacy_framebuffer k oled_buffer = worker_display_write_frame k (record {
  pixel_format = k.mono1_msb_reverse_page;
  width = 128;
  height = 64;
  stride = 128;
  framebuffer = some oled_buffer;
  length = 1024;
})

unfoldable pub emulator_poll : Kinds → Worker (Unit {0})
emulator_poll k = get_display >>= λ d.
    if not (is_null d.display) || d.retry_after_ms == 0
    then pure tt
    else do now ← monotonic_ms; if ltb now d.retry_after_ms then pure tt else write_last_frame k

unfoldable pub worker_display_retry_timeout_ms : Worker ℤ
worker_display_retry_timeout_ms = get_display >>= λ d.
    if d.retry_after_ms == 0 then pure minus_one else do
      now ← monotonic_ms
      if leb d.retry_after_ms now
          then pure (pos 0)
          else if ltb int_max (d.retry_after_ms - now)
          then pure (pos int_max)
          else pure (pos (d.retry_after_ms - now))
