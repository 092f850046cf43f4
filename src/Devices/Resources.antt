-- ===== src/Devices/Resources.antt =====
-- platform/safe3/display_resources.c and button_resources.c: the descriptors of the display and of the
-- button lines, from the supervisor, from the environment or opened here.
use virtual_trezor.Prelude.{
  ℕ, Bool, true, false, not, ◌&&◌, ◌||◌, Option, none, some, is_some, List, [], ◌∷◌, length, leb,
  ◌==◌, ◌!=◌, if◌then◌else◌,
}
use virtual_trezor.Prelude.Int.{ℤ, pos, negsuc}
use virtual_trezor.Prelude.Text.{Text, codes}
use virtual_trezor.Exec.{◌>>=◌, ◌>>◌, pure, done, blocked}
use virtual_trezor.PollTimeout.{int_max}
use virtual_trezor.Protocol.{
  Answer, failed, number, buffer, interrupted, would_block, generation_over, other_errno,
}
use virtual_trezor.Devices.State.{
  Driver, Build, Strtol, DisplayResources, ButtonResources, LineRequest, opened, requested, closed,
  output_line, input_line, active_low, bias_pull_up, edge_rising, edge_falling, call, descriptor_of,
  emit, get,
}

abbrev in_range : ℤ → Option ℕ
in_range (pos n) = if leb n int_max then some n else none
in_range (negsuc n) = none

abbrev pub parsed : Text → Strtol → Option ℕ
parsed value s =
    if s.errno_set || s.consumed == 0 || s.consumed != length value then none else in_range s.value

-- parse_fd, which both files have word for word.
unfoldable pub parse_fd : Build → Option Text → Option ℕ
parse_fd b none = none
parse_fd b (some []) = none
parse_fd b (some (c ∷ rest)) = parsed (c ∷ rest) (b.strtol (c ∷ rest))

-- What the ioctl answered; the chip is closed whatever it was.
abbrev pub granted : LineRequest → ℕ → Option ℕ → Driver (Option ℕ)
granted request chip none = emit (closed chip) >> pure none
granted request chip (some fd) = do emit (requested request fd); emit (closed chip); pure (some fd)

abbrev pub request_on : Text → LineRequest → Option ℕ → Driver (Option ℕ)
request_on path request none = pure none
request_on path request (some chip) =
    emit (opened path chip) >> (call >>= λ a. granted request chip (descriptor_of a))

-- open, the ioctl and close.
unfoldable pub request_lines : Text → LineRequest → Driver (Option ℕ)
request_lines path request = call >>= λ a. request_on path request (descriptor_of a)

unfoldable pub display_lines : LineRequest
display_lines = record {
  offsets = 25 ∷ 27 ∷ 24 ∷ [];
  flags = output_line ∷ [];
  consumer = codes "virtual-trezor-safe3-display";
}

unfoldable pub button_lines : LineRequest
button_lines = record {
  offsets = 5 ∷ 26 ∷ 13 ∷ [];
  flags = input_line ∷ active_low ∷ bias_pull_up ∷ edge_rising ∷ edge_falling ∷ [];
  consumer = codes "virtual-trezor-safe3-buttons";
}

-- The value of a variable, or the default where it is not set or empty.
abbrev pub path_or : Text → Option Text → Text
path_or fallback none = fallback
path_or fallback (some []) = fallback
path_or fallback (some (c ∷ rest)) = c ∷ rest

abbrev close_owned : Bool → Option ℕ → Driver (Unit {0})
close_owned false fd = pure tt
close_owned true none = pure tt
close_owned true (some fd) = emit (closed fd)

abbrev pub no_display : DisplayResources
no_display = record {
  bus_fd = none;
  control_fd = none;
  owns_bus_fd = false;
  owns_control_fd = false;
}

unfoldable pub safe3_display_resources_release : DisplayResources → Driver DisplayResources
safe3_display_resources_release r = do
  close_owned r.owns_control_fd r.control_fd
  close_owned r.owns_bus_fd r.bus_fd
  pure no_display

abbrev borrowed : Option ℕ → Option ℕ → DisplayResources
borrowed bus control = record {
  bus_fd = bus;
  control_fd = control;
  owns_bus_fd = false;
  owns_control_fd = false;
}

-- The two descriptors named by the environment; those that were parsed are only kept together.
abbrev pub inherit : Option ℕ → Option ℕ → Bool × DisplayResources
inherit none control = (false, no_display)
inherit (some bus) none = (false, no_display)
inherit (some bus) (some control) = (true, borrowed (some bus) (some control))

abbrev pub with_lines : ℕ → Option ℕ → Driver (Bool × DisplayResources)
with_lines bus (some control) = pure (
  true,
  record {
    bus_fd = some bus;
    control_fd = some control;
    owns_bus_fd = true;
    owns_control_fd = true;
  },
)
with_lines bus none =
    safe3_display_resources_release
      (record { bus_fd = some bus; control_fd = none; owns_bus_fd = true; owns_control_fd = false })
    >>= λ r. pure (false, r)

abbrev pub open_bus : Text → Text → Option ℕ → Driver (Bool × DisplayResources)
open_bus bus_path gpio_path none = pure (false, no_display)
open_bus bus_path gpio_path (some bus) =
    emit (opened bus_path bus) >> (request_lines gpio_path display_lines >>= with_lines bus)

unfoldable pub safe3_display_resources_acquire : Build → Driver (Bool × DisplayResources)
unfolding request_lines
safe3_display_resources_acquire b = get >>= λ w.
    let bus = w.supervised.bus in
    let control = w.supervised.control in
    if b.supervisor_usb
    then pure (is_some bus && is_some control, borrowed bus control)
    else if is_some w.environment.display_bus_fd || is_some w.environment.display_control_fd
    then pure (
        inherit (parse_fd b w.environment.display_bus_fd)
          (parse_fd b w.environment.display_control_fd))
    else if not b.linux
    then pure (false, no_display)
    else (call >>= λ a.
        open_bus (path_or (codes "/dev/spidev0.0") w.environment.display_bus)
          (path_or (codes "/dev/gpiochip0") w.environment.display_gpio) (descriptor_of a))

abbrev pub no_lines : ButtonResources
no_lines = record { lines_fd = none; owns_lines_fd = false }

abbrev owned_lines : Option ℕ → Bool × ButtonResources
owned_lines none = (false, no_lines)
owned_lines (some fd) = (true, record { lines_fd = some fd; owns_lines_fd = true })

unfoldable pub safe3_button_resources_acquire : Build → Driver (Bool × ButtonResources)
unfolding request_lines
safe3_button_resources_acquire b = get >>= λ w.
    let inherited = parse_fd b w.environment.buttons_fd in
    if b.supervisor_usb
    then pure (
      is_some w.supervised.lines,
      record { lines_fd = w.supervised.lines; owns_lines_fd = false },
    )
    else if is_some w.environment.buttons_fd
    then pure (is_some inherited, record { lines_fd = inherited; owns_lines_fd = false })
    else if not b.linux
    then pure (false, no_lines)
    else (request_lines (path_or (codes "/dev/gpiochip0") w.environment.button_gpio) button_lines
        >>= λ fd. pure (owned_lines fd))

-- The loop around the ioctl; `none` where it fails.
unfoldable pub read_lines_from : List Answer → Driver (Option ℕ)
read_lines_from [] w = blocked (record w { answers = [] })
read_lines_from (failed interrupted ∷ rest) w = read_lines_from rest w
read_lines_from (failed would_block ∷ rest) w = done none (record w { answers = rest })
read_lines_from (failed generation_over ∷ rest) w = done none (record w { answers = rest })
read_lines_from (failed other_errno ∷ rest) w = done none (record w { answers = rest })
read_lines_from (number bits ∷ rest) w = done (some bits) (record w { answers = rest })
read_lines_from (buffer bytes ∷ rest) w = done none (record w { answers = rest })

unfoldable pub safe3_button_resources_read : Build → Driver (Option ℕ)
unfolding read_lines_from
safe3_button_resources_read b w = if b.linux then read_lines_from w.answers w else done none w

unfoldable pub safe3_button_resources_release : ButtonResources → Driver ButtonResources
safe3_button_resources_release r = close_owned r.owns_lines_fd r.lines_fd >> pure no_lines
