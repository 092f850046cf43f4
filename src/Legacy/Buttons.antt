-- ===== src/Legacy/Buttons.antt =====
-- platform/raspberry-pi/buttons_gpio.c and button_gpio_state.h.
use virtual_trezor.Prelude.{
  ℕ, ◌+◌, ◌-◌, ◌/◌, ◌%◌, ◌^◌, Bool, ◌||◌, Option, none, some, List, [], ◌∷◌, ◌==◌, if◌then◌else◌,
}
use virtual_trezor.Exec.{◌>>=◌, ◌>>◌, pure, done, died, blocked}
use virtual_trezor.Protocol.{
  Answer, failed, number, buffer, interrupted, would_block, generation_over, other_errno,
}
use virtual_trezor.Legacy.State.{
  Worker, Firmware, call_or_die, button_nonblocking, read_buttons, read_button_event,
  partial_button_event,
}

-- Bit i of a word.
abbrev pub bit : ℕ → ℕ → Bool
bit word i = word / 2 ^ i % 2 == 1

-- button_gpio_pressed: the NO bit and the YES bit do not overlap.
unfoldable pub button_gpio_pressed : ℕ → ℕ
button_gpio_pressed line_values =
    let center_pressed = bit line_values 2 in
    (if center_pressed || bit line_values 0 then 1 else 0)
    + (if center_pressed || bit line_values 1 then 2 else 0)

-- The loop around the ioctl: it is repeated while it is interrupted.
unfoldable pub read_values_from : List Answer → Worker ℕ
read_values_from [] w = blocked (record w { answers = [] })
read_values_from (failed interrupted ∷ rest) w = read_values_from rest w
read_values_from (failed would_block ∷ rest) w = died read_buttons (record w { answers = rest })
read_values_from (failed generation_over ∷ rest) w = died read_buttons (record w { answers = rest })
read_values_from (failed other_errno ∷ rest) w = died read_buttons (record w { answers = rest })
read_values_from (number bits ∷ rest) w = done bits (record w { answers = rest })
read_values_from (buffer bytes ∷ rest) w = died read_buttons (record w { answers = rest })

unfoldable pub read_gpio_pressed : Worker ℕ
unfolding button_gpio_pressed
read_gpio_pressed w = (read_values_from w.answers >>= λ bits. pure (button_gpio_pressed bits)) w

abbrev pub cache_pressed : Worker (Unit {0})
cache_pressed = read_gpio_pressed >>= λ pressed w.
    done tt (record w { buttons = record (w.buttons) { cached_gpio_pressed = pressed } })

-- Two calls of fcntl, and the first read.
abbrev pub initialize_unless : Option ℕ → Worker (Unit {0})
initialize_unless (some fd) = pure tt
initialize_unless none = do
  λ w. done tt (record w { buttons = record (w.buttons) { lines_fd = w.usb.button_lines_fd } })
  _ ← call_or_die button_nonblocking
  _ ← call_or_die button_nonblocking
  cache_pressed

unfoldable pub initialize_gpio_buttons : Worker (Unit {0})
initialize_gpio_buttons w = initialize_unless w.buttons.lines_fd w

unfoldable pub button_event_fd : Worker (Option ℕ)
button_event_fd = initialize_gpio_buttons >> λ w. done w.buttons.lines_fd w

-- The loop that reads line events until there is none left.
unfoldable pub drain_from : Firmware → List Answer → Worker (Unit {0})
drain_from f [] w = blocked (record w { answers = [] })
drain_from f (failed interrupted ∷ rest) w = drain_from f rest w
drain_from f (failed would_block ∷ rest) w = done tt (record w { answers = rest })
drain_from f (failed generation_over ∷ rest) w =
    died read_button_event (record w { answers = rest })
drain_from f (failed other_errno ∷ rest) w = died read_button_event (record w { answers = rest })
drain_from f (buffer bytes ∷ rest) w = died partial_button_event (record w { answers = rest })
drain_from f (number n ∷ rest) w =
    let more = drain_from f rest w in
    if n == f.line_event_size then more else died partial_button_event (record w { answers = rest })

unfoldable pub button_drain_events : Firmware → Worker (Unit {0})
button_drain_events f = do initialize_gpio_buttons; λ w. drain_from f w.answers w; cache_pressed

-- BTN_PIN_NO and BTN_PIN_YES of the firmware's buttons.h, two different bits.
pub record Pins : Type 0 where
  pub no_pin : ℕ
  pub yes_pin : ℕ

-- ~pressed as a uint16_t.
unfoldable pub released_word : Pins → ℕ → ℕ
released_word pins pressed =
    65535
    - ((if bit pressed 0 then 2 ^ pins.no_pin else 0)
        + (if bit pressed 1 then 2 ^ pins.yes_pin else 0))

unfoldable pub button_read : Pins → Worker ℕ
button_read pins = do
  initialize_gpio_buttons
  cache_pressed
  λ w. done (released_word pins w.buttons.cached_gpio_pressed) w
