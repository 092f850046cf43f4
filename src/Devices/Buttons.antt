-- ===== src/Devices/Buttons.antt =====
-- platform/safe3/button_gpio.c and button_headless.c: the state of the buttons for Trezor Core.
pub mod Levels
use virtual_trezor.Prelude.{
  ℕ, ◌+◌, ◌^◌, Bool, true, false, not, ◌&&◌, ◌||◌, Option, none, some, is_some, ltb, ◌!=◌,
  if◌then◌else◌,
}
use virtual_trezor.Exec.{◌>>=◌, ◌>>◌, pure, die, done}
use virtual_trezor.Legacy.Buttons.{bit, button_gpio_pressed}
use virtual_trezor.Devices.State.{
  Driver, Build, ButtonResources, read_button_gpios, traced, stopped_polling, call, succeeded, emit,
  get, modify_buttons,
}
use virtual_trezor.Devices.Resources.{
  safe3_button_resources_acquire, safe3_button_resources_read, safe3_button_resources_release,
}

-- The two bits of the state; BTN_LEFT and BTN_RIGHT differ.
unfoldable pub state_of : Build → ℕ → ℕ
unfolding button_gpio_pressed
state_of b values =
    let pressed = button_gpio_pressed values in
    (if bit pressed 0 then 2 ^ b.btn_left else 0) + (if bit pressed 1 then 2 ^ b.btn_right else 0)

abbrev pub trace_state : ℕ → Driver (Unit {0})
trace_state state w =
    (if w.buttons.trace && (not w.buttons.traced_state_valid || state != w.buttons.traced_state)
        then (emit (traced state)
            >> modify_buttons (λ d. record d { traced_state = state; traced_state_valid = true }))
        else pure tt)
      w

abbrev state_from : Build → Option ℕ → Driver ℕ
state_from b none = die read_button_gpios
state_from b (some values) = trace_state (state_of b values) >> pure (state_of b values)

unfoldable pub read_button_state : Build → Driver ℕ
read_button_state b = safe3_button_resources_read b >>= state_from b

abbrev pub poll_buttons : Build → Bool × ButtonResources → Driver Bool
poll_buttons b (false, resources) =
    modify_buttons (λ d. record d { resources = resources }) >> pure false
poll_buttons b (true, resources) = do
  modify_buttons λ d. record d { resources = resources }
  λ w.
      done tt
        (record w { buttons = record (w.buttons) { trace = is_some w.environment.button_trace } })
  a ← call
  if succeeded a
      then (modify_buttons (λ d. record d { initialized = true }) >> pure true)
      else (safe3_button_resources_release resources >>= λ released.
          modify_buttons (λ d. record d { resources = released }) >> pure false)

unfoldable pub button_init : Build → Driver Bool
button_init b = get >>= λ w.
    if w.buttons.initialized
    then pure true
    else (safe3_button_resources_acquire b >>= poll_buttons b)

unfoldable pub button_deinit : Driver (Unit {0})
button_deinit = do
  w ← get
  (if w.buttons.initialized then emit stopped_polling else pure tt)
  released ← safe3_button_resources_release w.buttons.resources
  modify_buttons λ d. record d { resources = released; initialized = false }

unfoldable pub button_get_state : Build → Driver ℕ
unfolding read_button_state
button_get_state b w = (if w.buttons.initialized then read_button_state b else pure 0) w

unfoldable pub button_is_down : Build → ℕ → Driver Bool
unfolding button_get_state
button_is_down b button =
    if ltb button b.btn_left || ltb b.btn_power button
    then pure false
    else (button_get_state b >>= λ state. pure (bit state button))

-- button_init and button_deinit of button_headless.c, whose one variable is `initialized`.
unfoldable pub headless_init : Driver Bool
headless_init = get >>= λ w. if w.buttons.initialized then pure true else do
  a ← call
  (if succeeded a then modify_buttons (λ d. record d { initialized = true }) else pure tt)
  pure (succeeded a)

unfoldable pub headless_deinit : Driver (Unit {0})
headless_deinit = do
  w ← get
  (if w.buttons.initialized then emit stopped_polling else pure tt)
  modify_buttons λ d. record d { initialized = false }
