-- ===== src/Devices.antt =====
-- The display and the buttons of the Safe 3 worker: platform/safe3/display_core.c and
-- display_resources.c, button_gpio.c, button_resources.c and button_headless.c, under one state of
-- their own.
pub mod State
pub mod Resources
pub mod Balance
pub mod Display
pub mod Buttons
