-- ===== src/Legacy.antt =====
-- platform/raspberry-pi: the worker of the Trezor One, in one process the supervisor-backed USB
-- controller (usb_functionfs.c), the display (display_linux.c), the buttons (buttons_gpio.c) and the
-- firmware clock (timer_linux.c), all under one state.
pub mod State
pub mod Records
pub mod Startup
pub mod Display
pub mod Buttons
pub mod Endpoints
pub mod Packets
pub mod Transfer
pub mod Configure
pub mod Bus
pub mod Threads
pub mod Service
pub mod Entry
pub mod Main
