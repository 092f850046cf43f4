-- ===== src/Lib.antt =====
-- A verification library for the workers of virtual-trezor: the C programs that stand in for the
-- hardware of a Trezor under the unchanged firmware.
--
-- The parts. A supervisor hands each worker its descriptors and speaks with it in packets over a
-- socket. platform/safe3/usb_supervisor.c is the Safe 3 worker's USB driver: it decodes the packets,
-- installs the FunctionFS endpoints, runs a thread for each, answers control requests, follows the
-- bus events and serves Core's handles; beside it stand the display and the buttons of the Safe 3.
-- platform/raspberry-pi has the Trezor One worker: usb_functionfs.c is its USB controller, which runs
-- libopencm3 on virtual endpoints, display_linux.c its display with retries and suspends, and
-- buttons_gpio.c its buttons. The Safe 3 worker shares its command line and clock.
--
-- The files.
--   Prelude, Exec: shared names, lists over the native numbers, the state monad. A call ends with a
--     value, with `die`, with exit (0), or waits in a system call that has not returned.
--   Bytes: be16, be32, le16, put_be16 and put_be32.
--   Timer, PollTimeout, Config: platform/raspberry-pi/timer_linux.h and timer_linux.c,
--     poll_timeout.h, worker_config.c.
--   Safe3: platform/safe3/usb_supervisor.c. State has its static variables (`World`), with what the
--     calls of the system will return (`inbox` for recvmsg, `answers` for the others, in the order of
--     the calls) and what the driver has done (`log`, newest first). Records has receive_record and
--     send_record; Endpoints the table of endpoints and its threads; Bus handle_bus_event; Configure
--     the exchanges about a configuration; Control answer_control_request; Service the event loop
--     and the wait; Interfaces the handlers of a handle; Lifecycle, Adding, Starting and Tasks the
--     usb_* functions of Core; Resources receive_initial_resources; Threads the critical sections
--     of out_thread_main and in_thread_main as steps, and how their system calls end. Keeps and Invariant carry the driver's
--     invariant through every function.
--   Protocol: the packets that both workers exchange with the supervisor.
--   Legacy: platform/raspberry-pi. State has the variables of all its files in one `World`; Records,
--     Startup, Endpoints, Packets, Transfer, Configure, Threads, Bus, Service and Entry are the parts
--     of usb_functionfs.c from its records up to usbInit and the other entries of the firmware,
--     Display is display_linux.c, Buttons is buttons_gpio.c with button_gpio_state.h. A thread's round
--     is a call like the others, so that an interleaving is a sequence of calls.
--   Devices: the Safe 3 display and buttons, platform/safe3/display_core.c, display_resources.c,
--     button_gpio.c, button_resources.c and button_headless.c, under a `World` of their own. Balance
--     counts the descriptors that are held.
--   Random: platform/raspberry-pi/random_linux.c. Legacy.Main is worker_main.c.
--   Examples: runs on small inputs.
--
-- Each C function is the definition of its name. `die` and `die_errno` are the constructors of
-- `Fault`. A descriptor of -1 and a null pointer are `none`. The endpoints are the sixteen of the
-- rows 1 to 8, each OUT and then IN. Numbers of a fixed width are reduced where the code can pass
-- their width.
--
-- Bounds and fuel. The loop of configure_until_endpoints has two rounds of fuel: it comes round only
-- after a quiesce, after which every branch ends it. The loops of run_control_transfer have the rounds
-- of `Firmware`, since libopencm3 decides when they end. service_virtual_usb_until_resumed and usbFlush
-- have fuel for the rounds that are looked at: how long they go on is the host's and the clock's
-- matter. All other loops are over lists.
--
-- Parameters. `Platform` has what usb_worker_protocol.h and the kernel's gpio.h define, `Core` the
-- constants of Core's headers, `Firmware` the firmware of the Trezor One, libopencm3 and the
-- personality's discovery, `Build` the build's macros, strtol and Core's drawing functions. The library
-- of the personality (ugsp_*) and the handles (syshandle_*) return what `answers` holds.
--
-- Not modelled: the build files, profiles, patches and scripts; in usb_supervisor.c, usb_vcp_add, which
-- always fails, the interleaving of a thread whose read or write fails with the driver's calls, and the
-- messages on stderr; the empty hooks of the USB
-- driver, display_save and display_clear_save. The mutexes and conditions of an endpoint are held only
-- inside a step. The headers of libopencm3, of Core and of the display's library are not at hand, so
-- their numbers are parameters.
pub mod Prelude
pub mod Exec
pub mod Protocol
pub mod Bytes
pub mod Timer
pub mod PollTimeout
pub mod Config
pub mod Safe3
pub mod Legacy
pub mod Devices
pub mod Random
pub mod Examples
