-- ===== src/Safe3.antt =====
-- platform/safe3/usb_supervisor.c: the supervisor-backed USB controller of Trezor Core. `State` has
-- its variables and the system that it calls; each other child has a group of its functions or
-- proves what holds of them.
pub mod State
pub mod Records
pub mod Endpoints
pub mod Bus
pub mod Configure
pub mod Control
pub mod Service
pub mod Interfaces
pub mod Lifecycle
pub mod Adding
pub mod Starting
pub mod Tasks
pub mod Resources
pub mod Threads
pub mod Keeps
pub mod Invariant
