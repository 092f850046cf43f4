-- ===== src/Timer.antt =====
-- platform/raspberry-pi/timer_linux.h and timer_linux.c: the firmware clock, which stands still
-- while the USB bus is suspended. A uint64_t wraps modulo 2 ^ 64, written out. `raw_ms` is the
-- reading of CLOCK_MONOTONIC at the call, in milliseconds.
pub mod Clock
use virtual_trezor.Prelude.{
  ℕ, ◌+◌, ◌-◌, ◌%◌, ◌^◌, ◌*◌, ◌/◌, Bool, true, false, List, [], ◌∷◌, if◌then◌else◌,
}

abbrev pub u64 : ℕ → ℕ
u64 n = n % 2 ^ 64

abbrev pub u32 : ℕ → ℕ
u32 n = n % 2 ^ 32

-- struct worker_timer_state
pub record TimerState : Type 0 where
  pub suspended_at_ms : ℕ
  pub suspended_total_ms : ℕ
  pub suspended : Bool

unfoldable pub worker_timer_state_init : TimerState
worker_timer_state_init = record { suspended_at_ms = 0; suspended_total_ms = 0; suspended = false }

unfoldable pub worker_timer_state_suspend : TimerState → ℕ → TimerState
worker_timer_state_suspend s raw_ms =
    if s.suspended then s else record s { suspended_at_ms = raw_ms; suspended = true }

unfoldable pub worker_timer_state_resume : TimerState → ℕ → TimerState
worker_timer_state_resume s raw_ms =
    if s.suspended
    then record s {
      suspended_total_ms = u64 (s.suspended_total_ms + u64 (raw_ms + 2 ^ 64 - s.suspended_at_ms));
      suspended = false;
    }
    else s

unfoldable pub worker_timer_state_value : TimerState → ℕ → ℕ
worker_timer_state_value s raw_ms =
    let effective_raw_ms = if s.suspended then s.suspended_at_ms else raw_ms in
    u64 (effective_raw_ms + 2 ^ 64 - s.suspended_total_ms)

-- `raw_monotonic_ms` after clock_gettime has filled `now`.
unfoldable pub raw_monotonic_ms : ℕ → ℕ → ℕ
raw_monotonic_ms tv_sec tv_nsec = u64 (u64 (tv_sec * 1000) + tv_nsec / 1000000)

unfoldable pub timer_ms : TimerState → ℕ → ℕ
unfolding worker_timer_state_value
timer_ms s raw_ms = u32 (worker_timer_state_value s raw_ms)
