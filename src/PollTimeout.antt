-- ===== src/PollTimeout.antt =====
-- platform/raspberry-pi/poll_timeout.h: how long the worker may sleep in poll().
use Prim.Native.Nat.{min}
use virtual_trezor.Prelude.{ℕ, ◌≤◌, ◌≡◌, refl, Bool, true, false, arith, ltb, if◌then◌else◌}
use virtual_trezor.Prelude.Int.{ℤ, pos, negsuc, minus_one}

abbrev pub int_max : ℕ
int_max = 2147483647

-- The second `if`: a retry timeout that is not negative and comes sooner.
abbrev earlier_retry : ℤ → ℕ → ℤ
earlier_retry (pos retry) timeout = if ltb retry timeout then pos retry else pos timeout
earlier_retry (negsuc _) timeout = pos timeout

unfoldable pub worker_poll_timeout_ms : Bool → ℕ → ℤ → ℤ
worker_poll_timeout_ms suspended firmware_timeout_ms display_retry_timeout_ms =
    if suspended
    then minus_one
    else (let timeout = if ltb int_max firmware_timeout_ms then int_max else firmware_timeout_ms in
        earlier_retry display_retry_timeout_ms timeout)

-- `t` is within a retry timeout; a negative one sets no limit.
abbrev pub Within : ℕ → ℤ → Type 0
Within t (pos retry) = t ≤ retry
Within t (negsuc _) = Unit

abbrev shortest : ℕ → ℤ → ℕ
shortest firmware (pos retry) = min (min int_max firmware) retry
shortest firmware (negsuc _) = min int_max firmware

-- While the bus is not suspended the timeout is within the firmware's deadline, the display's retry and
-- INT_MAX, and no wait `u` that is within these is longer; while it is, the wait has no end.
pub worker_poll_timeout_ms_lem :
    (firmware : ℕ) (retry : ℤ) (u : ℕ)
    → u ≤ firmware
    → u ≤ int_max
    → Within u retry
    → (worker_poll_timeout_ms true firmware retry ≡ minus_one)
      × (t : ℕ) × (worker_poll_timeout_ms false firmware retry ≡ pos t)
      × (t ≤ firmware)
      × (t ≤ int_max)
      × Within t retry
      × (u ≤ t)
unfolding worker_poll_timeout_ms
worker_poll_timeout_ms_lem firmware (pos retry) u f m r = (
  refl,
  shortest firmware (pos retry),
  ground arith,
  omega arith,
  omega arith,
  omega arith,
  omega arith,
)
worker_poll_timeout_ms_lem firmware (negsuc n) u f m r =
    (refl, shortest firmware (negsuc n), ground arith, omega arith, omega arith, tt, omega arith)
