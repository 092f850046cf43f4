-- ===== src/Safe3/Service/Sleep.antt =====
-- How long virtual_trezor_wait_for_interrupt of platform/safe3/usb_supervisor.c sleeps.
use virtual_trezor.Prelude.{ℕ, ◌+◌, ◌*◌, ◌/◌, ◌%◌, ◌^◌, ◌≤◌, ◌<◌, ◌≡◌, none, some, arith}
use virtual_trezor.Safe3.Service.{remaining_ms, Timespec, timeout_of}

-- The milliseconds of a timeout.
abbrev pub milliseconds : Timespec → ℕ
milliseconds t = t.tv_sec * 1000 + t.tv_nsec / 1000000

-- While the deadline lies 1 to 2^31 - 1 ms ahead of the 32-bit clock, across its wrap-around too, the
-- wait is that distance, and the timespec of ppoll is well formed and has exactly that length; a
-- deadline that is now or at most 2^31 ms past gives no wait.
pub remaining_ms-timeout :
    (now ahead behind : ℕ)
    → now < 2 ^ 32
    → 0 < ahead
    → ahead < 2 ^ 31
    → behind ≤ 2 ^ 31
    → (remaining_ms ((now + ahead) % 2 ^ 32) now ≡ some ahead)
      × ((timeout_of ahead).tv_nsec < 1000000000)
      × (milliseconds (timeout_of ahead) ≡ ahead)
      × (remaining_ms now ((now + behind) % 2 ^ 32) ≡ none)
unfolding remaining_ms timeout_of
remaining_ms-timeout now ahead behind h positive k b =
    (ground arith, omega arith, omega arith, ground arith)
