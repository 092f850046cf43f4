-- ===== src/Legacy/Bus/Clock.antt =====
-- The firmware's clock over a suspend and a resume of the bus, as timer_linux.c reads it.
use virtual_trezor.Prelude.{
  ℕ, ◌+◌, ◌-◌, ◌%◌, ◌^◌, ◌≤◌, ◌<◌, ◌≡◌, refl, Bool, true, false, List, ◌∷◌, arith,
}
use virtual_trezor.Exec.{◌>>=◌, ◌>>◌, pure, done}
use virtual_trezor.Timer.{
  TimerState, timer_ms, worker_timer_state_suspend, worker_timer_state_resume,
  worker_timer_state_value,
}
use virtual_trezor.Protocol.{Answer, number}
use virtual_trezor.Legacy.State.{World, Worker, call, monotonic_ms}
use virtual_trezor.Legacy.Bus.{worker_timer_suspend, worker_timer_resume, read_timer_ms}

-- The clock is suspended and read, resumed and read again.
unfoldable pub read_around : Worker (ℕ × ℕ)
read_around = do
  worker_timer_suspend
  asleep ← read_timer_ms
  worker_timer_resume
  awake ← read_timer_ms
  pure (asleep, awake)

asleep_at :
    (at read_at : ℕ) (suspended : Bool) (s : TimerState)
    → suspended ≡ false
    → timer_ms (worker_timer_state_suspend (record s { suspended = suspended }) at) read_at
      ≡ timer_ms (record s { suspended = suspended }) at
unfolding timer_ms worker_timer_state_suspend worker_timer_state_value
asleep_at at read_at true s h = absurd (cc)
asleep_at at read_at false s h = refl

awake_again :
    (at resumed_at later : ℕ) (suspended : Bool) (s : TimerState)
    → suspended ≡ false
    → s.suspended_total_ms ≤ at
    → at ≤ resumed_at
    → resumed_at ≤ later
    → later < 2 ^ 64
    → timer_ms
        (worker_timer_state_resume
          (worker_timer_state_suspend (record s { suspended = suspended }) at)
          resumed_at)
        later
      ≡ (timer_ms (record s { suspended = suspended }) at + (later - resumed_at)) % 2 ^ 32
unfolding timer_ms worker_timer_state_suspend worker_timer_state_resume worker_timer_state_value
awake_again at resumed_at later true s h a b c d = absurd (cc)
awake_again at resumed_at later false s h a b c d = omega arith

-- While the bus is suspended the firmware reads the time of the suspend, however late it reads; and
-- after the resume it reads that time and what has passed since, on its 32-bit clock. The system's
-- clock must not go back, nor below what the firmware's clock has stood still.
pub read_around-frozen :
    (at read_at resumed_at later : ℕ) (rest : List Answer) (w : World)
    → w.timer.suspended ≡ false
    → w.timer.suspended_total_ms ≤ at
    → at ≤ resumed_at
    → resumed_at ≤ later
    → later < 2 ^ 64
    → (v : World) × (read_around (record w {
      answers = number at ∷ number read_at ∷ number resumed_at ∷ number later ∷ rest;
    })
        ≡ done (timer_ms w.timer at, (timer_ms w.timer at + (later - resumed_at)) % 2 ^ 32) v)
unfolding read_around worker_timer_suspend worker_timer_resume read_timer_ms monotonic_ms call
    timer_ms worker_timer_state_suspend worker_timer_state_resume worker_timer_state_value
read_around-frozen at read_at resumed_at later rest w running total later_than still fits = (
  record w {
    timer = worker_timer_state_resume (worker_timer_state_suspend w.timer at) resumed_at;
    answers = rest;
  },
  λ i.
      done
        (
          asleep_at at read_at w.timer.suspended w.timer running i,
          awake_again at resumed_at later w.timer.suspended w.timer running total later_than still
              fits i,
        )
        (record w {
          timer = worker_timer_state_resume (worker_timer_state_suspend w.timer at) resumed_at;
          answers = rest;
        }),
)
