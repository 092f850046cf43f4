-- ===== src/Timer/Clock.antt =====
-- The firmware clock of platform/raspberry-pi/timer_linux.h over every sequence of suspends and
-- resumes, against a count of the milliseconds in which the bus was not suspended.
use virtual_trezor.Prelude.{
  ℕ, ◌+◌, ◌-◌, ◌^◌, ◌≤◌, ◌<◌, ◌≡◌, ◌∙◌, Bool, true, false, not, List, [], ◌∷◌, arith, if◌then◌else◌,
}
use virtual_trezor.Timer.{
  TimerState, worker_timer_state_init, worker_timer_state_suspend, worker_timer_state_resume,
  worker_timer_state_value,
}

-- A call of the timer, with the reading of the raw clock at the call.
pub data TimerCall : Type 0 where
  suspend_at resume_at : ℕ → TimerCall

abbrev pub apply : TimerState → TimerCall → TimerState
apply s (suspend_at raw_ms) = worker_timer_state_suspend s raw_ms
apply s (resume_at raw_ms) = worker_timer_state_resume s raw_ms

abbrev pub apply_all : TimerState → List TimerCall → TimerState
apply_all s [] = s
apply_all s (c ∷ cs) = apply_all (apply s c) cs

abbrev pub time_of : TimerCall → ℕ
time_of (suspend_at t) = t
time_of (resume_at t) = t

-- The readings do not fall, from `from` through the calls up to `until`, and fit a uint64_t.
abbrev pub Chronological : ℕ → List TimerCall → ℕ → Type 0
Chronological from [] until = (from ≤ until) × (until < 2 ^ 64)
Chronological from (c ∷ cs) until = (from ≤ time_of c) × Chronological (time_of c) cs until

abbrev runs_after : TimerCall → Bool
runs_after (suspend_at t) = false
runs_after (resume_at t) = true

-- The milliseconds between `from` and `until` in which the bus was not suspended.
pub awake_ms : ℕ → Bool → List TimerCall → ℕ → ℕ
awake_ms from running [] until = if running then until - from else 0
awake_ms from running (c ∷ cs) until =
    (if running then time_of c - from else 0) + awake_ms (time_of c) (runs_after c) cs until

record IsClock (now : ℕ) (s : TimerState) : Type 0 where
  parked :
      s.suspended ≡ true → (s.suspended_total_ms ≤ s.suspended_at_ms) × (s.suspended_at_ms ≤ now)
  running : s.suspended ≡ false → s.suspended_total_ms ≤ now

apply-IsClock :
    (s : TimerState) (c : TimerCall) (now : ℕ)
    → IsClock now s
    → now ≤ time_of c
    → time_of c < 2 ^ 64
    → IsClock (time_of c) (apply s c)
unfolding worker_timer_state_suspend worker_timer_state_resume
apply-IsClock s (suspend_at t) now v le lt = ground arith
apply-IsClock s (resume_at t) now v le lt = ground arith

value-apply :
    (s : TimerState) (c : TimerCall) (now : ℕ)
    → IsClock now s
    → now ≤ time_of c
    → time_of c < 2 ^ 64
    → worker_timer_state_value (apply s c) (time_of c)
      ≡ worker_timer_state_value s now + (if s.suspended then 0 else time_of c - now)
unfolding worker_timer_state_suspend worker_timer_state_resume worker_timer_state_value
value-apply s (suspend_at t) now v le lt = ground arith
value-apply s (resume_at t) now v le lt = ground arith

Chronological-lt :
    (from : ℕ) (cs : List TimerCall) (until : ℕ) → Chronological from cs until → from < 2 ^ 64
Chronological-lt from [] until h = omega arith
Chronological-lt from (c ∷ cs) until h = omega (arith, Chronological-lt (time_of c) cs until h.1)

suspended-apply : (s : TimerState) (c : TimerCall) → not (apply s c).suspended ≡ runs_after c
unfolding worker_timer_state_suspend worker_timer_state_resume
suspended-apply s (suspend_at t) = ground arith
suspended-apply s (resume_at t) = ground arith

value-apply_all :
    (s : TimerState) (now : ℕ) (cs : List TimerCall) (until : ℕ)
    → IsClock now s
    → Chronological now cs until
    → worker_timer_state_value (apply_all s cs) until
      ≡ worker_timer_state_value s now + awake_ms now (not s.suspended) cs until
unfolding awake_ms worker_timer_state_value
value-apply_all s now [] until v h = ground arith
value-apply_all s now (c ∷ cs) until v h =
    let lt = Chronological-lt (time_of c) cs until h.1 in
    let rest =
      value-apply_all (apply s c) (time_of c) cs until (apply-IsClock s c now v h.0 lt) h.1 in
    let step = value-apply s c now v h.0 lt in
    let runs = suspended-apply s c in
    unfold awake_ms in (rw runs at rest) ∙ (rw step (ground arith))

-- After any chronological sequence of suspends and resumes the firmware clock shows the number of
-- milliseconds in which the bus was not suspended.
pub worker_timer_state_value_lem :
    (cs : List TimerCall) (until : ℕ)
    → Chronological 0 cs until
    → worker_timer_state_value (apply_all worker_timer_state_init cs) until
      ≡ awake_ms 0 true cs until
unfolding worker_timer_state_init worker_timer_state_value
worker_timer_state_value_lem cs until h =
    omega (arith, value-apply_all worker_timer_state_init 0 cs until (ground arith) h)
