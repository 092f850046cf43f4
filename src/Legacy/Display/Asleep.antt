-- ===== src/Legacy/Display/Asleep.antt =====
-- What platform/raspberry-pi/display_linux.c does between worker_display_suspend and
-- worker_display_resume.
use virtual_trezor.Prelude.{
  ℕ, suc, ◌≡◌, refl, ◌∙◌, Bool, true, false, Option, none, some, List, [], ◌∷◌, ltb, ◌==◌,
  if◌then◌else◌,
}
use virtual_trezor.Exec.{Returns, Returns->>=, Returns_imp, ◌>>=◌, ◌>>◌, pure}
use virtual_trezor.Protocol.{Answer, failed, number, buffer}
use virtual_trezor.Legacy.State.{
  World, Worker, Event, Kinds, wrote_frame, created_display, call, monotonic_ms,
}
use virtual_trezor.Legacy.Display.{
  FrameInfo, release_display, write_last_frame, worker_display_write_frame, worker_display_shutdown,
  worker_display_suspend, emulator_poll,
}

-- The calls into the display while the bus is suspended.
pub data Call : Type 0 where
  write_frame : FrameInfo → Call
  poll suspend shutdown : Call

unfoldable pub perform : Kinds → Call → Worker (Unit {0})
perform k (write_frame f) = worker_display_write_frame k f
perform k poll = emulator_poll k
perform k suspend = worker_display_suspend
perform k shutdown = worker_display_shutdown

unfoldable pub perform_all : Kinds → List Call → Worker (Unit {0})
unfolding perform
perform_all k [] = pure tt
perform_all k (c ∷ cs) = perform k c >> perform_all k cs

-- The display is off: suspended, and no handle is left.
abbrev pub IsAsleep : World → Type 0
IsAsleep w = (w.display.suspended ≡ true) × (w.display.display ≡ none)

-- How many frames were written and displays were created.
unfoldable pub shown : List Event → ℕ
shown [] = 0
shown (wrote_frame frame ∷ log) = suc (shown log)
shown (created_display kind bus control ∷ log) = suc (shown log)
shown (_ ∷ log) = shown log

-- The display is still off, and nothing more was shown.
abbrev pub Rests : World → World → Type 0
Rests w w' = IsAsleep w' × (shown w'.log ≡ shown w.log)

-- A world whose display's two variables are given.
abbrev with_display : Bool → Option ℕ → World → World
with_display b o w = record w { display = record (w.display) { suspended = b; display = o } }

asleep-later :
    (k : Kinds) (b : Bool) (w : World)
    → Returns
        ((if b then pure tt else write_last_frame k) (with_display true none w))
        λ _ w'. Rests w w'
unfolding write_last_frame
asleep-later k true w = ((refl, refl), refl)
asleep-later k false w = ((refl, refl), refl)

-- The clock is read.
asleep-read :
    (k : Kinds) (retry : ℕ) (answers : List Answer) (w : World)
    → Returns
        ((monotonic_ms >>= λ now. if ltb now retry then pure tt else write_last_frame k)
          (with_display true none (record w { answers = answers })))
        λ _ w'. Rests w w'
unfolding monotonic_ms call
asleep-read k retry [] w = tt
asleep-read k retry (failed errno ∷ rest) w =
    asleep-later k (ltb 0 retry) (record w { answers = rest })
asleep-read k retry (number n ∷ rest) w = asleep-later k (ltb n retry) (record w { answers = rest })
asleep-read k retry (buffer bytes ∷ rest) w =
    asleep-later k (ltb 0 retry) (record w { answers = rest })

asleep-poll :
    (k : Kinds) (b : Bool) (w : World)
    → Returns
        ((if b
            then pure tt
            else (monotonic_ms >>= λ now.
                if ltb now w.display.retry_after_ms then pure tt else write_last_frame k))
          (with_display true none w))
        λ _ w'. Rests w w'
asleep-poll k true w = ((refl, refl), refl)
asleep-poll k false w = asleep-read k w.display.retry_after_ms w.answers w

asleep-perform :
    (k : Kinds) (c : Call) (b : Bool) (o : Option ℕ) (w : World)
    → b ≡ true
    → o ≡ none
    → Returns (perform k c (with_display b o w)) λ _ w'. Rests w w'
unfolding perform worker_display_write_frame write_last_frame worker_display_shutdown
    worker_display_suspend emulator_poll
asleep-perform k c false o w h g = absurd (cc)
asleep-perform k c true (some handle) w h g = absurd (cc)
asleep-perform k (write_frame f) true none w h g = ((refl, refl), refl)
asleep-perform k poll true none w h g = asleep-poll k (w.display.retry_after_ms == 0) w
asleep-perform k suspend true none w h g = ((refl, refl), refl)
asleep-perform k shutdown true none w h g = ((refl, refl), refl)

pub asleep-perform_all :
    (k : Kinds) (calls : List Call) (w : World)
    → IsAsleep w
    → Returns (perform_all k calls w) λ _ w'. Rests w w'
unfolding perform_all
asleep-perform_all k [] w h = (h, refl)
asleep-perform_all k (c ∷ cs) w (h, g) =
    Returns->>= (perform k c) (λ _. perform_all k cs) (λ _ v. Rests w v) (λ _ v. Rests w v) w
      (asleep-perform k c w.display.suspended w.display.display w h g)
      λ _ v (a, p).
        Returns_imp (λ _ x. Rests v x) (λ _ x. Rests w x) (perform_all k cs v)
          (λ _ x (b, q). (b, q ∙ p)) (asleep-perform_all k cs v a)

suspend-turn_off :
    (b : Bool) (o : Option ℕ) (answers : List Answer) (w : World)
    → (b ≡ true → o ≡ none)
    → Returns
        (worker_display_suspend (with_display b o (record w { answers = answers })))
        λ _ w'. Rests w w'
unfolding worker_display_suspend release_display call shown
suspend-turn_off true o answers w h = ((refl, h refl), refl)
suspend-turn_off false none answers w h = ((refl, refl), refl)
suspend-turn_off false (some handle) [] w h = tt
suspend-turn_off false (some handle) (a ∷ rest) w h = ((refl, refl), refl)

-- After worker_display_suspend, where a display that was suspended before had been released, no
-- sequence of frames, polls, suspends and shutdowns makes or wakes a display or writes a frame: the
-- display stays suspended and released, and as many frames and displays are on record as before.
pub suspend-perform_all :
    (k : Kinds) (calls : List Call) (w : World)
    → (w.display.suspended ≡ true → w.display.display ≡ none)
    → Returns
        ((worker_display_suspend >> perform_all k calls) w)
        λ _ w'. IsAsleep w' × (shown w'.log ≡ shown w.log)
suspend-perform_all k calls w h =
    Returns->>= worker_display_suspend (λ _. perform_all k calls) (λ _ v. Rests w v)
      (λ _ v. Rests w v) w (suspend-turn_off w.display.suspended w.display.display w.answers w h)
      λ _ v (a, p).
        Returns_imp (λ _ x. Rests v x) (λ _ x. Rests w x) (perform_all k calls v)
          (λ _ x (b, q). (b, q ∙ p)) (asleep-perform_all k calls v a)
