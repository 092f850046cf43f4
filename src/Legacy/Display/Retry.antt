-- ===== src/Legacy/Display/Retry.antt =====
-- How platform/raspberry-pi/display_linux.c comes back from a failure of the display.
use virtual_trezor.Prelude.{
  ℕ, ◌+◌, ◌-◌, ◌%◌, ◌^◌, ◌≤◌, ◌<◌, ◌≡◌, refl, ◌∙◌, ap, Bool, true, false, Option, none, some, List,
  ◌∷◌, arith,
}
use virtual_trezor.Prelude.Int.{ℤ, pos}
use virtual_trezor.Exec.{>>=-done, done, ◌>>=◌, ◌>>◌, pure}
use virtual_trezor.Protocol.{Answer, Errno, failed, number}
use virtual_trezor.Legacy.State.{
  World, Worker, Event, Kinds, Display, Frame, wrote_frame, created_display, destroyed_display,
  call, monotonic_ms,
}
use virtual_trezor.Legacy.Display.{
  FrameInfo, write_frame_now, release_display, report_error, initialize_display, write_frame_now,
  write_last_frame, worker_display_write_frame, emulator_poll, display_backend_kind,
  worker_display_retry_timeout_ms,
}

-- A frame is written, the main loop asks how long it may sleep, and it polls.
unfoldable pub write_and_poll : Kinds → FrameInfo → Worker ℤ
unfolding worker_display_write_frame worker_display_retry_timeout_ms emulator_poll
write_and_poll k f = do
  worker_display_write_frame k f
  timeout ← worker_display_retry_timeout_ms
  emulator_poll k
  pure timeout

-- The display's variables with the frame that is to be shown.
abbrev pub holding : FrameInfo → Display → Display
holding f d = record d {
  last_pixel_format = f.pixel_format;
  last_width = f.width;
  last_height = f.height;
  last_stride = f.stride;
  last_framebuffer = f.framebuffer;
  last_length = f.length;
}

abbrev pub creating : Kinds → World → Event
creating k w =
    created_display (display_backend_kind k w.config.display_backend) w.usb.display_resource_fd
      w.usb.display_control_fd

-- How a frame can fail: there is no display and none can be made; one is made and the frame cannot be
-- written; there is a display and the frame cannot be written. `start` is the time at which
-- initialize_display looks whether it may try.
pub data Failure : Type 0 where
  not_made : (start : ℕ) → Errno → Failure
  not_written : (start panel : ℕ) → Errno → Failure
  lost : (panel : ℕ) → Errno → Failure

-- The display before the failure.
abbrev pub panel_before : Failure → Option ℕ
panel_before (not_made start e) = none
panel_before (not_written start panel e) = none
panel_before (lost panel e) = some panel

-- A retry that an earlier failure left is due.
abbrev pub IsDue : Failure → ℕ → Type 0
IsDue (not_made start e) retry = retry ≤ start
IsDue (not_written start panel e) retry = retry ≤ start
IsDue (lost panel e) retry = Unit

-- What the calls up to the failure answer.
abbrev pub failing : Failure → List Answer → List Answer
failing (not_made start e) rest = number start ∷ failed e ∷ rest
failing (not_written start panel e) rest = number start ∷ number panel ∷ failed e ∷ rest
failing (lost panel e) rest = failed e ∷ rest

abbrev pub frame_shown : World → FrameInfo → (panel p : ℕ) → Frame
frame_shown w f panel p = record {
  handle = panel;
  pixel_format = f.pixel_format;
  width = f.width;
  height = f.height;
  stride = f.stride;
  framebuffer = w.memory p;
  length = f.length;
}

-- What the attempt does to the outside: a display that fails to take the frame is destroyed.
abbrev pub attempted : Kinds → FrameInfo → (p : ℕ) → World → Failure → List Event
attempted k f p w (not_made start e) = creating k w ∷ w.log
attempted k f p w (not_written start panel e) =
    destroyed_display panel ∷ wrote_frame (frame_shown w f panel p) ∷ creating k w ∷ w.log
attempted k f p w (lost panel e) =
    destroyed_display panel ∷ wrote_frame (frame_shown w f panel p) ∷ w.log

-- The display's variables after a failure, with the time of the retry.
abbrev waiting : ℕ → Display → Display
waiting retry d = record d {
  suspended = false;
  display = none;
  error_reported = true;
  retry_after_ms = retry;
}

abbrev waiting_world : FrameInfo → ℕ → List Event → World → World
waiting_world f retry log w = record w { display = waiting retry (holding f w.display); log = log }

-- A world whose variables on the way are given.
abbrev with_display : Bool → Option ℕ → ℕ → List Answer → World → World
with_display b o retry answers w = record w {
  display = record (w.display) { suspended = b; display = o; retry_after_ms = retry };
  answers = answers;
}

abbrev with_buffer : Option ℕ → FrameInfo → FrameInfo
with_buffer o f = record f { framebuffer = o }

write-failing_at :
    (k : Kinds) (f : FrameInfo) (fl : Failure) (b : Bool) (r p failed_at : ℕ) (rest : List Answer)
    (w : World)
    → b ≡ false
    → IsDue fl r
    → worker_display_write_frame k
        (with_buffer (some p) f)
        (with_display b (panel_before fl) r (failing fl (number failed_at ∷ rest)) w)
      ≡ done tt (
          waiting_world
            (with_buffer (some p) f)
            ((failed_at + 1000) % 2 ^ 64)
            (attempted k (with_buffer (some p) f) p w fl)
            (record w { answers = rest }))
unfolding worker_display_write_frame write_last_frame initialize_display monotonic_ms call
    report_error release_display write_frame_now
write-failing_at k f fl true r p failed_at rest w awake due = absurd (cc)
write-failing_at k f (not_made start e) false r p failed_at rest w awake due = ground arith
write-failing_at k f (not_written start panel e) false r p failed_at rest w awake due = ground arith
write-failing_at k f (lost panel e) false r p failed_at rest w awake due = refl

timeout-waiting :
    (f : FrameInfo) (retry now : ℕ) (rest : List Answer) (log : List Event) (w : World)
    → now < retry
    → retry ≤ now + 1000
    → worker_display_retry_timeout_ms
        (waiting_world f retry log (record w { answers = number now ∷ rest }))
      ≡ done (pos (retry - now)) (waiting_world f retry log (record w { answers = rest }))
unfolding worker_display_retry_timeout_ms monotonic_ms call
timeout-waiting f retry now rest log w early near = ground arith

-- The display's variables once the frame is shown.
abbrev pub showing : ℕ → FrameInfo → Display → Display
showing panel f d = record (holding f d) {
  suspended = false;
  display = some panel;
  error_reported = false;
  retry_after_ms = 0;
}

-- The frame is on a new display.
abbrev retried : Kinds → FrameInfo → (panel p : ℕ) → List Event → World → World
retried k f panel p log w = record w {
  display = showing panel f w.display;
  log = wrote_frame (frame_shown w f panel p) ∷ creating k w ∷ log;
}

poll-waiting :
    (k : Kinds) (f : FrameInfo) (retry p later again panel n : ℕ) (rest : List Answer)
    (log : List Event) (w : World)
    → 0 < retry
    → retry ≤ later
    → retry ≤ again
    → emulator_poll k (
        waiting_world
          (with_buffer (some p) f)
          retry
          log
          (record w { answers = number later ∷ number again ∷ number panel ∷ number n ∷ rest }))
      ≡ done tt (retried k (with_buffer (some p) f) panel p log (record w { answers = rest }))
unfolding emulator_poll write_last_frame initialize_display monotonic_ms call write_frame_now
poll-waiting k f retry p later again panel n rest log w some_retry due still = ground arith

-- The answers of the calls: those up to the failure, the clock at `failed_at`, the clocks of the timeout
-- and of the poll, the display that is made, and the frame that is written.
abbrev pub recovering :
    Failure → (failed_at now later again panel n : ℕ) → List Answer → List Answer
recovering fl failed_at now later again panel n rest =
    failing fl
      (number failed_at ∷ number now ∷ number later ∷ number again ∷ number panel ∷ number n ∷ rest)

-- A frame is written to a display that is not suspended, and the attempt fails at `failed_at`: no
-- display can be made, or the one that is made or was there does not take the frame; it is destroyed
-- then. Before a second has passed, the timeout is what is left of it; and a poll after it, where the
-- display can be made and written again, shows that frame, as the buffer is by then, on the new
-- display, with no retry left. Where there was no display, a retry that was left from before must be
-- due at the attempt. The clock must not be within a second of 2 ^ 64 milliseconds.
pub write_and_poll-recovering :
    (k : Kinds) (f : FrameInfo) (fl : Failure) (p failed_at now later again panel n : ℕ)
    (rest : List Answer) (w : World)
    → w.display.suspended ≡ false
    → w.display.display ≡ panel_before fl
    → IsDue fl w.display.retry_after_ms
    → failed_at + 1000 < 2 ^ 64
    → failed_at ≤ now
    → now < failed_at + 1000
    → failed_at + 1000 ≤ later
    → later ≤ again
    → write_and_poll k
        (with_buffer (some p) f)
        (record w { answers = recovering fl failed_at now later again panel n rest })
      ≡ done (pos (failed_at + 1000 - now)) (record w {
        display = showing panel (with_buffer (some p) f) w.display;
        answers = rest;
        log =
            wrote_frame (frame_shown w f panel p)
            ∷ creating k w
            ∷ attempted k (with_buffer (some p) f) p w fl;
      })
unfolding write_and_poll
write_and_poll-recovering k f fl p failed_at now later again panel n rest w awake before due small
      from soon over still =
    let g = with_buffer (some p) f in
    let retry = failed_at + 1000 in
    let log = attempted k g p w fl in
    let more = number now ∷ number later ∷ number again ∷ number panel ∷ number n ∷ rest in
    let waits : World = waiting_world g retry log (record w { answers = more }) in
    let polls : World =
      waiting_world g retry log
        (record w { answers = number later ∷ number again ∷ number panel ∷ number n ∷ rest }) in
    >>=-done (worker_display_write_frame k g) _
      (record w { answers = recovering fl failed_at now later again panel n rest }) waits tt
      (ap
          (λ (o : Option ℕ). worker_display_write_frame k g (
            with_display w.display.suspended o w.display.retry_after_ms
              (failing fl (number failed_at ∷ more)) w))
          before
        ∙ (write-failing_at k f fl w.display.suspended w.display.retry_after_ms p failed_at more w
              awake due
            ∙ ap (λ (d : ℕ). done tt (waiting_world g d log (record w { answers = more })))
                (omega arith)))
    ∙ >>=-done worker_display_retry_timeout_ms _ waits polls (pos (retry - now))
        (timeout-waiting g retry now _ log w soon (omega arith))
    ∙ >>=-done (emulator_poll k) _ polls _ tt
        (poll-waiting k f retry p later again panel n rest log w (omega arith) over (omega arith))
