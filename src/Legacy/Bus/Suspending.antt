-- ===== src/Legacy/Bus/Suspending.antt =====
-- The suspend event of platform/raspberry-pi/usb_functionfs.c, which takes the clock and the display
-- with it.
use virtual_trezor.Prelude.{
  ℕ, ◌≡◌, refl, sym, ◌∙◌, ap, Bool, true, false, ◌&&◌, ◌||◌, Option, none, some, List, [], ◌∷◌,
  length, drop, ◌==◌, ◌!=◌, Bool-cases, inl, inr,
}
use virtual_trezor.Bytes.{byte}
use virtual_trezor.Exec.{Returns, Returns->>=, Respects, ◌>>◌}
use virtual_trezor.Timer.{TimerState, worker_timer_state_suspend}
use virtual_trezor.Protocol.{WorkerRecord, Answer, failed, number, buffer}
use virtual_trezor.Legacy.State.{World, Worker, Firmware, call, monotonic_ms}
use virtual_trezor.Legacy.Display.{worker_display_suspend, release_display}
use virtual_trezor.Legacy.Display.Asleep.{IsAsleep}
use virtual_trezor.Legacy.Bus.{
  worker_timer_suspend, callback_if, checkpoint, bus_suspend, bus_event, handle_usb_bus_event,
}

-- The clock and the display are as before.
abbrev pub SameRest : World → World → Type 0
SameRest w w' = (w'.timer ≡ w.timer) × (w'.display ≡ w.display)

-- The clock stands still, and the display, if it is suspended, has been released.
abbrev pub IsHalfAsleep : World → Type 0
IsHalfAsleep w =
    (w.timer.suspended ≡ true) × (w.display.suspended ≡ true → w.display.display ≡ none)

IsHalfAsleep-same : (w w' : World) → SameRest w w' → IsHalfAsleep w → IsHalfAsleep w'
IsHalfAsleep-same w w' (t, d) (s, h) = (
  ap (λ c. c.suspended) t ∙ s,
  λ k. ap (λ x. x.display) d ∙ h (ap (λ x. x.suspended) (sym d) ∙ k),
)

suspend-stands :
    (suspended : Bool) (at : ℕ) (s : TimerState)
    → (worker_timer_state_suspend (record s { suspended = suspended }) at).suspended ≡ true
unfolding worker_timer_state_suspend
suspend-stands true at s = refl
suspend-stands false at s = refl

timer_suspend-IsHalfAsleep :
    (answers : List Answer) (w : World)
    → (w.display.suspended ≡ true → w.display.display ≡ none)
    → Returns (worker_timer_suspend (record w { answers = answers })) λ _ v. IsHalfAsleep v
unfolding worker_timer_suspend monotonic_ms call
timer_suspend-IsHalfAsleep [] w h = tt
timer_suspend-IsHalfAsleep (number n ∷ rest) w h = (suspend-stands w.timer.suspended n w.timer, h)
timer_suspend-IsHalfAsleep (failed e ∷ rest) w h = (suspend-stands w.timer.suspended 0 w.timer, h)
timer_suspend-IsHalfAsleep (buffer x ∷ rest) w h = (suspend-stands w.timer.suspended 0 w.timer, h)

-- A callback of the firmware that leaves the clock and the display alone.
callback-SameRest :
    (run : ℕ → Worker (Unit {0})) (o : Option ℕ) (w : World)
    → ((address : ℕ) → Respects SameRest (run address))
    → Returns (callback_if run o w) λ _ v. SameRest w v
callback-SameRest run none w h = (refl, refl)
callback-SameRest run (some address) w h = h address w

checkpoint-SameRest :
    (flash : Bool) (answers : List Answer) (w : World)
    → Returns (checkpoint flash (record w { answers = answers })) λ _ v. SameRest w v
unfolding call
checkpoint-SameRest false answers w = (refl, refl)
checkpoint-SameRest true [] w = tt
checkpoint-SameRest true (failed e ∷ rest) w = (refl, refl)
checkpoint-SameRest true (number n ∷ rest) w = (refl, refl)
checkpoint-SameRest true (buffer x ∷ rest) w = (refl, refl)

-- Both are asleep.
abbrev pub IsSuspended : World → Type 0
IsSuspended w = (w.timer.suspended ≡ true) × IsAsleep w

display_suspend-IsSuspended :
    (suspended : Bool) (panel : Option ℕ) (answers : List Answer) (w : World)
    → w.timer.suspended ≡ true
    → (suspended ≡ true → panel ≡ none)
    → Returns
        (worker_display_suspend (record w {
          display = record (w.display) { suspended = suspended; display = panel };
          answers = answers;
        }))
        λ _ v. IsSuspended v
unfolding worker_display_suspend release_display call
display_suspend-IsSuspended true panel answers w t h = (t, (refl, h refl))
display_suspend-IsSuspended false none answers w t h = (t, (refl, refl))
display_suspend-IsSuspended false (some handle) [] w t h = tt
display_suspend-IsSuspended false (some handle) (a ∷ rest) w t h = (t, (refl, refl))

bus_suspend-IsSuspended :
    (f : Firmware) (w : World)
    → ((address : ℕ) → Respects SameRest (f.bus_callback address))
    → (w.display.suspended ≡ true → w.display.display ≡ none)
    → Returns (bus_suspend f w) λ _ v. IsSuspended v
unfolding bus_suspend
bus_suspend-IsSuspended f w same h =
    Returns->>= worker_timer_suspend
      (λ _ v.
        (callback_if f.bus_callback v.device.user_callback_suspend
            >> ((λ x. checkpoint x.flash x) >> worker_display_suspend))
          v)
      (λ _ v. IsHalfAsleep v) (λ _ v. IsSuspended v) w (timer_suspend-IsHalfAsleep w.answers w h)
      λ _ v half.
        Returns->>= (callback_if f.bus_callback v.device.user_callback_suspend)
          (λ _. (λ x. checkpoint x.flash x) >> worker_display_suspend) (λ _ x. SameRest v x)
          (λ _ x. IsSuspended x) v
          (callback-SameRest f.bus_callback v.device.user_callback_suspend v same)
          λ _ x r.
            Returns->>= (λ y. checkpoint y.flash y) (λ _. worker_display_suspend)
              (λ _ y. SameRest x y) (λ _ y. IsSuspended y) x
              (checkpoint-SameRest x.flash x.answers x)
              λ _ y q.
                let (t, d) = IsHalfAsleep-same x y q (IsHalfAsleep-same v x r half) in
                display_suspend-IsSuspended y.display.suspended y.display.display y.answers y t d

-- Whenever a suspend event is handled, the firmware's clock stands still and the display is suspended
-- and released, where the firmware's suspend callback leaves the clock and the display alone and a
-- display that was suspended before had been released.
pub handle_usb_bus_event-IsSuspended :
    (f : Firmware) (r : WorkerRecord) (w : World)
    → byte r.body 0 ≡ 5
    → ((address : ℕ) → Respects SameRest (f.bus_callback address))
    → (w.display.suspended ≡ true → w.display.display ≡ none)
    → Returns (handle_usb_bus_event f r w) λ _ v. (v.timer.suspended ≡ true) × IsAsleep v
unfolding handle_usb_bus_event bus_event
handle_usb_bus_event-IsSuspended f r w code same h =
    elim (Bool-cases (
      r.generation != w.usb.generation
      || r.request_id != 0
      || length r.body != f.bus_event_body_length
      || length r.fds != 0)) [
        | inl bad ↦ rw bad tt
        | inr good ↦
            elim (Bool-cases (
              (byte r.body 0 == 5 || byte r.body 0 == 6)
              && f.read_be64 (drop 1 r.body) != w.usb.endpoint_activation)) [
                | inl moved ↦ rw (good, moved) tt
                | inr current ↦ rw (good, current, code) (bus_suspend-IsSuspended f _ same h)
              ]
      ]
