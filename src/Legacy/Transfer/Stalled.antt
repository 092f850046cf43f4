-- ===== src/Legacy/Transfer/Stalled.antt =====
-- A stall during run_control_transfer of platform/raspberry-pi/usb_functionfs.c.
use virtual_trezor.Prelude.{
  ℕ, zero, suc, ◌≡◌, refl, ap, Bool, true, false, not, ◌&&◌, List, ◌!=◌, if◌then◌else◌,
}
use mathlib.Core.Path.{fun_ext}
use virtual_trezor.Bytes.{le16}
use virtual_trezor.Exec.{died, >>=-at, ◌>>=◌, ◌>>◌, pure}
use virtual_trezor.Legacy.State.{World, Worker, Fault, Firmware, get_usb, get_device}
use virtual_trezor.Legacy.Transfer.{
  repeat_while, wants_data_out, is_data_out, setup_is_in, is_status_in, run_control_transfer,
  run_stages, finish_in,
}

-- A callback of libopencm3 that must not be called once the transfer is stalled.
abbrev pub unless_stalled : Fault → Worker (Unit {0}) → Worker (Unit {0})
unless_stalled e m w = if w.usb.control_stalled then died e w else m w

abbrev pub guarded : Fault → Firmware → Firmware
guarded e f = record f {
  control_out = unless_stalled e f.control_out;
  control_in = unless_stalled e f.control_in;
}

-- What runs only before a stall may be exchanged for what is the same there.
before_stall :
    (stalled test : Bool) (m n : Worker (Unit {0})) (w : World)
    → (stalled ≡ false → m w ≡ n w)
    → (if not stalled && test then m else pure tt) w
      ≡ (if not stalled && test then n else pure tt) w
before_stall true test m n w same = refl
before_stall false true m n w same = same refl
before_stall false false m n w same = refl

unless_stalled_lem :
    (e : Fault) (m : Worker (Unit {0})) (w : World)
    → w.usb.control_stalled ≡ false
    → unless_stalled e m w ≡ m w
unless_stalled_lem e m w on = by_test w.usb.control_stalled on
  where
    by_test : (b : Bool) → b ≡ false → (if b then died e w else m w) ≡ m w
    by_test true h = absurd (cc)
    by_test false h = refl

-- The loop calls its step only before a stall.
repeat_while-guarded :
    (e : Fault) (step : Worker (Unit {0})) (n : ℕ)
    → repeat_while wants_data_out (unless_stalled e step) n ≡ repeat_while wants_data_out step n
unfolding repeat_while
repeat_while-guarded e step zero = refl
repeat_while-guarded e step (suc n) =
    let again = repeat_while wants_data_out step n in
    fun_ext λ w. rw (repeat_while-guarded e step n) (
      before_stall w.usb.control_stalled (is_data_out w.device.control_state)
        (unless_stalled e step >> again) (step >> again) w
        (λ on. >>=-at (unless_stalled e step) step (λ _. again) w (unless_stalled_lem e step w on)))

-- The last stage of a transfer from the host.
last_stage : List ℕ → Worker (Unit {0}) → Worker (Unit {0}) → Worker (Unit {0})
last_stage setup finish m = do
  u ← get_usb
  d ← get_device
  if not u.control_stalled && setup_is_in setup
      then finish
      else if not u.control_stalled && is_status_in d.control_state
      then m
      else pure tt

last_stage-guarded :
    (e : Fault) (setup : List ℕ) (finish other m : Worker (Unit {0}))
    → setup_is_in setup ≡ false
    → last_stage setup finish (unless_stalled e m) ≡ last_stage setup other m
unfolding last_stage
last_stage-guarded e setup finish other m out = fun_ext λ w.
    by_tests w.usb.control_stalled (setup_is_in setup) (is_status_in w.device.control_state) w out
      λ on. unless_stalled_lem e m w on
  where
    by_tests :
        (stalled is_in test : Bool) (w : World)
        → is_in ≡ false
        → (stalled ≡ false → unless_stalled e m w ≡ m w)
        → (if not stalled && is_in
              then finish
              else if not stalled && test
              then unless_stalled e m
              else pure tt)
            w
          ≡ (if not stalled && is_in then other else if not stalled && test then m else pure tt) w
    by_tests stalled true test w h same = absurd (cc)
    by_tests true false test w h same = refl
    by_tests false false true w h same = same refl
    by_tests false false false w h same = refl

run_stages-guarded :
    (e : Fault) (f : Firmware) (setup : List ℕ)
    → setup_is_in setup ≡ false
    → run_stages (guarded e f) setup ≡ run_stages f setup
unfolding run_stages last_stage
run_stages-guarded e f setup host = rw (repeat_while-guarded e f.control_out f.rounds) (
    ap
      (λ (last : Worker (Unit {0})).
        f.control_setup
        >> (get_usb >>= λ u.
            (if not u.control_stalled && not (setup_is_in setup) && le16 setup 6 != 0
              then repeat_while wants_data_out f.control_out f.rounds
              else pure tt)
            >> last))
      (last_stage-guarded e setup (finish_in (guarded e f)) (finish_in f) f.control_in host))

-- In a transfer from the host, none of libopencm3's callbacks for the data and the status stage is
-- called once the transfer is stalled, whether the setup callback or one of the data callbacks stalled
-- it, in whatever stage the state machine is then: callbacks that end the worker when they are called
-- in a stalled transfer do the same as those without that test.
pub run_control_transfer-guarded :
    (e : Fault) (f : Firmware) (setup out : List ℕ)
    → setup_is_in setup ≡ false
    → run_control_transfer (guarded e f) setup out ≡ run_control_transfer f setup out
unfolding run_control_transfer
run_control_transfer-guarded e f setup out host = rw (run_stages-guarded e f setup host) refl
