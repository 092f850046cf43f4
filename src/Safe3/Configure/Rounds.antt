-- ===== src/Safe3/Configure/Rounds.antt =====
-- The loop of configure_until_endpoints of platform/safe3/usb_supervisor.c.
use virtual_trezor.Prelude.{ℕ, suc, ◌≡◌, refl, Bool, true, false}
use virtual_trezor.Safe3.Configure.{configure_loop}

-- After the quiesce every round is the last.
last_round :
    (f g : ℕ) (replacement : Bool) (request_id : ℕ)
    → configure_loop (suc f) replacement true request_id
      ≡ configure_loop (suc g) replacement true request_id
unfolding configure_loop
last_round f g true request_id = refl
last_round f g false request_id = refl

-- Two rounds of fuel are enough: with more, the loop does the same from every state.
pub configure_loop-rounds :
    (f : ℕ) (replacement quiesced : Bool) (request_id : ℕ)
    → configure_loop (suc (suc f)) replacement quiesced request_id
      ≡ configure_loop 2 replacement quiesced request_id
unfolding configure_loop
configure_loop-rounds f replacement true request_id = last_round (suc f) 1 replacement request_id
configure_loop-rounds f false false request_id = refl
configure_loop-rounds f true false request_id = rw (last_round f 0 true request_id) refl
