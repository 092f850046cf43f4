-- ===== src/Legacy/Configure/Rounds.antt =====
-- The loop of configure_until_endpoints of platform/raspberry-pi/usb_functionfs.c.
use virtual_trezor.Prelude.{ℕ, suc, ◌≡◌, refl, Bool, true, false}
use virtual_trezor.Legacy.State.{Firmware}
use virtual_trezor.Legacy.Configure.{configure_loop}

-- After the quiesce every round is the last.
settled_round :
    (n m : ℕ) (f : Firmware) (replacement : Bool) (request_id : ℕ)
    → configure_loop (suc n) f replacement true request_id
      ≡ configure_loop (suc m) f replacement true request_id
unfolding configure_loop
settled_round n m f true request_id = refl
settled_round n m f false request_id = refl

-- Two rounds of fuel are enough for the exchange about a configuration: with more, the loop does the
-- same from every state, whatever the firmware's callbacks do.
pub configure_loop-settled :
    (n : ℕ) (f : Firmware) (replacement quiesced : Bool) (request_id : ℕ)
    → configure_loop (suc (suc n)) f replacement quiesced request_id
      ≡ configure_loop 2 f replacement quiesced request_id
unfolding configure_loop
configure_loop-settled n f replacement true request_id =
    settled_round (suc n) 1 f replacement request_id
configure_loop-settled n f false false request_id = refl
configure_loop-settled n f true false request_id = rw (settled_round n 0 f true request_id) refl
