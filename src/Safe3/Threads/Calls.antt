-- ===== src/Safe3/Threads/Calls.antt =====
-- The system calls of out_thread_main and in_thread_main of platform/safe3/usb_supervisor.c: how each
-- ends, and whether the thread goes on.
use virtual_trezor.Prelude.{
  ℕ, Bool, true, false, Option, none, some, List, [], ◌∷◌, ◌==◌, if◌then◌else◌,
}
use virtual_trezor.Exec.{◌>>=◌, pure, die, done, died, blocked}
use virtual_trezor.Safe3.State.{
  Worker, Answer, failed, number, buffer, interrupted, would_block, generation_over, other_errno,
  call_or_die, read_out_endpoint, write_in_endpoint, short_in_write, notify_packet,
}

-- read, repeated while it is interrupted; `none` where the generation ended, which ends the thread.
unfoldable pub read_packet : List Answer → Worker (Option (List ℕ))
read_packet [] w = blocked (record w { answers = [] })
read_packet (failed interrupted ∷ rest) w = read_packet rest w
read_packet (failed generation_over ∷ rest) w = done none (record w { answers = rest })
read_packet (failed would_block ∷ rest) w = died read_out_endpoint (record w { answers = rest })
read_packet (failed other_errno ∷ rest) w = died read_out_endpoint (record w { answers = rest })
read_packet (number n ∷ rest) w = died read_out_endpoint (record w { answers = rest })
read_packet (buffer bytes ∷ rest) w = done (some bytes) (record w { answers = rest })

-- write of a packet of a length, repeated while it is interrupted; false where the generation ended.
unfoldable pub write_packet : ℕ → List Answer → Worker Bool
write_packet length [] w = blocked (record w { answers = [] })
write_packet length (failed interrupted ∷ rest) w = write_packet length rest w
write_packet length (failed generation_over ∷ rest) w = done false (record w { answers = rest })
write_packet length (failed would_block ∷ rest) w =
    died write_in_endpoint (record w { answers = rest })
write_packet length (failed other_errno ∷ rest) w =
    died write_in_endpoint (record w { answers = rest })
write_packet length (buffer bytes ∷ rest) w = died write_in_endpoint (record w { answers = rest })
write_packet length (number n ∷ rest) w =
    if n == length
    then done true (record w { answers = rest })
    else died short_in_write (record w { answers = rest })

-- The write of the notification.
unfoldable pub notify : Worker (Unit {0})
notify = call_or_die notify_packet >>= λ n. if n == 8 then pure tt else die notify_packet
