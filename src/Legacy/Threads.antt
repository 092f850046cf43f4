-- ===== src/Legacy/Threads.antt =====
-- endpoint_thread_main of platform/raspberry-pi/usb_functionfs.c: the thread of an OUT endpoint, which
-- hands what the host sent over to the firmware. A lock and an unlock of the endpoint's mutex, which
-- fail only for a mutex that is not initialised, are left out.
pub mod Rounds
pub mod Slot
use virtual_trezor.Prelude.{
  ℕ, Bool, true, false, Option, none, some, List, [], ◌∷◌, length, ltb, ◌==◌, if◌then◌else◌,
}
use virtual_trezor.Exec.{◌>>=◌, ◌>>◌, pure, die, done, died, blocked}
use virtual_trezor.Protocol.{
  Answer, failed, number, buffer, interrupted, would_block, generation_over, other_errno,
}
use virtual_trezor.Legacy.State.{
  World, Worker, VirtualEndpoint, modify_usb, get_usb, read_out_endpoint, oversized_out_transfer,
  unconsumed_transfer, notify_firmware,
}
use virtual_trezor.Legacy.Endpoints.{endpoint_for, put_endpoint}

-- The read from FunctionFS with its loop over EINTR; `none` where functionfs_generation_ended ().
unfoldable pub read_host : List Answer → Worker (Option (List ℕ))
read_host [] w = blocked (record w { answers = [] })
read_host (failed interrupted ∷ rest) w = read_host rest w
read_host (failed generation_over ∷ rest) w = done none (record w { answers = rest })
read_host (failed would_block ∷ rest) w = died read_out_endpoint (record w { answers = rest })
read_host (failed other_errno ∷ rest) w = died read_out_endpoint (record w { answers = rest })
read_host (number n ∷ rest) w = died read_out_endpoint (record w { answers = rest })
read_host (buffer bytes ∷ rest) w = done (some bytes) (record w { answers = rest })

-- The write to the eventfd, with its loop over EINTR.
unfoldable pub notify_from : List Answer → Worker (Unit {0})
notify_from [] w = blocked (record w { answers = [] })
notify_from (failed interrupted ∷ rest) w = notify_from rest w
notify_from (failed generation_over ∷ rest) w = died notify_firmware (record w { answers = rest })
notify_from (failed would_block ∷ rest) w = died notify_firmware (record w { answers = rest })
notify_from (failed other_errno ∷ rest) w = died notify_firmware (record w { answers = rest })
notify_from (buffer bytes ∷ rest) w = died notify_firmware (record w { answers = rest })
notify_from (number n ∷ rest) w =
    if n == 8
    then done tt (record w { answers = rest })
    else died notify_firmware (record w { answers = rest })

abbrev pub occupy : List ℕ → VirtualEndpoint → VirtualEndpoint
occupy bytes e = record e {
  transfer_data = some bytes;
  read_data = some bytes;
  transfer_length = length bytes;
  transfer_occupied = true;
}

abbrev pub store_endpoint : ℕ → VirtualEndpoint → Worker (Unit {0})
store_endpoint address e =
    modify_usb λ u. record u { endpoints = put_endpoint address e u.endpoints }

-- What one round does with the packet, from the test of its length on.
unfoldable pub hand_over : ℕ → List ℕ → VirtualEndpoint → Worker (Unit {0})
unfolding notify_from
hand_over address bytes e =
    if ltb e.max_packet_size (length bytes)
    then die oversized_out_transfer
    else if e.transfer_occupied
    then die unconsumed_transfer
    else (store_endpoint address (occupy bytes e) >> λ w. notify_from w.answers w)

abbrev pub continue_with : ℕ → Option VirtualEndpoint → Option (List ℕ) → Worker Bool
continue_with address none packet = pure false
continue_with address (some e) none = pure false
continue_with address (some e) (some bytes) = hand_over address bytes e >> pure true

-- One round of the loop of the thread for an address; whether it goes on.
unfoldable pub endpoint_thread_round : ℕ → Worker Bool
unfolding read_host endpoint_for
endpoint_thread_round address = (λ w. read_host w.answers w) >>= λ packet.
    get_usb >>= λ u. continue_with address (endpoint_for u.endpoints address) packet
