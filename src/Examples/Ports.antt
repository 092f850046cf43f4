-- ===== src/Examples/Ports.antt =====
-- Instances of the theorems about the packets, the threads and the control transfers of the Trezor One's
-- worker.
use virtual_trezor.Prelude.{ℕ, ◌≡◌, refl, true, not, none, some, List, [], ◌∷◌, ◌==◌, arith}
use virtual_trezor.Exec.{Returns, done}
use virtual_trezor.Legacy.State as State
use virtual_trezor.Legacy.State.{World, Firmware}
use virtual_trezor.Legacy.Endpoints.{endpoint_for}
use virtual_trezor.Legacy.Transfer.{data_match, run_control_transfer}
use virtual_trezor.Legacy.Transfer.Stalled.{guarded, run_control_transfer-guarded}
use virtual_trezor.Legacy.Packets.Control.{
  write_packets, read_packets, all_bytes, Collects, Reads, write_packets-Collects,
  read_packets-Reads,
}
use virtual_trezor.Legacy.Threads.Rounds.{Holds}
use virtual_trezor.Legacy.Threads.Slot as Slot
use virtual_trezor.Legacy.Threads.Slot.{Agrees, perform_all-Agrees}
use virtual_trezor.Examples.Legacy.{open_endpoint, some_world, small_firmware}

write_packets-Collects_example :
    Returns
      (write_packets ((1 ∷ 2 ∷ []) ∷ (3 ∷ []) ∷ []) some_world)
      λ _ w'. Collects (all_bytes ((1 ∷ 2 ∷ []) ∷ (3 ∷ []) ∷ [])) w'
write_packets-Collects_example =
    write_packets-Collects ((1 ∷ 2 ∷ []) ∷ (3 ∷ []) ∷ []) some_world refl refl refl

read_packets-Reads_example :
    Returns
      (read_packets (2 ∷ 2 ∷ []) some_world)
      λ packets w'. Reads (2 ∷ 2 ∷ []) some_world packets w'
read_packets-Reads_example = read_packets-Reads (2 ∷ 2 ∷ []) some_world refl (omega arith)

-- A packet comes and is read, and then a second.
abbrev some_steps : List Slot.Step
some_steps = Slot.deliver (1 ∷ 2 ∷ []) ∷ Slot.read 64 ∷ Slot.deliver (3 ∷ []) ∷ Slot.read 64 ∷ []

abbrev delivered_world : World
delivered_world = record some_world { answers = Slot.answers_for some_steps [] }

delivered_world-Holds : Holds 1 64 none delivered_world
unfolding endpoint_for
delivered_world-Holds = (open_endpoint, refl, refl, refl, refl, refl)

perform_all-Agrees_example :
    Agrees 1 64 []
      (Slot.perform_all 1 some_steps delivered_world)
      (Slot.slot_run 64 some_steps none)
perform_all-Agrees_example =
    perform_all-Agrees 1 64 some_steps none [] delivered_world (omega arith) (omega arith) refl
      delivered_world-Holds

-- The specification's run: both packets are read and the slot is empty again.
slot_run-some_steps : Slot.slot_run 64 some_steps none ≡ some (none, (1 ∷ 2 ∷ []) ∷ (3 ∷ []) ∷ [])
unfolding Slot.slot_run Slot.slot_step
slot_run-some_steps = refl

-- A libopencm3 that takes the first packet of a transfer from the host and stalls at the second.
abbrev stalling_firmware : Firmware
stalling_firmware = record small_firmware {
  control_setup =
      λ w. done tt (record w { device = record (w.device) { control_state = State.data_out } });
  control_out = λ w. done tt (record w {
    usb = record (w.usb) {
      control_stalled = not (w.usb.control_out_offset == 0);
      control_out_offset = 1;
    };
  });
}

abbrev set_descriptor : List ℕ
set_descriptor = 0x00 ∷ 7 ∷ 0 ∷ 1 ∷ 0 ∷ 0 ∷ 2 ∷ 0 ∷ []

-- The transfer ends, stalled, after the second packet.
run_control_transfer_stalls :
    Returns
      (run_control_transfer stalling_firmware set_descriptor (1 ∷ 2 ∷ []) some_world)
      λ r v. (r ≡ (true, [])) × (v.usb.control_out_offset ≡ 1)
unfolding run_control_transfer data_match
run_control_transfer_stalls = (refl, refl)

run_control_transfer-guarded_example :
    run_control_transfer (guarded State.null_callback stalling_firmware) set_descriptor (1 ∷ 2 ∷ [])
    ≡ run_control_transfer stalling_firmware set_descriptor (1 ∷ 2 ∷ [])
run_control_transfer-guarded_example =
    run_control_transfer-guarded State.null_callback stalling_firmware set_descriptor (1 ∷ 2 ∷ [])
      refl
