-- ===== src/Examples/Lines.antt =====
-- Instances of the theorems about the threads of the Safe 3 driver.
use virtual_trezor.Prelude.{refl, true, false, none, some, [], ◌∷◌, arith}
use virtual_trezor.Safe3.Interfaces.{produce, consume}
use virtual_trezor.Safe3.Threads.{
  OutLine, reads, publishes, consumes, publish, InLine, produces, takes, payload,
}
use virtual_trezor.Safe3.Threads.Delivery.{
  IsFifo, OutSteps, rest_out, then_out, OutSteps-IsFifo, IsOrderly, InSteps, rest_in, then_in,
  InSteps-IsOrderly,
}
use virtual_trezor.Examples.Setup.{out_endpoint, in_endpoint}

-- A packet arrives, is published and is read.
abbrev quiet_line : OutLine
quiet_line = record {
  endpoint = record out_endpoint { occupied = false; packet_length = 0 };
  held = none;
  arrived = [];
  asked = [];
  delivered = [];
}

abbrev held_line : OutLine
held_line = record quiet_line { held = some (4 ∷ 5 ∷ []); arrived = (4 ∷ 5 ∷ []) ∷ [] }

abbrev full_line : OutLine
full_line = record held_line {
  endpoint = record out_endpoint { packet = some (4 ∷ 5 ∷ []); packet_length = 2 };
  held = none;
}

quiet_line-IsFifo : IsFifo quiet_line
quiet_line-IsFifo = record {
  fits = omega arith;
  held_fits = λ bytes p. absurd (cc);
  consumed = [];
  lengths = refl;
  results = refl;
  order = refl;
}

-- The first byte of it is read, and then the next packet arrives.
abbrev cut_line : OutLine
cut_line = record full_line {
  endpoint = record out_endpoint {
    packet = some (4 ∷ 5 ∷ []);
    packet_length = 0;
    occupied = false;
  };
  asked = 1 ∷ [];
  delivered = (4 ∷ []) ∷ [];
}

abbrev next_line : OutLine
next_line = record cut_line { held = some (6 ∷ []); arrived = (4 ∷ 5 ∷ []) ∷ (6 ∷ []) ∷ [] }

quiet-next : OutSteps quiet_line next_line
unfolding publish consume
quiet-next = then_out quiet_line held_line next_line (reads (4 ∷ 5 ∷ []) (omega arith) refl refl) (
    then_out held_line full_line next_line (publishes (4 ∷ 5 ∷ []) refl refl refl) (
      then_out full_line cut_line next_line (consumes 1 1 (4 ∷ []) cut_line.endpoint refl refl) (
        then_out cut_line next_line next_line (reads (6 ∷ []) (omega arith) refl refl)
          (rest_out next_line))))

OutSteps-IsFifo_example : IsFifo next_line
OutSteps-IsFifo_example = OutSteps-IsFifo quiet_line next_line quiet_line-IsFifo quiet-next

-- A packet is accepted, and the thread takes it.
abbrev empty_line : InLine
empty_line = record {
  endpoint = in_endpoint;
  writing = none;
  finished = false;
  accepted = [];
  written = [];
}

abbrev filled_line : InLine
filled_line = record empty_line {
  endpoint = record in_endpoint { packet = some (1 ∷ 2 ∷ []); packet_length = 2; occupied = true };
  accepted = (1 ∷ 2 ∷ []) ∷ [];
}

abbrev taken_line : InLine
taken_line = record filled_line { writing = some (1 ∷ 2 ∷ []) }

empty_line-IsOrderly : IsOrderly empty_line
empty_line-IsOrderly = record {
  fits = omega arith;
  current = λ bytes p. absurd (cc);
  taken = λ over. absurd (cc);
  order = refl;
}

empty-taken : InSteps empty_line taken_line
unfolding produce payload
empty-taken =
    then_in empty_line filled_line taken_line
      (produces (1 ∷ 2 ∷ []) filled_line.endpoint (omega arith) refl refl)
      (then_in filled_line taken_line taken_line (takes refl refl refl refl) (rest_in taken_line))

InSteps-IsOrderly_example : IsOrderly taken_line
InSteps-IsOrderly_example = InSteps-IsOrderly empty_line taken_line empty_line-IsOrderly empty-taken
