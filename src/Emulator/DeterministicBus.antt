-- ===== src/Emulator/DeterministicBus.antt =====
-- `emulator::DeterministicIoBus`: queues of input, logs of output, and ready flags that a write
-- clears and the next tick sets. A queue's front is the list's head; a log's newest byte is last.
pub mod Queues
use ex3_rust.Prelude.{
  ℕ, Bool, true, false, not, Option, none, some, List, [], ◌∷◌, ◌++◌, ◌≡◌, refl, IsU8, arith,
}
use ex3_rust.Emulator.Bus.{IoBus, IoKind, serial, parallel, IoTickContext, IsByteBus}

pub record DeterministicIoBus : Type 0 where
  pub serial_input : List ℕ
  pub parallel_input : List ℕ
  pub serial_output : List ℕ
  pub parallel_output : List ℕ
  pub serial_output_ready : Bool
  pub parallel_output_ready : Bool
  pub force_interrupt : Bool

abbrev pub default_bus : DeterministicIoBus
default_bus = record {
  serial_input = [];
  parallel_input = [];
  serial_output = [];
  parallel_output = [];
  serial_output_ready = true;
  parallel_output_ready = true;
  force_interrupt = false;
}

unfoldable pub push_input : IoKind → ℕ → DeterministicIoBus → DeterministicIoBus
push_input serial v b = record b { serial_input = b.serial_input ++ v ∷ [] }
push_input parallel v b = record b { parallel_input = b.parallel_input ++ v ∷ [] }

unfoldable pub output : IoKind → DeterministicIoBus → List ℕ
output serial b = b.serial_output
output parallel b = b.parallel_output

unfoldable pub request_interrupt : DeterministicIoBus → DeterministicIoBus
request_interrupt b = record b { force_interrupt = true }

unfoldable pub clear_interrupt : DeterministicIoBus → DeterministicIoBus
clear_interrupt b = record b { force_interrupt = false }

unfoldable pub tick : IoTickContext → DeterministicIoBus → DeterministicIoBus
tick c b = record b { serial_output_ready = true; parallel_output_ready = true }

abbrev pub pop_front : List ℕ → Option ℕ × List ℕ
pop_front [] = (none, [])
pop_front (v ∷ q) = (some v, q)

unfoldable pub read_input : IoKind → DeterministicIoBus → Option ℕ × DeterministicIoBus
read_input serial b = let (v, q) = pop_front b.serial_input in (v, record b { serial_input = q })
read_input parallel b =
    let (v, q) = pop_front b.parallel_input in (v, record b { parallel_input = q })

unfoldable pub write_output : IoKind → ℕ → DeterministicIoBus → DeterministicIoBus
write_output serial v b = record b {
  serial_output = b.serial_output ++ v ∷ [];
  serial_output_ready = false;
}
write_output parallel v b = record b {
  parallel_output = b.parallel_output ++ v ∷ [];
  parallel_output_ready = false;
}

abbrev pub is_empty : List ℕ → Bool
is_empty [] = true
is_empty (v ∷ q) = false

unfoldable pub input_ready : IoKind → DeterministicIoBus → Bool
input_ready serial b = not (is_empty b.serial_input)
input_ready parallel b = not (is_empty b.parallel_input)

unfoldable pub output_ready : IoKind → DeterministicIoBus → Bool
output_ready serial b = b.serial_output_ready
output_ready parallel b = b.parallel_output_ready

-- `impl IoBus for DeterministicIoBus`.
abbrev pub deterministic_io_bus : IoBus DeterministicIoBus
deterministic_io_bus = record {
  tick = tick;
  interrupt_pending = λ b. b.force_interrupt;
  read_input = read_input;
  write_output = write_output;
  input_ready = input_ready;
  output_ready = output_ready;
}
