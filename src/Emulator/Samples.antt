-- ===== src/Emulator/Samples.antt =====
-- A machine with a short program, for the tests.
use ex3_rust.Prelude.{ℕ, List, [], ◌∷◌, arith}
use ex3_rust.Emulator.Bus.{NullIoBus}
use ex3_rust.Emulator.State.{CpuState, Machine, default_state, default_io_state}
use ex3_rust.Emulator.Memory.{ArrayMemory, from_cells}
use ex3_rust.Emulator.Invariant.{IsMachine, IsState, IsMemory}

-- LDA 5; CMP 7; BLT 0x14; a word that does not decode; HLT.
abbrev pub program : List (ℕ × ℕ)
program =
    (0x10, 0x2500_0005)
    ∷ (0x11, 0x2700_0007)
    ∷ (0x12, 0x6400_0014)
    ∷ (0x13, 0xffff_ffff)
    ∷ (0x14, 0x8400_0000)
    ∷ []

abbrev pub start_state : CpuState
start_state = record default_state { sp = 0x8000; ac = 0xffff_ffff; psr = 16 }

abbrev pub loaded : ArrayMemory
loaded = from_cells program

abbrev pub machine : Machine NullIoBus
machine = record { state = start_state; io = default_io_state; memory = loaded; bus = tt }

start_state-IsState : IsState start_state
start_state-IsState = record {
  pc-IsU16 = omega arith;
  sp-IsU16 = omega arith;
  ac-IsU32 = omega arith;
  psr-lt = omega arith;
  ir-IsU32 = omega arith;
  count-IsU64 = omega arith;
}

loaded-IsMemory : IsMemory loaded
unfolding from_cells
loaded-IsMemory a = ground arith

pub machine-IsMachine : IsMachine (λ b. Unit {0}) machine
machine-IsMachine = record {
  state-IsState = start_state-IsState;
  io-IsIo = record { mask-lt = omega arith; register-IsU8 = omega arith };
  memory-IsMemory = loaded-IsMemory;
  bus-Good = tt;
}
