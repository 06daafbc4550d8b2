-- ===== src/Emulator/Invariant/Defs.antt =====
-- Well-formed states and machines.
use ex3_rust.Prelude.{ℕ, ◌<◌, IsU8, IsU16, IsU32, IsU64}
use ex3_rust.Emulator.State.{CpuState, IoState, Machine}
use ex3_rust.Emulator.Memory.{ArrayMemory}

pub record IsState (s : CpuState) : Type 0 where
  pub pc-IsU16 : IsU16 s.pc
  pub sp-IsU16 : IsU16 s.sp
  pub ac-IsU32 : IsU32 s.ac
  pub psr-lt : s.psr < 32
  pub ir-IsU32 : IsU32 s.ir
  pub count-IsU64 : IsU64 s.executed_instructions

pub record IsIo (io : IoState) : Type 0 where
  pub mask-lt : io.interrupt_mask < 16
  pub register-IsU8 : IsU8 io.input_register

abbrev pub IsMemory : ArrayMemory → Type 0
IsMemory mem = (a : ℕ) → IsU32 (mem a)

pub record IsMachine {B : Type 0} (Good : B → Type 0) (m : Machine B) : Type 0 where
  pub state-IsState : IsState m.state
  pub io-IsIo : IsIo m.io
  pub memory-IsMemory : IsMemory m.memory
  pub bus-Good : Good m.bus
