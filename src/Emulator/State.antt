-- ===== src/Emulator/State.antt =====
-- `emulator::CpuState`, `IoState` and the flags of the status register.
use ex3_rust.Prelude.{ℕ, Bool, false, not, ◌==◌, bit_and, bit_or}
use ex3_rust.Isa.Address
use ex3_rust.Isa.Address.{Address}
use ex3_rust.Isa.{Instruction, DecodeError}
use ex3_rust.Emulator.Memory.{ArrayMemory}

abbrev pub psr_v : ℕ
psr_v = 1

abbrev pub psr_c : ℕ
psr_c = 2

abbrev pub psr_z : ℕ
psr_z = 4

abbrev pub psr_n : ℕ
psr_n = 8

abbrev pub psr_ien : ℕ
psr_ien = 16

abbrev pub psr_mask : ℕ
psr_mask = bit_or (bit_or (bit_or (bit_or psr_v psr_c) psr_z) psr_n) psr_ien

pub record IoState : Type 0 where
  pub serial_selected : Bool
  pub interrupt_mask : ℕ
  pub input_register : ℕ

pub record CpuState : Type 0 where
  pub pc : Address
  pub sp : Address
  pub ac : ℕ
  pub psr : ℕ
  pub halted : Bool
  pub interrupt_pending : Bool
  pub ir : ℕ
  pub executed_instructions : ℕ

abbrev pub default_io_state : IoState
default_io_state = record { serial_selected = false; interrupt_mask = 0; input_register = 0 }

abbrev pub default_state : CpuState
default_state = record {
  pc = Address.reset;
  sp = Address.zero_address;
  ac = 0;
  psr = 0;
  halted = false;
  interrupt_pending = false;
  ir = 0;
  executed_instructions = 0;
}

-- `psr & mask != 0`.
abbrev pub test_flag : ℕ → ℕ → Bool
test_flag psr mask = not (bit_and psr mask == 0)

abbrev pub negative : CpuState → Bool
negative s = test_flag s.psr psr_n

abbrev pub is_zero : CpuState → Bool
is_zero s = test_flag s.psr psr_z

abbrev pub carry : CpuState → Bool
carry s = test_flag s.psr psr_c

abbrev pub overflow : CpuState → Bool
overflow s = test_flag s.psr psr_v

abbrev pub interrupt_enabled : CpuState → Bool
interrupt_enabled s = test_flag s.psr psr_ien

pub data StepOutcome : Type 0 where
  executed : (pc_before : Address) (instruction : Instruction) → StepOutcome
  interrupted : StepOutcome
  halted : StepOutcome

pub data CpuError : Type 0 where
  decode : DecodeError → CpuError
  step_limit_exceeded : CpuError

-- The processor with the memory and the bus that `step` borrows: `state` and `io` are the fields of
-- `Cpu`, the other two the arguments.
pub record Machine (B : Type 0) : Type 0 where
  pub state : CpuState
  pub io : IoState
  pub memory : ArrayMemory
  pub bus : B
