-- ===== src/Emulator/Execute.antt =====
-- `Cpu::execute`, one function for each instruction format, over the machine of State.
use ex3_rust.Prelude.{
  ℕ, Bool, true, false, not, ◌&&◌, ◌||◌, ◌==◌, bool_eq, if◌then◌else◌, bit_and, bit_or, bit_xor,
  bit_not, u8, ◌<<<◌, wrapping_add, Option, some, none, negsuc,
}
use ex3_rust.Isa.Address
use ex3_rust.Isa.Address.{Address}
use ex3_rust.Isa.Immediate16
use ex3_rust.Isa.{
  MemoryOp, ImmediateOp, SpRelativeOp, BranchOp, SystemOp, Instruction, memory, immediate,
  sp_relative, branch, system,
}
use ex3_rust.Emulator.Memory.{ArrayMemory, read, write}
use ex3_rust.Emulator.Bus.{IoBus, IoKind, serial, parallel}
use ex3_rust.Emulator.State.{
  CpuState, IoState, Machine, psr_mask, psr_ien, negative, is_zero, carry, overflow,
}
use ex3_rust.Emulator.Alu
use ex3_rust.Emulator.Alu.{set_flag, logic}

unfoldable pub push : {B : Type 0} → ℕ → Machine B → Machine B
push v m =
    let sp = Address.wrapping_add_signed m.state.sp (negsuc 0) in
    record m { state = record (m.state) { sp = sp }; memory = write m.memory sp v }

-- The popped word and the state with the new stack pointer; `pop` reads the memory only.
unfoldable pub pop : ArrayMemory → CpuState → ℕ × CpuState
pop mem s = (read mem s.sp, record s { sp = Address.wrapping_add s.sp 1 })

unfoldable pub skip : CpuState → CpuState
skip s = record s { pc = Address.wrapping_add s.pc 1 }

unfoldable pub selected : IoState → IoKind
selected io = if io.serial_selected then serial else parallel

-- `self.f(…)` for a method that changes the state alone.
abbrev on_state : {B : Type 0} → (CpuState → CpuState) → Machine B → Machine B
on_state f m = record m { state = f m.state }

abbrev store : {B : Type 0} → ℕ → ℕ → Machine B → Machine B
store ea v m = record m { memory = write m.memory ea v }

unfoldable pub isz : {B : Type 0} → ℕ → ℕ → Machine B → Machine B
unfolding skip
isz ea b m =
    let v = wrapping_add 32 b 1 in let m₁ = store ea v m in if v == 0 then on_state skip m₁ else m₁

-- The inner `match` of the memory format, at the effective address and the word there.
unfoldable pub memory_operation : {B : Type 0} → MemoryOp → ℕ → ℕ → Machine B → Machine B
memory_operation MemoryOp.add ea b m = on_state (Alu.add b) m
memory_operation MemoryOp.sub ea b m = on_state (Alu.sub b) m
memory_operation MemoryOp.and ea b m = on_state (logic (bit_and m.state.ac b)) m
memory_operation MemoryOp.or ea b m = on_state (logic (bit_or m.state.ac b)) m
memory_operation MemoryOp.xor ea b m = on_state (logic (bit_xor m.state.ac b)) m
memory_operation MemoryOp.lda ea b m = on_state (logic b) m
memory_operation MemoryOp.sta ea b m = store ea m.state.ac m
memory_operation MemoryOp.cmp ea b m = on_state (Alu.compare b) m
memory_operation MemoryOp.isz ea b m = isz ea b m

abbrev pub effective_address : ArrayMemory → Address → Bool → Address
effective_address mem address indirect =
    if indirect then Address.from_low16 (read mem address) else address

unfoldable pub execute_memory : {B : Type 0} → MemoryOp → Address → Bool → Machine B → Machine B
execute_memory op address indirect m =
    let ea = effective_address m.memory address indirect in
    memory_operation op ea (read m.memory ea) m

unfoldable pub execute_immediate : ImmediateOp → ℕ → CpuState → CpuState
execute_immediate ImmediateOp.add value s = Alu.add (Immediate16.sign_extended value) s
execute_immediate ImmediateOp.sub value s = Alu.sub (Immediate16.sign_extended value) s
execute_immediate ImmediateOp.and value s = logic (bit_and s.ac (Immediate16.zero_extended value)) s
execute_immediate ImmediateOp.or value s = logic (bit_or s.ac (Immediate16.zero_extended value)) s
execute_immediate ImmediateOp.xor value s = logic (bit_xor s.ac (Immediate16.zero_extended value)) s
execute_immediate ImmediateOp.lda value s = logic (Immediate16.sign_extended value) s
execute_immediate ImmediateOp.cmp value s = Alu.compare (Immediate16.sign_extended value) s
execute_immediate ImmediateOp.ldhi value s =
    logic (bit_or (bit_and s.ac 0x0000_ffff) (Immediate16.raw value <<< 16)) s
execute_immediate ImmediateOp.ldlo value s =
    logic (bit_or (bit_and s.ac 0xffff_0000) (Immediate16.raw value)) s
execute_immediate ImmediateOp.adjsp value s = record s {
  sp = Address.wrapping_add_signed s.sp (Immediate16.as_i16 value);
}

-- The inner `match` of the SP-relative format.
unfoldable pub sp_relative_operation : {B : Type 0} → SpRelativeOp → ℕ → ℕ → Machine B → Machine B
sp_relative_operation SpRelativeOp.addsp ea b m = on_state (Alu.add b) m
sp_relative_operation SpRelativeOp.subsp ea b m = on_state (Alu.sub b) m
sp_relative_operation SpRelativeOp.andsp ea b m = on_state (logic (bit_and m.state.ac b)) m
sp_relative_operation SpRelativeOp.orsp ea b m = on_state (logic (bit_or m.state.ac b)) m
sp_relative_operation SpRelativeOp.xorsp ea b m = on_state (logic (bit_xor m.state.ac b)) m
sp_relative_operation SpRelativeOp.ldsp ea b m = on_state (logic b) m
sp_relative_operation SpRelativeOp.stsp ea b m = store ea m.state.ac m
sp_relative_operation SpRelativeOp.cmpsp ea b m = on_state (Alu.compare b) m

unfoldable pub execute_sp_relative : {B : Type 0} → SpRelativeOp → ℕ → Machine B → Machine B
execute_sp_relative op offset m =
    let ea = Address.wrapping_add_signed m.state.sp (Immediate16.as_i16 offset) in
    sp_relative_operation op ea (read m.memory ea) m

unfoldable pub branch_taken : BranchOp → CpuState → Bool
branch_taken BranchOp.jmp s = true
branch_taken BranchOp.call s = true
branch_taken BranchOp.beq s = is_zero s
branch_taken BranchOp.bne s = not (is_zero s)
branch_taken BranchOp.blt s = not (bool_eq (negative s) (overflow s))
branch_taken BranchOp.bge s = bool_eq (negative s) (overflow s)
branch_taken BranchOp.bgt s = not (is_zero s) && bool_eq (negative s) (overflow s)
branch_taken BranchOp.ble s = is_zero s || not (bool_eq (negative s) (overflow s))
branch_taken BranchOp.bult s = not (carry s)
branch_taken BranchOp.buge s = carry s
branch_taken BranchOp.bugt s = carry s && not (is_zero s)
branch_taken BranchOp.bule s = not (carry s) || is_zero s

-- `op == BranchOp::Call`.
abbrev pub is_call : BranchOp → Bool
is_call BranchOp.call = true
is_call _ = false

unfoldable pub execute_branch : {B : Type 0} → BranchOp → Address → Machine B → Machine B
unfolding push
execute_branch op target m =
    if branch_taken op m.state
    then (let m₁ = if is_call op then push m.state.pc m else m in
        on_state (λ s. record s { pc = target }) m₁)
    else m

-- The arms `Ret` and `Iret` of the system format.
unfoldable pub ret : ArrayMemory → CpuState → CpuState
unfolding pop
ret mem s = let (v, s₁) = pop mem s in record s₁ { pc = Address.from_low16 v }

unfoldable pub iret : ArrayMemory → CpuState → CpuState
unfolding pop ret
iret mem s =
    let s₁ = ret mem s in let (v, s₂) = pop mem s₁ in record s₂ { psr = bit_and v psr_mask }

-- What `Inp` does with the byte that the bus has, if it has one.
unfoldable pub receive : {B : Type 0} → Option ℕ → Machine B → Machine B
receive none m = m
receive (some v) m = record m {
  io = record (m.io) { input_register = v };
  state = record (m.state) { ac = bit_or (bit_and m.state.ac 0xffff_ff00) v };
}

module _ {B : Type 0} (bus : IoBus B) where
  unfoldable pub input : Machine B → Machine B
  unfolding receive selected
  input m =
      let (value, b) = bus.read_input (selected m.io) m.bus in receive value (record m { bus = b })

  unfoldable pub execute_system : SystemOp → Machine B → Machine B
  unfolding skip selected ret iret input
  execute_system SystemOp.cla m = on_state (logic 0) m
  execute_system SystemOp.cma m = on_state (logic (bit_not 32 m.state.ac)) m
  execute_system SystemOp.ret m = on_state (ret m.memory) m
  execute_system SystemOp.iret m = on_state (iret m.memory) m
  execute_system SystemOp.hlt m = on_state (λ s. record s { halted = true }) m
  execute_system SystemOp.inp m = input m
  execute_system SystemOp.out m = record m {
    bus = bus.write_output (selected m.io) (u8 m.state.ac) m.bus;
  }
  execute_system SystemOp.ski m =
      if bus.input_ready (selected m.io) m.bus then on_state skip m else m
  execute_system SystemOp.sko m =
      if bus.output_ready (selected m.io) m.bus then on_state skip m else m
  execute_system SystemOp.ion m = on_state (set_flag psr_ien true) m
  execute_system SystemOp.iof m = on_state (set_flag psr_ien false) m
  execute_system SystemOp.sio m = record m { io = record (m.io) { serial_selected = true } }
  execute_system SystemOp.pio m = record m { io = record (m.io) { serial_selected = false } }
  execute_system SystemOp.imk m = record m {
    io = record (m.io) { interrupt_mask = bit_and (u8 m.state.ac) 0xf };
  }

  unfoldable pub execute : Instruction → Machine B → Machine B
  execute (memory op address indirect) m = execute_memory op address indirect m
  execute (immediate op value) m = on_state (execute_immediate op value) m
  execute (sp_relative op offset) m = execute_sp_relative op offset m
  execute (branch op target) m = execute_branch op target m
  execute (system op) m = execute_system op m
