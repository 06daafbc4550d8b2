-- ===== src/Emulator/Invariant/Execution.antt =====
-- The memory, SP-relative and branch formats keep every part of the machine in range.
use ex3_rust.Prelude.{
  ℕ, ◌==◌, either_branch, if◌then◌else◌, ◌+◌, ◌%◌, ◌^◌, ◌≡◌, refl, Bool, arith, IsU16, IsU32,
}
use ex3_rust.Prelude.Bits.{bit_and-lt, bit_or-lt, bit_xor-lt}
use ex3_rust.Isa.{MemoryOp, SpRelativeOp, BranchOp}
use ex3_rust.Emulator.State.{CpuState, Machine}
use ex3_rust.Emulator.Memory.{ArrayMemory, write}
use ex3_rust.Emulator.Execute.{
  push, isz, memory_operation, execute_memory, sp_relative_operation, execute_sp_relative,
  execute_branch, branch_taken, is_call,
}
use ex3_rust.Emulator.Invariant.Defs.{IsState, IsMemory, IsMachine}
use ex3_rust.Emulator.Invariant.Registers.{
  logic-IsState, add-IsState, compare-IsState, sub-IsState, skip-IsState,
}

write-IsMemory : (mem : ArrayMemory) (a w : ℕ) → IsMemory mem → IsU32 w → IsMemory (write mem a w)
write-IsMemory mem a w h hw b = ground (arith, h b)

-- The memory form of an SP-relative operation.
abbrev pub counterpart : SpRelativeOp → MemoryOp
counterpart SpRelativeOp.addsp = MemoryOp.add
counterpart SpRelativeOp.subsp = MemoryOp.sub
counterpart SpRelativeOp.andsp = MemoryOp.and
counterpart SpRelativeOp.orsp = MemoryOp.or
counterpart SpRelativeOp.xorsp = MemoryOp.xor
counterpart SpRelativeOp.ldsp = MemoryOp.lda
counterpart SpRelativeOp.stsp = MemoryOp.sta
counterpart SpRelativeOp.cmpsp = MemoryOp.cmp

pub sp_relative_operation-counterpart :
    {B : Type 0} (op : SpRelativeOp) (ea b : ℕ) (m : Machine B)
    → sp_relative_operation op ea b m ≡ memory_operation (counterpart op) ea b m
unfolding sp_relative_operation memory_operation
sp_relative_operation-counterpart SpRelativeOp.addsp ea b m = refl
sp_relative_operation-counterpart _ ea b m = refl

module _ {B : Type 0} (Good : B → Type 0) where
  abbrev pub Ok : Machine B → Type 0
  Ok = IsMachine Good

  pub with_state : (m : Machine B) (s : CpuState) → Ok m → IsState s → Ok (record m { state = s })
  with_state m s h hs = record {
    state-IsState = hs;
    io-IsIo = h.io-IsIo;
    memory-IsMemory = h.memory-IsMemory;
    bus-Good = h.bus-Good;
  }

  with_write :
      (m : Machine B) (a w : ℕ) → Ok m → IsU32 w → Ok (record m { memory = write m.memory a w })
  with_write m a w h hw = record {
    state-IsState = h.state-IsState;
    io-IsIo = h.io-IsIo;
    memory-IsMemory = write-IsMemory m.memory a w h.memory-IsMemory hw;
    bus-Good = h.bus-Good;
  }

  pub push-IsMachine : (v : ℕ) (m : Machine B) → IsU32 v → Ok m → Ok (push v m)
  unfolding push
  push-IsMachine v m hv h =
      with_write _ _ v (with_state m _ h (let s = h.state-IsState in ground arith)) hv

  isz-IsMachine : (ea b : ℕ) (m : Machine B) → Ok m → Ok (isz ea b m)
  unfolding isz
  isz-IsMachine ea b m h =
      let stored = with_write m ea ((b + 1) % 2 ^ 32) h (omega arith) in
      either_branch Ok ((b + 1) % 2 ^ 32 == 0)
        (with_state _ _ stored (skip-IsState m.state h.state-IsState)) stored

  memory_operation-IsMachine :
      (op : MemoryOp) (ea b : ℕ) (m : Machine B) → IsU32 b → Ok m → Ok (memory_operation op ea b m)
  unfolding memory_operation
  memory_operation-IsMachine MemoryOp.add ea b m hb h =
      with_state m _ h (add-IsState b m.state h.state-IsState)
  memory_operation-IsMachine MemoryOp.sub ea b m hb h =
      with_state m _ h (sub-IsState b m.state h.state-IsState)
  memory_operation-IsMachine MemoryOp.and ea b m hb h =
      let s = h.state-IsState in
      with_state m _ h (logic-IsState _ m.state (bit_and-lt 32 m.state.ac b s.ac-IsU32 hb) s)
  memory_operation-IsMachine MemoryOp.or ea b m hb h =
      let s = h.state-IsState in
      with_state m _ h (logic-IsState _ m.state (bit_or-lt 32 m.state.ac b s.ac-IsU32 hb) s)
  memory_operation-IsMachine MemoryOp.xor ea b m hb h =
      let s = h.state-IsState in
      with_state m _ h (logic-IsState _ m.state (bit_xor-lt 32 m.state.ac b s.ac-IsU32 hb) s)
  memory_operation-IsMachine MemoryOp.lda ea b m hb h =
      with_state m _ h (logic-IsState b m.state hb h.state-IsState)
  memory_operation-IsMachine MemoryOp.sta ea b m hb h =
      let s = h.state-IsState in with_write m ea m.state.ac h s.ac-IsU32
  memory_operation-IsMachine MemoryOp.cmp ea b m hb h =
      with_state m _ h (compare-IsState b m.state h.state-IsState)
  memory_operation-IsMachine MemoryOp.isz ea b m hb h = isz-IsMachine ea b m h

  pub execute_memory-IsMachine :
      (op : MemoryOp) (address : ℕ) (indirect : Bool) (m : Machine B)
      → Ok m
      → Ok (execute_memory op address indirect m)
  unfolding execute_memory
  execute_memory-IsMachine op address indirect m h =
      memory_operation-IsMachine op _ _ m (h.memory-IsMemory _) h

  pub execute_sp_relative-IsMachine :
      (op : SpRelativeOp) (offset : ℕ) (m : Machine B) → Ok m → Ok (execute_sp_relative op offset m)
  unfolding execute_sp_relative
  execute_sp_relative-IsMachine op offset m h =
      rw sp_relative_operation-counterpart
        (memory_operation-IsMachine (counterpart op) _ _ m (h.memory-IsMemory _) h)

  pub execute_branch-IsMachine :
      (op : BranchOp) (target : ℕ) (m : Machine B)
      → IsU16 target
      → Ok m
      → Ok (execute_branch op target m)
  unfolding execute_branch
  execute_branch-IsMachine op target m ht h =
      let s = h.state-IsState in
      let linked : Ok (if is_call op then push m.state.pc m else m) =
        either_branch Ok (is_call op) (push-IsMachine m.state.pc m (omega arith) h) h in
      let s' = linked.state-IsState in
      either_branch Ok (branch_taken op m.state) (with_state _ _ linked (ground arith)) h
