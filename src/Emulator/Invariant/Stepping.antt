-- ===== src/Emulator/Invariant/Stepping.antt =====
-- The system format, `execute` and `step` keep every part of the machine in range.
use ex3_rust.Prelude.{
  ℕ, ◌≡◌, refl, true, false, arith, IsU8, Option, some, none, Result, ok, err, u8, either_branch,
}
use ex3_rust.Prelude.Bits.{bit_and-lt, bit_or-lt, bit_and-low_mask}
use ex3_rust.Isa.{
  SystemOp, Instruction, DecodeError, memory, immediate, sp_relative, branch, system, decode,
}
use ex3_rust.Isa.Layout.{OperandFits}
use ex3_rust.Isa.Legality.{decode-eq-ok_iff}
use ex3_rust.Emulator.Bus.{IoBus, IsByteBus}
use ex3_rust.Emulator.State.{IoState, Machine, psr_ien}
use ex3_rust.Emulator.Alu.{set_flag}
use ex3_rust.Emulator.Execute.{push, receive, input, execute_system, execute, selected}
use ex3_rust.Emulator.Step.{Stepped, tick, interrupt_due, enter_interrupt, fetch, perform, step}
use ex3_rust.Emulator.Invariant.Defs.{IsState, IsIo}
use ex3_rust.Emulator.Invariant.Registers.{
  set_flag-IsState, logic-IsState, skip-IsState, ret-IsState, iret-IsState,
  execute_immediate-IsState,
}
use ex3_rust.Emulator.Invariant.Execution.{
  Ok, with_state, push-IsMachine, execute_memory-IsMachine, execute_sp_relative-IsMachine,
  execute_branch-IsMachine,
}

module _ {B : Type 0} (bus : IoBus B) (Good : B → Type 0) (laws : IsByteBus bus Good) where
  with_bus : (m : Machine B) (b : B) → Ok Good m → Good b → Ok Good (record m { bus = b })
  with_bus m b h g = record {
    state-IsState = h.state-IsState;
    io-IsIo = h.io-IsIo;
    memory-IsMemory = h.memory-IsMemory;
    bus-Good = g;
  }

  with_io : (m : Machine B) (io : IoState) → Ok Good m → IsIo io → Ok Good (record m { io = io })
  with_io m io h hio = record {
    state-IsState = h.state-IsState;
    io-IsIo = hio;
    memory-IsMemory = h.memory-IsMemory;
    bus-Good = h.bus-Good;
  }

  receive-IsMachine :
      (value : Option ℕ) (m : Machine B)
      → ((v : ℕ) → value ≡ some v → IsU8 v)
      → Ok Good m
      → Ok Good (receive value m)
  unfolding receive
  receive-IsMachine none m hv h = h
  receive-IsMachine (some v) m hv h =
      let s = h.state-IsState in
      let byte : IsU8 v = hv v refl in
      let word =
        bit_or-lt 32 _ v (bit_and-lt 32 m.state.ac 0xffff_ff00 s.ac-IsU32 (omega arith))
          (omega arith) in
      with_state Good _ _ (with_io m _ h (ground arith)) (ground arith)

  input-IsMachine : (m : Machine B) → Ok Good m → Ok Good (input bus m)
  unfolding input
  input-IsMachine m h =
      let k = selected m.io in
      let g = laws.read_input-Good k m.bus h.bus-Good in
      receive-IsMachine (bus.read_input k m.bus).0 _
        (λ v e. laws.read_input-IsU8 k m.bus v h.bus-Good e) (with_bus m _ h g)

  execute_system-IsMachine :
      (op : SystemOp) (m : Machine B) → Ok Good m → Ok Good (execute_system bus op m)
  unfolding execute_system
  execute_system-IsMachine SystemOp.cla m h =
      with_state Good m _ h (logic-IsState 0 m.state (omega arith) h.state-IsState)
  execute_system-IsMachine SystemOp.cma m h =
      with_state Good m _ h (logic-IsState _ m.state (omega arith) h.state-IsState)
  execute_system-IsMachine SystemOp.ret m h =
      with_state Good m _ h (ret-IsState m.memory m.state h.state-IsState)
  execute_system-IsMachine SystemOp.iret m h =
      with_state Good m _ h (iret-IsState m.memory m.state h.state-IsState)
  execute_system-IsMachine SystemOp.hlt m h =
      with_state Good m _ h (let s = h.state-IsState in ground arith)
  execute_system-IsMachine SystemOp.inp m h = input-IsMachine m h
  execute_system-IsMachine SystemOp.out m h =
      with_bus m _ h
        (laws.write_output-Good (selected m.io) (u8 m.state.ac) m.bus (omega arith) h.bus-Good)
  execute_system-IsMachine SystemOp.ski m h =
      either_branch (Ok Good) (bus.input_ready (selected m.io) m.bus)
        (with_state Good m _ h (skip-IsState m.state h.state-IsState)) h
  execute_system-IsMachine SystemOp.sko m h =
      either_branch (Ok Good) (bus.output_ready (selected m.io) m.bus)
        (with_state Good m _ h (skip-IsState m.state h.state-IsState)) h
  execute_system-IsMachine SystemOp.ion m h =
      with_state Good m _ h (set_flag-IsState psr_ien true m.state h.state-IsState)
  execute_system-IsMachine SystemOp.iof m h =
      with_state Good m _ h (set_flag-IsState psr_ien false m.state h.state-IsState)
  execute_system-IsMachine SystemOp.sio m h = let io = h.io-IsIo in with_io m _ h (ground arith)
  execute_system-IsMachine SystemOp.pio m h = let io = h.io-IsIo in with_io m _ h (ground arith)
  execute_system-IsMachine SystemOp.imk m h =
      let io = h.io-IsIo in with_io m _ h (ground (arith, bit_and-low_mask 4 (u8 m.state.ac)))

  -- Executing an instruction whose operand is of 16 bits keeps the machine in range.
  pub execute-IsMachine :
      (i : Instruction) (m : Machine B) → OperandFits i → Ok Good m → Ok Good (execute bus i m)
  unfolding execute
  execute-IsMachine (memory op address indirect) m fits h =
      execute_memory-IsMachine Good op address indirect m h
  execute-IsMachine (immediate op value) m fits h =
      with_state Good m _ h (execute_immediate-IsState op value m.state fits h.state-IsState)
  execute-IsMachine (sp_relative op offset) m fits h =
      execute_sp_relative-IsMachine Good op offset m h
  execute-IsMachine (branch op target) m fits h = execute_branch-IsMachine Good op target m fits h
  execute-IsMachine (system op) m fits h = execute_system-IsMachine op m h

  tick-IsMachine : (m : Machine B) → Ok Good m → Ok Good (tick bus m)
  unfolding tick
  tick-IsMachine m h = with_bus m _ h (laws.tick-Good _ m.bus h.bus-Good)

  enter_interrupt-IsMachine : (m : Machine B) → Ok Good m → Ok Good (enter_interrupt m)
  unfolding enter_interrupt
  enter_interrupt-IsMachine m h =
      let s = h.state-IsState in
      let h₁ =
        with_state Good m (record (m.state) { interrupt_pending = false }) h (ground arith) in
      let h₂ = push-IsMachine Good m.state.psr _ (omega arith) h₁ in
      let s₂ = h₂.state-IsState in
      let m₂ =
        push m.state.psr (record m { state = record (m.state) { interrupt_pending = false } }) in
      let m₃ = push m₂.state.pc m₂ in
      let h₃ : Ok Good m₃ = push-IsMachine Good m₂.state.pc m₂ (omega arith) h₂ in
      let s₄ : IsState (set_flag psr_ien false m₃.state) =
        set_flag-IsState psr_ien false m₃.state h₃.state-IsState in
      with_state Good m₃ _ h₃ (ground arith)

  fetch-IsMachine : (m : Machine B) → Ok Good m → Ok Good (fetch m)
  unfolding fetch
  fetch-IsMachine m h =
      let s = h.state-IsState in
      let word = h.memory-IsMemory m.state.pc in with_state Good m _ h (ground arith)

  perform-IsMachine :
      (pc w : ℕ) (r : Result Instruction DecodeError) (m : Machine B)
      → decode w ≡ r
      → Ok Good m
      → Ok Good (perform bus pc r m).machine
  unfolding perform
  perform-IsMachine pc w (ok i) m e h = execute-IsMachine i m ((decode-eq-ok_iff w i).0 e).0 h
  perform-IsMachine pc w (err e) m _ h =
      with_state Good m _ h (let s = h.state-IsState in ground arith)

  -- `Cpu::step` keeps a machine in range, whatever it does: registers and memory words fit their
  -- widths, the status register has no bits but its five flags, the interrupt mask has four bits
  -- and the bus keeps its own invariant.
  pub step-IsMachine : (m : Machine B) → Ok Good m → Ok Good (step bus m).machine
  unfolding step
  step-IsMachine m h =
      let h₁ = tick-IsMachine m h in
      either_branch {A = Stepped B} (λ r. Ok Good r.machine) m.state.halted h
        (either_branch {A = Stepped B} (λ r. Ok Good r.machine) (interrupt_due bus (tick bus m))
          (enter_interrupt-IsMachine (tick bus m) h₁)
          (perform-IsMachine _ _ _ (fetch (tick bus m)) refl (fetch-IsMachine (tick bus m) h₁)))
