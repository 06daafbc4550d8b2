-- ===== src/Emulator/Step.antt =====
-- `Cpu::step` and `Cpu::run`.
use ex3_rust.Prelude.{
  ℕ, Bool, true, false, not, ◌&&◌, ◌||◌, ◌==◌, leb, if◌then◌else◌, bit_and, wrapping_add,
  wrapping_sub, Result, ok, err, Option, none, some, zero, suc,
}
use ex3_rust.Isa.Address
use ex3_rust.Isa.{Instruction, DecodeError, decode}
use ex3_rust.Emulator.Memory.{read}
use ex3_rust.Emulator.Bus.{IoBus, serial, parallel}
use ex3_rust.Emulator.State.{Machine, StepOutcome, CpuError, psr_ien, interrupt_enabled}
use ex3_rust.Emulator.Alu.{set_flag}
use ex3_rust.Emulator.Execute.{push, execute}

-- `mask & bit != 0`.
abbrev mask_has : ℕ → ℕ → Bool
mask_has mask bit = not (bit_and mask bit == 0)

-- A machine after a call of `step`, with what the call returns.
pub record Stepped (B : Type 0) : Type 0 where
  pub machine : Machine B
  pub result : Result StepOutcome CpuError

-- The entry into the interrupt handler at address 0.
unfoldable pub enter_interrupt : {B : Type 0} → Machine B → Machine B
enter_interrupt m =
    let m₁ = record m { state = record (m.state) { interrupt_pending = false } } in
    let m₂ = push m₁.state.psr m₁ in
    let m₃ = push m₂.state.pc m₂ in
    let s₄ = set_flag psr_ien false m₃.state in
    record m₃ { state = record s₄ { pc = Address.zero_address } }

-- The fetch: the instruction register, the program counter and the count of instructions.
unfoldable pub fetch : {B : Type 0} → Machine B → Machine B
fetch m = record m {
  state = record (m.state) {
    interrupt_pending = false;
    ir = read m.memory m.state.pc;
    pc = Address.wrapping_add m.state.pc 1;
    executed_instructions = wrapping_add 64 m.state.executed_instructions 1;
  };
}

module _ {B : Type 0} (bus : IoBus B) where
  -- `io.tick(…)` at the start of a step.
  unfoldable pub tick : Machine B → Machine B
  tick m = record m {
    bus =
        bus.tick
          (record {
            interrupt_enabled = interrupt_enabled m.state;
            interrupt_mask = m.io.interrupt_mask;
          })
          m.bus;
  }

  -- `masked`: an input or an output that the mask lets through is ready.
  unfoldable pub masked : Machine B → Bool
  masked m =
      (mask_has m.io.interrupt_mask 8 && bus.input_ready serial m.bus)
      || (mask_has m.io.interrupt_mask 4 && bus.output_ready serial m.bus)
      || (mask_has m.io.interrupt_mask 2 && bus.input_ready parallel m.bus)
      || (mask_has m.io.interrupt_mask 1 && bus.output_ready parallel m.bus)

  unfoldable pub interrupt_due : Machine B → Bool
  interrupt_due m = interrupt_enabled m.state && (masked m || bus.interrupt_pending m.bus)

  unfoldable pub perform : Address.Address → Result Instruction DecodeError → Machine B → Stepped B
  perform pc_before (ok i) m = record {
    machine = execute bus i m;
    result = ok (StepOutcome.executed pc_before i);
  }
  perform pc_before (err e) m = record {
    machine = record m { state = record (m.state) { halted = true } };
    result = err (CpuError.decode e);
  }

  unfoldable pub step : Machine B → Stepped B
  step m =
      if m.state.halted
      then record { machine = m; result = ok StepOutcome.halted }
      else (let m₁ = tick m in
          if interrupt_due m₁
          then record { machine = enter_interrupt m₁; result = ok StepOutcome.interrupted }
          else (let m₂ = fetch m₁ in perform m₁.state.pc (decode m₂.state.ir) m₂))

  -- `run`, with fuel: one unit for each turn of the `while` loop. `none` means that the fuel ran out.
  unfoldable pub run_loop : ℕ → ℕ → ℕ → Machine B → Option (Machine B × Result ℕ CpuError)
  run_loop zero start max_steps m = none
  run_loop (suc fuel) start max_steps m =
      let done = wrapping_sub 64 m.state.executed_instructions start in
      let after = step m in
      let rest = run_loop fuel start max_steps after.machine in
      if m.state.halted
      then some (m, ok done)
      else if leb max_steps done
      then some (m, err CpuError.step_limit_exceeded)
      else elim after.result [ ok outcome ↦ rest | err e ↦ some (after.machine, err e) ]

  unfoldable pub run : ℕ → ℕ → Machine B → Option (Machine B × Result ℕ CpuError)
  unfolding run_loop
  run fuel max_steps m = run_loop fuel m.state.executed_instructions max_steps m
