-- ===== src/Emulator/Run/Counting.antt =====
-- The count of executed instructions: only a fetch raises it, and an interrupt is entered only
-- with interrupts on, which it turns off.
use ex3_rust.Prelude.{
  ℕ, if_true, if_false, subst, sym, ap, ◌+◌, ◌%◌, ◌^◌, ◌<◌, ◌≡◌, refl, ◌∙◌, true, false, inl, inr,
  arith, Bool-cases, Option, none, some, Result, ok, err,
}
use ex3_rust.Isa.{
  MemoryOp, ImmediateOp, BranchOp, SystemOp, Instruction, DecodeError, memory, immediate,
  sp_relative, branch, system, decode,
}
use ex3_rust.Emulator.Bus.{IoBus}
use ex3_rust.Emulator.State.{CpuState, Machine, StepOutcome, CpuError, interrupt_enabled}
use ex3_rust.Emulator.Alu.{set_flag, update_nz, add, subtraction_flags, sub, compare, logic}
use ex3_rust.Emulator.Alu.Flags.{ien, flag-set_flag}
use ex3_rust.Emulator.Execute.{
  push, pop, isz, memory_operation, execute_memory, execute_immediate, execute_sp_relative,
  execute_branch, receive, execute_system, execute,
}
use ex3_rust.Emulator.Step.{Stepped, tick, interrupt_due, enter_interrupt, fetch, perform, step}
use ex3_rust.Emulator.Invariant.{sp_relative_operation-counterpart}

abbrev pub count : {B : Type 0} → Machine B → ℕ
count m = m.state.executed_instructions

update_nz-count :
    (v : ℕ) (s : CpuState) → (update_nz v s).executed_instructions ≡ s.executed_instructions
unfolding update_nz set_flag
update_nz-count v s = refl

execute_immediate-count :
    (op : ImmediateOp) (v : ℕ) (s : CpuState)
    → (execute_immediate op v s).executed_instructions ≡ s.executed_instructions
unfolding execute_immediate add sub compare subtraction_flags logic update_nz set_flag
execute_immediate-count ImmediateOp.add v s = refl
execute_immediate-count _ v s = refl

module _ {B : Type 0} where
  memory_operation-count :
      (op : MemoryOp) (ea b : ℕ) (m : Machine B) → count (memory_operation op ea b m) ≡ count m
  unfolding memory_operation isz add sub compare subtraction_flags logic update_nz set_flag
  memory_operation-count MemoryOp.isz ea b m = ground arith
  memory_operation-count _ ea b m = refl

  execute_branch-count :
      (op : BranchOp) (target : ℕ) (m : Machine B) → count (execute_branch op target m) ≡ count m
  unfolding execute_branch push
  execute_branch-count op target m = ground arith

module _ {B : Type 0} (bus : IoBus B) where
  receive-count : (value : Option ℕ) (m : Machine B) → count (receive value m) ≡ count m
  unfolding receive
  receive-count none m = refl
  receive-count (some v) m = refl

  execute_system-count : (op : SystemOp) (m : Machine B) → count (execute_system bus op m) ≡ count m
  unfolding execute_system pop logic update_nz set_flag
  execute_system-count SystemOp.inp m = receive-count _ _
  execute_system-count SystemOp.ski m = ground arith
  execute_system-count SystemOp.sko m = ground arith
  execute_system-count _ m = refl

  execute-count : (i : Instruction) (m : Machine B) → count (execute bus i m) ≡ count m
  unfolding execute execute_memory execute_sp_relative
  execute-count (memory op address indirect) m = memory_operation-count op _ _ m
  execute-count (immediate op value) m = execute_immediate-count op value m.state
  execute-count (sp_relative op offset) m =
      rw sp_relative_operation-counterpart (memory_operation-count _ _ _ m)
  execute-count (branch op target) m = execute_branch-count op target m
  execute-count (system op) m = execute_system-count op m

  perform-count :
      (pc : ℕ) (r : Result Instruction DecodeError) (m : Machine B)
      → count (perform bus pc r m).machine ≡ count m
  unfolding perform
  perform-count pc (ok i) m = execute-count i m
  perform-count pc (err e) m = refl

  -- What a step of a running processor does to the count and to the interrupt flag.
  pub data Counted (m : Machine B) (r : Stepped B) : Type 0 where
    entered :
        r.result ≡ ok StepOutcome.interrupted
        → count r.machine ≡ count m
        → interrupt_enabled m.state ≡ true
        → interrupt_enabled r.machine.state ≡ false
        → Counted m r
    fetched : count r.machine ≡ (count m + 1) % 2 ^ 64 → Counted m r

  enter_interrupt-Counted :
      (m : Machine B)
      → m.state.psr < 32
      → (count (enter_interrupt m) ≡ count m)
        × (interrupt_enabled (enter_interrupt m).state ≡ false)
  unfolding enter_interrupt push set_flag
  enter_interrupt-Counted m h = (refl, flag-set_flag ien ien false m.state h)

  -- A step of a running processor, by whether an interrupt is due.
  pub step_interrupted :
      (m : Machine B)
      → m.state.halted ≡ false
      → interrupt_due bus (tick bus m) ≡ true
      → step bus m
        ≡ record { machine = enter_interrupt (tick bus m); result = ok StepOutcome.interrupted }
  unfolding step
  step_interrupted m going due = if_false _ going ∙ if_true _ due

  pub step_fetched :
      (m : Machine B)
      → m.state.halted ≡ false
      → interrupt_due bus (tick bus m) ≡ false
      → let m₂ = fetch (tick bus m) in step bus m ≡ perform bus m.state.pc (decode m₂.state.ir) m₂
  unfolding step tick
  step_fetched m going quiet = if_false _ going ∙ if_false _ quiet

  due-enabled :
      (m : Machine B) → interrupt_due bus (tick bus m) ≡ true → interrupt_enabled m.state ≡ true
  unfolding interrupt_due tick
  due-enabled m due = ground arith

  tick-state : (m : Machine B) → (tick bus m).state ≡ m.state
  unfolding tick
  tick-state m = refl

  fetch-count : (m : Machine B) → count (fetch (tick bus m)) ≡ (count m + 1) % 2 ^ 64
  unfolding fetch tick
  fetch-count m = refl

  -- A step of a running processor either enters an interrupt, which it does only with interrupts
  -- on, turning them off and counting nothing, or it raises the count of executed instructions by
  -- one, modulo 2^64.
  pub step-Counted :
      (m : Machine B) → m.state.halted ≡ false → m.state.psr < 32 → Counted m (step bus m)
  step-Counted m going h = elim (Bool-cases (interrupt_due bus (tick bus m))) [
    | inl due ↦
        let (same_count, off) = enter_interrupt-Counted (tick bus m) (rw tick-state h) in
        subst (Counted m) (sym (step_interrupted m going due)) (
          entered refl (same_count ∙ ap (λ s. s.executed_instructions) (tick-state m))
            (due-enabled m due) off)
    | inr quiet ↦
        subst (Counted m) (sym (step_fetched m going quiet))
          (fetched (perform-count _ _ (fetch (tick bus m)) ∙ fetch-count m))
  ]

  perform-err :
      (pc : ℕ) (r : Result Instruction DecodeError) (m : Machine B) (e : CpuError)
      → (perform bus pc r m).result ≡ err e
      → (d : DecodeError) × (r ≡ err d)
        × (e ≡ CpuError.decode d)
        × ((perform bus pc r m).machine.state.halted ≡ true)
  unfolding perform
  perform-err pc (ok i) m e h = cc
  perform-err pc (err d) m e h = (d, refl, cc, refl)

  -- If a step of a running processor fails, the word at its program counter does not decode, the
  -- error is that decode error, and the processor is halted.
  pub step-err :
      (m : Machine B) (e : CpuError)
      → m.state.halted ≡ false
      → (step bus m).result ≡ err e
      → (d : DecodeError) × (decode (m.memory m.state.pc) ≡ err d)
        × (e ≡ CpuError.decode d)
        × ((step bus m).machine.state.halted ≡ true)
  unfolding fetch tick
  step-err m e going h = elim (Bool-cases (interrupt_due bus (tick bus m))) [
    | inl due ↦
        let entry = step_interrupted m going due in cc (ap (λ (r : Stepped B). r.result) entry)
    | inr quiet ↦
        let e₁ = step_fetched m going quiet in
        let (d, bad, named, stopped) =
          perform-err _ _ _ e (sym (ap (λ (r : Stepped B). r.result) e₁) ∙ h) in
        (d, bad, named, ap (λ (r : Stepped B). r.machine.state.halted) e₁ ∙ stopped)
  ]
