-- ===== src/Debugger/Equivalence.antt =====
-- Without breakpoints the debugger's `run` is `Cpu::run`, with another name for each outcome.
use ex3_rust.Prelude.{
  ℕ, zero, suc, ◌^◌, ◌<◌, ◌≡◌, refl, sym, ap, ◌∙◌, false, inl, inr, arith, Bool-cases, Option, none,
  some, Result, ok, err, Result-cases, leb, wrapping_add, IsU64,
}
use ex3_rust.Emulator.Bus.{IoBus, IsByteBus}
use ex3_rust.Emulator.State.{Machine, CpuError, step_limit_exceeded}
use ex3_rust.Emulator.Step as Cpu
use ex3_rust.Emulator.Invariant.{IsMachine, step-IsMachine}
use ex3_rust.Emulator.Run.{count, step-Counted, step-err, done}
use ex3_rust.Emulator.Run as Run
use ex3_rust.Debugger.{RunStop, halted, step_limit, contains, run_loop, run, new}
use ex3_rust.Debugger.Breakpoints.{has}
use ex3_rust.Debugger.Runs.{
  Counted-steps, executed, turn_halted, turn_limited, turn_failed, turn_next,
}

-- The debugger's name for an outcome of `Cpu::run`.
abbrev pub renamed : Result ℕ CpuError → Result RunStop CpuError
renamed (ok n) = ok halted
renamed (err (CpuError.decode e)) = err (CpuError.decode e)
renamed (err step_limit_exceeded) = ok step_limit

abbrev pub renamed_outcome :
    {B : Type 0}
    → Option (Machine B × Result ℕ CpuError)
    → Option (Machine B × Result RunStop CpuError)
renamed_outcome none = none
renamed_outcome (some (m, r)) = some (m, renamed r)

no_breakpoint : (a : ℕ) → has new a ≡ false
unfolding contains
no_breakpoint a = refl

module _ {B : Type 0} (bus : IoBus B) (Good : B → Type 0) (laws : IsByteBus bus Good)
    (start max_steps : ℕ) (hs : start < 2 ^ 64) (hm : max_steps < 2 ^ 64) where
  -- A turn in which the processor steps, given that the loops agree from the next machine on.
  same_turn :
      (fuel steps : ℕ) (m : Machine B)
      → m.state.halted ≡ false
      → leb max_steps steps ≡ false
      → leb max_steps (done start m) ≡ false
      → run_loop bus fuel
          (wrapping_add 64 steps (executed bus Good laws new start max_steps hs hm m))
          max_steps
          new
          (Cpu.step bus m).machine
        ≡ renamed_outcome (Cpu.run_loop bus fuel start max_steps (Cpu.step bus m).machine)
      → run_loop bus (suc fuel) steps max_steps new m
        ≡ renamed_outcome (Cpu.run_loop bus (suc fuel) start max_steps m)
  same_turn fuel steps m going room room' rest = elim (Result-cases (Cpu.step bus m).result) [
    | inl (o, good) ↦
        turn_next bus Good laws new start max_steps hs hm fuel steps m o going
          (no_breakpoint m.state.pc) room good
        ∙ rest
        ∙ sym (
            ap renamed_outcome
              (Run.turn_next bus Good laws start max_steps hs hm fuel m o going room' good))
    | inr (e, bad) ↦
        let (x, _, named, _) = step-err bus m e going bad in
        turn_failed bus Good laws new start max_steps hs hm fuel steps m e going
          (no_breakpoint m.state.pc) room bad
        ∙ ap (λ y. some ((Cpu.step bus m).machine, y))
            (ap err named ∙ ap renamed (ap err (sym named)))
        ∙ sym (
            ap renamed_outcome
              (Run.turn_failed bus Good laws start max_steps hs hm fuel m e going room' bad))
  ]

  same_loop :
      (fuel steps : ℕ) (m : Machine B)
      → IsMachine Good m
      → steps ≡ done start m
      → run_loop bus fuel steps max_steps new m
        ≡ renamed_outcome (Cpu.run_loop bus fuel start max_steps m)
  same_loop zero steps m h tally = unfold run_loop Cpu.run_loop in refl
  same_loop (suc fuel) steps m h tally = elim (Bool-cases m.state.halted) [
    | inl stop ↦
        turn_halted bus Good laws new start max_steps hs hm fuel steps m stop
        ∙ sym (ap renamed_outcome (Run.turn_halted bus Good laws start max_steps hs hm fuel m stop))
    | inr going ↦ elim (Bool-cases (leb max_steps (done start m))) [
      | inl full ↦
          turn_limited bus Good laws new start max_steps hs hm fuel steps m going
            (no_breakpoint m.state.pc) (ap (leb max_steps) tally ∙ full)
          ∙ sym (
              ap renamed_outcome
                (Run.turn_limited bus Good laws start max_steps hs hm fuel m going full))
      | inr room ↦
          let s = h.state-IsState in
          let next = Cpu.step bus m in
          let counted = step-Counted bus m going s.psr-lt in
          let tally' =
            ap (λ t. wrapping_add 64 t (executed bus Good laws new start max_steps hs hm m)) tally
            ∙ Counted-steps start m next hs s.count-IsU64 counted in
          same_turn fuel steps m going (ap (leb max_steps) tally ∙ room) room
            (same_loop fuel _ next.machine (step-IsMachine bus Good laws m h) tally')
    ]
  ]

-- Without breakpoints `Debugger::run` does, for any fuel, what `Cpu::run` does from the same
-- machine, with the limit error and the count of a finished run renamed to the debugger's stops.
pub debugger-run-new :
    {B : Type 0} (bus : IoBus B) (Good : B → Type 0) (laws : IsByteBus bus Good)
    (fuel max_steps : ℕ) (m : Machine B)
    → IsU64 max_steps
    → IsMachine Good m
    → run bus fuel max_steps new m ≡ renamed_outcome (Cpu.run bus fuel max_steps m)
unfolding run Cpu.run
debugger-run-new bus Good laws fuel max_steps m hm h =
    let s = h.state-IsState in
    same_loop bus Good laws (count m) max_steps s.count-IsU64 hm fuel 0 m h (omega arith)
