-- ===== src/Debugger.antt =====
-- crates/ex3-core/src/debugger.rs: breakpoints and the run that stops at them. The set of
-- breakpoints is a list, of which only the membership is observed.
pub mod Breakpoints
pub mod Runs
pub mod Equivalence
mod Tests
use ex3_rust.Prelude.{
  ℕ, zero, suc, ◌+◌, Bool, true, false, ◌||◌, ◌==◌, leb, if◌then◌else◌, List, [], ◌∷◌, Option, none,
  some, Result, ok, err, wrapping_add, wrapping_sub,
}
use ex3_rust.Isa.Address.{Address}
use ex3_rust.Emulator.Bus.{IoBus}
use ex3_rust.Emulator.State.{Machine, StepOutcome, CpuError}
use ex3_rust.Emulator.Step.{Stepped}
use ex3_rust.Emulator.Step as Cpu

pub data RunStop : Type 0 where
  halted : RunStop
  breakpoint : Address → RunStop
  step_limit : RunStop

pub record Debugger : Type 0 where
  pub breakpoints : List Address

abbrev pub new : Debugger
new = record { breakpoints = [] }

-- `BTreeSet::contains`, `insert` and `remove`.
unfoldable pub contains : List Address → Address → Bool
contains [] a = false
contains (b ∷ bs) a = b == a || contains bs a

unfoldable pub insert : Address → List Address → List Address
insert a bs = if contains bs a then bs else a ∷ bs

unfoldable pub remove : Address → List Address → List Address
remove a [] = []
remove a (b ∷ bs) = let rest = remove a bs in if b == a then rest else b ∷ rest

-- The answer tells whether the breakpoint is there after the call.
unfoldable pub toggle_breakpoint : Address → Debugger → Bool × Debugger
toggle_breakpoint a d =
    if contains d.breakpoints a
    then (false, record { breakpoints = remove a d.breakpoints })
    else (true, record { breakpoints = insert a d.breakpoints })

unfoldable pub add_breakpoint : Address → Debugger → Debugger
add_breakpoint a d = record { breakpoints = insert a d.breakpoints }

unfoldable pub remove_breakpoint : Address → Debugger → Debugger
remove_breakpoint a d = record { breakpoints = remove a d.breakpoints }

module _ {B : Type 0} (bus : IoBus B) where
  unfoldable pub step : Debugger → Machine B → Stepped B
  step d m = Cpu.step bus m

  -- The `loop` of `run`, with fuel: one unit for each turn. `steps` is a `u64`, and so is the
  -- difference that is added to it.
  unfoldable pub run_loop :
      ℕ → ℕ → ℕ → Debugger → Machine B → Option (Machine B × Result RunStop CpuError)
  run_loop zero steps max_steps d m = none
  run_loop (suc fuel) steps max_steps d m =
      let after = Cpu.step bus m in
      let executed =
        wrapping_sub 64 after.machine.state.executed_instructions m.state.executed_instructions in
      let rest = run_loop fuel (wrapping_add 64 steps executed) max_steps d after.machine in
      if m.state.halted
      then some (m, ok halted)
      else if contains d.breakpoints m.state.pc
      then some (m, ok (breakpoint m.state.pc))
      else if leb max_steps steps
      then some (m, ok step_limit)
      else elim after.result [ ok outcome ↦ rest | err e ↦ some (after.machine, err e) ]

  unfoldable pub run : ℕ → ℕ → Debugger → Machine B → Option (Machine B × Result RunStop CpuError)
  unfolding run_loop
  run fuel max_steps d m = run_loop fuel 0 max_steps d m
