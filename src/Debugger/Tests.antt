-- ===== src/Debugger/Tests.antt =====
-- Tests of the debugger on the sample program.
use ex3_rust.Prelude.{
  ℕ, ◌≡◌, refl, true, false, [], ◌∷◌, Option, some, none, Result, ok, arith, find,
}
use ex3_rust.Isa.{decode, immediate_opcode, decode_immediate}
use ex3_rust.Emulator.Bus.{NullIoBus, null_io_bus, null_io_bus-IsByteBus}
use ex3_rust.Emulator.State.{Machine, CpuError}
use ex3_rust.Emulator.Execute.{execute, execute_immediate}
use ex3_rust.Emulator.Alu.{logic, update_nz, set_flag}
use ex3_rust.Emulator.Memory.{from_cells}
use ex3_rust.Emulator.Step as Cpu
use ex3_rust.Emulator.Invariant.{IsMachine}
use ex3_rust.Emulator.Samples.{machine, machine-IsMachine}
use ex3_rust.Debugger.{
  Debugger, RunStop, breakpoint, new, contains, run, run_loop, toggle_breakpoint, add_breakpoint,
  remove_breakpoint,
}
use ex3_rust.Debugger.Breakpoints.{has, toggle_breakpoint_lem, add-remove_breakpoint}
use ex3_rust.Debugger.Runs.{IsStop, Passes, debugger-run_returns}
use ex3_rust.Debugger.Equivalence.{renamed_outcome, debugger-run-new}

-- A breakpoint behind the first instruction.
abbrev set : Debugger
set = record { breakpoints = 0x11 ∷ [] }

toggle_breakpoint_lem_example :
    ((toggle_breakpoint 0x11 set).0 ≡ false) × (has (toggle_breakpoint 0x11 set).1 0x11 ≡ false)
unfolding toggle_breakpoint contains
toggle_breakpoint_lem_example = toggle_breakpoint_lem 0x11 0x11 set

add-remove_breakpoint_example :
    (has (add_breakpoint 0x12 set) 0x12 ≡ true) × (has (remove_breakpoint 0x12 set) 0x12 ≡ false)
add-remove_breakpoint_example = add-remove_breakpoint 0x12 0x12 set

debugger-run_returns_example :
    (final : Machine NullIoBus) × (result : Result RunStop CpuError) × (run null_io_bus 20 9 set
        machine
      ≡ some (final, result))
    × IsStop null_io_bus set 0 9 final result
    × Passes null_io_bus set final machine
    × IsMachine (λ b. Unit {0}) final
debugger-run_returns_example =
    debugger-run_returns null_io_bus (λ b. Unit {0}) null_io_bus-IsByteBus set 9 machine
      (omega arith) machine-IsMachine

debugger-run-new_example :
    run null_io_bus 20 9 new machine ≡ renamed_outcome (Cpu.run null_io_bus 20 9 machine)
debugger-run-new_example =
    debugger-run-new null_io_bus (λ b. Unit {0}) null_io_bus-IsByteBus 20 9 machine (omega arith)
      machine-IsMachine

-- The run stops in front of the second instruction.
stops : Option (Machine NullIoBus × Result RunStop CpuError) → Option (Result RunStop CpuError × ℕ)
stops none = none
stops (some (m, r)) = some (r, m.state.executed_instructions)

breakpoint_stops_before_fetch :
    stops (run null_io_bus 20 9 set machine) ≡ some (ok (breakpoint 0x11), 1)
unfolding stops run run_loop contains Cpu.step Cpu.tick Cpu.interrupt_due Cpu.masked Cpu.fetch
    Cpu.perform decode decode_immediate from_cells execute execute_immediate logic update_nz
    set_flag find immediate_opcode
breakpoint_stops_before_fetch = refl
