-- ===== src/Emulator/Tests.antt =====
-- Tests of the emulator, some of them those of the source, and its theorems at concrete machines.
use ex3_rust.Prelude.{
  ℕ, ◌≤◌, ◌≡◌, refl, ◌≢◌, true, false, Option, some, none, [], ◌∷◌, ◌++◌, Result, ok, err, arith,
  find, if◌then◌else◌,
}
use ex3_rust.Isa.{
  ImmediateOp, BranchOp, DecodeError, decode, decode_immediate, decode_branch, decode_system,
  immediate_opcode, branch_opcode, system_opcode,
}
use ex3_rust.Emulator.Bus.{IoKind, serial, parallel, NullIoBus, null_io_bus, null_io_bus-IsByteBus}
use ex3_rust.Emulator.DeterministicBus.{
  DeterministicIoBus, default_bus, read_input, output, write_output, input_ready, output_ready,
  tick,
}
use ex3_rust.Emulator.DeterministicBus.Queues.{
  queue, read_input-cons, push_all, read_all, read_all-push_all, write_output_lem,
}
use ex3_rust.Emulator.LegacyBus as Legacy
use ex3_rust.Emulator.LegacyBus.Delivery.{unread, tick-unread, line, ticks, delivered_within}
use ex3_rust.Emulator.LegacyBus.{LegacyIoBus}
use ex3_rust.Emulator.State.{Machine, CpuError}
use ex3_rust.Emulator.Memory.{from_cells}
use ex3_rust.Emulator.Alu.{set_flag, update_nz, add, subtraction_flags, compare, logic}
use ex3_rust.Emulator.Alu.Flags.{same, Flag, n, ien, flag, bit_of, flag-set_flag}
use ex3_rust.Emulator.Alu.Arithmetic.{HasFlags, SameButAlu, add_lem, subtraction_flags_lem}
use ex3_rust.Emulator.Execute.{
  push, pop, ret, iret, execute, execute_immediate, execute_branch, branch_taken,
}
use ex3_rust.Emulator.Step
use ex3_rust.Emulator.Execute
use ex3_rust.Emulator.Step.{enter_interrupt, step, run}
use ex3_rust.Emulator.Constants.{execute_immediate-halves}
use ex3_rust.Emulator.Branches.{branch_taken-compare}
use ex3_rust.Emulator.Invariant.{IsMachine, step-IsMachine}
use ex3_rust.Emulator.Stack.{pop-push, ret-call, enter_interrupt_frame, iret-enter_interrupt}
use ex3_rust.Emulator.Run.{Counted, step-Counted, step-err, IsRunResult, run_returns}
use ex3_rust.Emulator.Samples.{start_state, loaded, machine, machine-IsMachine}

abbrev lost : Machine NullIoBus
lost = record machine { state = record start_state { pc = 0x13 } }

-- What a run returns, and where the processor stands after it.
reported : Option (Machine NullIoBus × Result ℕ CpuError) → Option (Result ℕ CpuError × ℕ)
reported none = none
reported (some (m, r)) = some (r, m.state.pc)

flag-set_flag_example : flag n (set_flag (bit_of ien) false start_state) ≡ false
flag-set_flag_example = flag-set_flag n ien false start_state (omega arith)

-- −1 + 1: the sum is 0 with a carry and without overflow.
add_lem_example :
    ((add 1 start_state).ac ≡ 0)
    × HasFlags (add 1 start_state) false true true false true
    × SameButAlu start_state (add 1 start_state)
add_lem_example = add_lem 1 start_state (omega arith) (omega arith) (omega arith)

-- 5 − 7 borrows.
subtraction_flags_lem_example :
    ((subtraction_flags 5 7 start_state).0 ≡ 0xffff_fffe)
    × ((subtraction_flags 5 7 start_state).1.ac ≡ 0xffff_ffff)
    × HasFlags (subtraction_flags 5 7 start_state).1 true false false false true
    × SameButAlu start_state (subtraction_flags 5 7 start_state).1
subtraction_flags_lem_example =
    subtraction_flags_lem 5 7 start_state (omega arith) (omega arith) (omega arith)

-- −1 is below 1 as a signed number.
branch_taken-compare_example : branch_taken BranchOp.blt (compare 1 start_state) ≡ true
branch_taken-compare_example =
    branch_taken-compare BranchOp.blt 1 start_state (omega arith) (omega arith) (omega arith)

step-IsMachine_example : IsMachine (λ b. Unit {0}) (step null_io_bus machine).machine
step-IsMachine_example =
    step-IsMachine null_io_bus (λ b. Unit {0}) null_io_bus-IsByteBus machine machine-IsMachine

pop-push_example :
    (pop (push 7 machine).memory (push 7 machine).state ≡ (7, start_state))
    × ((a : ℕ) → a ≢ (push 7 machine).state.sp → (push 7 machine).memory a ≡ loaded a)
pop-push_example = pop-push 7 machine (omega arith)

ret-call_example :
    let called = execute_branch BranchOp.call 0x40 machine in
    (called.state.pc ≡ 0x40)
    × ((ret called.memory called.state).pc ≡ 0x10)
    × ((ret called.memory called.state).sp ≡ 0x8000)
ret-call_example =
    ret-call 0x40 machine (execute_branch BranchOp.call 0x40 machine) (omega arith) (omega arith)
      refl refl

enter_interrupt_frame_example :
    let t = enter_interrupt machine in
    (t.state.pc ≡ 0)
    × (t.state.sp ≡ 0x7ffe)
    × (t.memory 0x7fff ≡ 16)
    × (t.memory 0x7ffe ≡ 0x10)
    × ((a : ℕ) → a ≢ 0x7fff → a ≢ 0x7ffe → t.memory a ≡ loaded a)
    × ((f : Flag) → flag f t.state ≡ (if same f ien then false else flag f start_state))
    × (t.state.ac ≡ 0xffff_ffff)
    × (t.state.executed_instructions ≡ 0)
enter_interrupt_frame_example =
    enter_interrupt_frame machine (omega arith) (omega arith) (omega arith)

iret-enter_interrupt_example :
    let back = iret (enter_interrupt machine).memory (enter_interrupt machine).state in
    (back.pc ≡ 0x10) × (back.sp ≡ 0x8000) × (back.psr ≡ 16)
iret-enter_interrupt_example =
    iret-enter_interrupt machine (enter_interrupt machine) (omega arith) (omega arith) (omega arith)
      refl refl refl

step-Counted_example : Counted null_io_bus machine (step null_io_bus machine)
step-Counted_example = step-Counted null_io_bus machine refl (omega arith)

lost-step : (step null_io_bus lost).result ≡ err (CpuError.decode (record { word = 0xffff_ffff }))
unfolding step Step.tick Step.interrupt_due Step.masked Step.fetch Step.perform decode from_cells
lost-step = refl

step-err_example :
    (d : DecodeError) × (decode (loaded 0x13) ≡ err d)
    × (CpuError.decode (record { word = 0xffff_ffff }) ≡ CpuError.decode d)
    × ((step null_io_bus lost).machine.state.halted ≡ true)
step-err_example = step-err null_io_bus lost _ refl lost-step

run_returns_example :
    (final : Machine NullIoBus) × (result : Result ℕ CpuError) × (run null_io_bus 20 9 machine
      ≡ some (final, result))
    × IsRunResult null_io_bus 0 9 machine final result
    × IsMachine (λ b. Unit {0}) final
run_returns_example =
    run_returns null_io_bus (λ b. Unit {0}) null_io_bus-IsByteBus 9 machine (omega arith)
      machine-IsMachine

execute_immediate-halves_example :
    ((execute_immediate ImmediateOp.ldlo 0x5678
        (execute_immediate ImmediateOp.ldhi 0x1234 start_state)).ac
      ≡ 0x1234_5678)
    × ((execute_immediate ImmediateOp.ldhi 0x1234
          (execute_immediate ImmediateOp.ldlo 0x5678 start_state)).ac
        ≡ 0x1234_5678)
execute_immediate-halves_example =
    execute_immediate-halves 0x1234 0x5678 start_state (omega arith) (omega arith) (omega arith)

read_all-push_all_example :
    read_all serial (1 ∷ 2 ∷ []) (push_all serial (1 ∷ 2 ∷ []) default_bus) ≡ some 1 ∷ some 2 ∷ []
read_all-push_all_example = read_all-push_all serial (1 ∷ 2 ∷ []) default_bus refl

abbrev fed : DeterministicIoBus
fed = record default_bus { serial_input = 65 ∷ 66 ∷ [] }

read_input-cons_example :
    let (got, b') = read_input serial fed in
    (input_ready serial fed ≡ true)
    × (got ≡ some 65)
    × (queue serial b' ≡ 66 ∷ [])
    × (queue parallel b' ≡ [])
    × ((j : IoKind) → output j b' ≡ output j fed)
read_input-cons_example = read_input-cons serial fed 65 (66 ∷ []) refl

write_output_lem_example :
    let b' = write_output serial 65 fed in
    (output serial b' ≡ output serial fed ++ 65 ∷ [])
    × (output parallel b' ≡ output parallel fed)
    × (output_ready serial b' ≡ false)
    × (output_ready parallel b' ≡ output_ready parallel fed)
    × (output_ready serial (tick (record { interrupt_enabled = true; interrupt_mask = 8 }) b')
        ≡ true)
    × (output_ready parallel (tick (record { interrupt_enabled = true; interrupt_mask = 8 }) b')
        ≡ true)
write_output_lem_example =
    write_output_lem serial 65 (record { interrupt_enabled = true; interrupt_mask = 8 }) fed

abbrev typed : LegacyIoBus
typed = record {
  inner = default_bus;
  rng = 9;
  serial_pending = 65 ∷ 66 ∷ [];
  parallel_pending = [];
  serial_delay = none;
  parallel_delay = none;
}

tick-unread_example :
    unread serial (Legacy.tick (record { interrupt_enabled = true; interrupt_mask = 8 }) typed)
    ≡ 65 ∷ 66 ∷ []
tick-unread_example =
    tick-unread (record { interrupt_enabled = true; interrupt_mask = 8 }) typed serial

delivered_within_example :
    (k : ℕ) × (k ≤ 52)
    × (line serial (ticks k (record { interrupt_enabled = true; interrupt_mask = 8 }) typed)
        ≡ record { delay = none; pending = 66 ∷ []; ready = 65 ∷ [] })
delivered_within_example =
    delivered_within serial (record { interrupt_enabled = true; interrupt_mask = 8 }) 65 (66 ∷ [])
      refl typed none refl tt (record { pending = refl; nothing_ready = refl })

-- The sample program: 5 is below 7, so the branch is taken and the fourth instruction halts.
run_of_program : reported (run null_io_bus 9 9 machine) ≡ some (ok 4, 0x15)
unfolding reported run Step.run_loop step Step.tick Step.interrupt_due Step.masked Step.fetch
    Step.perform decode decode_immediate decode_branch decode_system from_cells execute
    execute_immediate execute_branch Execute.execute_system compare subtraction_flags logic
    update_nz set_flag branch_taken find immediate_opcode branch_opcode system_opcode
run_of_program = refl
