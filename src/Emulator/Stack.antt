-- ===== src/Emulator/Stack.antt =====
-- The stack discipline: PUSH and POP are inverse, RET undoes CALL, and IRET undoes the entry into an
-- interrupt, for any code in between that leaves the frame and the stack pointer as they were.
use ex3_rust.Prelude.{
  ℕ, ap, ◌+◌, ◌-◌, ◌%◌, ◌^◌, ◌<◌, ◌≡◌, ◌≢◌, refl, false, arith, IsU16, if◌then◌else◌,
}
use ex3_rust.Prelude.Bits.{bit_and-low_mask}
use ex3_rust.Isa.{call}
use ex3_rust.Emulator.State.{Machine}
use ex3_rust.Emulator.Alu.{set_flag}
use ex3_rust.Emulator.Alu.Flags.{Flag, flag, ien, same, flag-set_flag}
use ex3_rust.Emulator.Execute.{push, pop, ret, iret, execute_branch, branch_taken}
use ex3_rust.Emulator.Step.{enter_interrupt}

-- The address `k` words below `a` on the stack, which wraps round the memory.
abbrev pub below : ℕ → ℕ → ℕ
below a k = (a + 65536 - k) % 65536

module _ {B : Type 0} where
  -- Popping what was pushed gives the word and the state from before, and only the word at the new
  -- top of the stack was written.
  pub pop-push :
      (v : ℕ) (m : Machine B)
      → IsU16 m.state.sp
      → (pop (push v m).memory (push v m).state ≡ (v, m.state))
        × ((a : ℕ) → a ≢ (push v m).state.sp → (push v m).memory a ≡ m.memory a)
  unfolding pop push
  pop-push v m h = (ground arith, λ a ne. ground arith)

  -- CALL jumps to its target, and from any later machine with the same stack pointer and the same
  -- word on top of the stack, RET goes back behind the call and frees the frame.
  pub ret-call :
      (target : ℕ) (m later : Machine B)
      → IsU16 m.state.sp
      → IsU16 m.state.pc
      → let called = execute_branch call target m in
        later.state.sp ≡ called.state.sp
        → later.memory called.state.sp ≡ called.memory called.state.sp
        → (called.state.pc ≡ target)
          × ((ret later.memory later.state).pc ≡ m.state.pc)
          × ((ret later.memory later.state).sp ≡ m.state.sp)
  unfolding ret execute_branch branch_taken
  ret-call target m later hs hp same_sp same_top = (refl, ground arith, ground arith)

  -- The entry into an interrupt stores the status register and, below it, the program counter
  -- under the stack pointer, which wraps; it writes no other memory, turns IEN off and keeps the
  -- other flags, the accumulator and the count, and sets the program counter to 0.
  pub enter_interrupt_frame :
      (m : Machine B)
      → IsU16 m.state.sp
      → IsU16 m.state.pc
      → m.state.psr < 32
      → let t = enter_interrupt m in
        (t.state.pc ≡ 0)
        × (t.state.sp ≡ below m.state.sp 2)
        × (t.memory (below m.state.sp 1) ≡ m.state.psr)
        × (t.memory (below m.state.sp 2) ≡ m.state.pc)
        × ((a : ℕ) → a ≢ below m.state.sp 1 → a ≢ below m.state.sp 2 → t.memory a ≡ m.memory a)
        × ((f : Flag) → flag f t.state ≡ (if same f ien then false else flag f m.state))
        × (t.state.ac ≡ m.state.ac)
        × (t.state.executed_instructions ≡ m.state.executed_instructions)
  unfolding enter_interrupt push set_flag
  enter_interrupt_frame m hs hp hf = (
    refl,
    ground arith,
    ground arith,
    ground arith,
    λ a ne₁ ne₂. ground arith,
    λ f. flag-set_flag f ien false m.state hf,
    refl,
    refl,
  )

  -- IRET undoes the entry into an interrupt: from any later machine whose stack pointer is that of
  -- the handler's start and whose two frame words are intact, it restores the program counter, the
  -- stack pointer and the status register with its interrupt enable flag.
  pub iret-enter_interrupt :
      (m later : Machine B)
      → IsU16 m.state.sp
      → IsU16 m.state.pc
      → m.state.psr < 32
      → let t = enter_interrupt m in
        later.state.sp ≡ t.state.sp
        → later.memory (below m.state.sp 1) ≡ t.memory (below m.state.sp 1)
        → later.memory (below m.state.sp 2) ≡ t.memory (below m.state.sp 2)
        → let back = iret later.memory later.state in
          (back.pc ≡ m.state.pc) × (back.sp ≡ m.state.sp) × (back.psr ≡ m.state.psr)
  unfolding iret
  iret-enter_interrupt m later hs hp hf same_sp same_psr same_pc =
      let (_, sp_frame, psr_frame, pc_frame, _, _, _, _) = enter_interrupt_frame m hs hp hf in
      let top : (later.state.sp + 1) % 2 ^ 16 ≡ below m.state.sp 1 = omega arith in
      let slot : later.state.sp ≡ below m.state.sp 2 = omega arith in
      (
        ground (arith, ap later.memory slot),
        omega arith,
        ground (
          arith,
          ap later.memory top,
          bit_and-low_mask 5 (later.memory ((later.state.sp + 1) % 2 ^ 16)),
        ),
      )
