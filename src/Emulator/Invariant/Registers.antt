-- ===== src/Emulator/Invariant/Registers.antt =====
-- Every method of `Cpu` that works on the registers keeps them in range.
use ex3_rust.Prelude.{ℕ, ◌+◌, ◌%◌, ◌^◌, Bool, arith, IsU16, IsU32}
use ex3_rust.Prelude.Bits.{bit_and-lt, bit_or-lt, bit_xor-lt, bit_and-low_mask}
use ex3_rust.Isa.Immediate16
use ex3_rust.Isa.{ImmediateOp}
use ex3_rust.Emulator.State.{CpuState}
use ex3_rust.Emulator.Memory.{ArrayMemory}
use ex3_rust.Emulator.Alu.{set_flag, update_nz, add, subtraction_flags, sub, compare, logic}
use ex3_rust.Emulator.Alu.Flags.{set_flag-IsPsr}
use ex3_rust.Emulator.Execute.{skip, ret, iret, execute_immediate}
use ex3_rust.Emulator.Invariant.Defs.{IsState}

pub set_flag-IsState :
    (mask : ℕ) (b : Bool) (s : CpuState) → IsState s → IsState (set_flag mask b s)
unfolding set_flag
set_flag-IsState mask b s h = ground (arith, set_flag-IsPsr mask b s)

pub update_nz-IsState : (v : ℕ) (s : CpuState) → IsState s → IsState (update_nz v s)
unfolding update_nz
update_nz-IsState v s h = set_flag-IsState _ _ _ (set_flag-IsState _ _ s h)

pub logic-IsState : (v : ℕ) (s : CpuState) → IsU32 v → IsState s → IsState (logic v s)
unfolding logic
logic-IsState v s hv h = update_nz-IsState v _ (ground arith)

pub add-IsState : (b : ℕ) (s : CpuState) → IsState s → IsState (add b s)
unfolding add
add-IsState b s h =
    set_flag-IsState _ _ _ (set_flag-IsState _ _ _ (update_nz-IsState _ _ (ground arith)))

pub subtraction_flags-IsState :
    (a b : ℕ) (s : CpuState) → IsState s → IsState (subtraction_flags a b s).1
unfolding subtraction_flags
subtraction_flags-IsState a b s h =
    set_flag-IsState _ _ _ (set_flag-IsState _ _ _ (update_nz-IsState _ s h))

pub compare-IsState : (b : ℕ) (s : CpuState) → IsState s → IsState (compare b s)
unfolding compare
compare-IsState b s h = subtraction_flags-IsState s.ac b s h

difference-IsU32 : (a b : ℕ) (s : CpuState) → IsU32 (subtraction_flags a b s).0
unfolding subtraction_flags
difference-IsU32 a b s = omega arith

pub sub-IsState : (b : ℕ) (s : CpuState) → IsState s → IsState (sub b s)
unfolding sub
sub-IsState b s h = ground (arith, subtraction_flags-IsState s.ac b s h, difference-IsU32 s.ac b s)

pub skip-IsState : (s : CpuState) → IsState s → IsState (skip s)
unfolding skip
skip-IsState s h = ground arith

pub ret-IsState : (mem : ArrayMemory) (s : CpuState) → IsState s → IsState (ret mem s)
unfolding ret
ret-IsState mem s h = ground arith

pub iret-IsState : (mem : ArrayMemory) (s : CpuState) → IsState s → IsState (iret mem s)
unfolding iret
iret-IsState mem s h = ground (arith, bit_and-low_mask 5 (mem ((s.sp + 1) % 2 ^ 16)))

sign_extended-IsU32 : (v : ℕ) → IsU32 (Immediate16.sign_extended v)
sign_extended-IsU32 v = ground arith

pub execute_immediate-IsState :
    (op : ImmediateOp) (v : ℕ) (s : CpuState)
    → IsU16 v
    → IsState s
    → IsState (execute_immediate op v s)
unfolding execute_immediate
execute_immediate-IsState ImmediateOp.add v s hv h = add-IsState _ s h
execute_immediate-IsState ImmediateOp.sub v s hv h = sub-IsState _ s h
execute_immediate-IsState ImmediateOp.and v s hv h =
    logic-IsState _ s (bit_and-lt 32 s.ac v h.ac-IsU32 (omega arith)) h
execute_immediate-IsState ImmediateOp.or v s hv h =
    logic-IsState _ s (bit_or-lt 32 s.ac v h.ac-IsU32 (omega arith)) h
execute_immediate-IsState ImmediateOp.xor v s hv h =
    logic-IsState _ s (bit_xor-lt 32 s.ac v h.ac-IsU32 (omega arith)) h
execute_immediate-IsState ImmediateOp.lda v s hv h = logic-IsState _ s (sign_extended-IsU32 v) h
execute_immediate-IsState ImmediateOp.cmp v s hv h = compare-IsState _ s h
execute_immediate-IsState ImmediateOp.ldhi v s hv h =
    logic-IsState _ s
      (bit_or-lt 32 _ _ (bit_and-lt 32 s.ac 0xffff h.ac-IsU32 (omega arith)) (omega arith)) h
execute_immediate-IsState ImmediateOp.ldlo v s hv h =
    logic-IsState _ s
      (bit_or-lt 32 _ _ (bit_and-lt 32 s.ac 0xffff_0000 h.ac-IsU32 (omega arith)) (omega arith)) h
execute_immediate-IsState ImmediateOp.adjsp v s hv h = ground arith
