-- ===== src/Emulator/Alu/Arithmetic.antt =====
-- `add` and `subtraction_flags` in terms of unsigned and signed integers, with lemmas on the registers
-- that the methods leave.
use ex3_rust.Prelude.{
  ℕ, subst, ◌+◌, ◌-◌, ◌%◌, ◌^◌, ◌<◌, ◌≡◌, refl, ◌∙◌, Bool, ◌==◌, if◌then◌else◌, arith, leb,
  signed32, ◌+ℤ◌, ◌-ℤ◌, IsU32,
}
use ex3_rust.Emulator.State.{CpuState, psr_c, psr_v}
use ex3_rust.Emulator.Alu.{set_flag, update_nz, add, subtraction_flags}
use ex3_rust.Emulator.Alu.Flags.{
  Flag, v, c, z, n, ien, flag, same, IsPsr, flag-set_flag, set_flag-IsPsr, flag-update_nz,
  update_nz-IsPsr,
}
use ex3_rust.Emulator.Alu.Overflow.{
  sign, out_of_range, sub_overflow_test, add_overflow_test, add_signs-out_of_range,
  sub_signs-out_of_range,
}

-- The five flags of a state.
pub record HasFlags (s : CpuState) (negative zero carry overflow enabled : Bool) : Type 0 where
  pub is_n : flag n s ≡ negative
  pub is_z : flag z s ≡ zero
  pub is_c : flag c s ≡ carry
  pub is_v : flag v s ≡ overflow
  pub is_ien : flag ien s ≡ enabled
  pub in_range : IsPsr s

carry_overflow :
    (f : Flag) (carry overflow : Bool) (s : CpuState)
    → IsPsr s
    → flag f (set_flag psr_v overflow (set_flag psr_c carry s))
      ≡ (if same f v then overflow else if same f c then carry else flag f s)
carry_overflow f carry overflow s hs = rw (
  flag-set_flag f v overflow (set_flag psr_c carry s) (set_flag-IsPsr _ _ s),
  flag-set_flag f c carry s hs,
)

-- The flags that `add` and `subtraction_flags` set in turn: N and Z, then C, then V.
flags_in_turn :
    (r : ℕ) (carry overflow : Bool) (s : CpuState)
    → r < 2 ^ 32
    → IsPsr s
    → HasFlags
        (set_flag psr_v overflow (set_flag psr_c carry (update_nz r s)))
        (sign r)
        (r == 0)
        carry
        overflow
        (flag ien s)
flags_in_turn r carry overflow s hr hs =
    let narrow = update_nz-IsPsr r s in
    record {
      is_n = carry_overflow n carry overflow (update_nz r s) narrow ∙ flag-update_nz n r s hr hs;
      is_z = carry_overflow z carry overflow (update_nz r s) narrow ∙ flag-update_nz z r s hr hs;
      is_c = carry_overflow c carry overflow (update_nz r s) narrow;
      is_v = carry_overflow v carry overflow (update_nz r s) narrow;
      is_ien =
          carry_overflow ien carry overflow (update_nz r s) narrow ∙ flag-update_nz ien r s hr hs;
      in_range = set_flag-IsPsr _ _ _;
    }

-- The operations write nothing but the accumulator and the flags.
pub record SameButAlu (s t : CpuState) : Type 0 where
  pub same_pc : t.pc ≡ s.pc
  pub same_sp : t.sp ≡ s.sp
  pub same_halted : t.halted ≡ s.halted
  pub same_pending : t.interrupt_pending ≡ s.interrupt_pending
  pub same_ir : t.ir ≡ s.ir
  pub same_count : t.executed_instructions ≡ s.executed_instructions

add-flags :
    (b : ℕ) (s : CpuState)
    → IsU32 s.ac
    → IsU32 b
    → IsPsr s
    → let r = (s.ac + b) % 2 ^ 32 in
      HasFlags
        (add b s)
        (sign r)
        (r == 0)
        (leb (2 ^ 32) (s.ac + b))
        (out_of_range (signed32 s.ac +ℤ signed32 b))
        (flag ien s)
unfolding add
add-flags b s ha hb hs =
    let r = (s.ac + b) % 2 ^ 32 in
    let s₁ = record s { ac = r } in
    subst (λ o. HasFlags (add b s) (sign r) (r == 0) (leb (2 ^ 32) (s.ac + b)) o (flag ien s))
      (add_overflow_test s.ac b r ha hb (omega arith) ∙ add_signs-out_of_range s.ac b ha hb)
      (flags_in_turn r (leb (2 ^ 32) (s.ac + b)) _ s₁ (omega arith) hs)

-- `add` of two 32-bit words: the accumulator gets the sum that wraps, N and Z are those of the
-- sum, C is the carry out of 32 bits, V tells that the sum of the signed values does not fit 32
-- bits, and IEN and the other registers stay.
pub add_lem :
    (b : ℕ) (s : CpuState)
    → IsU32 s.ac
    → IsU32 b
    → IsPsr s
    → let r = (s.ac + b) % 2 ^ 32 in
      ((add b s).ac ≡ r)
      × HasFlags
          (add b s)
          (sign r)
          (r == 0)
          (leb (2 ^ 32) (s.ac + b))
          (out_of_range (signed32 s.ac +ℤ signed32 b))
          (flag ien s)
      × SameButAlu s (add b s)
unfolding add update_nz set_flag
add_lem b s ha hb hs = (
  refl,
  add-flags b s ha hb hs,
  record {
    same_pc = refl;
    same_sp = refl;
    same_halted = refl;
    same_pending = refl;
    same_ir = refl;
    same_count = refl;
  },
)

subtraction-flags :
    (a b : ℕ) (s : CpuState)
    → IsU32 a
    → IsU32 b
    → IsPsr s
    → let r = (a + 2 ^ 32 - b) % 2 ^ 32 in
      HasFlags
        (subtraction_flags a b s).1
        (sign r)
        (r == 0)
        (leb b a)
        (out_of_range (signed32 a -ℤ signed32 b))
        (flag ien s)
unfolding subtraction_flags
subtraction-flags a b s ha hb hs =
    let r = (a + 2 ^ 32 - b) % 2 ^ 32 in
    subst (λ o. HasFlags (subtraction_flags a b s).1 (sign r) (r == 0) (leb b a) o (flag ien s))
      (sub_overflow_test a b r ha hb (omega arith) ∙ sub_signs-out_of_range a b ha hb)
      (flags_in_turn r (leb b a) _ s (omega arith) hs)

-- `subtraction_flags` of two 32-bit words: the difference wraps, N and Z are those of the
-- difference, C tells that there is no borrow, V that the signed difference does not fit 32 bits,
-- and IEN, the accumulator and the other registers stay.
pub subtraction_flags_lem :
    (a b : ℕ) (s : CpuState)
    → IsU32 a
    → IsU32 b
    → IsPsr s
    → let r = (a + 2 ^ 32 - b) % 2 ^ 32 in
      ((subtraction_flags a b s).0 ≡ r)
      × ((subtraction_flags a b s).1.ac ≡ s.ac)
      × HasFlags
          (subtraction_flags a b s).1
          (sign r)
          (r == 0)
          (leb b a)
          (out_of_range (signed32 a -ℤ signed32 b))
          (flag ien s)
      × SameButAlu s (subtraction_flags a b s).1
unfolding subtraction_flags update_nz set_flag
subtraction_flags_lem a b s ha hb hs = (
  refl,
  refl,
  subtraction-flags a b s ha hb hs,
  record {
    same_pc = refl;
    same_sp = refl;
    same_halted = refl;
    same_pending = refl;
    same_ir = refl;
    same_count = refl;
  },
)
