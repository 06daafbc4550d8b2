-- ===== src/Emulator/Branches.antt =====
-- A comparison followed by a conditional branch: the branch is taken exactly when its relation
-- holds of the operands, signed or unsigned.
use ex3_rust.Prelude.{
  ℕ, ◌+◌, ◌-◌, ◌%◌, ◌^◌, ◌≡◌, refl, ◌∙◌, Bool, true, not, ◌==◌, arith, leb, ltb, signed32, ◌-ℤ◌,
  ltb_ℤ, leb_ℤ, bool_eq, IsU32,
}
use ex3_rust.Isa.{BranchOp, jmp, call, beq, bne, blt, bge, bgt, ble, bult, buge, bugt, bule}
use ex3_rust.Emulator.State.{CpuState}
use ex3_rust.Emulator.Alu.{compare, subtraction_flags}
use ex3_rust.Emulator.Alu.Flags.{IsPsr}
use ex3_rust.Emulator.Alu.Overflow.{sign, out_of_range}
use ex3_rust.Emulator.Alu.Arithmetic.{HasFlags, subtraction_flags_lem}
use ex3_rust.Emulator.Execute.{branch_taken}

-- The relation that each branch names, between the compared words: the `u` forms compare them as
-- unsigned numbers, the others as signed ones.
abbrev pub relation : BranchOp → ℕ → ℕ → Bool
relation jmp a b = true
relation call a b = true
relation beq a b = a == b
relation bne a b = not (a == b)
relation blt a b = ltb_ℤ (signed32 a) (signed32 b)
relation bge a b = leb_ℤ (signed32 b) (signed32 a)
relation bgt a b = ltb_ℤ (signed32 b) (signed32 a)
relation ble a b = leb_ℤ (signed32 a) (signed32 b)
relation bult a b = ltb a b
relation buge a b = leb b a
relation bugt a b = ltb b a
relation bule a b = leb a b

-- The flags that a comparison of `a` and `b` leaves.
abbrev Compared : ℕ → ℕ → CpuState → Bool → Type 0
Compared a b s enabled =
    let r = (a + 2 ^ 32 - b) % 2 ^ 32 in
    HasFlags s (sign r) (r == 0) (leb b a) (out_of_range (signed32 a -ℤ signed32 b)) enabled

module _ (a b : ℕ) (ha : IsU32 a) (hb : IsU32 b) where
  zero_difference : ((a + 2 ^ 32 - b) % 2 ^ 32 == 0) ≡ (a == b)
  zero_difference = ground arith

  -- N and V agree exactly when the first operand is not the smaller one.
  signs_agree :
      bool_eq (sign ((a + 2 ^ 32 - b) % 2 ^ 32)) (out_of_range (signed32 a -ℤ signed32 b))
      ≡ leb_ℤ (signed32 b) (signed32 a)
  signs_agree = ground arith

  branch_of_flags :
      (op : BranchOp) (s : CpuState) (enabled : Bool)
      → Compared a b s enabled
      → branch_taken op s ≡ relation op a b
  unfolding branch_taken
  branch_of_flags jmp s e h = refl
  branch_of_flags call s e h = refl
  branch_of_flags beq s e h = h.is_z ∙ zero_difference
  branch_of_flags bne s e h = rw (h.is_z, zero_difference)
  branch_of_flags blt s e h = rw (h.is_n, h.is_v, signs_agree) (ground arith)
  branch_of_flags bge s e h = rw (h.is_n, h.is_v, signs_agree)
  branch_of_flags bgt s e h =
      rw (h.is_n, h.is_v, h.is_z, zero_difference, signs_agree) (ground arith)
  branch_of_flags ble s e h =
      rw (h.is_n, h.is_v, h.is_z, zero_difference, signs_agree) (ground arith)
  branch_of_flags bult s e h = rw h.is_c (ground arith)
  branch_of_flags buge s e h = h.is_c
  branch_of_flags bugt s e h = rw (h.is_c, h.is_z, zero_difference) (ground arith)
  branch_of_flags bule s e h = rw (h.is_c, h.is_z, zero_difference) (ground arith)

-- After `compare` (CMP) of a 32-bit accumulator with a 32-bit word, each of the twelve branches is
-- taken exactly when its relation holds between the two: the plain forms compare them as signed
-- integers, the `u` forms as unsigned ones.
pub branch_taken-compare :
    (op : BranchOp) (b : ℕ) (s : CpuState)
    → IsU32 s.ac
    → IsU32 b
    → IsPsr s
    → branch_taken op (compare b s) ≡ relation op s.ac b
unfolding compare
branch_taken-compare op b s ha hb hs =
    let (_, _, flags, _) = subtraction_flags_lem s.ac b s ha hb hs in
    branch_of_flags s.ac b ha hb op (subtraction_flags s.ac b s).1 _ flags
