-- ===== src/Emulator/Alu.antt =====
-- The methods of `Cpu` that compute on the accumulator and the flags. Each changes `self.state`
-- alone, and is a function of it.
pub mod Flags
pub mod Overflow
pub mod Arithmetic
use ex3_rust.Prelude.{
  ℕ, ◌+◌, ◌^◌, Bool, ◌==◌, leb, if◌then◌else◌, bit_and, bit_or, bit_xor, bit_not, wrapping_add,
  wrapping_sub,
}
use ex3_rust.Emulator.State.{CpuState, psr_v, psr_c, psr_z, psr_n, psr_mask, test_flag}

unfoldable pub set_flag : ℕ → Bool → CpuState → CpuState
set_flag mask value s =
    let psr = if value then bit_or s.psr mask else bit_and s.psr (bit_not 32 mask) in
    record s { psr = bit_and psr psr_mask }

unfoldable pub update_nz : ℕ → CpuState → CpuState
update_nz v s = let s₁ = set_flag psr_n (test_flag v 0x8000_0000) s in set_flag psr_z (v == 0) s₁

unfoldable pub add : ℕ → CpuState → CpuState
add b s =
    let a = s.ac in
    let r = wrapping_add 32 a b in
    let c = leb (2 ^ 32) (a + b) in
    let v = test_flag (bit_and (bit_not 32 (bit_xor a b)) (bit_xor a r)) 0x8000_0000 in
    let s₁ = record s { ac = r } in
    let s₂ = update_nz r s₁ in let s₃ = set_flag psr_c c s₂ in set_flag psr_v v s₃

-- The result and the state with the new flags.
unfoldable pub subtraction_flags : ℕ → ℕ → CpuState → ℕ × CpuState
subtraction_flags a b s =
    let r = wrapping_sub 32 a b in
    let s₁ = update_nz r s in
    let s₂ = set_flag psr_c (leb b a) s₁ in
    let s₃ = set_flag psr_v (test_flag (bit_and (bit_xor a b) (bit_xor a r)) 0x8000_0000) s₂ in
    (r, s₃)

unfoldable pub sub : ℕ → CpuState → CpuState
sub b s = let (r, s') = subtraction_flags s.ac b s in record s' { ac = r }

unfoldable pub compare : ℕ → CpuState → CpuState
compare b s = (subtraction_flags s.ac b s).1

unfoldable pub logic : ℕ → CpuState → CpuState
logic v s = update_nz v (record s { ac = v })
