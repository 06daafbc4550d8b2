-- ===== src/Emulator/Constants.antt =====
-- LDHI and LDLO build any word in the accumulator, in either order.
use ex3_rust.Prelude.{ℕ, ◌+◌, ◌*◌, ◌/◌, ◌%◌, ◌^◌, ◌<◌, ◌≡◌, arith, IsU16, IsU32, bit_and, bit_or}
use ex3_rust.Prelude.Bits.{bit_and-low_mask, bit_and-high_mask, bit_or-shift, low_or_high}
use ex3_rust.Isa.{ImmediateOp}
use ex3_rust.Emulator.State.{CpuState}
use ex3_rust.Emulator.Alu.{logic, update_nz, set_flag}
use ex3_rust.Emulator.Execute.{execute_immediate}

high_half :
    (half a : ℕ)
    → a < 2 ^ 32
    → bit_or (bit_and a 0xffff) (half * 2 ^ 16) ≡ half * 2 ^ 16 + a % 2 ^ 16
high_half half a h =
    ground (arith, bit_and-low_mask 16 a, low_or_high half (a % 2 ^ 16) (omega arith))

low_half :
    (half a : ℕ)
    → half < 2 ^ 16
    → a < 2 ^ 32
    → bit_or (bit_and a 0xffff_0000) half ≡ a / 2 ^ 16 * 2 ^ 16 + half
low_half half a hh h = ground (
  arith,
  bit_and-high_mask 16 a 0xffff,
  bit_and-low_mask 16 (a / 2 ^ 16),
  bit_or-shift 16 (a / 2 ^ 16) half hh,
)

-- LDHI and LDLO of two 16-bit halves, in either order, put the word of the halves into a 32-bit
-- accumulator, whatever it held.
pub execute_immediate-halves :
    (hi lo : ℕ) (s : CpuState)
    → IsU16 hi
    → IsU16 lo
    → IsU32 s.ac
    → let word = hi * 2 ^ 16 + lo in
      ((execute_immediate ImmediateOp.ldlo lo (execute_immediate ImmediateOp.ldhi hi s)).ac ≡ word)
      × ((execute_immediate ImmediateOp.ldhi hi (execute_immediate ImmediateOp.ldlo lo s)).ac
          ≡ word)
unfolding execute_immediate logic update_nz set_flag
execute_immediate-halves hi lo s hh hl ha =
    let high = high_half hi s.ac ha in
    let low = low_half lo s.ac hl ha in
    (
      omega (
        arith,
        high,
        low_half lo (bit_or (bit_and s.ac 0xffff) (hi * 2 ^ 16)) hl (omega (arith, high)),
      ),
      omega (arith, low, high_half hi (bit_or (bit_and s.ac 0xffff_0000) lo) (omega (arith, low))),
    )
