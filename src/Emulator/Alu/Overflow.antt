-- ===== src/Emulator/Alu/Overflow.antt =====
-- The overflow tests of `add` and `subtraction_flags` look at the sign bits of the operands and the
-- result; here they are shown to say that the signed result is out of range.
use ex3_rust.Prelude.{
  ℕ, ◌-◌, ◌/◌, ◌^◌, ◌<◌, ◌≡◌, refl, Bool, true, false, not, ◌&&◌, ◌||◌, bit_and, bit_xor, bit_not,
  arith, leb, ℤ, pos, negsuc, signed32, ◌+ℤ◌, ◌-ℤ◌, ltb_ℤ, wrapping_add, wrapping_sub, bool_eq,
}
use ex3_rust.Prelude.Bits.{bit_and-div, bit_xor-div, bit_and-bit, bit_xor-lt}
use ex3_rust.Emulator.State.{test_flag}

-- The sign of a word.
abbrev pub sign : ℕ → Bool
sign w = leb (2 ^ 31) w

-- The integer does not fit an `i32`.
abbrev pub out_of_range : ℤ → Bool
out_of_range x = ltb_ℤ x (negsuc (2 ^ 31 - 1)) || ltb_ℤ (pos (2 ^ 31 - 1)) x

-- The sign bit of a word below 2 ^ 32 as a digit.
digit : Bool → ℕ
digit true = 1
digit false = 0

div-sign : (w : ℕ) → w < 2 ^ 32 → w / 2 ^ 31 ≡ digit (sign w)
unfolding digit
div-sign w h = ground arith

sign_table :
    (a b r : Bool)
    → (bit_and (bit_xor (digit a) (digit b)) (bit_xor (digit a) (digit r))
        ≡ digit (not (bool_eq a b) && not (bool_eq a r)))
      × (bit_and (1 - bit_xor (digit a) (digit b)) (bit_xor (digit a) (digit r))
          ≡ digit (bool_eq a b && not (bool_eq a r)))
unfolding digit
sign_table true true true = (refl, refl)
sign_table true true false = (refl, refl)
sign_table true false true = (refl, refl)
sign_table true false false = (refl, refl)
sign_table false true true = (refl, refl)
sign_table false true false = (refl, refl)
sign_table false false true = (refl, refl)
sign_table false false false = (refl, refl)

test_flag-digit : (w : ℕ) (b : Bool) → w / 2 ^ 31 ≡ digit b → test_flag w 0x8000_0000 ≡ b
unfolding digit
test_flag-digit w true e = ground (arith, bit_and-bit 31 w)
test_flag-digit w false e = ground (arith, bit_and-bit 31 w)

module _ (a b r : ℕ) (ha : a < 2 ^ 32) (hb : b < 2 ^ 32) (hr : r < 2 ^ 32) where
  pub sub_overflow_test :
      test_flag (bit_and (bit_xor a b) (bit_xor a r)) 0x8000_0000
      ≡ (not (bool_eq (sign a) (sign b)) && not (bool_eq (sign a) (sign r)))
  sub_overflow_test = test_flag-digit _ _ (
      rw
        (
          bit_and-div 31 (bit_xor a b) (bit_xor a r),
          bit_xor-div 31 a b,
          bit_xor-div 31 a r,
          div-sign a ha,
          div-sign b hb,
          div-sign r hr,
        )
        (sign_table (sign a) (sign b) (sign r)).0)

  complement-div : bit_not 32 (bit_xor a b) / 2 ^ 31 ≡ 1 - bit_xor a b / 2 ^ 31
  complement-div = omega (arith, bit_xor-lt 32 a b ha hb)

  pub add_overflow_test :
      test_flag (bit_and (bit_not 32 (bit_xor a b)) (bit_xor a r)) 0x8000_0000
      ≡ (bool_eq (sign a) (sign b) && not (bool_eq (sign a) (sign r)))
  add_overflow_test = test_flag-digit _ _ (
      rw
        (
          bit_and-div 31 (bit_not 32 (bit_xor a b)) (bit_xor a r),
          complement-div,
          bit_xor-div 31 a b,
          bit_xor-div 31 a r,
          div-sign a ha,
          div-sign b hb,
          div-sign r hr,
        )
        (sign_table (sign a) (sign b) (sign r)).1)

module _ (a b : ℕ) (ha : a < 2 ^ 32) (hb : b < 2 ^ 32) where
  pub add_signs-out_of_range :
      (bool_eq (sign a) (sign b) && not (bool_eq (sign a) (sign (wrapping_add 32 a b))))
      ≡ out_of_range (signed32 a +ℤ signed32 b)
  add_signs-out_of_range = ground arith

  pub sub_signs-out_of_range :
      (not (bool_eq (sign a) (sign b)) && not (bool_eq (sign a) (sign (wrapping_sub 32 a b))))
      ≡ out_of_range (signed32 a -ℤ signed32 b)
  sub_signs-out_of_range = ground arith
