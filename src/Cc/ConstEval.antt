-- ===== src/Cc/ConstEval.antt =====
-- crates/ex3-core/src/cc/sema/const_eval.rs: the value and the type of a constant expression.
pub mod Division
pub mod Machine
mod Tests
use Prim.Native.String.{String}
use ex3_rust.Prelude.{
  ℕ, zero, suc, ◌+◌, ◌*◌, ◌/◌, ◌%◌, ◌^◌, Bool, true, false, not, ◌&&◌, ◌||◌, ◌==◌, if◌then◌else◌,
  leb, ltb, bit_and, bit_or, bit_xor, bit_not, wrapping_add, wrapping_sub, ℤ, pos, negsuc, signed32,
  leb_ℤ, ltb_ℤ, Result, ok, err, and_then, map_ok,
}
use ex3_rust.Isa.Immediate16.{i32_as_u32}
use ex3_rust.Cc.Ast.{
  ScalarType, int32, uint32, type_of_literal, UnOp, BinOp, Expr, integer, unary, binary,
}

pub record Constant : Type 0 where
  pub value : ℕ
  pub ty : ScalarType

-- `b as u32`.
abbrev pub truth : Bool → ℕ
truth true = 1
truth false = 0

abbrev pub negated : ℕ → ℤ
negated zero = pos 0
negated (suc n) = negsuc n

-- `wrapping_div` and `wrapping_rem` of `i32` before the result is cut to 32 bits: they round towards
-- zero.
abbrev pub quotient : ℤ → ℤ → ℤ
quotient (pos a) (pos b) = pos (a / b)
quotient (pos a) (negsuc b) = negated (a / suc b)
quotient (negsuc a) (pos b) = negated (suc a / b)
quotient (negsuc a) (negsuc b) = pos (suc a / suc b)

abbrev pub remainder : ℤ → ℤ → ℤ
remainder (pos a) (pos b) = pos (a % b)
remainder (pos a) (negsuc b) = pos (a % suc b)
remainder (negsuc a) (pos b) = negated (suc a % b)
remainder (negsuc a) (negsuc b) = negated (suc a % suc b)

unfoldable pub unary_value : UnOp → ℕ → ℕ
unary_value UnOp.bit_not a = bit_not 32 a
unary_value UnOp.not a = truth (a == 0)
unary_value UnOp.plus a = a
unary_value UnOp.neg a = wrapping_sub 32 0 a

abbrev pub unary_type : UnOp → ScalarType → ScalarType
unary_type UnOp.not ty = int32
unary_type _ ty = ty

abbrev pub division_by_zero : String
division_by_zero = "division by zero in constant expression"

-- A division, unless the divisor is 0.
abbrev pub divide : ℕ → ℕ → Result ℕ String
divide value zero = err division_by_zero
divide value (suc b) = ok value

-- The `match` on the operation; the flag is `unsigned`.
unfoldable pub binary_value : BinOp → Bool → ℕ → ℕ → Result ℕ String
binary_value BinOp.add unsigned a b = ok (wrapping_add 32 a b)
binary_value BinOp.sub unsigned a b = ok (wrapping_sub 32 a b)
binary_value BinOp.mul unsigned a b = ok (a * b % 2 ^ 32)
binary_value BinOp.div unsigned a b =
    divide (if unsigned then a / b else i32_as_u32 (quotient (signed32 a) (signed32 b))) b
binary_value BinOp.mod_op unsigned a b =
    divide (if unsigned then a % b else i32_as_u32 (remainder (signed32 a) (signed32 b))) b
binary_value BinOp.bit_and unsigned a b = ok (bit_and a b)
binary_value BinOp.bit_xor unsigned a b = ok (bit_xor a b)
binary_value BinOp.bit_or unsigned a b = ok (bit_or a b)
binary_value BinOp.lt unsigned a b =
    ok (truth (if unsigned then ltb a b else ltb_ℤ (signed32 a) (signed32 b)))
binary_value BinOp.le unsigned a b =
    ok (truth (if unsigned then leb a b else leb_ℤ (signed32 a) (signed32 b)))
binary_value BinOp.gt unsigned a b =
    ok (truth (if unsigned then ltb b a else ltb_ℤ (signed32 b) (signed32 a)))
binary_value BinOp.ge unsigned a b =
    ok (truth (if unsigned then leb b a else leb_ℤ (signed32 b) (signed32 a)))
binary_value BinOp.eq unsigned a b = ok (truth (a == b))
binary_value BinOp.ne unsigned a b = ok (truth (not (a == b)))
binary_value BinOp.and unsigned a b = ok (truth (not (a == 0) && not (b == 0)))
binary_value BinOp.or unsigned a b = ok (truth (not (a == 0) || not (b == 0)))

abbrev pub is_comparison : BinOp → Bool
is_comparison BinOp.lt = true
is_comparison BinOp.le = true
is_comparison BinOp.gt = true
is_comparison BinOp.ge = true
is_comparison BinOp.eq = true
is_comparison BinOp.ne = true
is_comparison BinOp.and = true
is_comparison BinOp.or = true
is_comparison _ = false

abbrev pub is_uint32 : ScalarType → Bool
is_uint32 int32 = false
is_uint32 uint32 = true

abbrev pub evaluate_binary : BinOp → Constant → Constant → Result Constant String
evaluate_binary op lhs rhs =
    let unsigned = is_uint32 lhs.ty || is_uint32 rhs.ty in
    map_ok
      (λ value. record {
        value = value;
        ty = if is_comparison op || not unsigned then int32 else uint32;
      })
      (binary_value op unsigned lhs.value rhs.value)

abbrev pub evaluate_unary : UnOp → Constant → Constant
evaluate_unary op operand = record {
  value = unary_value op operand.value;
  ty = unary_type op operand.ty;
}

abbrev pub not_constant : String
not_constant = "initializer/case is not an integer constant expression"

unfoldable pub evaluate : Expr → Result Constant String
unfolding unary_value binary_value
evaluate (integer literal span) =
    ok (record { value = literal.value; ty = type_of_literal literal })
evaluate (unary op operand span) = map_ok (evaluate_unary op) (evaluate operand)
evaluate (binary op lhs rhs span) =
    let l = evaluate lhs in
    let r = evaluate rhs in and_then l (λ a. and_then r (λ b. evaluate_binary op a b))
evaluate _ = err not_constant
