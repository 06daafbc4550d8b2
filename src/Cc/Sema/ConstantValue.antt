-- ===== src/Cc/Sema/ConstantValue.antt =====
-- `constant_value` of crates/ex3-core/src/cc/sema/control_flow.rs: what a condition is known to be.
pub mod Evaluation
use ex3_rust.Prelude.{
  ℕ, zero, suc, ◌+◌, ◌*◌, ◌/◌, ◌%◌, ◌^◌, Bool, true, false, not, ◌&&◌, ◌||◌, ◌==◌, if◌then◌else◌,
  leb, ltb, bit_and, bit_or, bit_xor, bit_not, wrapping_add, wrapping_sub, signed32, leb_ℤ, ltb_ℤ,
  Option, none, some,
}
use ex3_rust.Isa.Immediate16.{i32_as_u32}
use ex3_rust.Cc.Ast.{UnOp, BinOp}
use ex3_rust.Cc.ConstEval.{truth, quotient, remainder, is_uint32}
use ex3_rust.Cc.Sema.Ir.{ResolvedExpr}

abbrev pub unary_constant : UnOp → ℕ → ℕ
unary_constant UnOp.bit_not a = bit_not 32 a
unary_constant UnOp.not a = truth (a == 0)
unary_constant UnOp.plus a = a
unary_constant UnOp.neg a = wrapping_sub 32 0 a

-- A division, unless the divisor is 0.
abbrev pub unless_zero : ℕ → ℕ → Option ℕ
unless_zero value zero = none
unless_zero value (suc b) = some value

-- The `match` on the operation; the flag is `unsigned`.
unfoldable pub binary_constant : BinOp → Bool → ℕ → ℕ → Option ℕ
binary_constant BinOp.add unsigned a b = some (wrapping_add 32 a b)
binary_constant BinOp.sub unsigned a b = some (wrapping_sub 32 a b)
binary_constant BinOp.mul unsigned a b = some (a * b % 2 ^ 32)
binary_constant BinOp.div unsigned a b =
    unless_zero (if unsigned then a / b else i32_as_u32 (quotient (signed32 a) (signed32 b))) b
binary_constant BinOp.mod_op unsigned a b =
    unless_zero (if unsigned then a % b else i32_as_u32 (remainder (signed32 a) (signed32 b))) b
binary_constant BinOp.bit_and unsigned a b = some (bit_and a b)
binary_constant BinOp.bit_xor unsigned a b = some (bit_xor a b)
binary_constant BinOp.bit_or unsigned a b = some (bit_or a b)
binary_constant BinOp.lt unsigned a b =
    some (truth (if unsigned then ltb a b else ltb_ℤ (signed32 a) (signed32 b)))
binary_constant BinOp.le unsigned a b =
    some (truth (if unsigned then leb a b else leb_ℤ (signed32 a) (signed32 b)))
binary_constant BinOp.gt unsigned a b =
    some (truth (if unsigned then ltb b a else ltb_ℤ (signed32 b) (signed32 a)))
binary_constant BinOp.ge unsigned a b =
    some (truth (if unsigned then leb b a else leb_ℤ (signed32 b) (signed32 a)))
binary_constant BinOp.eq unsigned a b = some (truth (a == b))
binary_constant BinOp.ne unsigned a b = some (truth (not (a == b)))
binary_constant BinOp.and unsigned a b = some (truth (not (a == 0) && not (b == 0)))
binary_constant BinOp.or unsigned a b = some (truth (not (a == 0) || not (b == 0)))

-- The `?` on the values of the operands.
abbrev pub of_unary : UnOp → Option ℕ → Option ℕ
of_unary op none = none
of_unary op (some a) = some (unary_constant op a)

abbrev pub of_binary : BinOp → Bool → Option ℕ → Option ℕ → Option ℕ
of_binary op unsigned none r = none
of_binary op unsigned (some a) none = none
of_binary op unsigned (some a) (some b) = binary_constant op unsigned a b

unfoldable pub constant_value : ResolvedExpr → Option ℕ
unfolding binary_constant
constant_value (ResolvedExpr.number value ty) = some value
constant_value (ResolvedExpr.unary op operand ty) = of_unary op (constant_value operand)
constant_value (ResolvedExpr.binary op lhs rhs operand_type ty) =
    of_binary op (is_uint32 operand_type) (constant_value lhs) (constant_value rhs)
constant_value _ = none
