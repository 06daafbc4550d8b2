-- ===== src/Cc/ConstEval/Tests.antt =====
-- Tests of the constant expressions.
use ex3_rust.Prelude.{ℕ, ◌≡◌, refl, arith, false, ok, err}
use ex3_rust.Emulator.Execute.{branch_taken}
use ex3_rust.Emulator.Alu.{compare}
use ex3_rust.Emulator.Samples.{start_state}
use ex3_rust.Isa.{BranchOp}
use ex3_rust.Cc.Ast.{Expr, Span, signed, integer, unary, binary, UnOp, BinOp, int32}
use ex3_rust.Cc.ConstEval.{evaluate, binary_value, truth, division_by_zero}
use ex3_rust.Cc.ConstEval.Machine.{binary_value-compare}

abbrev here : Span
here = record { line = 1; column = 1 }

abbrev number : ℕ → Expr
number n = integer (record { value = n; kind = signed }) here

-- −7 / 2
abbrev quotient_of_seven : Expr
quotient_of_seven = binary BinOp.div (unary UnOp.neg (number 7) here) (number 2) here

rounds_towards_zero : evaluate quotient_of_seven ≡ ok (record { value = 0xffff_fffd; ty = int32 })
unfolding evaluate
rounds_towards_zero = refl

refuses_zero_divisor :
    evaluate (binary BinOp.mod_op (number 1) (number 0) here) ≡ err division_by_zero
unfolding evaluate
refuses_zero_divisor = refl

-- 0xffff_ffff is below 1 as a signed number and not as an unsigned one.
binary_value-compare_example :
    binary_value BinOp.lt false 0xffff_ffff 1
    ≡ ok (truth (branch_taken BranchOp.blt (compare 1 start_state)))
binary_value-compare_example =
    binary_value-compare BinOp.lt false BranchOp.blt 1 start_state refl (omega arith) (omega arith)
      (omega arith)
