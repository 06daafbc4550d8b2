-- ===== src/Cc/ConstEval/Machine.antt =====
-- The comparisons of the constant evaluator, against CMP and a branch of the machine.
use ex3_rust.Prelude.{
  ℕ, ◌≡◌, ap, ◌∙◌, sym, Bool, true, false, if◌then◌else◌, Option, none, some, ok, IsU32,
}
use ex3_rust.Isa.{BranchOp}
use ex3_rust.Emulator.State.{CpuState}
use ex3_rust.Emulator.Alu.{compare}
use ex3_rust.Emulator.Alu.Flags.{IsPsr}
use ex3_rust.Emulator.Branches.{relation, branch_taken-compare}
use ex3_rust.Emulator.Execute.{branch_taken}
use ex3_rust.Cc.Ast.{BinOp}
use ex3_rust.Cc.ConstEval.{truth, binary_value}

-- The branch that tests a comparison.
abbrev pub branch_for : BinOp → Bool → Option BranchOp
branch_for BinOp.lt unsigned = some (if unsigned then BranchOp.bult else BranchOp.blt)
branch_for BinOp.le unsigned = some (if unsigned then BranchOp.bule else BranchOp.ble)
branch_for BinOp.gt unsigned = some (if unsigned then BranchOp.bugt else BranchOp.bgt)
branch_for BinOp.ge unsigned = some (if unsigned then BranchOp.buge else BranchOp.bge)
branch_for BinOp.eq unsigned = some BranchOp.beq
branch_for BinOp.ne unsigned = some BranchOp.bne
branch_for _ unsigned = none

same_branch : (x y : BranchOp) → some x ≡ some y → x ≡ y
same_branch x y e = cc e

binary_value-relation :
    (op : BinOp) (unsigned : Bool) (branch : BranchOp) (a b : ℕ)
    → branch_for op unsigned ≡ some branch
    → binary_value op unsigned a b ≡ ok (truth (relation branch a b))
unfolding binary_value
binary_value-relation BinOp.lt true branch a b e =
    ap (λ t. ok (truth (relation t a b))) (same_branch BranchOp.bult branch e)
binary_value-relation BinOp.lt false branch a b e =
    ap (λ t. ok (truth (relation t a b))) (same_branch BranchOp.blt branch e)
binary_value-relation BinOp.le true branch a b e =
    ap (λ t. ok (truth (relation t a b))) (same_branch BranchOp.bule branch e)
binary_value-relation BinOp.le false branch a b e =
    ap (λ t. ok (truth (relation t a b))) (same_branch BranchOp.ble branch e)
binary_value-relation BinOp.gt true branch a b e =
    ap (λ t. ok (truth (relation t a b))) (same_branch BranchOp.bugt branch e)
binary_value-relation BinOp.gt false branch a b e =
    ap (λ t. ok (truth (relation t a b))) (same_branch BranchOp.bgt branch e)
binary_value-relation BinOp.ge true branch a b e =
    ap (λ t. ok (truth (relation t a b))) (same_branch BranchOp.buge branch e)
binary_value-relation BinOp.ge false branch a b e =
    ap (λ t. ok (truth (relation t a b))) (same_branch BranchOp.bge branch e)
binary_value-relation BinOp.eq u branch a b e =
    ap (λ t. ok (truth (relation t a b))) (same_branch BranchOp.beq branch e)
binary_value-relation BinOp.ne u branch a b e =
    ap (λ t. ok (truth (relation t a b))) (same_branch BranchOp.bne branch e)
binary_value-relation BinOp.mul u branch a b e = cc e
binary_value-relation BinOp.div u branch a b e = cc e
binary_value-relation BinOp.mod_op u branch a b e = cc e
binary_value-relation BinOp.add u branch a b e = cc e
binary_value-relation BinOp.sub u branch a b e = cc e
binary_value-relation BinOp.bit_and u branch a b e = cc e
binary_value-relation BinOp.bit_xor u branch a b e = cc e
binary_value-relation BinOp.bit_or u branch a b e = cc e
binary_value-relation BinOp.and u branch a b e = cc e
binary_value-relation BinOp.or u branch a b e = cc e

-- For each of the six comparisons, signed or unsigned, the value that the constant evaluator folds
-- for a 32-bit accumulator and a 32-bit word is 1 exactly when the machine, after CMP of the two,
-- takes the branch that tests the comparison, and is 0 otherwise.
pub binary_value-compare :
    (op : BinOp) (unsigned : Bool) (branch : BranchOp) (b : ℕ) (s : CpuState)
    → branch_for op unsigned ≡ some branch
    → IsU32 s.ac
    → IsU32 b
    → IsPsr s
    → binary_value op unsigned s.ac b ≡ ok (truth (branch_taken branch (compare b s)))
binary_value-compare op unsigned branch b s e ha hb hs =
    binary_value-relation op unsigned branch s.ac b e
    ∙ ap (λ t. ok (truth t)) (sym (branch_taken-compare branch b s ha hb hs))
