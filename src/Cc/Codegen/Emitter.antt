-- ===== src/Cc/Codegen/Emitter.antt =====
-- The lines that the methods of `Emitter` of crates/ex3-core/src/cc/codegen/emitter.rs write, before
-- they are texts. The debug records beside them are left out.
use Prim.Native.String.{String}
use ex3_rust.Prelude.{ℕ, ℤ}

pub data LabelKind : Type 0 where
  return else_part if_end while_top while_end switch_end case default not not_end logic logic_end
        true_part bool_end :
      LabelKind

pub record Label : Type 0 where
  pub id : ℕ
  pub kind : LabelKind

pub data BranchCondition : Type 0 where
  equal not_equal signed_less signed_less_equal signed_greater signed_greater_equal unsigned_less
        unsigned_less_equal unsigned_greater unsigned_greater_equal :
      BranchCondition

pub data StackBinaryOp : Type 0 where
  add subtract and xor or : StackBinaryOp

pub data Line : Type 0 where
  label : Label → Line
  load_sp store_sp compare_sp : (offset : ℕ) → Line
  stack_binary : StackBinaryOp → (offset : ℕ) → Line
  load_global store_global : (symbol : String) → Line
  load_immediate : ℤ → Line
  load_high load_low : ℕ → Line
  adjust_sp : ℤ → Line
  branch : BranchCondition → Label → Line
  jump : Label → Line
  call : (symbol : String) → Line
  clear complement compare_zero push : Line
