-- ===== src/Cc/Sema/Typing/Operations.antt =====
-- The steps of the resolver, one by one: what a test that passes says, and the types of operations.
use Prim.Native.String.{String}
use text.Mathlib.Text.{◌==◌ as str_eq}
use text.Mathlib.TextEquality.{eq_iff}
use ex3_rust.Prelude.{◌≡◌, refl, sym, Bool, true, false, either_case, find, Option, none, some}
use ex3_rust.Cc.Ast.{Span, ScalarType, int32, uint32, CcType, scalar, void, UnOp, BinOp}
use ex3_rust.Cc.Diagnostic.{Checked, returns, refuses, reject_if, or_reject}
use ex3_rust.Cc.Sema.Builtins.{find_builtin}
use ex3_rust.Cc.Sema.Resolver.{require_scalar, callee_of, operand_type, unary_type, binary_type}
use ex3_rust.Cc.Sema.Typing.{IsCallee, common, result_of_unary, result_of_binary}

pub require_scalar-lem :
    (ty : CcType) (span : Span) → Checked (λ s. ty ≡ scalar s) (require_scalar ty span)
require_scalar-lem (scalar s) span = returns refl
require_scalar-lem void span = refuses

pub or_reject-lem :
    {A : Type 0} (o : Option A) (span : Span) (message : String)
    → Checked (λ a. o ≡ some a) (or_reject o span message)
or_reject-lem none span message = refuses
or_reject-lem (some a) span message = returns refl

pub reject_if-lem :
    (b : Bool) (span : Span) (message : String)
    → Checked (λ u. b ≡ false) (reject_if b span message)
reject_if-lem true span message = refuses
reject_if-lem false span message = returns refl

pub operand_type-common : (l r : ScalarType) → operand_type l r ≡ common l r
operand_type-common int32 int32 = refl
operand_type-common int32 uint32 = refl
operand_type-common uint32 int32 = refl
operand_type-common uint32 uint32 = refl

pub unary_type-result :
    (op : UnOp) (ty : ScalarType) → unary_type op (scalar ty) ≡ scalar (result_of_unary op ty)
unary_type-result UnOp.not ty = refl
unary_type-result UnOp.bit_not ty = refl
unary_type-result UnOp.plus ty = refl
unary_type-result UnOp.neg ty = refl

pub binary_type-result :
    (op : BinOp) (ty : ScalarType) → binary_type op ty ≡ scalar (result_of_binary op ty)
binary_type-result BinOp.mul ty = refl
binary_type-result BinOp.div ty = refl
binary_type-result BinOp.mod_op ty = refl
binary_type-result BinOp.add ty = refl
binary_type-result BinOp.sub ty = refl
binary_type-result BinOp.lt ty = refl
binary_type-result BinOp.le ty = refl
binary_type-result BinOp.gt ty = refl
binary_type-result BinOp.ge ty = refl
binary_type-result BinOp.eq ty = refl
binary_type-result BinOp.ne ty = refl
binary_type-result BinOp.bit_and ty = refl
binary_type-result BinOp.bit_xor ty = refl
binary_type-result BinOp.bit_or ty = refl
binary_type-result BinOp.and ty = refl
binary_type-result BinOp.or ty = refl

not_both : {b : Bool} → b ≡ false → b ≡ true → ⊥
not_both e h = cc (e, h)

pub callee_of-IsCallee : (name : String) → IsCallee name (callee_of name (find_builtin name))
unfolding find
callee_of-IsCallee name =
    either_case (λ o. IsCallee name (callee_of name o)) (str_eq "putchar" name)
      (λ same. IsCallee.putchar (sym ((eq_iff "putchar" name).0 same)))
      (λ other.
        either_case (λ o. IsCallee name (callee_of name o)) (str_eq "getchar" name)
          (λ same. IsCallee.getchar (sym ((eq_iff "getchar" name).0 same)))
          (λ another.
            IsCallee.user (λ e. absurd (not_both other ((eq_iff "putchar" name).1 (sym e))))
              (λ e. absurd (not_both another ((eq_iff "getchar" name).1 (sym e))))))
