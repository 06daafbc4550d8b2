-- ===== src/Cc/Sema/ConstantValue/Evaluation.antt =====
-- A condition is known where the constant evaluator has a value for its source.
use Prim.Native.String.{String}
use ex3_rust.Prelude.{
  ℕ, zero, suc, ◌≡◌, refl, sym, ap, ◌∙◌, Bool, true, false, not, ◌||◌, ◌==◌, if◌then◌else◌, Option,
  none, some, Result, ok, err, ok_value, and_then, map_ok, length,
}
use ex3_rust.Prelude.Maps.{lookup}
use ex3_rust.Cc.Ast.{ScalarType, int32, uint32, scalar, UnOp, BinOp, Expr}
use ex3_rust.Cc.Diagnostic.{Checked, returns, ◌⟫◌, Checked-at}
use ex3_rust.Cc.ConstEval.{
  Constant, unary_value, binary_value, divide, evaluate, evaluate_unary, evaluate_binary, is_uint32,
  is_comparison,
}
use ex3_rust.Cc.ConstEval.{unary_type as constant_unary_type}
use ex3_rust.Cc.Sema.Ir.{ResolvedExpr, type_of}
use ex3_rust.Cc.Sema.ConstantValue.{
  of_unary, of_binary, constant_value, unary_constant, unless_zero, binary_constant,
}
use ex3_rust.Cc.Sema.Resolver.{
  Context, Scopes, expression, operand_type, unary_type, binary_type, argument_count,
}
use ex3_rust.Cc.Sema.Typing.Operations.{require_scalar-lem, or_reject-lem, reject_if-lem}
use ex3_rust.Cc.Sema.Typing.Values.{variable-safe, arguments-safe}

unary_constant-value : (op : UnOp) (a : ℕ) → unary_constant op a ≡ unary_value op a
unfolding unary_value
unary_constant-value UnOp.bit_not a = refl
unary_constant-value UnOp.not a = refl
unary_constant-value UnOp.plus a = refl
unary_constant-value UnOp.neg a = refl

unless_zero-divide : (a b : ℕ) → unless_zero a b ≡ ok_value (divide a b)
unless_zero-divide a zero = refl
unless_zero-divide a (suc b) = refl

binary_constant-value :
    (op : BinOp) (unsigned : Bool) (a b : ℕ)
    → binary_constant op unsigned a b ≡ ok_value (binary_value op unsigned a b)
unfolding binary_constant binary_value
binary_constant-value BinOp.div u a b = unless_zero-divide _ b
binary_constant-value BinOp.mod_op u a b = unless_zero-divide _ b
binary_constant-value op u a b = refl

-- The value and the type of a resolved expression are those of the constant; without a constant
-- there is no value.
abbrev Matches : ResolvedExpr → Result Constant String → Type 0
Matches r (ok k) = (constant_value r ≡ some k.value) × (type_of r ≡ scalar k.ty)
Matches r (err message) = constant_value r ≡ none

is_uint32-operand_type :
    (s t : ScalarType) → is_uint32 (operand_type s t) ≡ (is_uint32 s || is_uint32 t)
is_uint32-operand_type int32 int32 = refl
is_uint32-operand_type int32 uint32 = refl
is_uint32-operand_type uint32 int32 = refl
is_uint32-operand_type uint32 uint32 = refl

unary_type-constant :
    (op : UnOp) (ty : ScalarType) → unary_type op (scalar ty) ≡ scalar (constant_unary_type op ty)
unary_type-constant UnOp.not ty = refl
unary_type-constant UnOp.bit_not ty = refl
unary_type-constant UnOp.plus ty = refl
unary_type-constant UnOp.neg ty = refl

chosen_type :
    (b u : Bool)
    → (if b then scalar int32 else scalar (if u then uint32 else int32))
      ≡ scalar (if b || not u then int32 else uint32)
chosen_type true u = refl
chosen_type false true = refl
chosen_type false false = refl

binary_type-constant :
    (op : BinOp) (s t : ScalarType)
    → binary_type op (operand_type s t)
      ≡ scalar (if is_comparison op || not (is_uint32 s || is_uint32 t) then int32 else uint32)
binary_type-constant op s t = chosen_type (is_comparison op) (is_uint32 s || is_uint32 t)

scalar-same : (ty s : ScalarType) → scalar ty ≡ scalar s → ty ≡ s
scalar-same ty s e = cc e

unary-Matches :
    (op : UnOp) (r : ResolvedExpr) (v : Result Constant String)
    → Matches r v
    → Matches (ResolvedExpr.unary op r (unary_type op (type_of r))) (map_ok (evaluate_unary op) v)
unfolding constant_value
unary-Matches op r (ok k) (h, t) = (
  ap (of_unary op) h ∙ ap some (unary_constant-value op k.value),
  ap (unary_type op) t ∙ unary_type-constant op k.ty,
)
unary-Matches op r (err message) h = ap (of_unary op) h

of_value-Matches :
    (r : ResolvedExpr) (v : Result ℕ String) (ty : ScalarType)
    → constant_value r ≡ ok_value v
    → type_of r ≡ scalar ty
    → Matches r (map_ok (λ value. record { value = value; ty = ty }) v)
of_value-Matches r (ok value) ty h t = (h, t)
of_value-Matches r (err message) ty h t = h

of_binary-none : (op : BinOp) (u : Bool) (o : Option ℕ) → of_binary op u o none ≡ none
of_binary-none op u none = refl
of_binary-none op u (some a) = refl

module _ (op : BinOp) (l r : ResolvedExpr) (s t : ScalarType) where
  abbrev made : ResolvedExpr
  made = ResolvedExpr.binary op l r (operand_type s t) (binary_type op (operand_type s t))

  binary-Matches :
      (v w : Result Constant String)
      → Matches l v
      → Matches r w
      → type_of l ≡ scalar s
      → type_of r ≡ scalar t
      → Matches made (and_then v (λ a. and_then w (λ b. evaluate_binary op a b)))
  unfolding constant_value
  binary-Matches (err message) w h k ls rt =
      ap (λ o. of_binary op (is_uint32 (operand_type s t)) o (constant_value r)) h
  binary-Matches (ok a) (err message) h k ls rt =
      ap (of_binary op (is_uint32 (operand_type s t)) (constant_value l)) k ∙ of_binary-none op _ _
  binary-Matches (ok a) (ok b) (h, ta) (k, tb) ls rt =
      let sa : s ≡ a.ty = scalar-same s a.ty (sym ls ∙ ta) in
      let sb : t ≡ b.ty = scalar-same t b.ty (sym rt ∙ tb) in
      let flag =
        is_uint32-operand_type s t
        ∙ ap (λ x. is_uint32 x || is_uint32 t) sa
        ∙ ap (λ x. is_uint32 a.ty || is_uint32 x) sb in
      of_value-Matches made (binary_value op (is_uint32 a.ty || is_uint32 b.ty) a.value b.value)
        (if is_comparison op || not (is_uint32 a.ty || is_uint32 b.ty) then int32 else uint32)
        (ap (λ o. of_binary op (is_uint32 (operand_type s t)) o (constant_value r)) h
          ∙ ap (of_binary op (is_uint32 (operand_type s t)) (some a.value)) k
          ∙ ap (λ u. binary_constant op u a.value b.value) flag
          ∙ binary_constant-value op (is_uint32 a.ty || is_uint32 b.ty) a.value b.value)
        (binary_type-constant op s t
          ∙ ap (λ u. scalar (if is_comparison op || not u then int32 else uint32))
              (ap (λ x. is_uint32 x || is_uint32 t) sa
                ∙ ap (λ x. is_uint32 a.ty || is_uint32 x) sb))

module _ (c : Context) (scopes : Scopes) where
  expression-Matches : (e : Expr) → Checked (λ r. Matches r (evaluate e)) (expression c scopes e)
  unfolding expression evaluate constant_value
  expression-Matches (Expr.integer literal span) = returns (refl, refl)
  expression-Matches (Expr.variable name span) =
      variable-safe c scopes name span ⟫ λ found u. returns refl
  expression-Matches (Expr.assign name assigned span) = expression-Matches assigned ⟫ λ resolved u.
      require_scalar-lem (type_of resolved) span ⟫ λ s e.
      variable-safe c scopes name span ⟫ λ found v. returns refl
  expression-Matches (Expr.call name actual span) =
      or_reject-lem (lookup name c.functions) span _ ⟫ λ signature found.
      reject_if-lem (not (argument_count actual == length signature.params)) span _ ⟫ λ u same.
      arguments-safe c scopes span actual ⟫ λ args v. returns refl
  expression-Matches (Expr.unary op operand span) = expression-Matches operand ⟫ λ resolved h.
      require_scalar-lem (type_of resolved) span ⟫ λ s e.
      returns (unary-Matches op resolved (evaluate operand) h)
  expression-Matches (Expr.binary op lhs rhs span) = expression-Matches lhs ⟫ λ l h.
      expression-Matches rhs ⟫ λ r k. require_scalar-lem (type_of l) span ⟫ λ s e.
      require_scalar-lem (type_of r) span ⟫ λ t g.
      returns (binary-Matches op l r s t (evaluate lhs) (evaluate rhs) h k e g)

abbrev pub value_of : Result Constant String → Option ℕ
value_of (ok k) = some k.value
value_of (err message) = none

matching_value :
    (r : ResolvedExpr) (v : Result Constant String) → Matches r v → constant_value r ≡ value_of v
matching_value r (ok k) (h, t) = h
matching_value r (err message) h = h

-- If an expression is resolved, the value that the control flow analysis knows of the result is
-- the value of the constant evaluator on the source, and it knows none exactly where the evaluator
-- fails.
pub constant_value-expression :
    (c : Context) (scopes : Scopes) (e : Expr) (r : ResolvedExpr)
    → expression c scopes e ≡ ok r
    → constant_value r ≡ value_of (evaluate e)
constant_value-expression c scopes e r h =
    matching_value r (evaluate e) (Checked-at (expression-Matches c scopes e) r h)
