-- ===== src/Cc/Sema/Typing/Values.antt =====
-- The resolution of an expression without a panic, and what it gives where the locals are in scope.
use Prim.Native.String.{String}
use ex3_rust.Prelude.{◌≡◌, ◌==◌, not, Option, none, some, List, length}
use ex3_rust.Prelude.Maps.{lookup}
use ex3_rust.Cc.Ast.{
  Span, ScalarType, CcType, scalar, void, Expr, Arguments, no_arguments, argument,
}
use ex3_rust.Cc.Diagnostic.{Checked, returns, refuses, ◌⟫◌, Checked-given}
use ex3_rust.Cc.Sema.Ir.{LocalSlot, ParamIndex, UserLabel, ResolvedExpr, type_of, LocalDebugSymbol}
use ex3_rust.Cc.Sema.Resolver.{
  Context, Scopes, local_variable, variable, global_variable, outer_variable, scoped_variable,
  expression, arguments, argument_count, optional_expression, require_value, check_return,
}
use ex3_rust.Cc.Sema.Typing.{Frame, IsTyped, IsValue, IsOptionalValue, IsReturn}
use ex3_rust.Cc.Sema.Typing.Operations.{require_scalar-lem, or_reject-lem, reject_if-lem}
use ex3_rust.Cc.Sema.Typing.Expressions.{AreInScope, AreParameters, frame_of, expression-IsTyped}

module _ (c : Context) (scopes : Scopes) where
  global_variable-safe :
      (name : String) (span : Span) (o : Option CcType)
      → Checked (λ u. Unit {0}) (global_variable name span o)
  global_variable-safe name span none = refuses
  global_variable-safe name span (some ty) = returns tt

  outer_variable-safe :
      (name : String) (span : Span) (o : Option (ParamIndex × CcType))
      → Checked (λ u. Unit {0}) (outer_variable c name span o)
  outer_variable-safe name span none = global_variable-safe name span (lookup name c.globals)
  outer_variable-safe name span (some found) = returns tt

  scoped_variable-safe :
      (name : String) (span : Span) (o : Option (LocalSlot × CcType))
      → Checked (λ u. Unit {0}) (scoped_variable c name span o)
  scoped_variable-safe name span none = outer_variable-safe name span (lookup name c.parameters)
  scoped_variable-safe name span (some found) = returns tt

  pub variable-safe :
      (name : String) (span : Span) → Checked (λ u. Unit {0}) (variable c scopes name span)
  unfolding variable
  variable-safe name span = scoped_variable-safe name span (local_variable name scopes)

  mutual
    unfolding expression

    expression-safe : (e : Expr) → Checked (λ u. Unit {0}) (expression c scopes e)
    expression-safe (Expr.integer literal span) = returns tt
    expression-safe (Expr.variable name span) = variable-safe name span ⟫ λ found u. returns tt
    expression-safe (Expr.assign name assigned span) = expression-safe assigned ⟫ λ resolved u.
        require_scalar-lem (type_of resolved) span ⟫ λ s e.
        variable-safe name span ⟫ λ found v. returns tt
    expression-safe (Expr.call name actual span) =
        or_reject-lem (lookup name c.functions) span _ ⟫ λ signature found.
        reject_if-lem (not (argument_count actual == length signature.params)) span _ ⟫ λ u same.
        arguments-safe span actual ⟫ λ args v. returns tt
    expression-safe (Expr.unary op operand span) = expression-safe operand ⟫ λ resolved u.
        require_scalar-lem (type_of resolved) span ⟫ λ s e. returns tt
    expression-safe (Expr.binary op lhs rhs span) = expression-safe lhs ⟫ λ l u.
        expression-safe rhs ⟫ λ r v. require_scalar-lem (type_of l) span ⟫ λ s e.
        require_scalar-lem (type_of r) span ⟫ λ t k. returns tt

    pub arguments-safe :
        (span : Span) (es : Arguments) → Checked (λ u. Unit {0}) (arguments c scopes span es)
    arguments-safe span no_arguments = returns tt
    arguments-safe span (argument e es) = expression-safe e ⟫ λ resolved u.
        require_scalar-lem (type_of resolved) span ⟫ λ s k.
        arguments-safe span es ⟫ λ rest v. returns tt

-- The type of a value that may be missing is scalar.
abbrev pub IsScalar : Option ResolvedExpr → Type 0
IsScalar none = Unit
IsScalar (some e) = (s : ScalarType) × (type_of e ≡ scalar s)

abbrev pub FitsReturn : CcType → Option ResolvedExpr → Type 0
FitsReturn void none = Unit
FitsReturn (scalar ty) (some e) = IsScalar (some e)
FitsReturn _ _ = ⊥

abbrev pub IsOptionalTyped : Frame → Option ResolvedExpr → Type 0
IsOptionalTyped f none = Unit
IsOptionalTyped f (some e) = IsTyped f e

pub require_value-IsScalar :
    (o : Option ResolvedExpr) (span : Span) → Checked (λ u. IsScalar o) (require_value o span)
require_value-IsScalar none span = returns tt
require_value-IsScalar (some e) span =
    require_scalar-lem (type_of e) span ⟫ λ s same. returns (s, same)

pub check_return-FitsReturn :
    (ret : CcType) (o : Option ResolvedExpr) (span : Span)
    → Checked (λ u. FitsReturn ret o) (check_return ret o span)
check_return-FitsReturn void none span = returns tt
check_return-FitsReturn void (some e) span = refuses
check_return-FitsReturn (scalar ty) none span = refuses
check_return-FitsReturn (scalar ty) (some e) span = require_value-IsScalar (some e) span

pub IsOptionalValue-scalar :
    (f : Frame) (o : Option ResolvedExpr) → IsOptionalTyped f o → IsScalar o → IsOptionalValue f o
IsOptionalValue-scalar f none h k = tt
IsOptionalValue-scalar f (some e) h (s, same) = IsValue.scalar_value s h same

pub IsReturn-fits :
    (f : Frame) (ret : CcType) (o : Option ResolvedExpr)
    → IsOptionalTyped f o
    → FitsReturn ret o
    → IsReturn f ret o
IsReturn-fits f void none h k = tt
IsReturn-fits f void (some e) h k = k
IsReturn-fits f (scalar ty) none h k = k
IsReturn-fits f (scalar ty) (some e) h (s, same) = IsValue.scalar_value s h same

module _ (c : Context) (parameters : List CcType) (locals : List LocalDebugSymbol)
    (labels : List UserLabel) (scopes : Scopes)
    (given : AreParameters parameters c.parameters) where
  pub expression-typed :
      (e : Expr)
      → Checked
          (λ r. AreInScope locals scopes → IsTyped (frame_of c parameters locals labels) r)
          (expression c scopes e)
  expression-typed e =
      Checked-given (expression-safe c scopes e)
        (λ in_scope. expression-IsTyped c parameters locals labels scopes in_scope given e)

  pub optional_expression-typed :
      (o : Option Expr)
      → Checked
          (λ r. AreInScope locals scopes → IsOptionalTyped (frame_of c parameters locals labels) r)
          (optional_expression c scopes o)
  optional_expression-typed none = returns (λ in_scope. tt)
  optional_expression-typed (some e) = expression-typed e ⟫ λ resolved h. returns h
