-- ===== src/Cc/Sema/Tests.antt =====
-- Tests of the semantic analysis.
use mathlib.Core.List.{Memᴰ}
use ex3_rust.Prelude.{ℕ, ◌≡◌, ◌≢◌, ◌↔◌, refl, arith, Bool, true, List, [], ◌∷◌, ok, err}
use ex3_rust.Cc.Ast.{int_type, int32, scalar, uint32, BinOp, Expr}
use ex3_rust.Cc.Diagnostic.{panics}
use ex3_rust.Cc.ConstEval.{evaluate}
use ex3_rust.Cc.Sema.Ir.{ResolvedExpr}
use ex3_rust.Cc.Sema.Builtins.{signatures}
use ex3_rust.Cc.Sema.Resolver.{expression}
use ex3_rust.Cc.Sema.Resolve.{analyze}
use ex3_rust.Cc.Sema.ConstantValue.{constant_value}
use ex3_rust.Cc.Sema.ConstantValue.Evaluation.{value_of, constant_value-expression}
use ex3_rust.Cc.Sema.ControlFlow.{
  NodeId, Edges, exit, graph_of, has_node, reachable, may_reach_function_end,
}
use ex3_rust.Cc.Sema.ControlFlow.Reachable.{PathFrom, reachable-PathFrom}
use ex3_rust.Cc.Sema.ControlFlow.End.{may_reach_function_end_lem}
use ex3_rust.Cc.Sema.Typing.{Frame, HasLocal, known, IsTypedStmt, IsTyped, IsValue, defined}
use ex3_rust.Cc.Sema.Typing.Programs.{IsAnalysis, analyze-safe, analyze-IsAnalysis}
use ex3_rust.Cc.Sema.Samples.{
  analyzed, analyzes, scalar_items, at, one, two, program, variable_x, resolved_body, context,
}

analyze-safe_example : analyze program ≢ err panics
analyze-safe_example = analyze-safe program scalar_items

analyze-IsAnalysis_example : IsAnalysis program analyzed
analyze-IsAnalysis_example = analyze-IsAnalysis program analyzed scalar_items analyzes

abbrev frame : Frame
frame = record {
  globals = [];
  functions = signatures;
  parameters = [];
  locals = record { slot = 0; name = "x"; ty = int32 } ∷ [];
  ret = int_type;
  labels = 0 ∷ [];
}

x_known : HasLocal frame.locals 0 int_type
x_known = known (record { slot = 0; name = "x"; ty = int32 }) (Memᴰ.head refl) refl refl

x_typed : IsTyped frame variable_x
x_typed = IsTyped.load x_known

body_typed : IsTypedStmt frame 0 0 resolved_body
unfolding IsTypedStmt
body_typed = (
  ((int32, x_known), IsValue.scalar_value int32 (IsTyped.number int32) refl),
  (
    (
      IsValue.scalar_value int32 x_typed refl,
      (
        (
          IsValue.scalar_value int32
              (IsTyped.binary int32 uint32 x_typed refl (IsTyped.number uint32) refl) refl,
          (Memᴰ.head refl, tt),
        ),
        (
          IsTyped.assign x_known (
              IsValue.scalar_value int32
                (IsTyped.binary int32 int32 x_typed refl (IsTyped.number int32) refl) refl),
          tt,
        ),
      ),
    ),
    ((Memᴰ.head refl, IsValue.scalar_value int32 x_typed refl), tt),
  ),
)

label_defined : (label : ℕ) → Memᴰ label (0 ∷ []) → Memᴰ label (defined resolved_body)
unfolding defined
label_defined label m = m

may_reach_function_end_lem_example :
    (first : NodeId) × (edges : Edges) × (answer : Bool) × (graph_of resolved_body
      ≡ ok (first, edges))
    × (may_reach_function_end resolved_body ≡ ok answer)
    × ((answer ≡ true) ↔ PathFrom edges first exit)
may_reach_function_end_lem_example =
    may_reach_function_end_lem frame resolved_body body_typed label_defined

reachable-PathFrom_example :
    (found : List NodeId) × (reachable ((1 ∷ []) ∷ (0 ∷ []) ∷ (0 ∷ []) ∷ []) 0 ≡ ok found)
    × ((v : NodeId)
        → (has_node v found ≡ true) ↔ PathFrom ((1 ∷ []) ∷ (0 ∷ []) ∷ (0 ∷ []) ∷ []) 0 v)
reachable-PathFrom_example =
    reachable-PathFrom ((1 ∷ []) ∷ (0 ∷ []) ∷ (0 ∷ []) ∷ []) 0
      ((omega arith, tt), ((omega arith, tt), ((omega arith, tt), tt))) (omega arith)

-- 1 < 2u
abbrev comparison : Expr
comparison = Expr.binary BinOp.lt one two at

abbrev resolved_comparison : ResolvedExpr
resolved_comparison =
    ResolvedExpr.binary BinOp.lt (ResolvedExpr.number 1 int_type)
      (ResolvedExpr.number 2 (scalar uint32)) uint32 int_type

comparison_resolves : expression context [] comparison ≡ ok resolved_comparison
unfolding expression
comparison_resolves = refl

constant_value-expression_example :
    constant_value resolved_comparison ≡ value_of (evaluate comparison)
constant_value-expression_example =
    constant_value-expression context [] comparison resolved_comparison comparison_resolves
