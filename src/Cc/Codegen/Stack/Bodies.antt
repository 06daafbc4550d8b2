-- ===== src/Cc/Codegen/Stack/Bodies.antt =====
-- The code of each expression of a typed body, in the frame that is planned for its function.
use ex3_rust.Prelude.{ℕ, suc, ◌≤◌, arith, Option, none, some}
use ex3_rust.Cc.Ast.{CcType, scalar, void}
use ex3_rust.Cc.Sema.Ir.{
  ResolvedVariable, ResolvedExpr, ResolvedStmt, ResolvedStmts, ResolvedElse, ResolvedParts,
}
use ex3_rust.Cc.Sema.Typing.{
  Frame, IsVariable, IsValue, IsOptionalValue, IsReturn, IsTypedStmt, AreTypedStmts, IsTypedElse,
  AreTypedParts,
}
use ex3_rust.Cc.Codegen.Counts.{
  temporary_count_expression, temporary_count_optional, temporary_count_statement,
  temporary_count_statements, temporary_count_else, temporary_count_parts,
  maximum_dynamic_slots_expression, maximum_dynamic_slots_optional, maximum_dynamic_slots_statement,
  maximum_dynamic_slots_statements, maximum_dynamic_slots_else, maximum_dynamic_slots_parts,
}
use ex3_rust.Cc.Codegen.Frame.{FrameLayout}
use ex3_rust.Cc.Codegen.Expressions.{root, generate_expression}
use ex3_rust.Cc.Codegen.Stack.Code.{expression-Pushes, value-Pushes}
use ex3_rust.Cc.Codegen.Stack.{Pushes, IsFitting}

abbrev pub OfOptional : (ResolvedExpr → Type 0) → Option ResolvedExpr → Type 0
OfOptional P none = Unit
OfOptional P (some e) = P e

-- A property of each expression of a statement.
unfoldable mutual
  pub EachExpression : (ResolvedExpr → Type 0) → ResolvedStmt → Type 0
  EachExpression P (ResolvedStmt.expr e) = P e
  EachExpression P (ResolvedStmt.return value) = OfOptional P value
  EachExpression P (ResolvedStmt.decl slot init) = OfOptional P init
  EachExpression P (ResolvedStmt.block body) = EachOfStmts P body
  EachExpression P (ResolvedStmt.conditional test taken other) =
      P test × (EachExpression P taken × EachOfElse P other)
  EachExpression P (ResolvedStmt.loop test body) = P test × EachExpression P body
  EachExpression P (ResolvedStmt.switch e body) = P e × EachOfParts P body
  EachExpression P (ResolvedStmt.label target body) = EachExpression P body
  EachExpression P _ = Unit

  pub EachOfStmts : (ResolvedExpr → Type 0) → ResolvedStmts → Type 0
  EachOfStmts P ResolvedStmts.nil = Unit
  EachOfStmts P (ResolvedStmts.cons s ss) = EachExpression P s × EachOfStmts P ss

  pub EachOfElse : (ResolvedExpr → Type 0) → ResolvedElse → Type 0
  EachOfElse P ResolvedElse.nothing = Unit
  EachOfElse P (ResolvedElse.branch s) = EachExpression P s

  pub EachOfParts : (ResolvedExpr → Type 0) → ResolvedParts → Type 0
  EachOfParts P ResolvedParts.end = Unit
  EachOfParts P (ResolvedParts.case value rest) = EachOfParts P rest
  EachOfParts P (ResolvedParts.default rest) = EachOfParts P rest
  EachOfParts P (ResolvedParts.stmt s rest) = EachExpression P s × EachOfParts P rest

-- The code of an expression, as a statement has it, stays within the limit and names places of the
-- frame.
abbrev pub IsRunnable : FrameLayout → ℕ → ResolvedExpr → Type 0
IsRunnable frame limit e =
    (next : ℕ) → Pushes frame limit 0 (generate_expression frame e root next).0 0

module _ (frame : FrameLayout) (limit : ℕ) (f : Frame)
    (fitting : (x : ResolvedVariable) (ty : CcType) → IsVariable f x ty → IsFitting frame x) where
  value-IsRunnable :
      (e : ResolvedExpr)
      → IsValue f e
      → maximum_dynamic_slots_expression e ≤ limit
      → temporary_count_expression e ≤ frame.temporary_count
      → IsRunnable frame limit e
  value-IsRunnable e value h k next =
      value-Pushes frame limit f fitting e root next value (omega arith) (omega arith)

  optional-IsRunnable :
      (o : Option ResolvedExpr)
      → IsOptionalValue f o
      → maximum_dynamic_slots_optional o ≤ limit
      → temporary_count_optional o ≤ frame.temporary_count
      → OfOptional (IsRunnable frame limit) o
  optional-IsRunnable none value h k = tt
  optional-IsRunnable (some e) value h k = value-IsRunnable e value h k

  returned_value : (ret : CcType) (o : Option ResolvedExpr) → IsReturn f ret o → IsOptionalValue f o
  returned_value void none h = tt
  returned_value (scalar ty) (some e) h = h
  returned_value void (some e) h = absurd h
  returned_value (scalar ty) none h = absurd h

  mutual
    unfolding IsTypedStmt maximum_dynamic_slots_statement temporary_count_statement EachExpression

    pub statement-IsRunnable :
        (b c : ℕ) (s : ResolvedStmt)
        → IsTypedStmt f b c s
        → maximum_dynamic_slots_statement s ≤ limit
        → temporary_count_statement s ≤ frame.temporary_count
        → EachExpression (IsRunnable frame limit) s
    statement-IsRunnable b c ResolvedStmt.empty t h k = tt
    statement-IsRunnable b c (ResolvedStmt.expr e) t h k =
        λ next. expression-Pushes frame limit f fitting e root next t (omega arith) (omega arith)
    statement-IsRunnable b c (ResolvedStmt.block body) t h k = statements-IsRunnable b c body t h k
    statement-IsRunnable b c (ResolvedStmt.decl slot init) (known, value) h k =
        optional-IsRunnable init value h k
    statement-IsRunnable b c (ResolvedStmt.conditional test taken other) (v, (t, u)) h k = (
      value-IsRunnable test v (omega (arith, h)) (omega (arith, k)),
      (
        statement-IsRunnable b c taken t (omega (arith, h)) (omega (arith, k)),
        else-IsRunnable b c other u (omega (arith, h)) (omega (arith, k)),
      ),
    )
    statement-IsRunnable b c (ResolvedStmt.loop test body) (v, t) h k = (
      value-IsRunnable test v (omega (arith, h)) (omega (arith, k)),
      statement-IsRunnable (suc b) (suc c) body t (omega (arith, h)) (omega (arith, k)),
    )
    statement-IsRunnable b c (ResolvedStmt.switch e body) (v, t) h k = (
      value-IsRunnable e v (omega (arith, h)) (omega (arith, k)),
      parts-IsRunnable (suc b) c body t (omega (arith, h)) (omega (arith, k)),
    )
    statement-IsRunnable b c ResolvedStmt.break t h k = tt
    statement-IsRunnable b c ResolvedStmt.continue t h k = tt
    statement-IsRunnable b c (ResolvedStmt.goto target) t h k = tt
    statement-IsRunnable b c (ResolvedStmt.label target body) (known, t) h k =
        statement-IsRunnable b c body t h k
    statement-IsRunnable b c (ResolvedStmt.return value) t h k =
        optional-IsRunnable value (returned_value f.ret value t) h k

    statements-IsRunnable :
        (b c : ℕ) (ss : ResolvedStmts)
        → AreTypedStmts f b c ss
        → maximum_dynamic_slots_statements ss ≤ limit
        → temporary_count_statements ss ≤ frame.temporary_count
        → EachOfStmts (IsRunnable frame limit) ss
    statements-IsRunnable b c ResolvedStmts.nil t h k = tt
    statements-IsRunnable b c (ResolvedStmts.cons s ss) (t, u) h k = (
      statement-IsRunnable b c s t (omega (arith, h)) (omega (arith, k)),
      statements-IsRunnable b c ss u (omega (arith, h)) (omega (arith, k)),
    )

    else-IsRunnable :
        (b c : ℕ) (other : ResolvedElse)
        → IsTypedElse f b c other
        → maximum_dynamic_slots_else other ≤ limit
        → temporary_count_else other ≤ frame.temporary_count
        → EachOfElse (IsRunnable frame limit) other
    else-IsRunnable b c ResolvedElse.nothing t h k = tt
    else-IsRunnable b c (ResolvedElse.branch s) t h k = statement-IsRunnable b c s t h k

    parts-IsRunnable :
        (b c : ℕ) (parts : ResolvedParts)
        → AreTypedParts f b c parts
        → maximum_dynamic_slots_parts parts ≤ limit
        → temporary_count_parts parts ≤ frame.temporary_count
        → EachOfParts (IsRunnable frame limit) parts
    parts-IsRunnable b c ResolvedParts.end t h k = tt
    parts-IsRunnable b c (ResolvedParts.case value rest) t h k = parts-IsRunnable b c rest t h k
    parts-IsRunnable b c (ResolvedParts.default rest) t h k = parts-IsRunnable b c rest t h k
    parts-IsRunnable b c (ResolvedParts.stmt s rest) (t, u) h k = (
      statement-IsRunnable b c s t (omega (arith, h)) (omega (arith, k)),
      parts-IsRunnable b c rest u (omega (arith, h)) (omega (arith, k)),
    )
