-- ===== src/Cc/Codegen/Counts.antt =====
-- crates/ex3-core/src/cc/codegen/frame.rs: how many temporaries and pushed words the code of an
-- expression or a statement needs.
use Prim.Native.Nat.{max}
use ex3_rust.Prelude.{ℕ, ◌+◌, Option, none, some}
use ex3_rust.Cc.Ast.{UnOp, BinOp}
use ex3_rust.Cc.Sema.Ir.{
  ResolvedExpr, ResolvedArgs, ResolvedStmt, ResolvedStmts, ResolvedElse, ResolvedParts,
}
use ex3_rust.Cc.Sema.Typing.{count}

abbrev pub temporary_count_unary : UnOp → ℕ → ℕ
temporary_count_unary UnOp.neg operand = max operand 1
temporary_count_unary _ operand = operand

abbrev pub temporary_count_binary : BinOp → ℕ → ℕ → ℕ
temporary_count_binary BinOp.and lhs rhs = max lhs rhs
temporary_count_binary BinOp.or lhs rhs = max lhs rhs
temporary_count_binary _ lhs rhs = max (max lhs (1 + rhs)) 2

unfoldable mutual
  pub temporary_count_expression : ResolvedExpr → ℕ
  temporary_count_expression (ResolvedExpr.number value ty) = 0
  temporary_count_expression (ResolvedExpr.load variable ty) = 0
  temporary_count_expression (ResolvedExpr.assign target value ty) =
      temporary_count_expression value
  temporary_count_expression (ResolvedExpr.unary op operand ty) =
      temporary_count_unary op (temporary_count_expression operand)
  temporary_count_expression (ResolvedExpr.call callee args ty) = temporary_count_arguments args
  temporary_count_expression (ResolvedExpr.binary op lhs rhs operand_type ty) =
      temporary_count_binary op (temporary_count_expression lhs) (temporary_count_expression rhs)

  pub temporary_count_arguments : ResolvedArgs → ℕ
  temporary_count_arguments ResolvedArgs.nil = 0
  temporary_count_arguments (ResolvedArgs.cons e es) =
      max (temporary_count_expression e) (temporary_count_arguments es)

-- The words that a helper of the runtime takes.
abbrev pub runtime_arguments : BinOp → ℕ
runtime_arguments BinOp.mul = 2
runtime_arguments BinOp.div = 2
runtime_arguments BinOp.mod_op = 2
runtime_arguments _ = 0

-- The arguments are pushed from the last to the first, so those behind an argument are on the stack
-- while it is computed.
unfoldable mutual
  pub maximum_dynamic_slots_expression : ResolvedExpr → ℕ
  maximum_dynamic_slots_expression (ResolvedExpr.number value ty) = 0
  maximum_dynamic_slots_expression (ResolvedExpr.load variable ty) = 0
  maximum_dynamic_slots_expression (ResolvedExpr.assign target value ty) =
      maximum_dynamic_slots_expression value
  maximum_dynamic_slots_expression (ResolvedExpr.unary op operand ty) =
      maximum_dynamic_slots_expression operand
  maximum_dynamic_slots_expression (ResolvedExpr.call callee args ty) =
      max (maximum_dynamic_slots_arguments args) (count args)
  maximum_dynamic_slots_expression (ResolvedExpr.binary op lhs rhs operand_type ty) =
      max (max (maximum_dynamic_slots_expression lhs) (maximum_dynamic_slots_expression rhs))
        (runtime_arguments op)

  pub maximum_dynamic_slots_arguments : ResolvedArgs → ℕ
  maximum_dynamic_slots_arguments ResolvedArgs.nil = 0
  maximum_dynamic_slots_arguments (ResolvedArgs.cons e es) =
      max (count es + maximum_dynamic_slots_expression e) (maximum_dynamic_slots_arguments es)

abbrev pub temporary_count_optional : Option ResolvedExpr → ℕ
temporary_count_optional none = 0
temporary_count_optional (some e) = temporary_count_expression e

abbrev pub maximum_dynamic_slots_optional : Option ResolvedExpr → ℕ
maximum_dynamic_slots_optional none = 0
maximum_dynamic_slots_optional (some e) = maximum_dynamic_slots_expression e

unfoldable mutual
  unfolding temporary_count_expression

  pub temporary_count_statement : ResolvedStmt → ℕ
  temporary_count_statement (ResolvedStmt.expr e) = temporary_count_expression e
  temporary_count_statement (ResolvedStmt.return value) = temporary_count_optional value
  temporary_count_statement (ResolvedStmt.decl slot init) = temporary_count_optional init
  temporary_count_statement (ResolvedStmt.block body) = temporary_count_statements body
  temporary_count_statement (ResolvedStmt.conditional test taken other) =
      max (max (temporary_count_expression test) (temporary_count_statement taken))
        (temporary_count_else other)
  temporary_count_statement (ResolvedStmt.loop test body) =
      max (temporary_count_expression test) (temporary_count_statement body)
  temporary_count_statement (ResolvedStmt.switch e body) =
      max (max (temporary_count_parts body) (temporary_count_expression e)) 1
  temporary_count_statement (ResolvedStmt.label target body) = temporary_count_statement body
  temporary_count_statement _ = 0

  pub temporary_count_statements : ResolvedStmts → ℕ
  temporary_count_statements ResolvedStmts.nil = 0
  temporary_count_statements (ResolvedStmts.cons s ss) =
      max (temporary_count_statement s) (temporary_count_statements ss)

  pub temporary_count_else : ResolvedElse → ℕ
  temporary_count_else ResolvedElse.nothing = 0
  temporary_count_else (ResolvedElse.branch s) = temporary_count_statement s

  pub temporary_count_parts : ResolvedParts → ℕ
  temporary_count_parts ResolvedParts.end = 0
  temporary_count_parts (ResolvedParts.case value rest) = temporary_count_parts rest
  temporary_count_parts (ResolvedParts.default rest) = temporary_count_parts rest
  temporary_count_parts (ResolvedParts.stmt s rest) =
      max (temporary_count_statement s) (temporary_count_parts rest)

unfoldable mutual
  unfolding maximum_dynamic_slots_expression

  pub maximum_dynamic_slots_statement : ResolvedStmt → ℕ
  maximum_dynamic_slots_statement (ResolvedStmt.expr e) = maximum_dynamic_slots_expression e
  maximum_dynamic_slots_statement (ResolvedStmt.return value) = maximum_dynamic_slots_optional value
  maximum_dynamic_slots_statement (ResolvedStmt.decl slot init) =
      maximum_dynamic_slots_optional init
  maximum_dynamic_slots_statement (ResolvedStmt.block body) = maximum_dynamic_slots_statements body
  maximum_dynamic_slots_statement (ResolvedStmt.conditional test taken other) =
      max (max (maximum_dynamic_slots_expression test) (maximum_dynamic_slots_statement taken))
        (maximum_dynamic_slots_else other)
  maximum_dynamic_slots_statement (ResolvedStmt.loop test body) =
      max (maximum_dynamic_slots_expression test) (maximum_dynamic_slots_statement body)
  maximum_dynamic_slots_statement (ResolvedStmt.switch e body) =
      max (maximum_dynamic_slots_expression e) (maximum_dynamic_slots_parts body)
  maximum_dynamic_slots_statement (ResolvedStmt.label target body) =
      maximum_dynamic_slots_statement body
  maximum_dynamic_slots_statement _ = 0

  pub maximum_dynamic_slots_statements : ResolvedStmts → ℕ
  maximum_dynamic_slots_statements ResolvedStmts.nil = 0
  maximum_dynamic_slots_statements (ResolvedStmts.cons s ss) =
      max (maximum_dynamic_slots_statement s) (maximum_dynamic_slots_statements ss)

  pub maximum_dynamic_slots_else : ResolvedElse → ℕ
  maximum_dynamic_slots_else ResolvedElse.nothing = 0
  maximum_dynamic_slots_else (ResolvedElse.branch s) = maximum_dynamic_slots_statement s

  pub maximum_dynamic_slots_parts : ResolvedParts → ℕ
  maximum_dynamic_slots_parts ResolvedParts.end = 0
  maximum_dynamic_slots_parts (ResolvedParts.case value rest) = maximum_dynamic_slots_parts rest
  maximum_dynamic_slots_parts (ResolvedParts.default rest) = maximum_dynamic_slots_parts rest
  maximum_dynamic_slots_parts (ResolvedParts.stmt s rest) =
      max (maximum_dynamic_slots_statement s) (maximum_dynamic_slots_parts rest)
