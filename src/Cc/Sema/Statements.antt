-- ===== src/Cc/Sema/Statements.antt =====
-- `Resolver::statement` of crates/ex3-core/src/cc/sema/resolver.rs. The loops over the statements of
-- a block and the parts of a `switch`, and the optional `else`, are `statements`, `parts` and
-- `else_branch`.
use ex3_rust.Prelude.{◌==◌, ok, ◌>>=◌, ok_value}
use ex3_rust.Prelude.Maps.{lookup}
use ex3_rust.Cc.Ast.{Stmt, Stmts, Else, SwitchParts}
use ex3_rust.Cc.Diagnostic.{reject_if, or_reject, expect}
use ex3_rust.Cc.ConstEval.{evaluate}
use ex3_rust.Cc.Sema.Ir.{type_of, ResolvedStmt, ResolvedStmts, ResolvedElse, ResolvedParts}
use ex3_rust.Cc.Sema.Resolver.{
  Context, Resolver, Outcome, quoted, require_scalar, expression, push_scope, pop_scope, enter_loop,
  leave_loop, enter_switch, leave_switch, optional_expression, declaration, check_return,
}

unfoldable mutual
  unfolding declaration

  pub statement : Context → Stmt → Resolver → Outcome (ResolvedStmt × Resolver)
  statement c (Stmt.empty span) r = ok (ResolvedStmt.empty, r)
  statement c (Stmt.expression e span) r = do
    resolved ← expression c r.scopes e
    ok (ResolvedStmt.expr resolved, r)
  statement c (Stmt.block body span) r = do
    (resolved, after) ← statements c body (push_scope r)
    ok (ResolvedStmt.block resolved, pop_scope after)
  statement c (Stmt.declaration name ty init span) r = declaration c name ty init span r
  statement c (Stmt.conditional test then_stmt else_stmt span) r = do
    condition ← expression c r.scopes test
    _ ← require_scalar (type_of condition) span
    (taken, after) ← statement c then_stmt r
    (other, last) ← else_branch c else_stmt after
    ok (ResolvedStmt.conditional condition taken other, last)
  statement c (Stmt.loop test body span) r = do
    condition ← expression c r.scopes test
    _ ← require_scalar (type_of condition) span
    (resolved, after) ← statement c body (enter_loop r)
    ok (ResolvedStmt.loop condition resolved, leave_loop after)
  statement c (Stmt.switch e body span) r = do
    selector ← expression c r.scopes e
    _ ← require_scalar (type_of selector) span
    (resolved, after) ← parts c body (enter_switch r)
    ok (ResolvedStmt.switch selector resolved, leave_switch after)
  statement c (Stmt.break span) r = do
    _ ← reject_if (r.break_depth == 0) span "`break` is not inside while or switch"
    ok (ResolvedStmt.break, r)
  statement c (Stmt.continue span) r = do
    _ ← reject_if (r.continue_depth == 0) span "`continue` is not inside while"
    ok (ResolvedStmt.continue, r)
  statement c (Stmt.goto name span) r = do
    target ← or_reject (lookup name c.labels) span (quoted "undefined label `" name "`")
    ok (ResolvedStmt.goto target, r)
  statement c (Stmt.label name body span) r = do
    target ← expect (lookup name c.labels)
    (resolved, after) ← statement c body r
    ok (ResolvedStmt.label target resolved, after)
  statement c (Stmt.return value span) r = do
    resolved ← optional_expression c r.scopes value
    _ ← check_return c.return_type resolved span
    ok (ResolvedStmt.return resolved, r)

  pub statements : Context → Stmts → Resolver → Outcome (ResolvedStmts × Resolver)
  statements c Stmts.nil r = ok (ResolvedStmts.nil, r)
  statements c (Stmts.cons s ss) r = do
    (first, after) ← statement c s r
    (rest, last) ← statements c ss after
    ok (ResolvedStmts.cons first rest, last)

  pub else_branch : Context → Else → Resolver → Outcome (ResolvedElse × Resolver)
  else_branch c Else.nothing r = ok (ResolvedElse.nothing, r)
  else_branch c (Else.branch s) r = do
    (resolved, after) ← statement c s r
    ok (ResolvedElse.branch resolved, after)

  pub parts : Context → SwitchParts → Resolver → Outcome (ResolvedParts × Resolver)
  parts c SwitchParts.end r = ok (ResolvedParts.end, r)
  parts c (SwitchParts.case value span rest) r = do
    constant ← expect (ok_value (evaluate value))
    (resolved, after) ← parts c rest r
    ok (ResolvedParts.case constant.value resolved, after)
  parts c (SwitchParts.default span rest) r = do
    (resolved, after) ← parts c rest r
    ok (ResolvedParts.default resolved, after)
  parts c (SwitchParts.statement s rest) r = do
    (resolved, middle) ← statement c s r
    (others, after) ← parts c rest middle
    ok (ResolvedParts.stmt resolved others, after)
