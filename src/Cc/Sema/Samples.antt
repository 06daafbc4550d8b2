-- ===== src/Cc/Sema/Samples.antt =====
-- A program for the tests: `int main(void) { int x = 1; while (x) { if (x < 2u) goto out; x = x - 1; }
-- out: return x; }`.
use ex3_rust.Prelude.{All, find, ok, ◌≡◌, refl}
use ex3_rust.Prelude.Maps.{lookup}
use ex3_rust.Prelude.Text.{starts_with}
use ex3_rust.Cc.Ast.{int32}
use ex3_rust.Cc.Sema.Ir.{AnalyzedProgram}
use ex3_rust.Cc.Sema.Resolve.{analyze}
use ex3_rust.Cc.Sema.Resolver.{expression}
use ex3_rust.Cc.Sema.ControlFlow.{may_reach_function_end}
use ex3_rust.Cc.Sema.Typing.Declared.{IsScalarItem}
use ex3_rust.Cc.Sema.Symbols.{validate_function, validate_switches, collect_labels, is_reserved}
use ex3_rust.Cc.Sema.Symbols.Validation.{HasScalars}
use ex3_rust.Cc.Sema.Statements.{statement}
use ex3_rust.Prelude.{[], ◌∷◌, some}
use ex3_rust.Cc.Ast.{
  Span, int_type, signed, unsigned, BinOp, Expr, Stmt, Stmts, Else, Function, Item, Program,
}
use ex3_rust.Cc.Sema.Builtins.{signatures}
use ex3_rust.Cc.Sema.Ir.{ResolvedExpr, ResolvedVariable, ResolvedStmt, ResolvedStmts, ResolvedElse}
use ex3_rust.Cc.Ast.{scalar, int32, uint32}
use ex3_rust.Cc.Sema.Resolver.{Context}

abbrev pub at : Span
at = record { line = 1; column = 1 }

abbrev pub one : Expr
one = Expr.integer (record { value = 1; kind = signed }) at

abbrev pub two : Expr
two = Expr.integer (record { value = 2; kind = unsigned }) at

abbrev pub x : Expr
x = Expr.variable "x" at

abbrev pub loop_body : Stmt
loop_body =
    Stmt.block
      (Stmts.cons
        (Stmt.conditional (Expr.binary BinOp.lt x two at) (Stmt.goto "out" at) Else.nothing at)
        (Stmts.cons (Stmt.expression (Expr.assign "x" (Expr.binary BinOp.sub x one at) at) at)
          Stmts.nil))
      at

abbrev pub body : Stmt
body =
    Stmt.block
      (Stmts.cons (Stmt.declaration "x" int_type (some one) at) (
        Stmts.cons (Stmt.loop x loop_body at)
          (Stmts.cons (Stmt.label "out" (Stmt.return (some x) at) at) Stmts.nil)))
      at

abbrev pub main : Function
main = record { name = "main"; ret = int_type; params = []; body = some body; span = at }

abbrev pub program : Program
program = record { items = Item.function main ∷ [] }

abbrev pub variable_x : ResolvedExpr
variable_x = ResolvedExpr.load (ResolvedVariable.local 0) int_type

abbrev pub resolved_body : ResolvedStmt
resolved_body = ResolvedStmt.block (
    ResolvedStmts.cons (ResolvedStmt.decl 0 (some (ResolvedExpr.number 1 int_type))) (
      ResolvedStmts.cons
        (ResolvedStmt.loop variable_x (
          ResolvedStmt.block (
            ResolvedStmts.cons
              (ResolvedStmt.conditional
                (ResolvedExpr.binary BinOp.lt variable_x (ResolvedExpr.number 2 (scalar uint32))
                  uint32 int_type)
                (ResolvedStmt.goto 0) ResolvedElse.nothing)
              (ResolvedStmts.cons
                (ResolvedStmt.expr (
                  ResolvedExpr.assign (ResolvedVariable.local 0)
                    (ResolvedExpr.binary BinOp.sub variable_x (ResolvedExpr.number 1 int_type) int32
                      int_type)
                    int_type))
                ResolvedStmts.nil))))
        (ResolvedStmts.cons (ResolvedStmt.label 0 (ResolvedStmt.return (some variable_x)))
          ResolvedStmts.nil)))

-- A context without globals and parameters.
abbrev pub context : Context
context = record {
  globals = [];
  functions = signatures;
  parameters = [];
  return_type = int_type;
  labels = ("out", 0) ∷ [];
}

-- What the analysis makes of the program.
abbrev pub analyzed : AnalyzedProgram
analyzed = record {
  globals = [];
  functions =
      record {
        name = "main";
        span = at;
        body = resolved_body;
        local_count = 1;
        parameter_count = 0;
      }
      ∷ [];
  debug_functions =
      record {
        id = 0;
        name = "main";
        parameters = [];
        locals = record { slot = 0; name = "x"; ty = int32 } ∷ [];
      }
      ∷ [];
}

pub analyzes : analyze program ≡ ok analyzed
unfolding analyze validate_function validate_switches collect_labels lookup find is_reserved
    starts_with statement expression may_reach_function_end
analyzes = refl

pub scalar_items : All IsScalarItem program.items
unfolding HasScalars
scalar_items = ((tt, ((int32, refl), (((tt, tt), (tt, tt)), (tt, tt)))), tt)
