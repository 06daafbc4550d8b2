-- ===== src/Cc/Parser/Expressions.antt =====
-- The expressions of crates/ex3-core/src/cc/parser.rs. Each call and each turn of a loop takes a unit
-- of fuel.
use ex3_rust.Prelude.{ℕ, zero, suc, Bool, true, false, ltb, Option, none, some, ok, err, ◌>>=◌}
use ex3_rust.Cc.Ast.{Span, BinOp, Expr, Arguments, span_of}
use ex3_rust.Cc.Lexer.Words.{Symbol}
use ex3_rust.Cc.Lexer.{TokenKind}
use ex3_rust.Cc.Parser.State.{Parser, Stop, Parsed, fail, peek, advance, eat_symbol, expect_symbol}
use ex3_rust.Cc.Parser.Operators.{
  Precedence, rank, next, precedence, binary_operator, unary_operator,
}

unfoldable mutual
  pub assignment : ℕ → Parser → Parsed Expr
  assignment zero p = err Stop.out_of_fuel
  assignment (suc fuel) p = do
    (lhs, q) ← binary fuel Precedence.logical_or p
    (assigned, r) ← eat_symbol Symbol.assign q
    assign_to fuel lhs assigned r

  -- Behind the left side, and `=` if there is one.
  pub assign_to : ℕ → Expr → Bool → Parser → Parsed Expr
  assign_to zero lhs assigned p = err Stop.out_of_fuel
  assign_to (suc fuel) lhs false p = ok (lhs, p)
  assign_to (suc fuel) (Expr.variable name span) true p = do
    (value, q) ← assignment fuel p
    ok (Expr.assign name value span, q)
  assign_to (suc fuel) lhs true p = fail (span_of lhs) "left side of assignment must be a variable"

  pub binary : ℕ → Precedence → Parser → Parsed Expr
  binary zero minimum p = err Stop.out_of_fuel
  binary (suc fuel) minimum p = do (lhs, q) ← unary fuel p; operators fuel minimum lhs q

  -- The loop of `binary`.
  pub operators : ℕ → Precedence → Expr → Parser → Parsed Expr
  operators zero minimum lhs p = err Stop.out_of_fuel
  operators (suc fuel) minimum lhs p = do
    token ← peek p
    operator_at fuel minimum lhs (binary_operator token.kind) p

  pub operator_at : ℕ → Precedence → Expr → Option BinOp → Parser → Parsed Expr
  operator_at zero minimum lhs operator p = err Stop.out_of_fuel
  operator_at (suc fuel) minimum lhs none p = ok (lhs, p)
  operator_at (suc fuel) minimum lhs (some op) p =
      elim (ltb (rank (precedence op)) (rank minimum)) [
        | true ↦ ok (lhs, p)
        | false ↦ do
          (rhs, q) ← binary fuel (next (precedence op)) (advance p)
          operators fuel minimum (Expr.binary op lhs rhs (span_of lhs)) q
      ]

  pub unary : ℕ → Parser → Parsed Expr
  unary zero p = err Stop.out_of_fuel
  unary (suc fuel) p = do
    token ← peek p
    elim (unary_operator token.kind) [
      | none ↦ primary fuel token.kind token.span p
      | some op ↦ do (operand, q) ← unary fuel (advance p); ok (Expr.unary op operand token.span, q)
    ]

  -- `primary`, at its token.
  pub primary : ℕ → TokenKind → Span → Parser → Parsed Expr
  primary zero kind span p = err Stop.out_of_fuel
  primary (suc fuel) (TokenKind.integer literal) span p = ok (Expr.integer literal span, advance p)
  primary (suc fuel) (TokenKind.identifier name) span p = do
    (called, q) ← eat_symbol Symbol.left_paren (advance p)
    elim called [
      | false ↦ ok (Expr.variable name span, q)
      | true ↦ do (given, r) ← arguments fuel q; ok (Expr.call name given span, r)
    ]
  primary (suc fuel) (TokenKind.symbol Symbol.left_paren) span p = do
    (e, q) ← assignment fuel (advance p)
    r ← expect_symbol Symbol.right_paren q
    ok (e, r)
  primary (suc fuel) kind span p = fail span "expected expression"

  -- The arguments of a call, behind the parenthesis.
  pub arguments : ℕ → Parser → Parsed Arguments
  arguments zero p = err Stop.out_of_fuel
  arguments (suc fuel) p = do
    (closed, q) ← eat_symbol Symbol.right_paren p
    elim closed [ true ↦ ok (Arguments.no_arguments, q) | false ↦ some_arguments fuel q ]

  -- The loop over the arguments.
  pub some_arguments : ℕ → Parser → Parsed Arguments
  some_arguments zero p = err Stop.out_of_fuel
  some_arguments (suc fuel) p = do
    (e, q) ← assignment fuel p
    (closed, r) ← eat_symbol Symbol.right_paren q
    elim closed [
      | true ↦ ok (Arguments.argument e Arguments.no_arguments, r)
      | false ↦ do
        s ← expect_symbol Symbol.comma r
        (es, t) ← some_arguments fuel s
        ok (Arguments.argument e es, t)
    ]
