-- ===== src/Cc/Parser/Statements.antt =====
-- The statements of crates/ex3-core/src/cc/parser.rs. Each call and each turn of a loop takes a unit
-- of fuel.
use ex3_rust.Prelude.{
  ℕ, zero, suc, Bool, true, false, if◌then◌else◌, Option, none, some, ok, err, ◌>>=◌,
}
use ex3_rust.Cc.Ast.{Span, CcType, scalar, void, Expr, Stmt, Stmts, Else, SwitchParts}
use ex3_rust.Cc.Lexer.Words.{Keyword, Symbol}
use ex3_rust.Cc.Lexer.{TokenKind}
use ex3_rust.Cc.Parser.State.{
  Parser, Stop, Parsed, fail, peek, previous_token, advance, is_eof, eat_keyword, eat_symbol,
  expect_symbol, identifier, is_label, parse_type, starts_type,
}
use ex3_rust.Cc.Parser.Expressions.{assignment}

-- How a statement starts, by the tests of `statement` in their order.
pub data Start : Type 0 where
  block empty conditional loop switch break continue goto return declaration label expression :
      Start

abbrev pub start_of : TokenKind → (is_type is_label : Bool) → Start
start_of (TokenKind.symbol Symbol.left_brace) is_type is_label = Start.block
start_of (TokenKind.symbol Symbol.semicolon) is_type is_label = Start.empty
start_of (TokenKind.keyword Keyword.if_word) is_type is_label = Start.conditional
start_of (TokenKind.keyword Keyword.while_word) is_type is_label = Start.loop
start_of (TokenKind.keyword Keyword.switch) is_type is_label = Start.switch
start_of (TokenKind.keyword Keyword.break) is_type is_label = Start.break
start_of (TokenKind.keyword Keyword.continue) is_type is_label = Start.continue
start_of (TokenKind.keyword Keyword.goto) is_type is_label = Start.goto
start_of (TokenKind.keyword Keyword.return) is_type is_label = Start.return
start_of kind is_type is_label =
    if is_type then Start.declaration else if is_label then Start.label else Start.expression

-- A condition in parentheses.
abbrev pub condition : ℕ → Parser → Parsed Expr
condition fuel p = do
  q ← expect_symbol Symbol.left_paren p
  (e, r) ← assignment fuel q
  s ← expect_symbol Symbol.right_paren r
  ok (e, s)

-- The initializer of a declaration, if `=` follows.
abbrev pub initializer : ℕ → Parser → Parsed (Option Expr)
initializer fuel p = do
  (assigned, q) ← eat_symbol Symbol.assign p
  elim assigned [ false ↦ ok (none, q) | true ↦ do (e, r) ← assignment fuel q; ok (some e, r) ]

-- The rest of a declaration, behind its type.
abbrev pub declaration_of : ℕ → CcType → Span → Parser → Parsed Stmt
declaration_of fuel void span p = fail span "local variable cannot have type void"
declaration_of fuel (scalar ty) span p = do
  (name, q) ← identifier p
  (init, r) ← initializer fuel q
  s ← expect_symbol Symbol.semicolon r
  ok (Stmt.declaration name (scalar ty) init span, s)

-- The value of a `return`, and its semicolon.
abbrev pub return_value : ℕ → Parser → Parsed (Option Expr)
return_value fuel p = do
  (closed, q) ← eat_symbol Symbol.semicolon p
  elim closed [
    | true ↦ ok (none, q)
    | false ↦ do (e, r) ← assignment fuel q; s ← expect_symbol Symbol.semicolon r; ok (some e, s)
  ]

unfoldable mutual
  unfolding assignment parse_type

  pub statement : ℕ → Parser → Parsed Stmt
  statement zero p = err Stop.out_of_fuel
  statement (suc fuel) p = do
    token ← peek p
    statement_from fuel (start_of token.kind (starts_type token.kind) (is_label token.kind p))
        token.span p

  -- A statement by its start; but for a declaration, a label and an expression, the first token is
  -- what the start eats.
  pub statement_from : ℕ → Start → Span → Parser → Parsed Stmt
  statement_from zero start span p = err Stop.out_of_fuel
  statement_from (suc fuel) Start.block span p = do
    (ss, q) ← block_statements fuel span (advance p)
    ok (Stmt.block ss span, q)
  statement_from (suc fuel) Start.empty span p = ok (Stmt.empty span, advance p)
  statement_from (suc fuel) Start.conditional span p = do
    (test, q) ← condition fuel (advance p)
    (taken, r) ← statement fuel q
    (other, s) ← else_branch fuel r
    ok (Stmt.conditional test taken other span, s)
  statement_from (suc fuel) Start.loop span p = do
    (test, q) ← condition fuel (advance p)
    (body, r) ← statement fuel q
    ok (Stmt.loop test body span, r)
  statement_from (suc fuel) Start.switch span p = do
    (e, q) ← condition fuel (advance p)
    r ← expect_symbol Symbol.left_brace q
    (parts, s) ← switch_parts fuel r
    ok (Stmt.switch e parts span, s)
  statement_from (suc fuel) Start.break span p = do
    q ← expect_symbol Symbol.semicolon (advance p)
    ok (Stmt.break span, q)
  statement_from (suc fuel) Start.continue span p = do
    q ← expect_symbol Symbol.semicolon (advance p)
    ok (Stmt.continue span, q)
  statement_from (suc fuel) Start.goto span p = do
    (name, q) ← identifier (advance p)
    r ← expect_symbol Symbol.semicolon q
    ok (Stmt.goto name span, r)
  statement_from (suc fuel) Start.return span p = do
    (e, q) ← return_value fuel (advance p)
    ok (Stmt.return e span, q)
  statement_from (suc fuel) Start.declaration span p = do
    (ty, q) ← parse_type p
    declaration_of fuel ty span q
  statement_from (suc fuel) Start.label span p = do
    (name, q) ← identifier p
    r ← expect_symbol Symbol.colon q
    (body, s) ← statement fuel r
    ok (Stmt.label name body span, s)
  statement_from (suc fuel) Start.expression span p = do
    (e, q) ← assignment fuel p
    r ← expect_symbol Symbol.semicolon q
    ok (Stmt.expression e span, r)

  -- The loop over the statements of a block, with the span of its brace.
  pub block_statements : ℕ → Span → Parser → Parsed Stmts
  block_statements zero span p = err Stop.out_of_fuel
  block_statements (suc fuel) span p = do
    (closed, q) ← eat_symbol Symbol.right_brace p
    elim closed [
      | true ↦ ok (Stmts.nil, q)
      | false ↦ do
        ended ← is_eof q
        elim ended [
          | true ↦ fail span "unterminated block"
          | false ↦ do
            (s, r) ← statement fuel q
            (ss, t) ← block_statements fuel span r
            ok (Stmts.cons s ss, t)
        ]
    ]

  pub else_branch : ℕ → Parser → Parsed Else
  else_branch zero p = err Stop.out_of_fuel
  else_branch (suc fuel) p = do
    (follows, q) ← eat_keyword Keyword.else_word p
    elim follows [
      | false ↦ ok (Else.nothing, q)
      | true ↦ do (s, r) ← statement fuel q; ok (Else.branch s, r)
    ]

  -- The loop of `switch_statement`.
  pub switch_parts : ℕ → Parser → Parsed SwitchParts
  switch_parts zero p = err Stop.out_of_fuel
  switch_parts (suc fuel) p = do
    (closed, q) ← eat_symbol Symbol.right_brace p
    elim closed [ true ↦ ok (SwitchParts.end, q) | false ↦ switch_part fuel q ]

  pub switch_part : ℕ → Parser → Parsed SwitchParts
  switch_part zero p = err Stop.out_of_fuel
  switch_part (suc fuel) p = do
    (is_case, q) ← eat_keyword Keyword.case p
    elim is_case [
      | true ↦ do
        word ← previous_token q
        (e, r) ← assignment fuel q
        s ← expect_symbol Symbol.colon r
        (parts, t) ← switch_parts fuel s
        ok (SwitchParts.case e word.span parts, t)
      | false ↦ default_or_statement fuel q
    ]

  pub default_or_statement : ℕ → Parser → Parsed SwitchParts
  default_or_statement zero p = err Stop.out_of_fuel
  default_or_statement (suc fuel) p = do
    (is_default, q) ← eat_keyword Keyword.default p
    elim is_default [
      | true ↦ do
        word ← previous_token q
        r ← expect_symbol Symbol.colon q
        (parts, s) ← switch_parts fuel r
        ok (SwitchParts.default word.span parts, s)
      | false ↦ do
        (s, r) ← statement fuel q
        (parts, t) ← switch_parts fuel r
        ok (SwitchParts.statement s parts, t)
    ]
