-- ===== src/Cc/Parser/Totality/Statements.antt =====
-- Parsing a statement ends, behind a token at least, and its locals have scalar types.
use ex3_rust.Prelude.{
  ℕ, zero, suc, ◌+◌, ◌*◌, ◌≤◌, ◌<◌, ◌≡◌, refl, arith, Bool, true, false, if◌then◌else◌, List, [],
  ◌∷◌, length,
}
use ex3_rust.Cc.Ast.{Span, CcType, scalar, void, Stmts, SwitchParts}
use ex3_rust.Cc.Lexer.Words.{Keyword, Symbol}
use ex3_rust.Cc.Lexer.{TokenKind, Token}
use ex3_rust.Cc.Parser.State.{kind_is_eof, is_label, starts_type}
use ex3_rust.Cc.Parser.Statements.{
  Start, start_of, condition, initializer, declaration_of, return_value, statement, statement_from,
  block_statements, else_branch, switch_parts, switch_part, default_or_statement,
}
use ex3_rust.Cc.Parser.Totality.{
  Ends, Good, Any, ◌▷◌, Good-test, Good-weaken, is_eof-Good, eat_symbol-Good, eat_keyword-Good,
  expect_symbol-Good, identifier-Good, parse_type-Good,
}
use ex3_rust.Cc.Parser.Totality.Expressions.{at, assignment-Good}
use ex3_rust.Cc.Sema.Symbols.Validation.{HasScalars, HaveScalars, HasScalarsElse, HaveScalarsParts}

condition-Good :
    (fuel : ℕ) (passed rest : List Token)
    → Ends rest
    → 16 * length rest ≤ fuel
    → Good Any (length rest) (condition fuel (at passed rest))
condition-Good fuel passed rest ends h =
    expect_symbol-Good Symbol.left_paren passed rest _ ends (λ t ts more less.
      assignment-Good fuel (t ∷ passed) ts more (omega arith) ▷ λ (e, q) u after fewer.
      expect_symbol-Good Symbol.right_paren q.passed q.rest _ after
        (λ v vs last few. Good.done tt last (omega arith)))

pub initializer-Good :
    (fuel : ℕ) (passed rest : List Token)
    → Ends rest
    → 16 * length rest ≤ fuel
    → Good Any (suc (length rest)) (initializer fuel (at passed rest))
initializer-Good fuel passed rest ends h =
    eat_symbol-Good Symbol.assign passed rest _ ends
      (λ t ts more less.
        assignment-Good fuel (t ∷ passed) ts more (omega arith) ▷ λ (e, q) u after fewer.
        Good.done tt after (omega arith))
      (Good.done tt ends (omega arith))

declaration_of-Good :
    (fuel : ℕ) (ty : CcType) (span : Span) (passed rest : List Token)
    → Ends rest
    → 16 * length rest ≤ fuel
    → Good HasScalars (length rest) (declaration_of fuel ty span (at passed rest))
unfolding HasScalars
declaration_of-Good fuel void span passed rest ends h = Good.wrong
declaration_of-Good fuel (scalar ty) span passed rest ends h =
    identifier-Good passed rest ends ▷ λ (name, q) u more less.
    initializer-Good fuel q.passed q.rest more (omega arith) ▷ λ (init, r) v after fewer.
    expect_symbol-Good Symbol.semicolon r.passed r.rest _ after
      (λ t ts last few. Good.done (ty, refl) last (omega arith))

return_value-Good :
    (fuel : ℕ) (passed rest : List Token)
    → Ends rest
    → 16 * length rest + 4 ≤ fuel
    → Good Any (length rest) (return_value fuel (at passed rest))
return_value-Good fuel passed rest ends h =
    eat_symbol-Good Symbol.semicolon passed rest _ ends
      (λ t ts more less. Good.done tt more (omega arith))
      (assignment-Good fuel passed rest ends (omega arith) ▷ λ (e, q) u more less.
        expect_symbol-Good Symbol.semicolon q.passed q.rest _ more
          (λ t ts after fewer. Good.done tt after (omega arith)))

-- What a start says of its first token: it is not the last, if the start eats it.
abbrev GoesOn : Start → List Token → Type 0
GoesOn Start.declaration ts = Unit
GoesOn Start.label ts = Unit
GoesOn Start.expression ts = Unit
GoesOn _ ts = Ends ts

GoesOn-test :
    (a b : Bool) (ts : List Token)
    → GoesOn (if a then Start.declaration else if b then Start.label else Start.expression) ts
GoesOn-test true b ts = tt
GoesOn-test false true ts = tt
GoesOn-test false false ts = tt

start_of-GoesOn :
    (kind : TokenKind) (a b : Bool) (ts : List Token)
    → (kind_is_eof kind ≡ false → Ends ts)
    → GoesOn (start_of kind a b) ts
start_of-GoesOn (TokenKind.symbol Symbol.left_brace) a b ts ends = ends refl
start_of-GoesOn (TokenKind.symbol Symbol.semicolon) a b ts ends = ends refl
start_of-GoesOn (TokenKind.keyword Keyword.if_word) a b ts ends = ends refl
start_of-GoesOn (TokenKind.keyword Keyword.while_word) a b ts ends = ends refl
start_of-GoesOn (TokenKind.keyword Keyword.switch) a b ts ends = ends refl
start_of-GoesOn (TokenKind.keyword Keyword.break) a b ts ends = ends refl
start_of-GoesOn (TokenKind.keyword Keyword.continue) a b ts ends = ends refl
start_of-GoesOn (TokenKind.keyword Keyword.goto) a b ts ends = ends refl
start_of-GoesOn (TokenKind.keyword Keyword.return) a b ts ends = ends refl
start_of-GoesOn _ a b ts ends = GoesOn-test a b ts

mutual
  unfolding statement HasScalars

  pub statement-Good :
      (fuel : ℕ) (passed rest : List Token)
      → Ends rest
      → 16 * length rest + 6 ≤ fuel
      → Good HasScalars (length rest) (statement fuel (at passed rest))
  statement-Good zero passed rest ends h = absurd (omega arith)
  statement-Good (suc fuel) passed [] ends h = absurd ends
  statement-Good (suc fuel) passed (t ∷ ts) ends h =
      statement_from-Good fuel
        (start_of t.kind (starts_type t.kind) (is_label t.kind (at passed (t ∷ ts)))) t.span t
        passed ts ends (start_of-GoesOn t.kind _ _ ts ends) (omega arith)

  statement_from-Good :
      (fuel : ℕ) (start : Start) (span : Span) (t : Token) (passed ts : List Token)
      → Ends (t ∷ ts)
      → GoesOn start ts
      → 16 * length ts + 21 ≤ fuel
      → Good HasScalars (suc (length ts)) (statement_from fuel start span (at passed (t ∷ ts)))
  statement_from-Good zero start span t passed ts all ends h = absurd (omega arith)
  statement_from-Good (suc fuel) Start.block span t passed ts all ends h =
      block_statements-Good fuel (suc (length ts)) span (t ∷ passed) ts ends (omega arith)
        (omega arith)
      ▷ λ (ss, q) scalars more less. Good.done scalars more less
  statement_from-Good (suc fuel) Start.empty span t passed ts all ends h =
      Good.done tt ends (omega arith)
  statement_from-Good (suc fuel) Start.conditional span t passed ts all ends h =
      condition-Good fuel (t ∷ passed) ts ends (omega arith) ▷ λ (test, q) u more less.
      statement-Good fuel q.passed q.rest more (omega arith) ▷ λ (taken, r) scalars after fewer.
      else_branch-Good fuel r.passed r.rest after (omega arith) ▷ λ (other, s) others last few.
      Good.done (scalars, others) last (omega arith)
  statement_from-Good (suc fuel) Start.loop span t passed ts all ends h =
      condition-Good fuel (t ∷ passed) ts ends (omega arith) ▷ λ (test, q) u more less.
      statement-Good fuel q.passed q.rest more (omega arith) ▷ λ (body, r) scalars after fewer.
      Good.done scalars after (omega arith)
  statement_from-Good (suc fuel) Start.switch span t passed ts all ends h =
      condition-Good fuel (t ∷ passed) ts ends (omega arith) ▷ λ (e, q) u more less.
      expect_symbol-Good Symbol.left_brace q.passed q.rest _ more (λ brace us after fewer.
        switch_parts-Good fuel (suc (length ts)) (brace ∷ q.passed) us after (omega arith)
          (omega arith)
        ▷ λ (parts, s) scalars last few. Good.done scalars last few)
  statement_from-Good (suc fuel) Start.break span t passed ts all ends h =
      expect_symbol-Good Symbol.semicolon (t ∷ passed) ts _ ends
        (λ u us more less. Good.done tt more (omega arith))
  statement_from-Good (suc fuel) Start.continue span t passed ts all ends h =
      expect_symbol-Good Symbol.semicolon (t ∷ passed) ts _ ends
        (λ u us more less. Good.done tt more (omega arith))
  statement_from-Good (suc fuel) Start.goto span t passed ts all ends h =
      identifier-Good (t ∷ passed) ts ends ▷ λ (name, q) u more less.
      expect_symbol-Good Symbol.semicolon q.passed q.rest _ more
        (λ v vs after fewer. Good.done tt after (omega arith))
  statement_from-Good (suc fuel) Start.return span t passed ts all ends h =
      return_value-Good fuel (t ∷ passed) ts ends (omega arith) ▷ λ (e, q) u more less.
      Good.done tt more (omega arith)
  statement_from-Good (suc fuel) Start.declaration span t passed ts all ends h =
      parse_type-Good passed (t ∷ ts) all ▷ λ (ty, q) u more less.
      Good-weaken (omega arith)
        (declaration_of-Good fuel ty span q.passed q.rest more (omega arith))
  statement_from-Good (suc fuel) Start.label span t passed ts all ends h =
      identifier-Good passed (t ∷ ts) all ▷ λ (name, q) u more less.
      expect_symbol-Good Symbol.colon q.passed q.rest _ more (λ v vs after fewer.
        statement-Good fuel (v ∷ q.passed) vs after (omega arith) ▷ λ (body, s) scalars last few.
        Good.done scalars last (omega arith))
  statement_from-Good (suc fuel) Start.expression span t passed ts all ends h =
      assignment-Good fuel passed (t ∷ ts) all (omega arith) ▷ λ (e, q) u more less.
      expect_symbol-Good Symbol.semicolon q.passed q.rest _ more
        (λ v vs after fewer. Good.done tt after (omega arith))

  block_statements-Good :
      (fuel n : ℕ) (span : Span) (passed rest : List Token)
      → Ends rest
      → length rest < n
      → 16 * length rest + 7 ≤ fuel
      → Good HaveScalars n (block_statements fuel span (at passed rest))
  block_statements-Good zero n span passed rest ends less h = absurd (omega arith)
  block_statements-Good (suc fuel) n span passed rest ends less h =
      eat_symbol-Good Symbol.right_brace passed rest _ ends
        (λ u us more fewer. Good.done tt more (omega arith))
        (is_eof-Good passed rest _ ends (λ ended. Good-test ended Good.wrong (
          statement-Good fuel passed rest ends (omega arith) ▷ λ (s, q) scalars more fewer.
          block_statements-Good fuel n span q.passed q.rest more (omega arith) (omega arith)
          ▷ λ (ss, r) all after few. Good.done {a = Stmts.cons s ss} (scalars, all) after few)))

  else_branch-Good :
      (fuel : ℕ) (passed rest : List Token)
      → Ends rest
      → 16 * length rest + 1 ≤ fuel
      → Good HasScalarsElse (suc (length rest)) (else_branch fuel (at passed rest))
  else_branch-Good zero passed rest ends h = absurd (omega arith)
  else_branch-Good (suc fuel) passed rest ends h =
      eat_keyword-Good Keyword.else_word passed rest _ ends
        (λ t ts more less.
          statement-Good fuel (t ∷ passed) ts more (omega arith) ▷ λ (s, q) scalars after fewer.
          Good.done scalars after (omega arith))
        (Good.done tt ends (omega arith))

  switch_parts-Good :
      (fuel n : ℕ) (passed rest : List Token)
      → Ends rest
      → length rest < n
      → 16 * length rest + 9 ≤ fuel
      → Good HaveScalarsParts n (switch_parts fuel (at passed rest))
  switch_parts-Good zero n passed rest ends less h = absurd (omega arith)
  switch_parts-Good (suc fuel) n passed rest ends less h =
      eat_symbol-Good Symbol.right_brace passed rest _ ends
        (λ t ts more fewer. Good.done tt more (omega arith))
        (switch_part-Good fuel n passed rest ends less (omega arith))

  switch_part-Good :
      (fuel n : ℕ) (passed rest : List Token)
      → Ends rest
      → length rest < n
      → 16 * length rest + 8 ≤ fuel
      → Good HaveScalarsParts n (switch_part fuel (at passed rest))
  switch_part-Good zero n passed rest ends less h = absurd (omega arith)
  switch_part-Good (suc fuel) n passed rest ends less h =
      eat_keyword-Good Keyword.case passed rest _ ends
        (λ t ts more fewer.
          assignment-Good fuel (t ∷ passed) ts more (omega arith) ▷ λ (e, q) u after few.
          expect_symbol-Good Symbol.colon q.passed q.rest _ after (λ v vs last short.
            switch_parts-Good fuel n (v ∷ q.passed) vs last (omega arith) (omega arith)
            ▷ λ (parts, s) scalars rest_ends shorter. Good.done scalars rest_ends shorter))
        (default_or_statement-Good fuel n passed rest ends less (omega arith))

  default_or_statement-Good :
      (fuel n : ℕ) (passed rest : List Token)
      → Ends rest
      → length rest < n
      → 16 * length rest + 7 ≤ fuel
      → Good HaveScalarsParts n (default_or_statement fuel (at passed rest))
  default_or_statement-Good zero n passed rest ends less h = absurd (omega arith)
  default_or_statement-Good (suc fuel) n passed rest ends less h =
      eat_keyword-Good Keyword.default passed rest _ ends
        (λ t ts more fewer.
          expect_symbol-Good Symbol.colon (t ∷ passed) ts _ more (λ v vs after few.
            switch_parts-Good fuel n (v ∷ t ∷ passed) vs after (omega arith) (omega arith)
            ▷ λ (parts, s) scalars last short. Good.done scalars last short))
        (statement-Good fuel passed rest ends (omega arith) ▷ λ (s, q) scalars more fewer.
          switch_parts-Good fuel n q.passed q.rest more (omega arith) (omega arith)
          ▷ λ (parts, r) all after few.
              Good.done {a = SwitchParts.statement s parts} (scalars, all) after few)
