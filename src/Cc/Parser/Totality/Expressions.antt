-- ===== src/Cc/Parser/Totality/Expressions.antt =====
-- Parsing an expression ends, behind a token at least: there are 16 units of fuel for each token.
use ex3_rust.Prelude.{
  ℕ, zero, suc, ◌+◌, ◌*◌, ◌≤◌, ◌<◌, ◌≡◌, refl, arith, Bool, true, false, ltb, Option, none, some,
  List, [], ◌∷◌, length,
}
use ex3_rust.Cc.Ast.{Span, UnOp, BinOp, Expr}
use ex3_rust.Cc.Lexer.Words.{Symbol}
use ex3_rust.Cc.Lexer.{TokenKind, Token}
use ex3_rust.Cc.Parser.State.{Parser, Parsed, kind_is_eof}
use ex3_rust.Cc.Parser.Operators.{
  Precedence, rank, next, precedence, binary_operator, unary_operator,
}
use ex3_rust.Cc.Parser.Expressions.{
  assignment, assign_to, binary, operators, operator_at, unary, primary, arguments, some_arguments,
}
use ex3_rust.Cc.Parser.Totality.{
  Ends, Good, Any, ◌▷◌, Good-test, eat_symbol-Good, expect_symbol-Good,
}

binary-goes_on :
    (kind : TokenKind) (op : BinOp) → binary_operator kind ≡ some op → kind_is_eof kind ≡ false
binary-goes_on TokenKind.eof op e = cc e
binary-goes_on _ op e = refl

unary-goes_on :
    (kind : TokenKind) (op : UnOp) → unary_operator kind ≡ some op → kind_is_eof kind ≡ false
unary-goes_on TokenKind.eof op e = cc e
unary-goes_on _ op e = refl

-- By an operator, if there is one.
Good-option :
    {A B : Type 0} {P : B → Type 0} {n : ℕ} (o : Option A) {x : Parsed B} {f : A → Parsed B}
    → Good P n x
    → ((a : A) → o ≡ some a → Good P n (f a))
    → Good P n (elim o [ none ↦ x | some a ↦ f a ])
Good-option none h k = h
Good-option (some a) h k = k a refl

abbrev pub at : List Token → List Token → Parser
at passed rest = record { passed = passed; rest = rest }

mutual
  unfolding assignment

  pub assignment-Good :
      (fuel : ℕ) (passed rest : List Token)
      → Ends rest
      → 16 * length rest + 4 ≤ fuel
      → Good Any (length rest) (assignment fuel (at passed rest))
  assignment-Good zero passed rest ends h = absurd (omega arith)
  assignment-Good (suc fuel) passed rest ends h =
      binary-Good fuel Precedence.logical_or passed rest ends (omega arith)
      ▷ λ (lhs, q) u more less.
          eat_symbol-Good Symbol.assign q.passed q.rest _ more
            (λ t vs after fewer.
              assign_to-Good fuel (length rest) lhs true (t ∷ q.passed) vs after (omega arith)
                (omega arith))
            (assign_to-Good fuel (length rest) lhs false q.passed q.rest more (omega arith)
              (omega arith))

  assign_to-Good :
      (fuel n : ℕ) (lhs : Expr) (assigned : Bool) (passed rest : List Token)
      → Ends rest
      → length rest < n
      → 16 * length rest + 5 ≤ fuel
      → Good Any n (assign_to fuel lhs assigned (at passed rest))
  assign_to-Good zero n lhs assigned passed rest ends less h = absurd (omega arith)
  assign_to-Good (suc fuel) n lhs false passed rest ends less h = Good.done tt ends less
  assign_to-Good (suc fuel) n (Expr.variable name span) true passed rest ends less h =
      assignment-Good fuel passed rest ends (omega arith) ▷ λ (value, q) u more fewer.
      Good.done tt more (omega arith)
  assign_to-Good (suc fuel) n _ true passed rest ends less h = Good.wrong

  binary-Good :
      (fuel : ℕ) (minimum : Precedence) (passed rest : List Token)
      → Ends rest
      → 16 * length rest + 3 ≤ fuel
      → Good Any (length rest) (binary fuel minimum (at passed rest))
  binary-Good zero minimum passed rest ends h = absurd (omega arith)
  binary-Good (suc fuel) minimum passed rest ends h =
      unary-Good fuel passed rest ends (omega arith) ▷ λ (lhs, q) u more less.
      operators-Good fuel (length rest) minimum lhs q.passed q.rest more (omega arith) (omega arith)

  operators-Good :
      (fuel n : ℕ) (minimum : Precedence) (lhs : Expr) (passed rest : List Token)
      → Ends rest
      → length rest < n
      → 16 * length rest + 2 ≤ fuel
      → Good Any n (operators fuel minimum lhs (at passed rest))
  operators-Good zero n minimum lhs passed rest ends less h = absurd (omega arith)
  operators-Good (suc fuel) n minimum lhs passed [] ends less h = absurd ends
  operators-Good (suc fuel) n minimum lhs passed (t ∷ ts) ends less h =
      operator_at-Good fuel n minimum lhs (binary_operator t.kind) t passed ts refl ends
        (omega arith) (omega arith)

  operator_at-Good :
      (fuel n : ℕ) (minimum : Precedence) (lhs : Expr) (o : Option BinOp) (t : Token)
      (passed ts : List Token)
      → binary_operator t.kind ≡ o
      → Ends (t ∷ ts)
      → suc (length ts) < n
      → 16 * length ts + 17 ≤ fuel
      → Good Any n (operator_at fuel minimum lhs o (at passed (t ∷ ts)))
  operator_at-Good zero n minimum lhs o t passed ts e ends less h = absurd (omega arith)
  operator_at-Good (suc fuel) n minimum lhs none t passed ts e ends less h =
      Good.done tt ends (omega arith)
  operator_at-Good (suc fuel) n minimum lhs (some op) t passed ts e ends less h =
      Good-test (ltb (rank (precedence op)) (rank minimum)) (Good.done tt ends (omega arith)) (
        binary-Good fuel (next (precedence op)) (t ∷ passed) ts (ends (binary-goes_on t.kind op e))
          (omega arith)
        ▷ λ (rhs, q) u more fewer.
            operators-Good fuel n minimum _ q.passed q.rest more (omega arith) (omega arith))

  unary-Good :
      (fuel : ℕ) (passed rest : List Token)
      → Ends rest
      → 16 * length rest + 2 ≤ fuel
      → Good Any (length rest) (unary fuel (at passed rest))
  unary-Good zero passed rest ends h = absurd (omega arith)
  unary-Good (suc fuel) passed [] ends h = absurd ends
  unary-Good (suc fuel) passed (t ∷ ts) ends h =
      Good-option (unary_operator t.kind)
        (primary-Good fuel t.kind t.span passed ts ends (omega arith))
        (λ op e.
          unary-Good fuel (t ∷ passed) ts (ends (unary-goes_on t.kind op e)) (omega arith)
          ▷ λ (operand, q) u more less. Good.done tt more (omega arith))

  primary-Good :
      (fuel : ℕ) (kind : TokenKind) (span : Span) (passed ts : List Token)
      → (kind_is_eof kind ≡ false → Ends ts)
      → 16 * length ts + 17 ≤ fuel
      → Good Any
          (suc (length ts))
          (primary fuel kind span (at passed (record { kind = kind; span = span } ∷ ts)))
  primary-Good zero kind span passed ts ends h = absurd (omega arith)
  primary-Good (suc fuel) (TokenKind.integer literal) span passed ts ends h =
      Good.done tt (ends refl) (omega arith)
  primary-Good (suc fuel) (TokenKind.identifier name) span passed ts ends h =
      eat_symbol-Good Symbol.left_paren
        (record { kind = TokenKind.identifier name; span = span } ∷ passed) ts _ (ends refl)
        (λ t us more less.
          arguments-Good fuel
            (t ∷ record { kind = TokenKind.identifier name; span = span } ∷ passed) us more
            (omega arith)
          ▷ λ (given, r) u after fewer. Good.done tt after (omega arith))
        (Good.done tt (ends refl) (omega arith))
  primary-Good (suc fuel) (TokenKind.symbol Symbol.left_paren) span passed ts ends h =
      assignment-Good fuel _ ts (ends refl) (omega arith) ▷ λ (e, q) u more less.
      expect_symbol-Good Symbol.right_paren q.passed q.rest _ more
        (λ t vs after fewer. Good.done tt after (omega arith))
  primary-Good (suc fuel) _ span passed ts ends h = Good.wrong

  arguments-Good :
      (fuel : ℕ) (passed rest : List Token)
      → Ends rest
      → 16 * length rest + 6 ≤ fuel
      → Good Any (suc (length rest)) (arguments fuel (at passed rest))
  arguments-Good zero passed rest ends h = absurd (omega arith)
  arguments-Good (suc fuel) passed rest ends h =
      eat_symbol-Good Symbol.right_paren passed rest _ ends
        (λ t ts more less. Good.done tt more (omega arith))
        (some_arguments-Good fuel (suc (length rest)) passed rest ends (omega arith) (omega arith))

  some_arguments-Good :
      (fuel n : ℕ) (passed rest : List Token)
      → Ends rest
      → length rest < n
      → 16 * length rest + 5 ≤ fuel
      → Good Any n (some_arguments fuel (at passed rest))
  some_arguments-Good zero n passed rest ends less h = absurd (omega arith)
  some_arguments-Good (suc fuel) n passed rest ends less h =
      assignment-Good fuel passed rest ends (omega arith) ▷ λ (e, q) u more fewer.
      eat_symbol-Good Symbol.right_paren q.passed q.rest _ more
        (λ t vs after few. Good.done tt after (omega arith))
        (expect_symbol-Good Symbol.comma q.passed q.rest _ more (λ t vs after few.
          some_arguments-Good fuel n (t ∷ q.passed) vs after (omega arith) (omega arith)
          ▷ λ (es, r) v last l. Good.done tt last l))
