-- ===== src/Cc/Sema/Typing/Bodies.antt =====
-- The resolution of a statement: no panic, and what is made obeys the rules of scope and type.
use Prim.Native.String.{String}
use mathlib.Core.List.{Memᴰ}
use mathlib.Core.List.Memᴰ
use mathlib.Core.Logic.{⊎_elim}
use ex3_rust.Prelude.{ℕ, ◌≡◌, subst, arith, ◌==◌, List, ◌∷◌, some, ok_value, ap, ◌∙◌, sym}
use ex3_rust.Prelude.Maps.{lookup, All-lookup}
use ex3_rust.Cc.Ast.{CcType, Stmt, Stmts, Else, SwitchParts}
use ex3_rust.Cc.Diagnostic.{Checked, returns, ◌⟫◌, Checked-expect}
use ex3_rust.Cc.ConstEval.{evaluate}
use ex3_rust.Cc.Sema.Ir.{
  UserLabel, type_of, ResolvedStmt, ResolvedStmts, ResolvedElse, ResolvedParts, LocalDebugSymbol,
}
use ex3_rust.Cc.Sema.Resolver.{Context, Resolver, push_scope, enter_loop, enter_switch}
use ex3_rust.Cc.Sema.Statements.{statement, statements, else_branch, parts}
use ex3_rust.Cc.Sema.Typing.{
  Frame, IsValue, IsTypedStmt, AreTypedStmts, IsTypedElse, AreTypedParts, defined, defined_in_stmts,
  defined_in_else, defined_in_parts,
}
use ex3_rust.Cc.Sema.Typing.Operations.{require_scalar-lem, or_reject-lem, reject_if-lem}
use ex3_rust.Cc.Sema.Typing.Expressions.{AreParameters, frame_of}
use ex3_rust.Cc.Sema.Typing.Values.{
  expression-typed, optional_expression-typed, check_return-FitsReturn, IsReturn-fits,
}
use ex3_rust.Cc.Sema.Typing.Sources.{
  label_names, names_in_stmts, names_in_else, names_in_parts, IsReady, AreReady, IsReadyElse,
  AreReadyParts,
}
use ex3_rust.Cc.Sema.Typing.Resolution.{
  Resolves, Resolves-stay, Resolves-after, Resolves-then, Resolves-scope, Resolves-loop,
  Resolves-switch,
}
use ex3_rust.Cc.Sema.Typing.Declarations.{declaration-Resolves}

module _ (c : Context) (parameters : List CcType) (locals : List LocalDebugSymbol)
    (labels : List UserLabel) (given : AreParameters parameters c.parameters) where
  abbrev frame : Frame
  frame = frame_of c parameters locals labels

  -- A label before its statement.
  labelled :
      (name : String) (target : UserLabel) (names : List String) (rule : ℕ → ℕ → Type 0)
      (defines : List UserLabel) (r after : Resolver)
      → lookup name c.labels ≡ some target
      → Resolves c locals labels names rule defines r after
      → Resolves c locals labels
          (name ∷ names)
          (λ b d. Memᴰ target labels × rule b d)
          (target ∷ defines)
          r
          after
  labelled name target names rule defines r after e p = record {
    known = p.known;
    typed = λ k l s.
        (let (t, inside) = p.typed k l s in
          ((All-lookup (λ id. Memᴰ id labels) name c.labels target l e, t), inside));
    breaks = p.breaks;
    continues = p.continues;
    numbered = p.numbered;
    adds = λ other label m found.
        ⊎_elim
          (λ (same : other ≡ name). Memᴰ.head (
            let first = subst (λ n. lookup n c.labels ≡ some label) same found in
            let both : some label ≡ some target = sym first ∙ e in cc both))
          (λ later. Memᴰ.tail (p.adds other label later found)) (Memᴰ.cases_cons m);
  }

  mutual
    unfolding statement IsTypedStmt defined label_names IsReady

    pub statement-Resolves :
        (s : Stmt) (r : Resolver)
        → IsReady c.labels s
        → Checked
            (λ (made : ResolvedStmt × Resolver).
              Resolves c locals labels
                (label_names s)
                (λ b d. IsTypedStmt frame b d made.0)
                (defined made.0)
                r
                made.1)
            (statement c s r)
    statement-Resolves (Stmt.empty span) r h = returns (Resolves-stay r (λ l s. tt))
    statement-Resolves (Stmt.expression e span) r h =
        expression-typed c parameters locals labels r.scopes given e ⟫ λ resolved t.
        returns (Resolves-stay r (λ l s. t s))
    statement-Resolves (Stmt.block body span) r h =
        statements-Resolves body (push_scope r) h ⟫ λ (resolved, after) p.
        returns (Resolves-scope p)
    statement-Resolves (Stmt.declaration name ty init span) r h =
        declaration-Resolves c parameters locals labels given name ty init span r h
    statement-Resolves (Stmt.conditional test taken other span) r (h, k) =
        expression-typed c parameters locals labels r.scopes given test ⟫ λ condition t.
        require_scalar-lem (type_of condition) span ⟫ λ ty e.
        statement-Resolves taken r h ⟫ λ (yes_part, middle) p.
        else_branch-Resolves other middle k ⟫ λ (no_part, after) q.
        returns (Resolves-after (λ s. IsValue.scalar_value ty (t s) e) (Resolves-then p q))
    statement-Resolves (Stmt.loop test body span) r h =
        expression-typed c parameters locals labels r.scopes given test ⟫ λ condition t.
        require_scalar-lem (type_of condition) span ⟫ λ ty e.
        statement-Resolves body (enter_loop r) h ⟫ λ (resolved, after) p.
        returns (Resolves-after (λ s. IsValue.scalar_value ty (t s) e) (Resolves-loop p))
    statement-Resolves (Stmt.switch selector body span) r h =
        expression-typed c parameters locals labels r.scopes given selector ⟫ λ condition t.
        require_scalar-lem (type_of condition) span ⟫ λ ty e.
        parts-Resolves body (enter_switch r) h ⟫ λ (resolved, after) p.
        returns (Resolves-after (λ s. IsValue.scalar_value ty (t s) e) (Resolves-switch p))
    statement-Resolves (Stmt.break span) r h =
        reject_if-lem (r.break_depth == 0) span _ ⟫ λ u inside.
        returns (Resolves-stay r (λ l s. ground arith))
    statement-Resolves (Stmt.continue span) r h =
        reject_if-lem (r.continue_depth == 0) span _ ⟫ λ u inside.
        returns (Resolves-stay r (λ l s. ground arith))
    statement-Resolves (Stmt.goto name span) r h =
        or_reject-lem (lookup name c.labels) span _ ⟫ λ target e.
        returns
          (Resolves-stay r (λ l s. All-lookup (λ id. Memᴰ id labels) name c.labels target l e))
    statement-Resolves (Stmt.label name body span) r ((id, found), h) =
        Checked-expect (lookup name c.labels) id found ⟫ λ target e.
        statement-Resolves body r h ⟫ λ (resolved, after) p. returns (
          labelled name target (label_names body) (λ b d. IsTypedStmt frame b d resolved)
            (defined resolved) r after e p)
    statement-Resolves (Stmt.return init span) r h =
        optional_expression-typed c parameters locals labels r.scopes given init ⟫ λ resolved t.
        check_return-FitsReturn c.return_type resolved span ⟫ λ u fits.
        returns (Resolves-stay r (λ l s. IsReturn-fits frame c.return_type resolved (t s) fits))

    statements-Resolves :
        (ss : Stmts) (r : Resolver)
        → AreReady c.labels ss
        → Checked
            (λ (made : ResolvedStmts × Resolver).
              Resolves c locals labels
                (names_in_stmts ss)
                (λ b d. AreTypedStmts frame b d made.0)
                (defined_in_stmts made.0)
                r
                made.1)
            (statements c ss r)
    statements-Resolves Stmts.nil r h = returns (Resolves-stay r (λ l s. tt))
    statements-Resolves (Stmts.cons s ss) r (h, hs) =
        statement-Resolves s r h ⟫ λ (first, middle) p.
        statements-Resolves ss middle hs ⟫ λ (rest, after) q. returns (Resolves-then p q)

    else_branch-Resolves :
        (e : Else) (r : Resolver)
        → IsReadyElse c.labels e
        → Checked
            (λ (made : ResolvedElse × Resolver).
              Resolves c locals labels
                (names_in_else e)
                (λ b d. IsTypedElse frame b d made.0)
                (defined_in_else made.0)
                r
                made.1)
            (else_branch c e r)
    else_branch-Resolves Else.nothing r h = returns (Resolves-stay r (λ l s. tt))
    else_branch-Resolves (Else.branch s) r h =
        statement-Resolves s r h ⟫ λ (resolved, after) p. returns p

    parts-Resolves :
        (ps : SwitchParts) (r : Resolver)
        → AreReadyParts c.labels ps
        → Checked
            (λ (made : ResolvedParts × Resolver).
              Resolves c locals labels
                (names_in_parts ps)
                (λ b d. AreTypedParts frame b d made.0)
                (defined_in_parts made.0)
                r
                made.1)
            (parts c ps r)
    parts-Resolves SwitchParts.end r h = returns (Resolves-stay r (λ l s. tt))
    parts-Resolves (SwitchParts.case word span rest) r ((constant, e), h) =
        Checked-expect (ok_value (evaluate word)) constant (ap ok_value e) ⟫ λ found same.
        parts-Resolves rest r h ⟫ λ (resolved, after) p. returns p
    parts-Resolves (SwitchParts.default span rest) r h =
        parts-Resolves rest r h ⟫ λ (resolved, after) p. returns p
    parts-Resolves (SwitchParts.statement s rest) r (h, hs) =
        statement-Resolves s r h ⟫ λ (first, middle) p.
        parts-Resolves rest middle hs ⟫ λ (others, after) q. returns (Resolves-then p q)
