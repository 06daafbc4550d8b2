-- ===== src/Cc/Sema/Symbols/Validation.antt =====
-- A statement that `validate_switches` finds no error in is ready for the resolver.
use Prim.Native.String.{String}
use mathlib.Core.List.{Memᴰ}
use mathlib.Core.List.Memᴰ
use ex3_rust.Prelude.{
  ℕ, ◌≡◌, inl, inr, refl, sym, ap, ◌∙◌, Bool, true, false, Bool-cases, if_false, List, [], some,
  Result, ok, err,
}
use ex3_rust.Prelude.Maps.{Map, lookup}
use ex3_rust.Cc.Ast.{Span, ScalarType, scalar_of, Stmt, Stmts, Else, SwitchParts}
use ex3_rust.Cc.ConstEval.{Constant, evaluate}
use ex3_rust.Cc.Sema.Ir.{UserLabel}
use ex3_rust.Cc.Sema.Symbols.{
  Errors, has_case, check_case, check_default, validate_switches, validate_statements,
  validate_else, validate_parts,
}
use ex3_rust.Cc.Sema.Typing.Sources.{
  label_names, names_in_stmts, names_in_else, names_in_parts, IsReady, AreReady, IsReadyElse,
  AreReadyParts,
}

-- Every local that a statement declares has a scalar type.
unfoldable mutual
  pub HasScalars : Stmt → Type 0
  HasScalars (Stmt.label name body span) = HasScalars body
  HasScalars (Stmt.block body span) = HaveScalars body
  HasScalars (Stmt.declaration name ty init span) = (s : ScalarType) × (scalar_of ty ≡ some s)
  HasScalars (Stmt.conditional test taken other span) = HasScalars taken × HasScalarsElse other
  HasScalars (Stmt.loop test body span) = HasScalars body
  HasScalars (Stmt.switch e body span) = HaveScalarsParts body
  HasScalars _ = Unit

  pub HaveScalars : Stmts → Type 0
  HaveScalars Stmts.nil = Unit
  HaveScalars (Stmts.cons s ss) = HasScalars s × HaveScalars ss

  pub HasScalarsElse : Else → Type 0
  HasScalarsElse Else.nothing = Unit
  HasScalarsElse (Else.branch s) = HasScalars s

  pub HaveScalarsParts : SwitchParts → Type 0
  HaveScalarsParts SwitchParts.end = Unit
  HaveScalarsParts (SwitchParts.case word span rest) = HaveScalarsParts rest
  HaveScalarsParts (SwitchParts.default span rest) = HaveScalarsParts rest
  HaveScalarsParts (SwitchParts.statement s rest) = HasScalars s × HaveScalarsParts rest

check_case-none :
    (span : Span) (r : Result Constant String) (cases : List ℕ) (errors : Errors)
    → (check_case span r cases errors).1 ≡ []
    → (errors ≡ []) × ((constant : Constant) × (r ≡ ok constant))
check_case-none span (err message) cases errors e = cc e
check_case-none span (ok constant) cases errors e =
    elim (Bool-cases (has_case constant.value cases)) [
      | inl old ↦ cc (rw old at e)
      | inr new ↦ (sym (ap (λ (p : List ℕ × Errors). p.1) (if_false _ new)) ∙ e, (constant, refl))
    ]

check_default-none :
    (span : Span) (b : Bool) (errors : Errors) → check_default span b errors ≡ [] → errors ≡ []
check_default-none span true errors e = cc e
check_default-none span false errors e = e

module _ (labels : Map UserLabel) where
  abbrev pub AreFound : List String → Type 0
  AreFound names =
      (name : String) → Memᴰ name names → (id : UserLabel) × (lookup name labels ≡ some id)

  mutual
    unfolding validate_switches HasScalars IsReady label_names

    pub validate_switches-IsReady :
        (s : Stmt) (errors : Errors)
        → HasScalars s
        → AreFound (label_names s)
        → validate_switches s errors ≡ []
        → (errors ≡ []) × IsReady labels s
    validate_switches-IsReady (Stmt.label name body span) errors h f e =
        let (clean, ready) = validate_switches-IsReady body errors h (λ n m. f n (Memᴰ.tail m)) e in
        (clean, (f name (Memᴰ.head refl), ready))
    validate_switches-IsReady (Stmt.block body span) errors h f e =
        validate_statements-AreReady body errors h f e
    validate_switches-IsReady (Stmt.declaration name ty init span) errors h f e = (e, h)
    validate_switches-IsReady (Stmt.conditional test taken other span) errors (h, k) f e =
        let (middle, r₂) =
          validate_else-IsReadyElse other (validate_switches taken errors) k
            (λ n m. f n (Memᴰ.append_right (label_names taken) m)) e in
        let (first, r₁) =
          validate_switches-IsReady taken errors h
            (λ n m. f n (Memᴰ.append_left (names_in_else other) m)) middle in
        (first, (r₁, r₂))
    validate_switches-IsReady (Stmt.loop test body span) errors h f e =
        validate_switches-IsReady body errors h f e
    validate_switches-IsReady (Stmt.switch selector body span) errors h f e =
        validate_parts-AreReadyParts body [] false errors h f e
    validate_switches-IsReady (Stmt.empty span) errors h f e = (e, tt)
    validate_switches-IsReady (Stmt.expression x span) errors h f e = (e, tt)
    validate_switches-IsReady (Stmt.break span) errors h f e = (e, tt)
    validate_switches-IsReady (Stmt.continue span) errors h f e = (e, tt)
    validate_switches-IsReady (Stmt.goto name span) errors h f e = (e, tt)
    validate_switches-IsReady (Stmt.return x span) errors h f e = (e, tt)

    validate_statements-AreReady :
        (ss : Stmts) (errors : Errors)
        → HaveScalars ss
        → AreFound (names_in_stmts ss)
        → validate_statements ss errors ≡ []
        → (errors ≡ []) × AreReady labels ss
    validate_statements-AreReady Stmts.nil errors h f e = (e, tt)
    validate_statements-AreReady (Stmts.cons s ss) errors (h, hs) f e =
        let (middle, r₂) =
          validate_statements-AreReady ss (validate_switches s errors) hs
            (λ n m. f n (Memᴰ.append_right (label_names s) m)) e in
        let (first, r₁) =
          validate_switches-IsReady s errors h (λ n m. f n (Memᴰ.append_left (names_in_stmts ss) m))
            middle in
        (first, (r₁, r₂))

    validate_else-IsReadyElse :
        (s : Else) (errors : Errors)
        → HasScalarsElse s
        → AreFound (names_in_else s)
        → validate_else s errors ≡ []
        → (errors ≡ []) × IsReadyElse labels s
    validate_else-IsReadyElse Else.nothing errors h f e = (e, tt)
    validate_else-IsReadyElse (Else.branch s) errors h f e =
        validate_switches-IsReady s errors h f e

    validate_parts-AreReadyParts :
        (ps : SwitchParts) (cases : List ℕ) (has_default : Bool) (errors : Errors)
        → HaveScalarsParts ps
        → AreFound (names_in_parts ps)
        → validate_parts ps cases has_default errors ≡ []
        → (errors ≡ []) × AreReadyParts labels ps
    validate_parts-AreReadyParts SwitchParts.end cases has_default errors h f e = (e, tt)
    validate_parts-AreReadyParts (SwitchParts.case word span rest) cases has_default errors h f e =
        let checked = check_case span (evaluate word) cases errors in
        let (clean, ready) =
          validate_parts-AreReadyParts rest checked.0 has_default checked.1 h f e in
        let (first, constant) = check_case-none span (evaluate word) cases errors clean in
        (first, (constant, ready))
    validate_parts-AreReadyParts (SwitchParts.default span rest) cases has_default errors h f e =
        let (clean, ready) =
          validate_parts-AreReadyParts rest cases true (check_default span has_default errors) h f
            e in
        (check_default-none span has_default errors clean, ready)
    validate_parts-AreReadyParts (SwitchParts.statement s rest) cases has_default errors (h, hs) f
          e =
        let (middle, r₂) =
          validate_parts-AreReadyParts rest cases has_default (validate_switches s errors) hs
            (λ n m. f n (Memᴰ.append_right (label_names s) m)) e in
        let (first, r₁) =
          validate_switches-IsReady s errors h
            (λ n m. f n (Memᴰ.append_left (names_in_parts rest) m)) middle in
        (first, (r₁, r₂))
