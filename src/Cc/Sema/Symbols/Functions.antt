-- ===== src/Cc/Sema/Symbols/Functions.antt =====
-- `validate_function` keeps the errors that there were.
use Prim.Native.String.{String}
use text.Mathlib.Text.{◌==◌ as str_eq}
use text.Mathlib.TextEquality.{eq_iff}
use mathlib.Core.List.Memᴰ
use mathlib.Core.Logic.{⊎_elim}
use ex3_rust.Prelude.{
  ◌≡◌, refl, sym, Bool, true, false, if◌then◌else◌, either_case, List, [], ◌∷◌, map, some, ok, err,
}
use ex3_rust.Prelude.Maps.{Map, lookup}
use ex3_rust.Cc.Ast.{Stmt, Param, Function}
use ex3_rust.Cc.Diagnostic.{CcError, Failure, rejects}
use ex3_rust.Cc.Sema.Ir.{UserLabel}
use ex3_rust.Cc.Sema.Resolver.{Outcome}
use ex3_rust.Cc.Sema.Symbols.{
  Errors, has_name, validate_parameters, label_errors, collect_labels, validate_function,
}
use ex3_rust.Cc.Sema.Symbols.Validation.{HasScalars, AreFound, validate_switches-IsReady}
use ex3_rust.Cc.Sema.Typing.Sources.{label_names}

-- A map in which every name of a list is found.
abbrev all_labels : List String → Map UserLabel
all_labels = map (λ name. (name, 0))

all_labels-AreFound : (names : List String) → AreFound (all_labels names) names
unfolding lookup
all_labels-AreFound [] name m = absurd (Memᴰ.not-nil m)
all_labels-AreFound (first ∷ names) name m =
    either_case (λ o. (id : UserLabel) × (o ≡ some id)) (str_eq first name) (λ same. (0, refl))
      (λ other. all_labels-AreFound names name (
        ⊎_elim (λ (e : name ≡ first). absurd (differs other ((eq_iff first name).1 (sym e))))
          (λ later. later) (Memᴰ.cases_cons m)))
  where
    differs : {b : Bool} → b ≡ false → b ≡ true → ⊥
    differs h k = cc (h, k)

one_more :
    (b : Bool) (e : CcError) (errors : Errors)
    → (if b then e ∷ errors else errors) ≡ []
    → errors ≡ []
one_more true e errors h = cc h
one_more false e errors h = h

validate_parameters-clean :
    (ps : List Param) (names : List String) (errors : Errors)
    → validate_parameters ps names errors ≡ []
    → errors ≡ []
unfolding validate_parameters
validate_parameters-clean [] names errors e = e
validate_parameters-clean (p ∷ ps) names errors e =
    one_more (has_name p.name names) _ errors (validate_parameters-clean ps (p.name ∷ names) _ e)

label_errors-clean :
    (r : Outcome (Map UserLabel)) (errors : Errors) → label_errors r errors ≡ [] → errors ≡ []
label_errors-clean (ok labels) errors e = e
label_errors-clean (err (rejects x)) errors e = cc e
label_errors-clean (err Failure.panics) errors e = e

pub validate_function-clean :
    (f : Function) (body : Stmt) (errors : Errors)
    → HasScalars body
    → validate_function f body errors ≡ []
    → errors ≡ []
unfolding validate_function
validate_function-clean f body errors h e =
    let names = label_names body in
    let (clean, r) =
      validate_switches-IsReady (all_labels names) body _ h (all_labels-AreFound names) e in
    validate_parameters-clean f.params [] errors (label_errors-clean (collect_labels body) _ clean)
