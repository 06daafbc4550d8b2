-- ===== src/Cc/Sema/Symbols.antt =====
-- crates/ex3-core/src/cc/sema/symbols.rs: the tables of globals and functions, with the errors of a
-- program's declarations, and the labels of a function. The vector of errors has its newest error
-- first.
pub mod Labels
pub mod Validation
pub mod Functions
use Prim.Native.String.{String}
use text.Mathlib.Text.{◌==◌ as str_eq}
use ex3_rust.Prelude.{
  ℕ, suc, Bool, true, false, not, ◌&&◌, ◌||◌, ◌==◌, if◌then◌else◌, Option, none, some, List, [],
  ◌∷◌, ◌++◌, length, map, Result, ok, err, ◌>>=◌,
}
use ex3_rust.Prelude.Maps.{Map, lookup, is_present, contains_key}
use ex3_rust.Prelude.Text.{starts_with}
use ex3_rust.Cc.Ast.{
  Span, ScalarType, CcType, scalar, void, int_type, Expr, Stmt, Stmts, Else, SwitchParts, Param,
  Global, Function, Item, Program, span_of,
}
use ex3_rust.Cc.Diagnostic.{CcError, Failure, rejects, reject_if}
use ex3_rust.Cc.ConstEval.{Constant, evaluate}
use ex3_rust.Cc.Sema.Ir.{UserLabel}
use ex3_rust.Cc.Sema.Resolver.{Outcome, quoted}
use ex3_rust.Cc.Sema.Builtins.{FunctionSignature, find_builtin, signatures}

-- `is_implementation_reserved` of cc/mod.rs.
abbrev pub is_implementation_reserved : String → Bool
is_implementation_reserved name = starts_with name "__cc_" || starts_with name "__ex3_"

unfoldable pub is_reserved : String → Bool
is_reserved name = is_present (find_builtin name) || is_implementation_reserved name

abbrev pub Errors : Type 0
Errors = List CcError

abbrev pub report : Span → String → Errors → Errors
report span message errors = record { span = span; message = message } ∷ errors

-- `==` on `Type` and on vectors of them.
abbrev pub scalar_eq : ScalarType → ScalarType → Bool
scalar_eq ScalarType.int32 ScalarType.int32 = true
scalar_eq ScalarType.uint32 ScalarType.uint32 = true
scalar_eq _ _ = false

abbrev pub type_eq : CcType → CcType → Bool
type_eq (scalar a) (scalar b) = scalar_eq a b
type_eq void void = true
type_eq _ _ = false

abbrev pub types_eq : List CcType → List CcType → Bool
types_eq [] [] = true
types_eq (a ∷ first) (b ∷ second) = type_eq a b && types_eq first second
types_eq _ _ = false

-- `collect_labels`: `walk` over a statement, with the labels so far.
unfoldable mutual
  pub walk : Stmt → Map UserLabel → Outcome (Map UserLabel)
  walk (Stmt.label name body span) labels = do
    _ ← reject_if (contains_key name labels) span (quoted "duplicate label `" name "`")
    walk body ((name, length labels) ∷ labels)
  walk (Stmt.block body span) labels = walk_statements body labels
  walk (Stmt.conditional test then_stmt else_stmt span) labels = do
    after ← walk then_stmt labels
    walk_else else_stmt after
  walk (Stmt.loop test body span) labels = walk body labels
  walk (Stmt.switch e body span) labels = walk_parts body labels
  walk _ labels = ok labels

  pub walk_statements : Stmts → Map UserLabel → Outcome (Map UserLabel)
  walk_statements Stmts.nil labels = ok labels
  walk_statements (Stmts.cons s ss) labels = do after ← walk s labels; walk_statements ss after

  pub walk_else : Else → Map UserLabel → Outcome (Map UserLabel)
  walk_else Else.nothing labels = ok labels
  walk_else (Else.branch s) labels = walk s labels

  pub walk_parts : SwitchParts → Map UserLabel → Outcome (Map UserLabel)
  walk_parts SwitchParts.end labels = ok labels
  walk_parts (SwitchParts.case value span rest) labels = walk_parts rest labels
  walk_parts (SwitchParts.default span rest) labels = walk_parts rest labels
  walk_parts (SwitchParts.statement s rest) labels = do after ← walk s labels; walk_parts rest after

unfoldable pub collect_labels : Stmt → Outcome (Map UserLabel)
unfolding walk
collect_labels s = walk s []

-- `cases.insert(value)` on the set of the cases so far: whether the value is new.
unfoldable pub has_case : ℕ → List ℕ → Bool
has_case value [] = false
has_case value (x ∷ xs) = x == value || has_case value xs

-- The test of one `case`, with the cases so far and the errors.
abbrev pub check_case : Span → Result Constant String → List ℕ → Errors → List ℕ × Errors
check_case span (err message) cases errors = (cases, report span message errors)
check_case span (ok constant) cases errors =
    if has_case constant.value cases
    then (cases, report span "duplicate case value" errors)
    else (constant.value ∷ cases, errors)

abbrev pub check_default : Span → Bool → Errors → Errors
check_default span true errors = report span "duplicate default label" errors
check_default span false errors = errors

-- The loop over the parts of a `switch` has the cases so far and whether there was a `default`.
unfoldable mutual
  unfolding has_case

  pub validate_switches : Stmt → Errors → Errors
  validate_switches (Stmt.block body span) errors = validate_statements body errors
  validate_switches (Stmt.conditional test then_stmt else_stmt span) errors =
      validate_else else_stmt (validate_switches then_stmt errors)
  validate_switches (Stmt.loop test body span) errors = validate_switches body errors
  validate_switches (Stmt.label name body span) errors = validate_switches body errors
  validate_switches (Stmt.switch e body span) errors = validate_parts body [] false errors
  validate_switches _ errors = errors

  pub validate_statements : Stmts → Errors → Errors
  validate_statements Stmts.nil errors = errors
  validate_statements (Stmts.cons s ss) errors = validate_statements ss (validate_switches s errors)

  pub validate_else : Else → Errors → Errors
  validate_else Else.nothing errors = errors
  validate_else (Else.branch s) errors = validate_switches s errors

  pub validate_parts : SwitchParts → List ℕ → Bool → Errors → Errors
  validate_parts SwitchParts.end cases has_default errors = errors
  validate_parts (SwitchParts.case value span rest) cases has_default errors =
      let checked = check_case span (evaluate value) cases errors in
      validate_parts rest checked.0 has_default checked.1
  validate_parts (SwitchParts.default span rest) cases has_default errors =
      validate_parts rest cases true (check_default span has_default errors)
  validate_parts (SwitchParts.statement s rest) cases has_default errors =
      validate_parts rest cases has_default (validate_switches s errors)

unfoldable pub has_name : String → List String → Bool
has_name name [] = false
has_name name (x ∷ xs) = str_eq x name || has_name name xs

-- The loop over the parameters, with the names so far.
unfoldable pub validate_parameters : List Param → List String → Errors → Errors
unfolding has_name
validate_parameters [] names errors = errors
validate_parameters (p ∷ ps) names errors =
    let next =
      if has_name p.name names
      then report p.span (quoted "duplicate parameter `" p.name "`") errors
      else errors in
    validate_parameters ps (p.name ∷ names) next

abbrev pub label_errors : Outcome (Map UserLabel) → Errors → Errors
label_errors (ok labels) errors = errors
label_errors (err (rejects e)) errors = e ∷ errors
label_errors (err Failure.panics) errors = errors

unfoldable pub validate_function : Function → Stmt → Errors → Errors
unfolding validate_parameters
validate_function f body errors =
    validate_switches body
      (label_errors (collect_labels body) (validate_parameters f.params [] errors))
