-- ===== src/Cc/Sema/Typing/Declared.antt =====
-- What `collect` has checked of a program, when it reports no error.
use Prim.Native.String.{String}
use ex3_rust.Prelude.{
  ◌≡◌, refl, Bool, true, false, not, ◌||◌, if◌then◌else◌, either_case, List, [], ◌∷◌, Option, none,
  some, Result, ok, err, All,
}
use ex3_rust.Prelude.Maps.{lookup, contains_key}
use ex3_rust.Cc.Sema.Symbols.Validation.{HasScalars}
use ex3_rust.Cc.Sema.Symbols.Functions.{validate_function-clean}
use ex3_rust.Cc.Ast.{
  ScalarType, scalar_of, int_type, Param, Span, Expr, Stmt, Global, Function, Item, Program,
  span_of,
}
use ex3_rust.Cc.ConstEval.{Constant, evaluate}
use ex3_rust.Cc.Sema.Builtins.{FunctionSignature, Builtin, find_builtin}
use ex3_rust.Cc.Sema.Symbols.{Errors, type_eq, is_reserved, validate_function}
use ex3_rust.Cc.Sema.Collect.{
  Collected, SymbolTables, fail, check_constant, check_initializer, collect_global,
  collect_function, collect_as, declare_function, is_invalid_redeclaration, is_conflict, declared,
  collect_items, check_main, validate_body, validate_items, tables_unless, collect, start, has_none,
}

-- The initializer, where there is one, is a constant.
abbrev pub HasConstant : Option Expr → Type 0
HasConstant none = Unit
HasConstant (some e) = (constant : Constant) × (evaluate e ≡ ok constant)

-- The body, where there is one, passed `validate_function`, after errors that do not matter.
abbrev pub IsValidated : Function → Option Stmt → Type 0
IsValidated f none = Unit
IsValidated f (some body) = (errors : Errors) × (validate_function f body errors ≡ [])

abbrev pub IsInitialized : Item → Type 0
IsInitialized (Item.global g) = HasConstant g.init
IsInitialized (Item.function f) = Unit

abbrev pub IsItemValidated : Item → Type 0
IsItemValidated (Item.global g) = Unit
IsItemValidated (Item.function f) = IsValidated f f.body

-- Errors stay: a step that ends without errors began without them.
abbrev Clean : Collected → Type 0
Clean t = t.errors ≡ []

unless_failed :
    (b : Bool) (span : Span) (message : String) (t u : Collected)
    → Clean (if b then fail span message t else u)
    → Clean u
unless_failed true span message t u e = cc e
unless_failed false span message t u e = e

check_constant-Clean :
    (span : Span) (r : Result Constant String) (t : Collected)
    → Clean (check_constant span r t)
    → Clean t × ((constant : Constant) × (r ≡ ok constant))
check_constant-Clean span (ok constant) t e = (e, (constant, refl))
check_constant-Clean span (err message) t e = cc e

check_initializer-Clean :
    (init : Option Expr) (t : Collected)
    → Clean (check_initializer init t)
    → Clean t × HasConstant init
check_initializer-Clean none t e = (e, tt)
check_initializer-Clean (some init) t e = check_constant-Clean (span_of init) (evaluate init) t e

collect_global-Clean :
    (g : Global) (t : Collected) → Clean (collect_global g t) → Clean t × HasConstant g.init
unfolding collect_global
collect_global-Clean g t e =
    let (clean, constant) = check_initializer-Clean g.init _ e in
    (
      unless_failed
          (is_reserved g.name || contains_key g.name t.globals || contains_key g.name t.functions)
          g.span _ t (record t { globals = (g.name, g.ty) ∷ t.globals }) clean,
      constant,
    )

declare_function-Clean :
    (f : Function) (o : Option FunctionSignature) (t : Collected)
    → Clean (declare_function f o t)
    → Clean t
declare_function-Clean f none t e = e
declare_function-Clean f (some previous) t e =
    unless_failed (is_conflict previous (declared f)) f.span _ t _ e

collect_as-Clean :
    (f : Function) (o : Option Builtin) (t : Collected) → Clean (collect_as f o t) → Clean t
collect_as-Clean f none t e =
    declare_function-Clean f (lookup f.name t.functions) t
      (unless_failed (is_reserved f.name || contains_key f.name t.globals) f.span _ t _ e)
collect_as-Clean f (some b) t e = unless_failed (is_invalid_redeclaration f b) f.span _ t t e

collect_function-Clean : (f : Function) (t : Collected) → Clean (collect_function f t) → Clean t
unfolding collect_function
collect_function-Clean f t e = collect_as-Clean f (find_builtin f.name) t e

collect_items-Clean :
    (items : List Item) (t : Collected)
    → Clean (collect_items items t)
    → Clean t × All IsInitialized items
unfolding collect_items
collect_items-Clean [] t e = (e, tt)
collect_items-Clean (Item.global g ∷ items) t e =
    let (clean, rest) = collect_items-Clean items (collect_global g t) e in
    let (first, constant) = collect_global-Clean g t clean in (first, (constant, rest))
collect_items-Clean (Item.function f ∷ items) t e =
    let (clean, rest) = collect_items-Clean items (collect_function f t) e in
    (collect_function-Clean f t clean, (tt, rest))

-- The types that the parser only gives out as scalar: those of parameters and locals.
abbrev pub HasScalarBody : Option Stmt → Type 0
HasScalarBody none = Unit
HasScalarBody (some body) = HasScalars body

abbrev pub AreScalar : List Param → Type 0
AreScalar = All (λ (p : Param). (s : ScalarType) × (scalar_of p.ty ≡ some s))

abbrev pub IsScalarItem : Item → Type 0
IsScalarItem (Item.global g) = Unit
IsScalarItem (Item.function f) = AreScalar f.params × HasScalarBody f.body

validate_body-clean :
    (f : Function) (o : Option Stmt) (errors : Errors)
    → HasScalarBody o
    → validate_body f o errors ≡ []
    → (errors ≡ []) × IsValidated f o
validate_body-clean f none errors h e = (e, tt)
validate_body-clean f (some body) errors h e =
    (validate_function-clean f body errors h e, (errors, e))

validate_items-clean :
    (items : List Item) (errors : Errors)
    → All IsScalarItem items
    → validate_items items errors ≡ []
    → (errors ≡ []) × All IsItemValidated items
unfolding validate_items
validate_items-clean [] errors h e = (e, tt)
validate_items-clean (Item.global g ∷ items) errors (h, hs) e =
    let (clean, rest) = validate_items-clean items errors hs e in (clean, (tt, rest))
validate_items-clean (Item.function f ∷ items) errors ((h, hb), hs) e =
    let (clean, rest) = validate_items-clean items (validate_body f f.body errors) hs e in
    let (first, validated) = validate_body-clean f f.body errors hb clean in
    (first, (validated, rest))

check_main-clean :
    (o : Option FunctionSignature) (errors : Errors) → check_main o errors ≡ [] → errors ≡ []
check_main-clean none errors e = cc e
check_main-clean (some main) errors e =
    either_case (λ (es : Errors). es ≡ [] → errors ≡ [])
      (not (type_eq main.ret int_type) || not (has_none main.params) || not main.defined)
      (λ bad k. cc k) (λ fine k. k) e

tables_unless-ok :
    (t : Collected) (errors : Errors) (tables : SymbolTables)
    → tables_unless t errors ≡ ok tables
    → errors ≡ []
tables_unless-ok t [] tables e = refl
tables_unless-ok t (x ∷ xs) tables e = cc e

-- A program that `collect` accepts.
pub collect-ok :
    (program : Program) (tables : SymbolTables)
    → All IsScalarItem program.items
    → collect program ≡ ok tables
    → All IsInitialized program.items × All IsItemValidated program.items
unfolding collect
collect-ok program tables h e =
    let t = collect_items program.items start in
    let (clean, validated) =
      validate_items-clean program.items _ h (tables_unless-ok t _ tables e) in
    let (first, initialized) =
      collect_items-Clean program.items start
        (check_main-clean (lookup "main" t.functions) t.errors clean) in
    (initialized, validated)
