-- ===== src/Cc/Sema/Collect.antt =====
-- `collect` and `collect_function` of crates/ex3-core/src/cc/sema/symbols.rs.
use Prim.Native.String.{String}
use ex3_rust.Prelude.{
  in_order, Bool, true, false, not, ◌&&◌, ◌||◌, if◌then◌else◌, Option, none, some, List, [], ◌∷◌,
  map, Result, ok, err,
}
use ex3_rust.Prelude.Maps.{Map, lookup, is_present, contains_key}
use ex3_rust.Cc.Ast.{
  Span, CcType, int_type, Stmt, Param, Global, Function, Item, Program, Expr, span_of,
}
use ex3_rust.Cc.ConstEval.{Constant, evaluate}
use ex3_rust.Cc.Sema.Resolver.{quoted}
use ex3_rust.Cc.Sema.Builtins.{FunctionSignature, Builtin, find_builtin, signatures}
use ex3_rust.Cc.Sema.Symbols.{Errors, report, is_reserved, type_eq, types_eq, validate_function}

pub record SymbolTables : Type 0 where
  pub globals : Map CcType
  pub functions : Map FunctionSignature

-- The variables of `collect`.
pub record Collected : Type 0 where
  pub globals : Map CcType
  pub functions : Map FunctionSignature
  pub errors : Errors

abbrev pub fail : Span → String → Collected → Collected
fail span message t = record t { errors = report span message t.errors }

abbrev pub parameter_types : Function → List CcType
parameter_types f = map (λ (p : Param). p.ty) f.params

-- The redeclaration of a built-in function: `functions[name]` is its signature, which stays.
abbrev pub is_invalid_redeclaration : Function → Builtin → Bool
is_invalid_redeclaration f b =
    is_present f.body
    || not (type_eq f.ret b.return_type)
    || not (types_eq (parameter_types f) b.parameter_types)

abbrev pub declared : Function → FunctionSignature
declared f = record { ret = f.ret; params = parameter_types f; defined = is_present f.body }

abbrev pub is_conflict : FunctionSignature → FunctionSignature → Bool
is_conflict previous signature =
    not (type_eq previous.ret signature.ret)
    || not (types_eq previous.params signature.params)
    || (previous.defined && signature.defined)

-- The `if let` on the earlier declaration; the later entry of a map hides the earlier.
abbrev pub declare_function : Function → Option FunctionSignature → Collected → Collected
declare_function f none t = record t { functions = (f.name, declared f) ∷ t.functions }
declare_function f (some previous) t =
    if is_conflict previous (declared f)
    then fail f.span (quoted "conflicting or duplicate declaration of `" f.name "`") t
    else record t {
      functions =
          (f.name, record previous { defined = previous.defined || is_present f.body })
          ∷ t.functions;
    }

abbrev pub collect_user_function : Function → Collected → Collected
collect_user_function f t =
    if is_reserved f.name || contains_key f.name t.globals
    then fail f.span (quoted "duplicate or reserved function `" f.name "`") t
    else declare_function f (lookup f.name t.functions) t

abbrev pub collect_as : Function → Option Builtin → Collected → Collected
collect_as f none t = collect_user_function f t
collect_as f (some b) t =
    if is_invalid_redeclaration f b
    then fail f.span (quoted "invalid redeclaration of reserved function `" f.name "`") t
    else t

unfoldable pub collect_function : Function → Collected → Collected
collect_function f = collect_as f (find_builtin f.name)

abbrev pub check_constant : Span → Result Constant String → Collected → Collected
check_constant span (ok constant) t = t
check_constant span (err message) t = fail span message t

-- The error of an initializer that is no constant.
abbrev pub check_initializer : Option Expr → Collected → Collected
check_initializer none t = t
check_initializer (some e) t = check_constant (span_of e) (evaluate e) t

unfoldable pub collect_global : Global → Collected → Collected
collect_global g t = check_initializer g.init (
    if is_reserved g.name || contains_key g.name t.globals || contains_key g.name t.functions
    then fail g.span (quoted "duplicate or reserved global `" g.name "`") t
    else record t { globals = (g.name, g.ty) ∷ t.globals })

-- The first loop of `collect`.
unfoldable pub collect_items : List Item → Collected → Collected
unfolding collect_function collect_global
collect_items [] t = t
collect_items (Item.global g ∷ items) t = collect_items items (collect_global g t)
collect_items (Item.function f ∷ items) t = collect_items items (collect_function f t)

abbrev first_position : Span
first_position = record { line = 1; column = 1 }

abbrev pub has_none {ℓ} : {A : Type ℓ} → List A → Bool
has_none [] = true
has_none (x ∷ xs) = false

-- The `match` on `main`.
abbrev pub check_main : Option FunctionSignature → Errors → Errors
check_main none errors = report first_position "missing required `int main(void)` definition" errors
check_main (some main) errors =
    if not (type_eq main.ret int_type) || not (has_none main.params) || not main.defined
    then report first_position "entry point must be defined as `int main(void)`" errors
    else errors

-- The second loop of `collect`.
abbrev pub validate_body : Function → Option Stmt → Errors → Errors
validate_body f none errors = errors
validate_body f (some body) errors = validate_function f body errors

unfoldable pub validate_items : List Item → Errors → Errors
validate_items [] errors = errors
validate_items (Item.global g ∷ items) errors = validate_items items errors
validate_items (Item.function f ∷ items) errors =
    validate_items items (validate_body f f.body errors)

abbrev pub start : Collected
start = record { globals = []; functions = signatures; errors = [] }

abbrev pub tables_unless : Collected → Errors → Result SymbolTables Errors
tables_unless t [] = ok (record { globals = t.globals; functions = t.functions })
tables_unless t (e ∷ es) = err (in_order (e ∷ es))

unfoldable pub collect : Program → Result SymbolTables Errors
unfolding collect_items validate_items
collect program =
    let t = collect_items program.items start in
    tables_unless t (validate_items program.items (check_main (lookup "main" t.functions) t.errors))
