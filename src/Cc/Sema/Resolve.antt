-- ===== src/Cc/Sema/Resolve.antt =====
-- `resolve` of crates/ex3-core/src/cc/sema/resolver.rs, and `analyze` of sema/mod.rs.
use ex3_rust.Prelude.{
  ℕ, suc, Bool, true, false, Option, none, some, List, [], ◌∷◌, length, map, Result, ok, ◌>>=◌,
  map_err, ok_value,
}
use ex3_rust.Prelude.Maps.{Map}
use ex3_rust.Cc.Ast.{CcType, scalar, void, scalar_of, Stmt, Param, Function, Item, Program, Expr}
use ex3_rust.Cc.Diagnostic.{CcError, Failure, rejects, reject_if, expect}
use ex3_rust.Cc.ConstEval.{evaluate}
use ex3_rust.Cc.Sema.Ir.{
  ParamIndex, ResolvedStmt, ResolvedGlobal, ResolvedFunction, ParameterDebugSymbol,
  FunctionDebugSymbols, AnalyzedProgram,
}
use ex3_rust.Cc.Sema.Builtins.{FunctionSignature}
use ex3_rust.Cc.Sema.Resolver.{Context, Resolver, Outcome, quoted}
use ex3_rust.Cc.Sema.Statements.{statement}
use ex3_rust.Cc.Sema.Symbols.{Errors, collect_labels}
use ex3_rust.Cc.Sema.Collect.{SymbolTables, collect}
use ex3_rust.Cc.Sema.ControlFlow.{may_reach_function_end}

-- The value of a global: 0 without an initializer.
abbrev pub initial_value : Option Expr → Outcome ℕ
initial_value none = ok 0
initial_value (some e) = do constant ← expect (ok_value (evaluate e)); ok constant.value

unfoldable pub resolve_globals : List Item → Outcome (List ResolvedGlobal)
resolve_globals [] = ok []
resolve_globals (Item.global g ∷ items) = do
  value ← initial_value g.init
  rest ← resolve_globals items
  ok (record { name = g.name; value = value } ∷ rest)
resolve_globals (Item.function f ∷ items) = resolve_globals items

-- The debug symbols of the parameters, from an index on.
unfoldable pub parameter_symbols : ℕ → List Param → Outcome (List ParameterDebugSymbol)
parameter_symbols index [] = ok []
parameter_symbols index (p ∷ ps) = do
  ty ← expect (scalar_of p.ty)
  rest ← parameter_symbols (suc index) ps
  ok (record { index = index; name = p.name; ty = ty } ∷ rest)

-- The map of the parameters, from an index on: a later entry hides an earlier one.
unfoldable pub parameter_map :
    ℕ → List Param → Map (ParamIndex × CcType) → Map (ParamIndex × CcType)
parameter_map index [] m = m
parameter_map index (p ∷ ps) m = parameter_map (suc index) ps ((p.name, (index, p.ty)) ∷ m)

abbrev pub fresh : Resolver
fresh = record {
  scopes = [];
  next_local = 0;
  debug_locals = [];
  break_depth = 0;
  continue_depth = 0;
}

abbrev pub is_void : CcType → Bool
is_void void = true
is_void (scalar ty) = false

-- `function.ret != Type::Void && may_reach_function_end(&body)`
abbrev pub lacks_return : CcType → ResolvedStmt → Outcome Bool
lacks_return void body = ok false
lacks_return (scalar ty) body = may_reach_function_end body

-- The body of the loop over the functions, for the function with the given index.
unfoldable pub resolve_function :
    Map CcType
    → Map FunctionSignature
    → ℕ
    → Function
    → Stmt
    → Outcome (ResolvedFunction × FunctionDebugSymbols)
unfolding parameter_symbols parameter_map
resolve_function globals functions index f source_body = do
  labels ← collect_labels source_body
  parameters ← parameter_symbols 0 f.params
  let context : Context = record {
    globals = globals;
    functions = functions;
    parameters = parameter_map 0 f.params [];
    return_type = f.ret;
    labels = labels;
  }
  (body, r) ← statement context source_body fresh
  lacking ← lacks_return f.ret body
  _ ←
      reject_if lacking f.span
        (quoted "non-void function `" f.name "` may reach the end without returning a value")
  ok (
    record {
      name = f.name;
      span = f.span;
      body = body;
      local_count = r.next_local;
      parameter_count = length f.params;
    },
    record { id = index; name = f.name; parameters = parameters; locals = r.debug_locals },
  )

-- A function without a body is skipped. The index is that of the function among those with a body.
unfoldable pub resolve_functions :
    Map CcType
    → Map FunctionSignature
    → ℕ
    → List Item
    → Outcome (List (ResolvedFunction × FunctionDebugSymbols))
unfolding resolve_function
resolve_functions globals functions index [] = ok []
resolve_functions globals functions index (Item.global g ∷ items) =
    resolve_functions globals functions index items
resolve_functions globals functions index (Item.function f ∷ items) = elim f.body [
  | none ↦ resolve_functions globals functions index items
  | some body ↦ do
    first ← resolve_function globals functions index f body
    rest ← resolve_functions globals functions (suc index) items
    ok (first ∷ rest)
]

unfoldable pub resolve : Program → SymbolTables → Outcome AnalyzedProgram
unfolding resolve_globals resolve_functions
resolve program tables = do
  globals ← resolve_globals program.items
  functions ← resolve_functions tables.globals tables.functions 0 program.items
  ok (record {
    globals = globals;
    functions = map (λ (f : ResolvedFunction × FunctionDebugSymbols). f.0) functions;
    debug_functions = map (λ (f : ResolvedFunction × FunctionDebugSymbols). f.1) functions;
  })

-- `vec![error]`
abbrev pub one_error : Failure CcError → Failure Errors
one_error (rejects e) = rejects (e ∷ [])
one_error Failure.panics = Failure.panics

unfoldable pub analyze : Program → Result AnalyzedProgram (Failure Errors)
unfolding collect resolve
analyze program = do
  tables ← map_err rejects (collect program)
  map_err one_error (resolve program tables)
