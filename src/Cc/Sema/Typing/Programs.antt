-- ===== src/Cc/Sema/Typing/Programs.antt =====
-- The whole analysis: no panic, and every function obeys the rules of scope and type.
use ex3_rust.Prelude.{
  ℕ, suc, ◌≡◌, ◌≢◌, refl, ap, subst, List, [], ◌∷◌, map, Option, none, some, Result, ok, err,
  map_err, All, ok_value,
}
use ex3_rust.Cc.Ast.{Stmt, Global, Function, Item, Program, Expr}
use ex3_rust.Cc.Diagnostic.{
  CcError, Failure, rejects, panics, Checked, returns, refuses, ◌⟫◌, Checked-at, Checked-safe,
  Checked-expect, Checked-weaken,
}
use ex3_rust.Cc.ConstEval.{evaluate}
use ex3_rust.Cc.Sema.Ir.{ResolvedFunction, FunctionDebugSymbols, AnalyzedProgram}
use ex3_rust.Cc.Sema.Symbols.{Errors}
use ex3_rust.Cc.Sema.Collect.{SymbolTables, collect}
use ex3_rust.Cc.Sema.Resolve.{
  initial_value, resolve_globals, resolve_functions, resolve, one_error, analyze,
}
use ex3_rust.Cc.Sema.Typing.Declared.{
  HasConstant, IsInitialized, IsItemValidated, IsScalarItem, IsValidated, HasScalarBody, collect-ok,
}
use ex3_rust.Cc.Sema.Typing.Functions.{IsResolved, resolve_function-IsResolved}

abbrev pub Made : Type 0
Made = ResolvedFunction × FunctionDebugSymbols

-- The functions of a program that have a body, in order, against what is made of them.
pub data AreResolved (tables : SymbolTables) : List Item → List Made → Type 0 where
  no_items : AreResolved tables [] []
  global :
      {items : List Item} {made : List Made} (g : Global)
      → AreResolved tables items made
      → AreResolved tables (Item.global g ∷ items) made
  prototype :
      {items : List Item} {made : List Made} (f : Function)
      → f.body ≡ none
      → AreResolved tables items made
      → AreResolved tables (Item.function f ∷ items) made
  definition :
      {items : List Item} {made : List Made} (f : Function) (body : Stmt) (first : Made)
      → f.body ≡ some body
      → IsResolved tables.globals tables.functions f first
      → AreResolved tables items made
      → AreResolved tables (Item.function f ∷ items) (first ∷ made)

initial_value-safe : (o : Option Expr) → HasConstant o → Checked (λ v. Unit {0}) (initial_value o)
initial_value-safe none h = returns tt
initial_value-safe (some e) (constant, same) =
    Checked-expect (ok_value (evaluate e)) constant (ap ok_value same) ⟫ λ found k. returns tt

resolve_globals-safe :
    (items : List Item) → All IsInitialized items → Checked (λ v. Unit {0}) (resolve_globals items)
unfolding resolve_globals
resolve_globals-safe [] h = returns tt
resolve_globals-safe (Item.global g ∷ items) (h, hs) =
    initial_value-safe g.init h ⟫ λ word u. resolve_globals-safe items hs ⟫ λ rest v. returns tt
resolve_globals-safe (Item.function f ∷ items) (h, hs) = resolve_globals-safe items hs

Checked-option :
    {A B E : Type 0} {P : B → Type 0} (o : Option A) {r : Result B (Failure E)}
    {g : A → Result B (Failure E)}
    → (o ≡ none → Checked P r)
    → ((a : A) → o ≡ some a → Checked P (g a))
    → Checked P (elim o [ none ↦ r | some a ↦ g a ])
Checked-option none h k = h refl
Checked-option (some a) h k = k a refl

resolve_functions-AreResolved :
    (tables : SymbolTables) (index : ℕ) (items : List Item)
    → All IsScalarItem items
    → All IsItemValidated items
    → Checked
        (AreResolved tables items)
        (resolve_functions tables.globals tables.functions index items)
unfolding resolve_functions
resolve_functions-AreResolved tables index [] h v = returns AreResolved.no_items
resolve_functions-AreResolved tables index (Item.global g ∷ items) (h, hs) (v, vs) =
    Checked-weaken (resolve_functions-AreResolved tables index items hs vs)
      (λ made r. AreResolved.global g r)
resolve_functions-AreResolved tables index (Item.function f ∷ items) ((hp, hb), hs) (v, vs) =
    Checked-option f.body
      (λ absent.
        Checked-weaken (resolve_functions-AreResolved tables index items hs vs)
          (λ made r. AreResolved.prototype f absent r))
      (λ body present.
        let (errors, clean) = subst (IsValidated f) present v in
        resolve_function-IsResolved tables.globals tables.functions index f body errors hp
          (subst HasScalarBody present hb) clean
        ⟫ λ first r. resolve_functions-AreResolved tables (suc index) items hs vs ⟫ λ rest rs.
            returns (AreResolved.definition f body first present r rs))

-- What the analysis of a program gives.
pub record IsAnalysis (program : Program) (analyzed : AnalyzedProgram) : Type 0 where
  pub tables : SymbolTables
  pub made : List Made
  pub collected : collect program ≡ ok tables
  pub functions : analyzed.functions ≡ map (λ (f : Made). f.0) made
  pub debug_functions : analyzed.debug_functions ≡ map (λ (f : Made). f.1) made
  pub resolved : AreResolved tables program.items made

resolve-IsAnalysis :
    (program : Program) (tables : SymbolTables)
    → All IsScalarItem program.items
    → collect program ≡ ok tables
    → Checked (IsAnalysis program) (resolve program tables)
unfolding resolve
resolve-IsAnalysis program tables h e =
    let (initialized, validated) = collect-ok program tables h e in
    resolve_globals-safe program.items initialized ⟫ λ globals u.
    resolve_functions-AreResolved tables 0 program.items h validated ⟫ λ made r. returns (record {
      tables = tables;
      made = made;
      collected = e;
      functions = refl;
      debug_functions = refl;
      resolved = r;
    })

one_error-Checked :
    {P : AnalyzedProgram → Type 0} {r : Result AnalyzedProgram (Failure CcError)}
    → Checked P r
    → Checked P (map_err one_error r)
one_error-Checked (returns h) = returns h
one_error-Checked refuses = refuses

collected_first :
    (r : Result SymbolTables Errors) → Checked (λ tables. r ≡ ok tables) (map_err rejects r)
collected_first (ok tables) = returns refl
collected_first (err errors) = refuses

analyze-Checked :
    (program : Program)
    → All IsScalarItem program.items
    → Checked (IsAnalysis program) (analyze program)
unfolding analyze
analyze-Checked program h = collected_first (collect program) ⟫ λ tables e.
    one_error-Checked (resolve-IsAnalysis program tables h e)

-- If the locals and parameters of a program have scalar types, `analyze` never panics: what its
-- two passes over the declarations check is what the `expect`s and the indices of the resolver and
-- of the control flow graph rely on.
pub analyze-safe :
    (program : Program) → All IsScalarItem program.items → analyze program ≢ err panics
analyze-safe program h = Checked-safe (analyze-Checked program h)

-- If the locals and parameters of a program have scalar types and `analyze` accepts it, the
-- program's declarations were collected, and each of its functions with a body, in order, has a
-- resolved function of its name whose body obeys the rules of scope and type in its frame: a
-- variable is a local, a parameter or a global of its type, a call has the arguments of a known
-- signature, operands are values, operations have the type that the language gives them, break and
-- continue stand inside of what they leave, a goto has a label that the body defines, and a return
-- fits the return type; the locals have the slots 0 up to the count of locals, and no path of the
-- control flow graph of a function that returns a value leads from its entry to the end of its
-- body.
pub analyze-IsAnalysis :
    (program : Program) (analyzed : AnalyzedProgram)
    → All IsScalarItem program.items
    → analyze program ≡ ok analyzed
    → IsAnalysis program analyzed
analyze-IsAnalysis program analyzed h e = Checked-at (analyze-Checked program h) analyzed e
