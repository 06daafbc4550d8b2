-- ===== src/Cc/Sema/Typing/Functions.antt =====
-- The resolution of a function: its parameters, its body and the test for a missing return.
use Prim.Native.String.{String}
use mathlib.Core.List.{Memᴰ}
use ex3_rust.Prelude.{
  ℕ, zero, suc, ◌+◌, ◌<◌, ◌≡◌, refl, sym, ap, subst, arith, true, List, [], ◌∷◌, length, map,
  element, ok, All,
}
use ex3_rust.Prelude.Maps.{Map}
use ex3_rust.Cc.Ast.{ScalarType, CcType, scalar, void, scalar_of, Stmt, Param, Function}
use ex3_rust.Cc.Diagnostic.{Checked, returns, ◌⟫◌, Checked-at, Checked-self, Checked-expect}
use ex3_rust.Cc.Sema.Ir.{
  ParamIndex, UserLabel, ResolvedStmt, ResolvedFunction, ParameterDebugSymbol, LocalDebugSymbol,
  FunctionDebugSymbols,
}
use ex3_rust.Cc.Sema.Builtins.{FunctionSignature}
use ex3_rust.Cc.Sema.Resolver.{Context, Resolver}
use ex3_rust.Cc.Sema.Statements.{statement}
use ex3_rust.Cc.Sema.Symbols.{Errors, collect_labels, validate_function}
use ex3_rust.Cc.Sema.Symbols.Labels.{walk-Walked, Walked}
use ex3_rust.Cc.Sema.Symbols.Validation.{HasScalars, validate_switches-IsReady}
use ex3_rust.Cc.Sema.ControlFlow.{NodeId, Edges, exit, graph_of}
use ex3_rust.Cc.Sema.ControlFlow.Reachable.{PathFrom}
use ex3_rust.Cc.Sema.ControlFlow.End.{may_reach_function_end_lem}
use ex3_rust.Cc.Sema.Resolve.{
  parameter_symbols, parameter_map, fresh, lacks_return, resolve_function,
}
use ex3_rust.Cc.Sema.Typing.{Frame, IsTypedStmt, known, defined}
use ex3_rust.Cc.Sema.Typing.Operations.{reject_if-lem}
use ex3_rust.Cc.Sema.Typing.Expressions.{AreParameters, frame_of}
use ex3_rust.Cc.Sema.Typing.Declared.{AreScalar}
use ex3_rust.Cc.Sema.Typing.Sources.{label_names, IsReady}
use ex3_rust.Cc.Sema.Typing.Resolution.{AreKnown, AreLabels, upto, Resolves}
use ex3_rust.Cc.Sema.Typing.Bodies.{statement-Resolves}

abbrev pub types_of : List Param → List CcType
types_of = map (λ (p : Param). p.ty)

parameter_map-AreParameters :
    (types : List CcType) (index : ℕ) (ps : List Param) (m : Map (ParamIndex × CcType))
    → ((k i : ℕ) → i ≡ index + k → element i types ≡ element k (types_of ps))
    → AreParameters types m
    → AreParameters types (parameter_map index ps m)
unfolding parameter_map element
parameter_map-AreParameters types index [] m h all = all
parameter_map-AreParameters types index (p ∷ ps) m h all =
    parameter_map-AreParameters types (suc index) ps ((p.name, (index, p.ty)) ∷ m)
      (λ k i e. h (suc k) i (omega arith)) (h zero index (omega arith), all)

-- The symbols of the parameters from an index on.
abbrev pub AreIndexed : ℕ → ℕ → List ParameterDebugSymbol → Type 0
AreIndexed index bound symbols =
    (index + length symbols ≡ bound) × All (λ (p : ParameterDebugSymbol). p.index < bound) symbols

parameter_symbols-AreIndexed :
    (index bound : ℕ) (ps : List Param)
    → index + length ps ≡ bound
    → AreScalar ps
    → Checked (AreIndexed index bound) (parameter_symbols index ps)
unfolding parameter_symbols
parameter_symbols-AreIndexed index bound [] e h = returns (e, tt)
parameter_symbols-AreIndexed index bound (p ∷ ps) e ((s, scalar_type), hs) =
    Checked-expect (scalar_of p.ty) s scalar_type ⟫ λ ty same.
    parameter_symbols-AreIndexed (suc index) bound ps (omega arith) hs ⟫ λ rest (k, all).
    returns (omega arith, (omega arith, all))

-- Each symbol of a list is among the list.
all_known : (xs : List LocalDebugSymbol) → AreKnown xs xs
all_known xs = among xs (λ x m. m)
  where
    among :
        (ys : List LocalDebugSymbol)
        → ((x : LocalDebugSymbol) → Memᴰ x ys → Memᴰ x xs)
        → AreKnown xs ys
    among [] h = tt
    among (y ∷ ys) h =
        (known y (h y (Memᴰ.head refl)) refl refl, among ys (λ x m. h x (Memᴰ.tail m)))

-- A resolved function obeys the rules of scope and type, in the frame of its locals and its labels.
pub record IsResolved (globals : Map CcType) (functions : Map FunctionSignature) (source : Function)
    (made : ResolvedFunction × FunctionDebugSymbols) : Type 0 where
  pub same_name : made.0.name ≡ source.name
  pub parameters : made.0.parameter_count ≡ length source.params
  pub indexed : AreIndexed 0 made.0.parameter_count made.1.parameters
  pub typed :
      IsTypedStmt
        (record {
          globals = globals;
          functions = functions;
          parameters = types_of source.params;
          locals = made.1.locals;
          ret = source.ret;
          labels = defined made.0.body;
        })
        0
        0
        made.0.body
  pub slots : map (λ (x : LocalDebugSymbol). x.slot) made.1.locals ≡ upto made.0.local_count
  pub no_end :
      (ty : ScalarType) (first : NodeId) (edges : Edges)
      → source.ret ≡ scalar ty
      → graph_of made.0.body ≡ ok (first, edges)
      → ¬ PathFrom edges first exit

same_graph :
    (made : ResolvedStmt) (p q : NodeId × Edges)
    → graph_of made ≡ ok p
    → graph_of made ≡ ok q
    → PathFrom q.1 q.0 exit
    → PathFrom p.1 p.0 exit
same_graph made p q e k path =
    let same : q ≡ p = cc (e, k) in subst (λ (x : NodeId × Edges). PathFrom x.1 x.0 exit) same path

module _ (globals : Map CcType) (functions : Map FunctionSignature) (index : ℕ) (f : Function)
    (body : Stmt) where
  abbrev context : Map UserLabel → Context
  context labels = record {
    globals = globals;
    functions = functions;
    parameters = parameter_map 0 f.params [];
    return_type = f.ret;
    labels = labels;
  }

  collect_labels-Walked :
      (P : String → UserLabel → Type 0)
      → Checked (Walked P (label_names body) []) (collect_labels body)
  unfolding collect_labels
  collect_labels-Walked P = walk-Walked P body []

  -- The labels of a function without errors, and the body they make ready.
  ready :
      (labels : Map UserLabel) (errors : Errors)
      → HasScalars body
      → collect_labels body ≡ ok labels
      → validate_function f body errors ≡ []
      → IsReady labels body
  unfolding validate_function
  ready labels errors h e clean =
      (validate_switches-IsReady labels body _ h
        (Checked-at (collect_labels-Walked (λ name id. Unit {0})) labels e).finds clean).1

  body-Resolves :
      (labels : Map UserLabel) (made : ResolvedStmt × Resolver) (locals : List LocalDebugSymbol)
      (ids : List UserLabel)
      → IsReady labels body
      → statement (context labels) body fresh ≡ ok made
      → Resolves
          (context labels)
          locals
          ids
          (label_names body)
          (λ b d. IsTypedStmt (frame_of (context labels) (types_of f.params) locals ids) b d made.0)
          (defined made.0)
          fresh
          made.1
  body-Resolves labels made locals ids r e =
      Checked-at
        (statement-Resolves (context labels) (types_of f.params) locals ids
          (parameter_map-AreParameters (types_of f.params) 0 f.params []
            (λ k i same. ap (λ n. element n (types_of f.params)) (omega arith)) tt)
          body fresh r)
        made e

  body_typed :
      (labels : Map UserLabel) (made : ResolvedStmt × Resolver)
      → IsReady labels body
      → collect_labels body ≡ ok labels
      → statement (context labels) body fresh ≡ ok made
      → IsTypedStmt
          (frame_of (context labels) (types_of f.params) made.1.debug_locals (defined made.0))
          0
          0
          made.0
        × (map (λ (x : LocalDebugSymbol). x.slot) made.1.debug_locals ≡ upto made.1.next_local)
  body_typed labels made r collected e =
      let p = body-Resolves labels made made.1.debug_locals (defined made.0) r e in
      let found : AreLabels (defined made.0) labels =
        (Checked-at (collect_labels-Walked (λ name id. Memᴰ id (defined made.0))) labels
            collected).entries
          tt p.adds in
      ((p.typed (all_known made.1.debug_locals) found tt).0, p.numbered refl)

  -- The test for a missing return gives an answer, and yes if the end of the body is reachable.
  lacks_return-no_end :
      (frame : Frame) (ret : CcType) (made : ResolvedStmt)
      → IsTypedStmt frame 0 0 made
      → frame.labels ≡ defined made
      → Checked
          (λ lacking.
            (ty : ScalarType) (first : NodeId) (edges : Edges)
            → ret ≡ scalar ty
            → graph_of made ≡ ok (first, edges)
            → PathFrom edges first exit
            → lacking ≡ true)
          (lacks_return ret made)
  lacks_return-no_end frame void made h e = returns (λ ty first edges same graph path. cc same)
  lacks_return-no_end frame (scalar s) made h e =
      let (first, edges, answer, graph, answered, paths) =
        may_reach_function_end_lem frame made h
          (λ label m. subst (λ labels. Memᴰ label labels) e m) in
      subst (Checked _) (sym answered) (
        returns (λ ty entry others same built path.
          paths.1 (same_graph made (first, edges) (entry, others) graph built path)))

  pub resolve_function-IsResolved :
      (errors : Errors)
      → AreScalar f.params
      → HasScalars body
      → validate_function f body errors ≡ []
      → Checked (IsResolved globals functions f) (resolve_function globals functions index f body)
  unfolding resolve_function
  resolve_function-IsResolved errors hp hb clean =
      Checked-self (collect_labels-Walked (λ name id. Unit {0})) ⟫ λ labels collected.
      parameter_symbols-AreIndexed 0 (length f.params) f.params (omega arith) hp
      ⟫ λ symbols indexed.
          let r = ready labels errors hb collected clean in
          Checked-self (
            statement-Resolves (context labels) (types_of f.params) [] []
              (parameter_map-AreParameters (types_of f.params) 0 f.params []
                (λ k i e. ap (λ n. element n (types_of f.params)) (omega arith)) tt)
              body fresh r)
          ⟫ λ made e.
              let (typed, slots) = body_typed labels made r collected e in
              lacks_return-no_end _ f.ret made.0 typed refl ⟫ λ lacking paths.
              reject_if-lem lacking f.span _ ⟫ λ u reached. returns (record {
                same_name = refl;
                parameters = refl;
                indexed = indexed;
                typed = typed;
                slots = slots;
                no_end = λ ty first edges ret graph path.
                    cc (paths ty first edges ret graph path, reached);
              })
