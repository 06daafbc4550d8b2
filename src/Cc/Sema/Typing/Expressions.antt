-- ===== src/Cc/Sema/Typing/Expressions.antt =====
-- The expressions that the resolver makes obey the rules of scope and type.
use Prim.Native.String.{String}
use ex3_rust.Prelude.{
  suc, ◌≡◌, inl, inr, refl, sym, ap, ◌∙◌, subst, arith, not, ◌==◌, ==_iff, Option, none, some, List,
  [], ◌∷◌, length, All, element,
}
use ex3_rust.Prelude.Maps.{Map, lookup, All-lookup, Option-cases}
use ex3_rust.Cc.Ast.{Span, CcType, type_of_literal, Expr, Arguments, no_arguments, argument}
use ex3_rust.Cc.Diagnostic.{Checked, returns, refuses, ◌⟫◌}
use ex3_rust.Cc.Sema.Ir.{
  LocalSlot, ParamIndex, UserLabel, ResolvedExpr, ResolvedArgs, type_of, LocalDebugSymbol,
}
use ex3_rust.Cc.Sema.Resolver.{
  Context, Scopes, local_variable, variable, global_variable, outer_variable, scoped_variable,
  expression, arguments, argument_count, unary_type, binary_type,
}
use ex3_rust.Cc.Sema.Typing.Operations.{
  require_scalar-lem, or_reject-lem, reject_if-lem, operand_type-common, unary_type-result,
  binary_type-result, callee_of-IsCallee,
}
use ex3_rust.Cc.Sema.Typing.{
  Frame, HasLocal, IsVariable, IsTyped, IsValue, AreValues, common, count,
}

-- Every local in scope has its slot and type.
abbrev pub AreInScope : List LocalDebugSymbol → Scopes → Type 0
AreInScope locals =
    All (All (λ (entry : String × (LocalSlot × CcType)). HasLocal locals entry.1.0 entry.1.1))

abbrev pub AreParameters : List CcType → Map (ParamIndex × CcType) → Type 0
AreParameters types =
    All (λ (entry : String × (ParamIndex × CcType)). element entry.1.0 types ≡ some entry.1.1)

-- The frame of a function, by the context of its resolver.
abbrev pub frame_of : Context → List CcType → List LocalDebugSymbol → List UserLabel → Frame
frame_of c parameters locals labels = record {
  globals = c.globals;
  functions = c.functions;
  parameters = parameters;
  locals = locals;
  ret = c.return_type;
  labels = labels;
}

local_variable-HasLocal :
    (locals : List LocalDebugSymbol) (name : String) (scopes : Scopes) (found : LocalSlot × CcType)
    → AreInScope locals scopes
    → local_variable name scopes ≡ some found
    → HasLocal locals found.0 found.1
unfolding local_variable
local_variable-HasLocal locals name [] found h e = cc e
local_variable-HasLocal locals name (scope ∷ scopes) found (h, hs) e =
    elim (Option-cases (lookup name scope)) [
      | inl missing ↦ local_variable-HasLocal locals name scopes found hs (ground arith)
      | inr (entry, there) ↦
          All-lookup (λ (x : LocalSlot × CcType). HasLocal locals x.0 x.1) name scope found h
            (ground arith)
    ]

module _ (c : Context) (parameters : List CcType) (locals : List LocalDebugSymbol)
    (labels : List UserLabel) (scopes : Scopes) (in_scope : AreInScope locals scopes)
    (given : AreParameters parameters c.parameters) where
  abbrev frame : Frame
  frame = frame_of c parameters locals labels

  global_variable-IsVariable :
      (name : String) (span : Span) (o : Option CcType)
      → lookup name c.globals ≡ o
      → Checked (λ found. IsVariable frame found.0 found.1) (global_variable name span o)
  global_variable-IsVariable name span none e = refuses
  global_variable-IsVariable name span (some ty) e = returns e

  outer_variable-IsVariable :
      (name : String) (span : Span) (o : Option (ParamIndex × CcType))
      → lookup name c.parameters ≡ o
      → Checked (λ found. IsVariable frame found.0 found.1) (outer_variable c name span o)
  outer_variable-IsVariable name span none e =
      global_variable-IsVariable name span (lookup name c.globals) refl
  outer_variable-IsVariable name span (some found) e = returns (
      All-lookup (λ (x : ParamIndex × CcType). element x.0 parameters ≡ some x.1) name c.parameters
        found given e)

  scoped_variable-IsVariable :
      (name : String) (span : Span) (o : Option (LocalSlot × CcType))
      → local_variable name scopes ≡ o
      → Checked (λ found. IsVariable frame found.0 found.1) (scoped_variable c name span o)
  scoped_variable-IsVariable name span none e =
      outer_variable-IsVariable name span (lookup name c.parameters) refl
  scoped_variable-IsVariable name span (some found) e =
      returns (local_variable-HasLocal locals name scopes found in_scope e)

  variable-IsVariable :
      (name : String) (span : Span)
      → Checked (λ found. IsVariable frame found.0 found.1) (variable c scopes name span)
  unfolding variable
  variable-IsVariable name span =
      scoped_variable-IsVariable name span (local_variable name scopes) refl

  mutual
    unfolding expression

    pub expression-IsTyped : (e : Expr) → Checked (IsTyped frame) (expression c scopes e)
    expression-IsTyped (Expr.integer literal span) =
        returns (IsTyped.number (type_of_literal literal))
    expression-IsTyped (Expr.variable name span) =
        variable-IsVariable name span ⟫ λ found h. returns (IsTyped.load h)
    expression-IsTyped (Expr.assign name given_value span) =
        expression-IsTyped given_value ⟫ λ resolved h.
        require_scalar-lem (type_of resolved) span ⟫ λ s e.
        variable-IsVariable name span ⟫ λ found k.
        returns (IsTyped.assign k (IsValue.scalar_value s h e))
    expression-IsTyped (Expr.call name actual span) =
        or_reject-lem (lookup name c.functions) span _ ⟫ λ signature found.
        reject_if-lem (not (argument_count actual == length signature.params)) span _ ⟫ λ u same.
        arguments-AreValues span actual ⟫ λ args (hs, n). returns (
          IsTyped.call name signature found (callee_of-IsCallee name)
            (ground (arith, ==_iff (argument_count actual) (length signature.params))) hs)
    expression-IsTyped (Expr.unary op operand span) = expression-IsTyped operand ⟫ λ resolved h.
        require_scalar-lem (type_of resolved) span ⟫ λ s e. returns (
          subst (λ ty. IsTyped frame (ResolvedExpr.unary op resolved ty))
            (sym (ap (unary_type op) e ∙ unary_type-result op s)) (IsTyped.unary s h e))
    expression-IsTyped (Expr.binary op lhs rhs span) = expression-IsTyped lhs ⟫ λ l hl.
        expression-IsTyped rhs ⟫ λ r hr. require_scalar-lem (type_of l) span ⟫ λ s e.
        require_scalar-lem (type_of r) span ⟫ λ t k. returns (
          subst (λ o. IsTyped frame (ResolvedExpr.binary op l r o (binary_type op o)))
            (sym (operand_type-common s t))
            (subst (λ ty. IsTyped frame (ResolvedExpr.binary op l r (common s t) ty))
              (sym (binary_type-result op (common s t))) (IsTyped.binary s t hl e hr k)))

    pub arguments-AreValues :
        (span : Span) (es : Arguments)
        → Checked
            (λ (args : ResolvedArgs). AreValues frame args × (count args ≡ argument_count es))
            (arguments c scopes span es)
    arguments-AreValues span no_arguments = returns (AreValues.nil, refl)
    arguments-AreValues span (argument e es) = expression-IsTyped e ⟫ λ resolved h.
        require_scalar-lem (type_of resolved) span ⟫ λ s k.
        arguments-AreValues span es ⟫ λ rest (hs, same).
        returns (AreValues.cons (IsValue.scalar_value s h k) hs, ap suc same)
