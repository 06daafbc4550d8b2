-- ===== src/Cc/Sema/Resolver.antt =====
-- crates/ex3-core/src/cc/sema/resolver.rs: names become slots, and expressions get their types. What
-- the source's `Resolver` only reads is a `Context`, what it changes is a `Resolver`, with the
-- innermost scope first.
use Prim.Native.String.{String, ◌++◌ as str_append}
use ex3_rust.Prelude.{
  ℕ, suc, ◌-◌, not, ◌&&◌, ◌||◌, ◌==◌, if◌then◌else◌, Option, none, some, List, [], ◌∷◌, ◌++◌,
  length, Result, ok, ◌>>=◌,
}
use ex3_rust.Prelude.Maps.{Map, lookup, contains_key}
use ex3_rust.Prelude.Text.{decimal}
use ex3_rust.Cc.Ast.{
  Span, ScalarType, int32, uint32, CcType, scalar, void, int_type, scalar_of, type_of_literal, UnOp,
  BinOp, Expr, Arguments, no_arguments, argument,
}
use ex3_rust.Cc.Diagnostic.{CcError, Failure, reject, reject_if, or_reject, expect}
use ex3_rust.Cc.ConstEval.{is_comparison, is_uint32}
use ex3_rust.Cc.Sema.Ir.{
  LocalSlot, ParamIndex, UserLabel, ResolvedVariable, ResolvedCallee, ResolvedExpr, ResolvedArgs,
  type_of, ResolvedStmt, LocalDebugSymbol,
}
use ex3_rust.Cc.Sema.Builtins.{FunctionSignature, Builtin, find_builtin}

pub record Context : Type 0 where
  pub globals : Map CcType
  pub functions : Map FunctionSignature
  pub parameters : Map (ParamIndex × CcType)
  pub return_type : CcType
  pub labels : Map UserLabel

abbrev pub Scopes : Type 0
Scopes = List (Map (LocalSlot × CcType))

pub record Resolver : Type 0 where
  pub scopes : Scopes
  pub next_local : ℕ
  pub debug_locals : List LocalDebugSymbol
  pub break_depth : ℕ
  pub continue_depth : ℕ

abbrev pub Outcome : Type 0 → Type 0
Outcome A = Result A (Failure CcError)

abbrev pub quoted : String → String → String → String
quoted prefix name suffix = str_append prefix (str_append name suffix)

abbrev pub require_scalar : CcType → Span → Outcome ScalarType
require_scalar ty span =
    or_reject (scalar_of ty) span "void expression used where a value is required"

-- The loop over the scopes in `variable`.
unfoldable pub local_variable : String → Scopes → Option (LocalSlot × CcType)
local_variable name [] = none
local_variable name (scope ∷ scopes) =
    let outer = local_variable name scopes in
    elim (lookup name scope) [ none ↦ outer | some found ↦ some found ]

abbrev pub global_variable : String → Span → Option CcType → Outcome (ResolvedVariable × CcType)
global_variable name span none = reject span (quoted "undeclared identifier `" name "`")
global_variable name span (some ty) = ok (ResolvedVariable.global name, ty)

abbrev pub outer_variable :
    Context → String → Span → Option (ParamIndex × CcType) → Outcome (ResolvedVariable × CcType)
outer_variable c name span none = global_variable name span (lookup name c.globals)
outer_variable c name span (some found) = ok (ResolvedVariable.parameter found.0, found.1)

abbrev pub scoped_variable :
    Context → String → Span → Option (LocalSlot × CcType) → Outcome (ResolvedVariable × CcType)
scoped_variable c name span none = outer_variable c name span (lookup name c.parameters)
scoped_variable c name span (some found) = ok (ResolvedVariable.local found.0, found.1)

unfoldable pub variable : Context → Scopes → String → Span → Outcome (ResolvedVariable × CcType)
unfolding local_variable
variable c scopes name span = scoped_variable c name span (local_variable name scopes)

abbrev pub callee_of : String → Option Builtin → ResolvedCallee
callee_of name none = ResolvedCallee.user name
callee_of name (some builtin) = ResolvedCallee.builtin builtin.id

abbrev pub argument_count : Arguments → ℕ
argument_count no_arguments = 0
argument_count (argument e es) = suc (argument_count es)

abbrev pub operand_type : ScalarType → ScalarType → ScalarType
operand_type lhs rhs = if is_uint32 lhs || is_uint32 rhs then uint32 else int32

abbrev pub unary_type : UnOp → CcType → CcType
unary_type UnOp.not ty = int_type
unary_type _ ty = ty

abbrev pub binary_type : BinOp → ScalarType → CcType
binary_type op ty = if is_comparison op then int_type else scalar ty

-- `expression`; its loop over the arguments of a call is `arguments`.
unfoldable mutual
  unfolding variable

  pub expression : Context → Scopes → Expr → Outcome ResolvedExpr
  expression c scopes (Expr.integer literal span) =
      ok (ResolvedExpr.number literal.value (scalar (type_of_literal literal)))
  expression c scopes (Expr.variable name span) = do
    found ← variable c scopes name span
    ok (ResolvedExpr.load found.0 found.1)
  expression c scopes (Expr.assign name value span) = do
    resolved ← expression c scopes value
    _ ← require_scalar (type_of resolved) span
    found ← variable c scopes name span
    ok (ResolvedExpr.assign found.0 resolved found.1)
  expression c scopes (Expr.call name given span) = do
    signature ←
        or_reject (lookup name c.functions) span (quoted "call to undeclared function `" name "`")
    _ ← reject_if (not (argument_count given == length signature.params)) span (
        quoted "function `" name (
          quoted "` expects " (decimal (length signature.params))
            (str_append " arguments, got " (decimal (argument_count given)))))
    resolved ← arguments c scopes span given
    ok (ResolvedExpr.call (callee_of name (find_builtin name)) resolved signature.ret)
  expression c scopes (Expr.unary op operand span) = do
    resolved ← expression c scopes operand
    _ ← require_scalar (type_of resolved) span
    ok (ResolvedExpr.unary op resolved (unary_type op (type_of resolved)))
  expression c scopes (Expr.binary op lhs rhs span) = do
    l ← expression c scopes lhs
    r ← expression c scopes rhs
    lhs_type ← require_scalar (type_of l) span
    rhs_type ← require_scalar (type_of r) span
    ok (
        ResolvedExpr.binary op l r (operand_type lhs_type rhs_type)
          (binary_type op (operand_type lhs_type rhs_type)))

  pub arguments : Context → Scopes → Span → Arguments → Outcome ResolvedArgs
  arguments c scopes span no_arguments = ok ResolvedArgs.nil
  arguments c scopes span (argument e es) = do
    first ← expression c scopes e
    _ ← require_scalar (type_of first) span
    rest ← arguments c scopes span es
    ok (ResolvedArgs.cons first rest)

abbrev pub push_scope : Resolver → Resolver
push_scope r = record r { scopes = [] ∷ r.scopes }

abbrev pub pop_scope : Resolver → Resolver
pop_scope r = record r { scopes = elim r.scopes [ [] ↦ [] | scope ∷ outer ↦ outer ] }

abbrev pub enter_loop : Resolver → Resolver
enter_loop r = record r { break_depth = suc r.break_depth; continue_depth = suc r.continue_depth }

abbrev pub leave_loop : Resolver → Resolver
leave_loop r = record r { break_depth = r.break_depth - 1; continue_depth = r.continue_depth - 1 }

abbrev pub enter_switch : Resolver → Resolver
enter_switch r = record r { break_depth = suc r.break_depth; scopes = [] ∷ r.scopes }

abbrev pub leave_switch : Resolver → Resolver
leave_switch r = record (pop_scope r) { break_depth = r.break_depth - 1 }

-- `self.scopes.last()`
abbrev pub innermost : Scopes → Option (Map (LocalSlot × CcType))
innermost [] = none
innermost (scope ∷ outer) = some scope

abbrev pub insert_innermost : String → LocalSlot × CcType → Scopes → Scopes
insert_innermost name entry [] = []
insert_innermost name entry (scope ∷ outer) = ((name, entry) ∷ scope) ∷ outer

abbrev pub optional_expression : Context → Scopes → Option Expr → Outcome (Option ResolvedExpr)
optional_expression c scopes none = ok none
optional_expression c scopes (some e) = do resolved ← expression c scopes e; ok (some resolved)

-- The type of an initializer or a returned value, where there is one, is scalar.
abbrev pub require_value : Option ResolvedExpr → Span → Outcome (Unit {0})
require_value none span = ok tt
require_value (some e) span = do _ ← require_scalar (type_of e) span; ok tt

-- A new slot in the innermost scope.
unfoldable pub declare : String → CcType → ScalarType → Resolver → Resolver
declare name ty scalar_type r = record r {
  next_local = suc r.next_local;
  debug_locals =
      r.debug_locals ++ (record { slot = r.next_local; name = name; ty = scalar_type } ∷ []);
  scopes = insert_innermost name (r.next_local, ty) r.scopes;
}

unfoldable pub declaration :
    Context → String → CcType → Option Expr → Span → Resolver → Outcome (ResolvedStmt × Resolver)
unfolding declare
declaration c name ty init span r = do
  scope ← or_reject (innermost r.scopes) span "declaration outside a compound statement"
  _ ←
      reject_if
        (contains_key name scope || (length r.scopes == 1 && contains_key name c.parameters)) span
        (quoted "redeclaration of `" name "`")
  initializer ← optional_expression c r.scopes init
  _ ← require_value initializer span
  scalar_type ← expect (scalar_of ty)
  ok (ResolvedStmt.decl r.next_local initializer, declare name ty scalar_type r)

-- The `match` on the return type and the value.
abbrev pub check_return : CcType → Option ResolvedExpr → Span → Outcome (Unit {0})
check_return void none span = ok tt
check_return void (some e) span = reject span "void function cannot return a value"
check_return (scalar ty) none span = reject span "non-void function must return a value"
check_return (scalar ty) (some e) span = require_value (some e) span
