-- ===== src/Cc/Sema/Ir.antt =====
-- crates/ex3-core/src/cc/sema/ir.rs, and the debug symbols of crates/ex3-core/src/cc/debug.rs that
-- the resolver makes. `ResolvedExpr` and `ResolvedExprKind` are one data type, each constructor with
-- the type last. The newtypes of an index are the index.
use Prim.Native.String.{String}
use ex3_rust.Prelude.{ℕ, List, Option}
use ex3_rust.Cc.Ast.{Span, ScalarType, CcType, UnOp, BinOp}

abbrev pub LocalSlot : Type 0
LocalSlot = ℕ

abbrev pub ParamIndex : Type 0
ParamIndex = ℕ

abbrev pub UserLabel : Type 0
UserLabel = ℕ

pub data BuiltinId : Type 0 where
  putchar getchar : BuiltinId

pub data ResolvedCallee : Type 0 where
  user : String → ResolvedCallee
  builtin : BuiltinId → ResolvedCallee

-- `GlobalSymbol` is the name that it holds.
pub data ResolvedVariable : Type 0 where
  local : LocalSlot → ResolvedVariable
  parameter : ParamIndex → ResolvedVariable
  global : String → ResolvedVariable

mutual
  pub data ResolvedExpr : Type 0 where
    number : ℕ → CcType → ResolvedExpr
    load : ResolvedVariable → CcType → ResolvedExpr
    assign : (target : ResolvedVariable) (value : ResolvedExpr) → CcType → ResolvedExpr
    call : (callee : ResolvedCallee) (args : ResolvedArgs) → CcType → ResolvedExpr
    unary : UnOp → (operand : ResolvedExpr) → CcType → ResolvedExpr
    binary : BinOp → (lhs rhs : ResolvedExpr) (operand_type : ScalarType) → CcType → ResolvedExpr

  pub data ResolvedArgs : Type 0 where
    nil : ResolvedArgs
    cons : ResolvedExpr → ResolvedArgs → ResolvedArgs

-- The field `ty`.
abbrev pub type_of : ResolvedExpr → CcType
type_of (ResolvedExpr.number value ty) = ty
type_of (ResolvedExpr.load variable ty) = ty
type_of (ResolvedExpr.assign target value ty) = ty
type_of (ResolvedExpr.call callee args ty) = ty
type_of (ResolvedExpr.unary op operand ty) = ty
type_of (ResolvedExpr.binary op lhs rhs operand_type ty) = ty

mutual
  pub data ResolvedStmt : Type 0 where
    empty : ResolvedStmt
    expr : ResolvedExpr → ResolvedStmt
    block : ResolvedStmts → ResolvedStmt
    decl : (slot : LocalSlot) (init : Option ResolvedExpr) → ResolvedStmt
    conditional : (condition : ResolvedExpr) → ResolvedStmt → ResolvedElse → ResolvedStmt
    loop : (condition : ResolvedExpr) (body : ResolvedStmt) → ResolvedStmt
    switch : ResolvedExpr → ResolvedParts → ResolvedStmt
    break continue : ResolvedStmt
    goto : UserLabel → ResolvedStmt
    label : UserLabel → ResolvedStmt → ResolvedStmt
    return : Option ResolvedExpr → ResolvedStmt

  pub data ResolvedStmts : Type 0 where
    nil : ResolvedStmts
    cons : ResolvedStmt → ResolvedStmts → ResolvedStmts

  pub data ResolvedElse : Type 0 where
    nothing : ResolvedElse
    branch : ResolvedStmt → ResolvedElse

  -- `Vec<ResolvedSwitchPart>`
  pub data ResolvedParts : Type 0 where
    end : ResolvedParts
    case : (value : ℕ) → ResolvedParts → ResolvedParts
    default : ResolvedParts → ResolvedParts
    stmt : ResolvedStmt → ResolvedParts → ResolvedParts

pub record ResolvedGlobal : Type 0 where
  pub name : String
  pub value : ℕ

pub record ResolvedFunction : Type 0 where
  pub name : String
  pub span : Span
  pub body : ResolvedStmt
  pub local_count : ℕ
  pub parameter_count : ℕ

pub record ParameterDebugSymbol : Type 0 where
  pub index : ℕ
  pub name : String
  pub ty : ScalarType

pub record LocalDebugSymbol : Type 0 where
  pub slot : ℕ
  pub name : String
  pub ty : ScalarType

pub record FunctionDebugSymbols : Type 0 where
  pub id : ℕ
  pub name : String
  pub parameters : List ParameterDebugSymbol
  pub locals : List LocalDebugSymbol

-- The frames and the lines of assembly are still empty here.
pub record AnalyzedProgram : Type 0 where
  pub globals : List ResolvedGlobal
  pub functions : List ResolvedFunction
  pub debug_functions : List FunctionDebugSymbols
