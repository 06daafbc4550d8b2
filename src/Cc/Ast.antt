-- ===== src/Cc/Ast.antt =====
-- The syntax tree of crates/ex3-core/src/cc/ast.rs. `Expr` and `ExprKind` are one data type, and
-- `Stmt` and `StmtKind` are, each constructor with the span last. `CcType` is the source's `Type`.
use Prim.Native.String.{String}
use ex3_rust.Prelude.{ℕ, List, Option, none, some}

pub record Span : Type 0 where
  pub line : ℕ
  pub column : ℕ

pub data ScalarType : Type 0 where
  int32 uint32 : ScalarType

pub data CcType : Type 0 where
  scalar : ScalarType → CcType
  void : CcType

-- `Type::INT` and `Type::UINT`.
abbrev pub int_type : CcType
int_type = scalar int32

abbrev pub uint_type : CcType
uint_type = scalar uint32

-- `Type::scalar`.
abbrev pub scalar_of : CcType → Option ScalarType
scalar_of (scalar ty) = some ty
scalar_of void = none

pub data IntegerLiteralKind : Type 0 where
  signed unsigned : IntegerLiteralKind

pub record IntegerLiteral : Type 0 where
  pub value : ℕ
  pub kind : IntegerLiteralKind

abbrev pub type_of_kind : IntegerLiteralKind → ScalarType
type_of_kind signed = int32
type_of_kind unsigned = uint32

-- `IntegerLiteral::ty`.
abbrev pub type_of_literal : IntegerLiteral → ScalarType
type_of_literal literal = type_of_kind literal.kind

pub data UnOp : Type 0 where
  bit_not not plus neg : UnOp

pub data BinOp : Type 0 where
  mul div mod_op add sub lt le gt ge eq ne bit_and bit_xor bit_or and or : BinOp

mutual
  pub data Expr : Type 0 where
    integer : IntegerLiteral → Span → Expr
    variable : String → Span → Expr
    call : String → Arguments → Span → Expr
    unary : UnOp → Expr → Span → Expr
    binary : BinOp → Expr → Expr → Span → Expr
    assign : String → Expr → Span → Expr

  pub data Arguments : Type 0 where
    no_arguments : Arguments
    argument : Expr → Arguments → Arguments

-- The field `span` of an expression.
abbrev pub span_of : Expr → Span
span_of (Expr.integer literal span) = span
span_of (Expr.variable name span) = span
span_of (Expr.call name given span) = span
span_of (Expr.unary op operand span) = span
span_of (Expr.binary op lhs rhs span) = span
span_of (Expr.assign name value span) = span

-- A vector of statements, an optional `else` and the parts of a `switch` are data types of their own.
mutual
  pub data Stmt : Type 0 where
    empty : Span → Stmt
    expression : Expr → Span → Stmt
    block : Stmts → Span → Stmt
    declaration : (name : String) (ty : CcType) (initializer : Option Expr) → Span → Stmt
    conditional : (condition : Expr) (then_branch : Stmt) (else_branch : Else) → Span → Stmt
    loop : (condition : Expr) (body : Stmt) → Span → Stmt
    switch : Expr → SwitchParts → Span → Stmt
    break : Span → Stmt
    continue : Span → Stmt
    goto : (label : String) → Span → Stmt
    label : (name : String) (body : Stmt) → Span → Stmt
    return : Option Expr → Span → Stmt

  pub data Stmts : Type 0 where
    nil : Stmts
    cons : Stmt → Stmts → Stmts

  pub data Else : Type 0 where
    nothing : Else
    branch : Stmt → Else

  pub data SwitchParts : Type 0 where
    end : SwitchParts
    case : (value : Expr) → Span → SwitchParts → SwitchParts
    default : Span → SwitchParts → SwitchParts
    statement : Stmt → SwitchParts → SwitchParts

pub record Param : Type 0 where
  pub name : String
  pub ty : CcType
  pub span : Span

pub record Global : Type 0 where
  pub name : String
  pub ty : CcType
  pub init : Option Expr
  pub span : Span

pub record Function : Type 0 where
  pub name : String
  pub ret : CcType
  pub params : List Param
  pub body : Option Stmt
  pub span : Span

pub data Item : Type 0 where
  global : Global → Item
  function : Function → Item

-- `Program`.
pub record Program : Type 0 where
  pub items : List Item
