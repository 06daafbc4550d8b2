-- ===== src/Cc/Sema/Typing.antt =====
-- The rules of scope and type that a resolved body obeys, by what a function's frame offers. The
-- types of an operation are written out here as the language has them.
pub mod Operations
pub mod Expressions
pub mod Values
pub mod Sources
pub mod Resolution
pub mod Declarations
pub mod Bodies
pub mod Functions
pub mod Declared
pub mod Programs
use Prim.Native.String.{String}
use mathlib.Core.List.{Memᴰ}
use ex3_rust.Prelude.{
  ℕ, suc, ◌<◌, ◌≡◌, ◌≢◌, List, [], ◌∷◌, ◌++◌, length, Option, none, some, element,
}
use ex3_rust.Prelude.Maps.{Map, lookup}
use ex3_rust.Cc.Ast.{ScalarType, int32, uint32, CcType, scalar, void, UnOp, BinOp}
use ex3_rust.Cc.Sema.Ir.{
  UserLabel, LocalSlot, BuiltinId, ResolvedCallee, ResolvedVariable, ResolvedExpr, ResolvedArgs,
  type_of, ResolvedStmt, ResolvedStmts, ResolvedElse, ResolvedParts, LocalDebugSymbol,
}
use ex3_rust.Cc.Sema.Builtins.{FunctionSignature}

pub record Frame : Type 0 where
  pub globals : Map CcType
  pub functions : Map FunctionSignature
  pub parameters : List CcType
  pub locals : List LocalDebugSymbol
  pub ret : CcType
  pub labels : List UserLabel

-- A local of a slot and a type.
pub data HasLocal (locals : List LocalDebugSymbol) (slot : LocalSlot) (ty : CcType) : Type 0 where
  known :
      (symbol : LocalDebugSymbol)
      → Memᴰ symbol locals
      → symbol.slot ≡ slot
      → scalar symbol.ty ≡ ty
      → HasLocal locals slot ty

abbrev pub IsVariable : Frame → ResolvedVariable → CcType → Type 0
IsVariable f (ResolvedVariable.local slot) ty = HasLocal f.locals slot ty
IsVariable f (ResolvedVariable.parameter index) ty = element index f.parameters ≡ some ty
IsVariable f (ResolvedVariable.global name) ty = lookup name f.globals ≡ some ty

-- The callee that a name stands for: the two built-in functions are not called by name.
pub data IsCallee (name : String) : ResolvedCallee → Type 0 where
  putchar : name ≡ "putchar" → IsCallee name (ResolvedCallee.builtin BuiltinId.putchar)
  getchar : name ≡ "getchar" → IsCallee name (ResolvedCallee.builtin BuiltinId.getchar)
  user : name ≢ "putchar" → name ≢ "getchar" → IsCallee name (ResolvedCallee.user name)

abbrev pub common : ScalarType → ScalarType → ScalarType
common int32 int32 = int32
common _ _ = uint32

abbrev pub result_of_unary : UnOp → ScalarType → ScalarType
result_of_unary UnOp.not ty = int32
result_of_unary UnOp.bit_not ty = ty
result_of_unary UnOp.plus ty = ty
result_of_unary UnOp.neg ty = ty

abbrev pub result_of_binary : BinOp → ScalarType → ScalarType
result_of_binary BinOp.mul ty = ty
result_of_binary BinOp.div ty = ty
result_of_binary BinOp.mod_op ty = ty
result_of_binary BinOp.add ty = ty
result_of_binary BinOp.sub ty = ty
result_of_binary BinOp.bit_and ty = ty
result_of_binary BinOp.bit_xor ty = ty
result_of_binary BinOp.bit_or ty = ty
result_of_binary _ ty = int32

abbrev pub count : ResolvedArgs → ℕ
count ResolvedArgs.nil = 0
count (ResolvedArgs.cons e es) = suc (count es)

mutual
  pub data IsTyped (f : Frame) : ResolvedExpr → Type 0 where
    number : {value : ℕ} (ty : ScalarType) → IsTyped f (ResolvedExpr.number value (scalar ty))
    load :
        {x : ResolvedVariable} {ty : CcType}
        → IsVariable f x ty
        → IsTyped f (ResolvedExpr.load x ty)
    assign :
        {x : ResolvedVariable} {e : ResolvedExpr} {ty : CcType}
        → IsVariable f x ty
        → IsValue f e
        → IsTyped f (ResolvedExpr.assign x e ty)
    call :
        {callee : ResolvedCallee} {args : ResolvedArgs} (name : String)
        (signature : FunctionSignature)
        → lookup name f.functions ≡ some signature
        → IsCallee name callee
        → count args ≡ length signature.params
        → AreValues f args
        → IsTyped f (ResolvedExpr.call callee args signature.ret)
    unary :
        {op : UnOp} {e : ResolvedExpr} (ty : ScalarType)
        → IsTyped f e
        → type_of e ≡ scalar ty
        → IsTyped f (ResolvedExpr.unary op e (scalar (result_of_unary op ty)))
    binary :
        {op : BinOp} {lhs rhs : ResolvedExpr} (l r : ScalarType)
        → IsTyped f lhs
        → type_of lhs ≡ scalar l
        → IsTyped f rhs
        → type_of rhs ≡ scalar r
        → IsTyped f (
            ResolvedExpr.binary op lhs rhs (common l r) (scalar (result_of_binary op (common l r))))

  -- Not of type `void`.
  pub data IsValue (f : Frame) : ResolvedExpr → Type 0 where
    scalar_value :
        {e : ResolvedExpr} (ty : ScalarType) → IsTyped f e → type_of e ≡ scalar ty → IsValue f e

  pub data AreValues (f : Frame) : ResolvedArgs → Type 0 where
    nil : AreValues f ResolvedArgs.nil
    cons :
        {e : ResolvedExpr} {es : ResolvedArgs}
        → IsValue f e
        → AreValues f es
        → AreValues f (ResolvedArgs.cons e es)

abbrev pub IsOptionalValue : Frame → Option ResolvedExpr → Type 0
IsOptionalValue f none = Unit
IsOptionalValue f (some e) = IsValue f e

-- What a `return` gives fits the return type.
abbrev pub IsReturn : Frame → CcType → Option ResolvedExpr → Type 0
IsReturn f void none = Unit
IsReturn f (scalar ty) (some e) = IsValue f e
IsReturn f _ _ = ⊥

-- A statement inside of the given numbers of statements to break out of and to continue.
unfoldable mutual
  pub IsTypedStmt : Frame → ℕ → ℕ → ResolvedStmt → Type 0
  IsTypedStmt f b c ResolvedStmt.empty = Unit
  IsTypedStmt f b c (ResolvedStmt.expr e) = IsTyped f e
  IsTypedStmt f b c (ResolvedStmt.block body) = AreTypedStmts f b c body
  IsTypedStmt f b c (ResolvedStmt.decl slot init) =
      ((ty : ScalarType) × HasLocal f.locals slot (scalar ty)) × IsOptionalValue f init
  IsTypedStmt f b c (ResolvedStmt.conditional test taken other) =
      IsValue f test × (IsTypedStmt f b c taken × IsTypedElse f b c other)
  IsTypedStmt f b c (ResolvedStmt.loop test body) =
      IsValue f test × IsTypedStmt f (suc b) (suc c) body
  IsTypedStmt f b c (ResolvedStmt.switch e body) = IsValue f e × AreTypedParts f (suc b) c body
  IsTypedStmt f b c ResolvedStmt.break = 0 < b
  IsTypedStmt f b c ResolvedStmt.continue = 0 < c
  IsTypedStmt f b c (ResolvedStmt.goto target) = Memᴰ target f.labels
  IsTypedStmt f b c (ResolvedStmt.label target body) = Memᴰ target f.labels × IsTypedStmt f b c body
  IsTypedStmt f b c (ResolvedStmt.return given) = IsReturn f f.ret given

  pub AreTypedStmts : Frame → ℕ → ℕ → ResolvedStmts → Type 0
  AreTypedStmts f b c ResolvedStmts.nil = Unit
  AreTypedStmts f b c (ResolvedStmts.cons s ss) = IsTypedStmt f b c s × AreTypedStmts f b c ss

  pub IsTypedElse : Frame → ℕ → ℕ → ResolvedElse → Type 0
  IsTypedElse f b c ResolvedElse.nothing = Unit
  IsTypedElse f b c (ResolvedElse.branch s) = IsTypedStmt f b c s

  pub AreTypedParts : Frame → ℕ → ℕ → ResolvedParts → Type 0
  AreTypedParts f b c ResolvedParts.end = Unit
  AreTypedParts f b c (ResolvedParts.case value rest) = AreTypedParts f b c rest
  AreTypedParts f b c (ResolvedParts.default rest) = AreTypedParts f b c rest
  AreTypedParts f b c (ResolvedParts.stmt s rest) = IsTypedStmt f b c s × AreTypedParts f b c rest

-- The labels that a body defines.
unfoldable mutual
  pub defined : ResolvedStmt → List UserLabel
  defined (ResolvedStmt.label target body) = target ∷ defined body
  defined (ResolvedStmt.block body) = defined_in_stmts body
  defined (ResolvedStmt.conditional test taken other) = defined taken ++ defined_in_else other
  defined (ResolvedStmt.loop test body) = defined body
  defined (ResolvedStmt.switch e body) = defined_in_parts body
  defined _ = []

  pub defined_in_stmts : ResolvedStmts → List UserLabel
  defined_in_stmts ResolvedStmts.nil = []
  defined_in_stmts (ResolvedStmts.cons s ss) = defined s ++ defined_in_stmts ss

  pub defined_in_else : ResolvedElse → List UserLabel
  defined_in_else ResolvedElse.nothing = []
  defined_in_else (ResolvedElse.branch s) = defined s

  pub defined_in_parts : ResolvedParts → List UserLabel
  defined_in_parts ResolvedParts.end = []
  defined_in_parts (ResolvedParts.case value rest) = defined_in_parts rest
  defined_in_parts (ResolvedParts.default rest) = defined_in_parts rest
  defined_in_parts (ResolvedParts.stmt s rest) = defined s ++ defined_in_parts rest
