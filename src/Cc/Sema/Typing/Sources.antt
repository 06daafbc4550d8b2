-- ===== src/Cc/Sema/Typing/Sources.antt =====
-- What the resolver relies on in a statement of the syntax tree: its labels are known, the values of
-- its cases are constants and its locals have scalar types.
use Prim.Native.String.{String}
use ex3_rust.Prelude.{◌≡◌, List, [], ◌∷◌, ◌++◌, some, ok}
use ex3_rust.Prelude.Maps.{Map, lookup}
use ex3_rust.Cc.Ast.{ScalarType, scalar_of, Stmt, Stmts, Else, SwitchParts}
use ex3_rust.Cc.ConstEval.{Constant, evaluate}
use ex3_rust.Cc.Sema.Ir.{UserLabel}

unfoldable mutual
  pub label_names : Stmt → List String
  label_names (Stmt.label name body span) = name ∷ label_names body
  label_names (Stmt.block body span) = names_in_stmts body
  label_names (Stmt.conditional test taken other span) = label_names taken ++ names_in_else other
  label_names (Stmt.loop test body span) = label_names body
  label_names (Stmt.switch e body span) = names_in_parts body
  label_names _ = []

  pub names_in_stmts : Stmts → List String
  names_in_stmts Stmts.nil = []
  names_in_stmts (Stmts.cons s ss) = label_names s ++ names_in_stmts ss

  pub names_in_else : Else → List String
  names_in_else Else.nothing = []
  names_in_else (Else.branch s) = label_names s

  pub names_in_parts : SwitchParts → List String
  names_in_parts SwitchParts.end = []
  names_in_parts (SwitchParts.case word span rest) = names_in_parts rest
  names_in_parts (SwitchParts.default span rest) = names_in_parts rest
  names_in_parts (SwitchParts.statement s rest) = label_names s ++ names_in_parts rest

unfoldable mutual
  pub IsReady : Map UserLabel → Stmt → Type 0
  IsReady labels (Stmt.label name body span) =
      ((target : UserLabel) × (lookup name labels ≡ some target)) × IsReady labels body
  IsReady labels (Stmt.block body span) = AreReady labels body
  IsReady labels (Stmt.declaration name ty init span) = (s : ScalarType) × (scalar_of ty ≡ some s)
  IsReady labels (Stmt.conditional test taken other span) =
      IsReady labels taken × IsReadyElse labels other
  IsReady labels (Stmt.loop test body span) = IsReady labels body
  IsReady labels (Stmt.switch e body span) = AreReadyParts labels body
  IsReady labels _ = Unit

  pub AreReady : Map UserLabel → Stmts → Type 0
  AreReady labels Stmts.nil = Unit
  AreReady labels (Stmts.cons s ss) = IsReady labels s × AreReady labels ss

  pub IsReadyElse : Map UserLabel → Else → Type 0
  IsReadyElse labels Else.nothing = Unit
  IsReadyElse labels (Else.branch s) = IsReady labels s

  pub AreReadyParts : Map UserLabel → SwitchParts → Type 0
  AreReadyParts labels SwitchParts.end = Unit
  AreReadyParts labels (SwitchParts.case word span rest) =
      ((constant : Constant) × (evaluate word ≡ ok constant)) × AreReadyParts labels rest
  AreReadyParts labels (SwitchParts.default span rest) = AreReadyParts labels rest
  AreReadyParts labels (SwitchParts.statement s rest) = IsReady labels s × AreReadyParts labels rest
