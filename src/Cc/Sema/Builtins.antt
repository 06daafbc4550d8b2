-- ===== src/Cc/Sema/Builtins.antt =====
-- crates/ex3-core/src/cc/sema/builtins.rs, and `FunctionSignature` of symbols.rs.
use Prim.Native.String.{String}
use text.Mathlib.Text.{◌==◌ as str_eq}
use ex3_rust.Prelude.{Bool, true, List, [], ◌∷◌, map, Option, find}
use ex3_rust.Prelude.Maps.{Map}
use ex3_rust.Cc.Ast.{CcType, void, int_type}
use ex3_rust.Cc.Sema.Ir.{BuiltinId, putchar, getchar}

pub record FunctionSignature : Type 0 where
  pub ret : CcType
  pub params : List CcType
  pub defined : Bool

pub record Builtin : Type 0 where
  pub id : BuiltinId
  pub name : String
  pub return_type : CcType
  pub parameter_types : List CcType

abbrev pub builtins : List Builtin
builtins =
    record { id = putchar; name = "putchar"; return_type = void; parameter_types = int_type ∷ [] }
    ∷ record { id = getchar; name = "getchar"; return_type = int_type; parameter_types = [] }
    ∷ []

-- `find`.
abbrev pub find_builtin : String → Option Builtin
find_builtin name = find (λ builtin. str_eq builtin.name name) builtins

abbrev pub signature_of : Builtin → String × FunctionSignature
signature_of b =
    (b.name, record { ret = b.return_type; params = b.parameter_types; defined = true })

abbrev pub signatures : Map FunctionSignature
signatures = map signature_of builtins
