-- ===== src/Cc/Sema/Typing/Declarations.antt =====
-- The resolution of a declaration.
use Prim.Native.String.{String}
use mathlib.Core.List.Memᴰ
use ex3_rust.Prelude.{
  ◌≡◌, refl, ap, ◌∙◌, subst, ◌==◌, ◌&&◌, ◌||◌, List, [], ◌∷◌, ◌++◌, length, map, Option, some,
  All-split,
}
use ex3_rust.Prelude.Maps.{contains_key}
use ex3_rust.Cc.Ast.{Span, ScalarType, CcType, scalar, void, scalar_of, Expr}
use ex3_rust.Cc.Diagnostic.{Checked, returns, ◌⟫◌, Checked-expect}
use ex3_rust.Cc.Sema.Ir.{UserLabel, LocalSlot, ResolvedExpr, ResolvedStmt, LocalDebugSymbol}
use ex3_rust.Cc.Sema.Resolver.{
  Context, Scopes, Resolver, innermost, insert_innermost, declare, declaration,
}
use ex3_rust.Cc.Sema.Typing.{HasLocal, IsTypedStmt, defined}
use ex3_rust.Cc.Sema.Typing.Operations.{or_reject-lem, reject_if-lem}
use ex3_rust.Cc.Sema.Typing.Expressions.{AreInScope, AreParameters, frame_of}
use ex3_rust.Cc.Sema.Typing.Values.{
  IsScalar, IsOptionalTyped, optional_expression-typed, require_value-IsScalar,
  IsOptionalValue-scalar,
}
use ex3_rust.Cc.Sema.Typing.Resolution.{Resolves}

abbrev IsKnown : List LocalDebugSymbol → LocalDebugSymbol → Type 0
IsKnown locals x = HasLocal locals x.slot (scalar x.ty)

map-append_one :
    (xs : List LocalDebugSymbol) (x : LocalDebugSymbol)
    → map (λ (y : LocalDebugSymbol). y.slot) (xs ++ x ∷ [])
      ≡ map (λ (y : LocalDebugSymbol). y.slot) xs ++ x.slot ∷ []
map-append_one [] x = refl
map-append_one (y ∷ ys) x = ap (λ slots. y.slot ∷ slots) (map-append_one ys x)

scalar_of-some : (ty : CcType) (s : ScalarType) → scalar_of ty ≡ some s → scalar s ≡ ty
scalar_of-some (scalar a) s e = cc e
scalar_of-some void s e = cc e

inserted_in_scope :
    (locals : List LocalDebugSymbol) (name : String) (entry : LocalSlot × CcType) (scopes : Scopes)
    → HasLocal locals entry.0 entry.1
    → AreInScope locals scopes
    → AreInScope locals (insert_innermost name entry scopes)
inserted_in_scope locals name entry [] h hs = hs
inserted_in_scope locals name entry (scope ∷ outer) h (g, gs) = ((h, g), gs)

module _ (c : Context) (parameters : List CcType) (locals : List LocalDebugSymbol)
    (labels : List UserLabel) (given : AreParameters parameters c.parameters) where
  declare-Resolves :
      (name : String) (ty : CcType) (t : ScalarType) (initial : Option ResolvedExpr) (r : Resolver)
      → scalar_of ty ≡ some t
      → (AreInScope locals r.scopes → IsOptionalTyped (frame_of c parameters locals labels) initial)
      → IsScalar initial
      → Resolves c locals labels []
          (λ b d.
            IsTypedStmt
              (frame_of c parameters locals labels)
              b
              d
              (ResolvedStmt.decl r.next_local initial))
          []
          r
          (declare name ty t r)
  unfolding declare IsTypedStmt
  declare-Resolves name ty t initial r same h k =
      let added : LocalDebugSymbol = record { slot = r.next_local; name = name; ty = t } in
      record {
        known = λ all. (All-split (IsKnown locals) r.debug_locals (added ∷ []) all).0;
        typed = λ all l fits.
            (let x = (All-split (IsKnown locals) r.debug_locals (added ∷ []) all).1.0 in
              (
                ((t, x), IsOptionalValue-scalar _ initial (h fits) k),
                inserted_in_scope locals name (r.next_local, ty) r.scopes
                    (subst (HasLocal locals r.next_local) (scalar_of-some ty t same) x) fits,
              ));
        breaks = refl;
        continues = refl;
        numbered =
            λ n. map-append_one r.debug_locals added ∙ ap (λ slots. slots ++ r.next_local ∷ []) n;
        adds = λ other label m found. absurd (Memᴰ.not-nil m);
      }

  pub declaration-Resolves :
      (name : String) (ty : CcType) (init : Option Expr) (span : Span) (r : Resolver)
      → (s : ScalarType) × (scalar_of ty ≡ some s)
      → Checked
          (λ (made : ResolvedStmt × Resolver).
            Resolves c locals labels []
              (λ b d. IsTypedStmt (frame_of c parameters locals labels) b d made.0)
              (defined made.0)
              r
              made.1)
          (declaration c name ty init span r)
  unfolding declaration IsTypedStmt defined
  declaration-Resolves name ty init span r (s, e) =
      or_reject-lem (innermost r.scopes) span _ ⟫ λ scope here.
      reject_if-lem
        (contains_key name scope || (length r.scopes == 1 && contains_key name c.parameters)) span _
      ⟫ λ u fresh.
          optional_expression-typed c parameters locals labels r.scopes given init ⟫ λ initial h.
          require_value-IsScalar initial span ⟫ λ v k. Checked-expect (scalar_of ty) s e ⟫ λ t same.
          returns (declare-Resolves name ty t initial r same h k)
