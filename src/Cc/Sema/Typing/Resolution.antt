-- ===== src/Cc/Sema/Typing/Resolution.antt =====
-- What the resolution of a statement does to the resolver, and how that composes.
use Prim.Native.String.{String}
use mathlib.Core.List.{Memᴰ}
use mathlib.Core.List.Memᴰ
use mathlib.Core.Logic.{⊎_elim}
use ex3_rust.Prelude.{
  ℕ, zero, suc, ◌≡◌, refl, ◌∙◌, subst, arith, List, [], ◌∷◌, ◌++◌, map, some, All,
}
use ex3_rust.Prelude.Maps.{Map, lookup}
use ex3_rust.Cc.Ast.{scalar}
use ex3_rust.Cc.Sema.Ir.{UserLabel, LocalDebugSymbol}
use ex3_rust.Cc.Sema.Resolver.{
  Context, Scopes, Resolver, push_scope, pop_scope, enter_loop, leave_loop, enter_switch,
  leave_switch,
}
use ex3_rust.Cc.Sema.Typing.{HasLocal}
use ex3_rust.Cc.Sema.Typing.Expressions.{AreInScope}

-- The debug symbols are among the locals.
abbrev pub AreKnown : List LocalDebugSymbol → List LocalDebugSymbol → Type 0
AreKnown locals = All (λ (x : LocalDebugSymbol). HasLocal locals x.slot (scalar x.ty))

abbrev pub AreLabels : List UserLabel → Map UserLabel → Type 0
AreLabels labels = All (λ (entry : String × UserLabel). Memᴰ entry.1 labels)

abbrev pub upto : ℕ → List ℕ
upto zero = []
upto (suc n) = upto n ++ n ∷ []

-- The debug symbols have the slots 0, 1 and so on, up to the next slot.
abbrev pub IsNumbered : Resolver → Type 0
IsNumbered r = map (λ (x : LocalDebugSymbol). x.slot) r.debug_locals ≡ upto r.next_local

-- From a resolver to another, with a rule on the depths of the statement that is made.
pub record Resolves (c : Context) (locals : List LocalDebugSymbol) (labels : List UserLabel)
    (names : List String) (rule : ℕ → ℕ → Type 0) (defines : List UserLabel) (r after : Resolver)
    : Type 0 where
  pub known : AreKnown locals after.debug_locals → AreKnown locals r.debug_locals
  pub typed :
      AreKnown locals after.debug_locals
      → AreLabels labels c.labels
      → AreInScope locals r.scopes
      → rule r.break_depth r.continue_depth × AreInScope locals after.scopes
  pub breaks : after.break_depth ≡ r.break_depth
  pub continues : after.continue_depth ≡ r.continue_depth
  pub numbered : IsNumbered r → IsNumbered after
  pub adds :
      (name : String) (label : UserLabel)
      → Memᴰ name names
      → lookup name c.labels ≡ some label
      → Memᴰ label defines

outer_in_scope :
    (locals : List LocalDebugSymbol) (scopes : Scopes)
    → AreInScope locals scopes
    → AreInScope locals (elim scopes [ [] ↦ [] | scope ∷ outer ↦ outer ])
outer_in_scope locals [] h = h
outer_in_scope locals (scope ∷ outer) (h, hs) = hs

module _ {c : Context} {locals : List LocalDebugSymbol} {labels : List UserLabel} where
  -- A statement that leaves the resolver as it was.
  pub Resolves-stay :
      {rule : ℕ → ℕ → Type 0} (r : Resolver)
      → (AreLabels labels c.labels
          → AreInScope locals r.scopes
          → rule r.break_depth r.continue_depth)
      → Resolves c locals labels [] rule [] r r
  Resolves-stay r h = record {
    known = λ k. k;
    typed = λ k l s. (h l s, s);
    breaks = refl;
    continues = refl;
    numbered = λ n. n;
    adds = λ name label m e. absurd (Memᴰ.not-nil m);
  }

  -- A condition before a statement.
  pub Resolves-after :
      {V : Type 0} {rule : ℕ → ℕ → Type 0} {names : List String} {defines : List UserLabel}
      {r after : Resolver}
      → (AreInScope locals r.scopes → V)
      → Resolves c locals labels names rule defines r after
      → Resolves c locals labels names (λ b d. V × rule b d) defines r after
  Resolves-after v p = record {
    known = p.known;
    typed = λ k l s. (let (t, inside) = p.typed k l s in ((v s, t), inside));
    breaks = p.breaks;
    continues = p.continues;
    numbered = p.numbered;
    adds = p.adds;
  }

  pub Resolves-then :
      {one two : ℕ → ℕ → Type 0} {names₁ names₂ : List String} {defines₁ defines₂ : List UserLabel}
      {r middle after : Resolver}
      → Resolves c locals labels names₁ one defines₁ r middle
      → Resolves c locals labels names₂ two defines₂ middle after
      → Resolves c locals labels
          (names₁ ++ names₂)
          (λ b d. one b d × two b d)
          (defines₁ ++ defines₂)
          r
          after
  Resolves-then {one} {two} {names₁} {names₂} {defines₁} {defines₂} {r} {middle} {after} p q =
      record {
        known = λ k. p.known (q.known k);
        typed = λ k l s.
            (let (t, inside) = p.typed (q.known k) l s in
              let (u, last) = q.typed k l inside in
              (
                (
                  t,
                  subst (λ b. two b r.continue_depth) p.breaks
                      (subst (two middle.break_depth) p.continues u),
                ),
                last,
              ));
        breaks = q.breaks ∙ p.breaks;
        continues = q.continues ∙ p.continues;
        numbered = λ n. q.numbered (p.numbered n);
        adds = λ name label m e.
            ⊎_elim (λ first. Memᴰ.append_left defines₂ (p.adds name label first e))
              (λ second. Memᴰ.append_right defines₁ (q.adds name label second e))
              (Memᴰ.append_cases names₁ m);
      }

  pub Resolves-scope :
      {rule : ℕ → ℕ → Type 0} {names : List String} {defines : List UserLabel} {r after : Resolver}
      → Resolves c locals labels names rule defines (push_scope r) after
      → Resolves c locals labels names rule defines r (pop_scope after)
  Resolves-scope {after} p = record {
    known = p.known;
    typed = λ k l s.
        (let (t, inside) = p.typed k l (tt, s) in (t, outer_in_scope locals after.scopes inside));
    breaks = p.breaks;
    continues = p.continues;
    numbered = p.numbered;
    adds = p.adds;
  }

  pub Resolves-loop :
      {rule : ℕ → ℕ → Type 0} {names : List String} {defines : List UserLabel} {r after : Resolver}
      → Resolves c locals labels names rule defines (enter_loop r) after
      → Resolves c locals labels names (λ b d. rule (suc b) (suc d)) defines r (leave_loop after)
  Resolves-loop p = record {
    known = p.known;
    typed = p.typed;
    breaks = omega (arith, p.breaks);
    continues = omega (arith, p.continues);
    numbered = p.numbered;
    adds = p.adds;
  }

  pub Resolves-switch :
      {rule : ℕ → ℕ → Type 0} {names : List String} {defines : List UserLabel} {r after : Resolver}
      → Resolves c locals labels names rule defines (enter_switch r) after
      → Resolves c locals labels names (λ b d. rule (suc b) d) defines r (leave_switch after)
  Resolves-switch {after} p = record {
    known = p.known;
    typed = λ k l s.
        (let (t, inside) = p.typed k l (tt, s) in (t, outer_in_scope locals after.scopes inside));
    breaks = omega (arith, p.breaks);
    continues = p.continues;
    numbered = p.numbered;
    adds = p.adds;
  }
