-- ===== src/Cc/Sema/Symbols/Labels.antt =====
-- `collect_labels` finds the labels of a statement, each with its own number.
use Prim.Native.String.{String}
use text.Mathlib.Text.{◌==◌ as str_eq}
use text.Mathlib.TextEquality.{eq_iff}
use mathlib.Core.List.{Memᴰ}
use mathlib.Core.List.Memᴰ
use mathlib.Core.Logic.{⊎_elim}
use ex3_rust.Prelude.{
  ◌≡◌, inl, inr, refl, sym, ap, ◌∙◌, subst, true, false, Bool-cases, if_true, if_false, List, [],
  ◌∷◌, ◌++◌, length, some, All,
}
use ex3_rust.Prelude.Maps.{Map, lookup, is_present, contains_key}
use ex3_rust.Cc.Ast.{Stmt, Stmts, Else, SwitchParts}
use ex3_rust.Cc.Diagnostic.{Checked, returns, ◌⟫◌, Checked-weaken}
use ex3_rust.Cc.Sema.Ir.{UserLabel}
use ex3_rust.Cc.Sema.Symbols.{walk, walk_statements, walk_else, walk_parts}
use ex3_rust.Cc.Sema.Typing.Operations.{reject_if-lem}
use ex3_rust.Cc.Sema.Typing.Sources.{label_names, names_in_stmts, names_in_else, names_in_parts}

lookup-fresh :
    (key name : String) (id other : UserLabel) (m : Map UserLabel)
    → contains_key key m ≡ false
    → lookup name m ≡ some id
    → lookup name ((key, other) ∷ m) ≡ some id
unfolding lookup
lookup-fresh key name id other m fresh found = elim (Bool-cases (str_eq key name)) [
  | inl same ↦ absurd (
      let e : lookup key m ≡ some id =
        subst (λ n. lookup n m ≡ some id) (sym ((eq_iff key name).0 same)) found in
      let p : true ≡ false = sym (ap is_present e) ∙ fresh in cc p)
  | inr differ ↦ if_false (some other) differ ∙ found
]

lookup-added :
    (key : String) (id : UserLabel) (m : Map UserLabel) → lookup key ((key, id) ∷ m) ≡ some id
unfolding lookup
lookup-added key id m = if_true (lookup key m) ((eq_iff key key).1 refl)

-- `P` is a property of a name and its label in the final map.
module _ (P : String → UserLabel → Type 0) where
  pub record Walked (names : List String) (m after : Map UserLabel) : Type 0 where
    pub keeps :
        (name : String) (id : UserLabel) → lookup name m ≡ some id → lookup name after ≡ some id
    pub finds : (name : String) → Memᴰ name names → (id : UserLabel) × (lookup name after ≡ some id)
    pub entries :
        All (λ (entry : String × UserLabel). P entry.0 entry.1) m
        → ((name : String) (id : UserLabel)
            → Memᴰ name names
            → lookup name after ≡ some id
            → P name id)
        → All (λ (entry : String × UserLabel). P entry.0 entry.1) after

  Walked-stay : (m : Map UserLabel) → Walked [] m m
  Walked-stay m = record {
    keeps = λ name id e. e;
    finds = λ name h. absurd (Memᴰ.not-nil h);
    entries = λ all new. all;
  }

  Walked-then :
      (one two : List String) {m middle after : Map UserLabel}
      → Walked one m middle
      → Walked two middle after
      → Walked (one ++ two) m after
  Walked-then one two p q = record {
    keeps = λ name id e. q.keeps name id (p.keeps name id e);
    finds = λ name h.
        ⊎_elim (λ first. (let (id, e) = p.finds name first in (id, q.keeps name id e)))
          (λ second. q.finds name second) (Memᴰ.append_cases one h);
    entries = λ all new.
        q.entries
          (p.entries all
            (λ name id first e. new name id (Memᴰ.append_left two first) (q.keeps name id e)))
          (λ name id second e. new name id (Memᴰ.append_right one second) e);
  }

  Walked-label :
      (name : String) (names : List String) {m after : Map UserLabel}
      → contains_key name m ≡ false
      → Walked names ((name, length m) ∷ m) after
      → Walked (name ∷ names) m after
  Walked-label name names {m} {after} fresh p =
      let added = p.keeps name (length m) (lookup-added name (length m) m) in
      record {
        keeps = λ other id e. p.keeps other id (lookup-fresh name other id (length m) m fresh e);
        finds = λ other h.
            ⊎_elim (λ (same : other ≡ name). (length m, ap (λ n. lookup n after) same ∙ added))
              (λ later. p.finds other later) (Memᴰ.cases_cons h);
        entries = λ all new.
            p.entries (new name (length m) (Memᴰ.head refl) added, all)
              (λ other id later e. new other id (Memᴰ.tail later) e);
      }

  mutual
    unfolding walk label_names

    pub walk-Walked : (s : Stmt) (m : Map UserLabel) → Checked (Walked (label_names s) m) (walk s m)
    walk-Walked (Stmt.label name body span) m =
        reject_if-lem (contains_key name m) span _ ⟫ λ u fresh.
        Checked-weaken (walk-Walked body ((name, length m) ∷ m))
          (λ after p. Walked-label name (label_names body) fresh p)
    walk-Walked (Stmt.block body span) m = walk_statements-Walked body m
    walk-Walked (Stmt.conditional test taken other span) m = walk-Walked taken m ⟫ λ middle p.
        Checked-weaken (walk_else-Walked other middle)
          (λ after q. Walked-then (label_names taken) (names_in_else other) p q)
    walk-Walked (Stmt.loop test body span) m = walk-Walked body m
    walk-Walked (Stmt.switch e body span) m = walk_parts-Walked body m
    walk-Walked (Stmt.empty span) m = returns (Walked-stay m)
    walk-Walked (Stmt.expression e span) m = returns (Walked-stay m)
    walk-Walked (Stmt.declaration name ty init span) m = returns (Walked-stay m)
    walk-Walked (Stmt.break span) m = returns (Walked-stay m)
    walk-Walked (Stmt.continue span) m = returns (Walked-stay m)
    walk-Walked (Stmt.goto name span) m = returns (Walked-stay m)
    walk-Walked (Stmt.return value span) m = returns (Walked-stay m)

    walk_statements-Walked :
        (ss : Stmts) (m : Map UserLabel)
        → Checked (Walked (names_in_stmts ss) m) (walk_statements ss m)
    walk_statements-Walked Stmts.nil m = returns (Walked-stay m)
    walk_statements-Walked (Stmts.cons s ss) m = walk-Walked s m ⟫ λ middle p.
        Checked-weaken (walk_statements-Walked ss middle)
          (λ after q. Walked-then (label_names s) (names_in_stmts ss) p q)

    walk_else-Walked :
        (e : Else) (m : Map UserLabel) → Checked (Walked (names_in_else e) m) (walk_else e m)
    walk_else-Walked Else.nothing m = returns (Walked-stay m)
    walk_else-Walked (Else.branch s) m = walk-Walked s m

    walk_parts-Walked :
        (ps : SwitchParts) (m : Map UserLabel)
        → Checked (Walked (names_in_parts ps) m) (walk_parts ps m)
    walk_parts-Walked SwitchParts.end m = returns (Walked-stay m)
    walk_parts-Walked (SwitchParts.case word span rest) m = walk_parts-Walked rest m
    walk_parts-Walked (SwitchParts.default span rest) m = walk_parts-Walked rest m
    walk_parts-Walked (SwitchParts.statement s rest) m = walk-Walked s m ⟫ λ middle p.
        Checked-weaken (walk_parts-Walked rest middle)
          (λ after q. Walked-then (label_names s) (names_in_parts rest) p q)
