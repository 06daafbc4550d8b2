-- ===== src/Cc/Sema/ControlFlow/Growth.antt =====
-- The steps of the graph's construction keep every node in range, and what they add.
use mathlib.Core.List.{Memᴰ}
use mathlib.Core.List.Memᴰ
use mathlib.Core.Logic.{⊎_elim}
use ex3_rust.Prelude.{
  ℕ, zero, suc, ◌≤◌, ◌<◌, ◌≡◌, ◌⊎◌, refl, ap, arith, some, List, [], ◌∷◌, ◌++◌, length,
  length-append, All, All-append, All-weaken,
}
use ex3_rust.Cc.Diagnostic.{expect, Total, total, ◌⊳◌, Total-expect}
use ex3_rust.Cc.Sema.Ir.{UserLabel}
use ex3_rust.Cc.Sema.ControlFlow.{
  NodeId, Edges, CfgBuilder, extend, find_label, node_with_edges, add_edges,
}
use ex3_rust.Cc.Sema.ControlFlow.Search.{IsWithin}

abbrev pub size : CfgBuilder → ℕ
size b = length b.edges

-- A label with its node.
abbrev pub HasLabel : UserLabel → CfgBuilder → Type 0
HasLabel label b = (node : NodeId) × (find_label label b.labels ≡ some node)

-- The edges, the labels and the gotos name nodes of the graph, and the gotos have labels of a list.
pub record IsCfg (labels : List UserLabel) (b : CfgBuilder) : Type 0 where
  pub edges : IsWithin (size b) b.edges
  pub label_nodes : All (λ (entry : UserLabel × NodeId). entry.1 < size b) b.labels
  pub goto_nodes : All (λ (goto : NodeId × UserLabel). goto.0 < size b) b.gotos
  pub goto_labels : All (λ (goto : NodeId × UserLabel). Memᴰ goto.1 labels) b.gotos

-- A construction gives a node of the graph that it extends, and defines labels.
pub record Grows (labels defines : List UserLabel) (b : CfgBuilder) (made : NodeId × CfgBuilder)
    : Type 0 where
  pub in_range : made.0 < size made.1
  pub grows : size b ≤ size made.1
  pub cfg : IsCfg labels made.1
  pub keeps : (label : UserLabel) → HasLabel label b → HasLabel label made.1
  pub adds : (label : UserLabel) → Memᴰ label defines → HasLabel label made.1

pub IsWithin-weaken : (m n : ℕ) (edges : Edges) → m ≤ n → IsWithin m edges → IsWithin n edges
IsWithin-weaken m n edges h =
    All-weaken edges (λ targets. All-weaken targets (λ t small. omega arith))

-- A new node, with edges to nodes that are there.
pub node_with_edges-Grows :
    (labels : List UserLabel) (targets : List NodeId) (b : CfgBuilder)
    → IsCfg labels b
    → All (λ t. t < size b) targets
    → Grows labels [] b (node_with_edges targets b)
unfolding node_with_edges
node_with_edges-Grows labels targets b cfg h =
    let n = length-append b.edges (targets ∷ []) in
    record {
      in_range = omega arith;
      grows = omega arith;
      cfg = record {
        edges =
            All-append _ b.edges (targets ∷ [])
              (IsWithin-weaken (size b) _ b.edges (omega arith) cfg.edges)
              (All-weaken targets (λ t small. omega arith) h, tt);
        label_nodes = All-weaken b.labels (λ entry small. omega arith) cfg.label_nodes;
        goto_nodes = All-weaken b.gotos (λ goto small. omega arith) cfg.goto_nodes;
        goto_labels = cfg.goto_labels;
      };
      keeps = λ label found. found;
      adds = λ label m. absurd (Memᴰ.not-nil m);
    }

extend-IsWithin :
    (n i : ℕ) (edges : Edges) (more : List NodeId)
    → IsWithin n edges
    → All (λ t. t < n) more
    → i < length edges
    → (extended : Edges) × (extend edges i more ≡ some extended)
      × IsWithin n extended
      × (length extended ≡ length edges)
unfolding extend
extend-IsWithin n i [] more g h small = absurd (omega arith)
extend-IsWithin n zero (targets ∷ edges) more (g, gs) h small =
    ((targets ++ more) ∷ edges, refl, (All-append _ targets more g h, gs), refl)
extend-IsWithin n (suc i) (targets ∷ edges) more (g, gs) h small =
    let (extended, e, within, same) = extend-IsWithin n i edges more gs h (omega arith) in
    (targets ∷ extended, rw e refl, (g, within), ap suc same)

pub add_edges-IsCfg :
    (labels : List UserLabel) (node : NodeId) (targets : List NodeId) (b : CfgBuilder)
    → IsCfg labels b
    → node < size b
    → All (λ t. t < size b) targets
    → Total
        (λ (after : CfgBuilder).
          IsCfg labels after
          × (size after ≡ size b)
          × (after.labels ≡ b.labels)
          × (after.gotos ≡ b.gotos))
        (add_edges node targets b)
unfolding add_edges
add_edges-IsCfg labels node targets b cfg small h =
    let (extended, e, within, same) =
      extend-IsWithin (size b) node b.edges targets cfg.edges h small in
    let extends : Total (λ (xs : Edges). IsWithin (size b) xs × (length xs ≡ size b))
        (expect (extend b.edges node targets)) =
      Total-expect (extend b.edges node targets) extended e (within, same) in
    extends ⊳ λ edges (g, kept). total (
      record {
        edges = IsWithin-weaken (size b) _ edges (omega arith) g;
        label_nodes = All-weaken b.labels (λ entry low. omega arith) cfg.label_nodes;
        goto_nodes = All-weaken b.gotos (λ goto low. omega arith) cfg.goto_nodes;
        goto_labels = cfg.goto_labels;
      },
      kept,
      refl,
      refl,
    )

pub Grows-refl :
    (labels : List UserLabel) (next : NodeId) (b : CfgBuilder)
    → IsCfg labels b
    → next < size b
    → Grows labels [] b (next, b)
Grows-refl labels next b cfg h = record {
  in_range = h;
  grows = omega arith;
  cfg = cfg;
  keeps = λ label found. found;
  adds = λ label m. absurd (Memᴰ.not-nil m);
}

-- One construction after another.
pub Grows-then :
    {labels one two both : List UserLabel} {b : CfgBuilder} {first second : NodeId × CfgBuilder}
    → Grows labels one b first
    → Grows labels two (first.1) second
    → ((label : UserLabel) → Memᴰ label both → Memᴰ label one ⊎ Memᴰ label two)
    → Grows labels both b second
Grows-then p q split = record {
  in_range = q.in_range;
  grows = omega (arith, p.grows, q.grows);
  cfg = q.cfg;
  keeps = λ label found. q.keeps label (p.keeps label found);
  adds = λ label m. ⊎_elim (λ l. q.keeps label (p.adds label l)) (q.adds label) (split label m);
}
