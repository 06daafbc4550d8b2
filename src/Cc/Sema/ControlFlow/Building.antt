-- ===== src/Cc/Sema/ControlFlow/Building.antt =====
-- The graph of a body that obeys the rules of scope is built without a panic.
use mathlib.Core.List.{Memᴰ}
use mathlib.Core.List.Memᴰ
use mathlib.Core.Logic.{⊎_elim, ⊎_swap}
use ex3_rust.Prelude.{
  ℕ, zero, suc, ◌≤◌, ◌<◌, ◌≡◌, inl, refl, ap, ◌∙◌, arith, ◌==◌, either_case, ◌>>=◌, Option, none,
  some, List, [], ◌∷◌, ◌++◌, All, All-append, All-weaken, ok,
}
use ex3_rust.Cc.Diagnostic.{CcError, expect, Total, total, Total-weaken, ◌⊳◌, Total-expect}
use ex3_rust.Cc.Sema.Ir.{UserLabel, ResolvedStmt, ResolvedStmts, ResolvedElse, ResolvedParts}
use ex3_rust.Cc.Sema.Typing.{
  Frame, IsTypedStmt, AreTypedStmts, IsTypedElse, AreTypedParts, defined, defined_in_stmts,
  defined_in_else, defined_in_parts,
}
use ex3_rust.Cc.Sema.ControlFlow.{
  NodeId, CfgBuilder, Scan, find_label, node_with_edges, entry, block_entry, else_entry, scan_parts,
  loop_targets, default_target, constant_value,
}
use ex3_rust.Cc.Sema.ControlFlow.Growth.{
  size, HasLabel, IsCfg, Grows, node_with_edges-Grows, add_edges-IsCfg, Grows-refl, Grows-then,
}

-- A statement inside of something to leave has a node to go to.
abbrev pub HasTarget : ℕ → ℕ → Option NodeId → Type 0
HasTarget n depth target = 0 < depth → (node : NodeId) × (target ≡ some node) × (node < n)

pub record Targets (n b c : ℕ) (next : NodeId) (brk cont : Option NodeId) : Type 0 where
  pub next_node : next < n
  pub break_node : HasTarget n b brk
  pub continue_node : HasTarget n c cont

Targets-weaken :
    {m n b c : ℕ} {next : NodeId} {brk cont : Option NodeId} (other : NodeId)
    → m ≤ n
    → other < n
    → Targets m b c next brk cont
    → Targets n b c other brk cont
Targets-weaken other h small t = record {
  next_node = small;
  break_node = λ inside. (let (node, e, low) = t.break_node inside in (node, e, omega arith));
  continue_node = λ inside. (let (node, e, low) = t.continue_node inside in (node, e, omega arith));
}

leaf :
    (labels : List UserLabel) (target : NodeId) (b : CfgBuilder)
    → IsCfg labels b
    → target < size b
    → Total {E = CcError} (Grows labels [] b) (ok (node_with_edges (target ∷ []) b))
leaf labels target b cfg h = total (node_with_edges-Grows labels (target ∷ []) b cfg (h, tt))

jump :
    (labels : List UserLabel) (target : Option NodeId) (b : CfgBuilder)
    → IsCfg labels b
    → ((node : NodeId) × (target ≡ some node) × (node < size b))
    → Total {E = CcError}
        (Grows labels [] b)
        (expect target >>= λ node. ok (node_with_edges (node ∷ []) b))
jump labels target b cfg (node, e, small) =
    Total-expect target node e small ⊳ λ n low. leaf labels n b cfg low

-- The entry of a statement with a label.
labelled :
    (labels defines : List UserLabel) (label : UserLabel) (b : CfgBuilder)
    (made : NodeId × CfgBuilder)
    → Grows labels defines b made
    → Grows labels
        (label ∷ defines)
        b
        (made.0, record (made.1) { labels = (label, made.0) ∷ made.1.labels })
unfolding find_label
labelled labels defines label b made g = record {
  in_range = g.in_range;
  grows = g.grows;
  cfg = record {
    edges = g.cfg.edges;
    label_nodes = (g.in_range, g.cfg.label_nodes);
    goto_nodes = g.cfg.goto_nodes;
    goto_labels = g.cfg.goto_labels;
  };
  keeps = λ other found.
      either_case (λ o. (node : NodeId) × (o ≡ some node)) (label == other) (λ same. (made.0, refl))
        (λ differ. g.keeps other found);
  adds = λ other m.
      either_case (λ o. (node : NodeId) × (o ≡ some node)) (label == other) (λ same. (made.0, refl))
        (λ differ.
          g.adds other
            (⊎_elim (λ e. absurd (let d = differ in ground arith)) (λ t. t) (Memᴰ.cases_cons m)));
}

-- A node that a goto leaves.
departure :
    (labels : List UserLabel) (target : UserLabel) (b : CfgBuilder)
    → IsCfg labels b
    → Memᴰ target labels
    → (let made = node_with_edges [] b in
        Grows labels [] b (made.0, record (made.1) { gotos = (made.0, target) ∷ b.gotos }))
unfolding node_with_edges
departure labels target b cfg m =
    let g = node_with_edges-Grows labels [] b cfg tt in
    record {
      in_range = g.in_range;
      grows = g.grows;
      cfg = record {
        edges = g.cfg.edges;
        label_nodes = g.cfg.label_nodes;
        goto_nodes = (g.in_range, g.cfg.goto_nodes);
        goto_labels = (m, g.cfg.goto_labels);
      };
      keeps = g.keeps;
      adds = g.adds;
    }

-- The nodes of a `switch` so far.
record Scans (labels defines : List UserLabel) (b : CfgBuilder) (made : Scan × CfgBuilder)
    : Type 0 where
  rest : Grows labels defines b (made.0.continuation, made.1)
  case_nodes : All (λ t. t < size made.1) made.0.cases
  default_node : (next : NodeId) → next < size b → default_target next made.0.default < size made.1

loop_targets-within :
    (n : ℕ) (known : Option ℕ) (body next : NodeId)
    → body < n
    → next < n
    → All (λ t. t < n) (loop_targets known body next)
loop_targets-within n none body next h k = (h, (k, tt))
loop_targets-within n (some zero) body next h k = (k, tt)
loop_targets-within n (some (suc word)) body next h k = (h, tt)

-- The edges of a loop's condition are added last.
closed_loop :
    (labels defines : List UserLabel) (b : CfgBuilder) (made : NodeId × CfgBuilder) (first : NodeId)
    (after last : CfgBuilder)
    → Grows labels [] b made
    → Grows labels defines (made.1) (first, after)
    → IsCfg labels last
    → size last ≡ size after
    → last.labels ≡ after.labels
    → Grows labels defines b (made.0, last)
closed_loop labels defines b made first after last g p kept same e = record {
  in_range = omega (arith, g.in_range, p.grows);
  grows = omega (arith, g.grows, p.grows);
  cfg = kept;
  keeps = λ label found. moved label (p.keeps label (g.keeps label found));
  adds = λ label m. moved label (p.adds label m);
}
  where
    moved : (label : UserLabel) → HasLabel label after → HasLabel label last
    moved label (node, found) = (node, ap (find_label label) e ∙ found)

module _ (f : Frame) where
  mutual
    unfolding entry IsTypedStmt defined

    pub entry-Grows :
        (s : ResolvedStmt) (c d : ℕ) (next : NodeId) (brk cont : Option NodeId) (b : CfgBuilder)
        → IsCfg f.labels b
        → Targets (size b) c d next brk cont
        → IsTypedStmt f c d s
        → Total (Grows f.labels (defined s) b) (entry s next brk cont b)
    entry-Grows ResolvedStmt.empty c d next brk cont b cfg t h =
        leaf f.labels next b cfg t.next_node
    entry-Grows (ResolvedStmt.expr e) c d next brk cont b cfg t h =
        leaf f.labels next b cfg t.next_node
    entry-Grows (ResolvedStmt.decl slot init) c d next brk cont b cfg t h =
        leaf f.labels next b cfg t.next_node
    entry-Grows (ResolvedStmt.return given) c d next brk cont b cfg t h =
        total (node_with_edges-Grows f.labels [] b cfg tt)
    entry-Grows (ResolvedStmt.goto target) c d next brk cont b cfg t h =
        total (departure f.labels target b cfg h)
    entry-Grows ResolvedStmt.break c d next brk cont b cfg t h =
        jump f.labels brk b cfg (t.break_node h)
    entry-Grows ResolvedStmt.continue c d next brk cont b cfg t h =
        jump f.labels cont b cfg (t.continue_node h)
    entry-Grows (ResolvedStmt.label name body) c d next brk cont b cfg t (m, h) =
        entry-Grows body c d next brk cont b cfg t h ⊳ λ made g.
        total (labelled f.labels (defined body) name b made g)
    entry-Grows (ResolvedStmt.block body) c d next brk cont b cfg t h =
        block_entry-Grows body c d next brk cont b cfg t h
    entry-Grows (ResolvedStmt.conditional test taken other) c d next brk cont b cfg t (v, (h, k)) =
        entry-Grows taken c d next brk cont b cfg t h ⊳ λ (first, middle) g.
        else_entry-Grows other c d next brk cont middle g.cfg
          (Targets-weaken next g.grows (omega (arith, t.next_node, g.grows)) t) k
        ⊳ λ (second, after) p.
            let i = p.in_range in
            let both = Grows-then g p (λ l m. Memᴰ.append_cases (defined taken) m) in
            total (
              Grows-then both
                (node_with_edges-Grows f.labels (first ∷ second ∷ []) after p.cfg
                  (omega (arith, g.in_range, p.grows), (i, tt)))
                (λ l m. inl m))
    entry-Grows (ResolvedStmt.loop test body) c d next brk cont b cfg t (v, h) =
        let g = node_with_edges-Grows f.labels [] b cfg tt in
        let made = node_with_edges [] b in
        let low : next < size made.1 = omega (arith, t.next_node, g.grows) in
        entry-Grows body (suc c) (suc d) made.0 (some next) (some made.0) made.1 g.cfg
          (record {
            next_node = g.in_range;
            break_node = λ inside. (next, refl, low);
            continue_node = λ inside. (made.0, refl, g.in_range);
          })
          h
        ⊳ λ (first, after) p.
            add_edges-IsCfg f.labels made.0 (loop_targets (constant_value test) first next) after
              p.cfg (omega (arith, g.in_range, p.grows))
              (loop_targets-within (size after) (constant_value test) first next p.in_range
                (omega (arith, low, p.grows)))
            ⊳ λ last (kept, same, labels, gotos).
                total
                  (closed_loop f.labels (defined body) b made first after last g p kept same labels)
    entry-Grows (ResolvedStmt.switch e body) c d next brk cont b cfg t (v, h) =
        scan_parts-Scans body c d next brk cont b cfg t h ⊳ λ (scan, after) k.
        let targets = scan.cases ++ default_target next scan.default ∷ [] in
        total (
          Grows-then k.rest
            (node_with_edges-Grows f.labels targets after k.rest.cfg (
              All-append _ scan.cases (default_target next scan.default ∷ []) k.case_nodes
                (k.default_node next t.next_node, tt)))
            (λ l m. inl m))

    block_entry-Grows :
        (ss : ResolvedStmts) (c d : ℕ) (next : NodeId) (brk cont : Option NodeId) (b : CfgBuilder)
        → IsCfg f.labels b
        → Targets (size b) c d next brk cont
        → AreTypedStmts f c d ss
        → Total (Grows f.labels (defined_in_stmts ss) b) (block_entry ss next brk cont b)
    block_entry-Grows ResolvedStmts.nil c d next brk cont b cfg t h =
        total (Grows-refl f.labels next b cfg t.next_node)
    block_entry-Grows (ResolvedStmts.cons s ss) c d next brk cont b cfg t (h, hs) =
        block_entry-Grows ss c d next brk cont b cfg t hs ⊳ λ (continuation, after) g.
        Total-weaken
          (entry-Grows s c d continuation brk cont after g.cfg
            (Targets-weaken continuation g.grows g.in_range t) h)
          (λ made p. Grows-then g p (λ l m. ⊎_swap (Memᴰ.append_cases (defined s) m)))

    else_entry-Grows :
        (s : ResolvedElse) (c d : ℕ) (next : NodeId) (brk cont : Option NodeId) (b : CfgBuilder)
        → IsCfg f.labels b
        → Targets (size b) c d next brk cont
        → IsTypedElse f c d s
        → Total (Grows f.labels (defined_in_else s) b) (else_entry s next brk cont b)
    else_entry-Grows ResolvedElse.nothing c d next brk cont b cfg t h =
        total (Grows-refl f.labels next b cfg t.next_node)
    else_entry-Grows (ResolvedElse.branch s) c d next brk cont b cfg t h =
        entry-Grows s c d next brk cont b cfg t h

    scan_parts-Scans :
        (ps : ResolvedParts) (c d : ℕ) (next : NodeId) (brk cont : Option NodeId) (b : CfgBuilder)
        → IsCfg f.labels b
        → Targets (size b) c d next brk cont
        → AreTypedParts f (suc c) d ps
        → Total (Scans f.labels (defined_in_parts ps) b) (scan_parts ps next cont b)
    scan_parts-Scans ResolvedParts.end c d next brk cont b cfg t h = total (record {
      rest = Grows-refl f.labels next b cfg t.next_node;
      case_nodes = tt;
      default_node = λ other small. small;
    })
    scan_parts-Scans (ResolvedParts.case word rest) c d next brk cont b cfg t h =
        scan_parts-Scans rest c d next brk cont b cfg t h ⊳ λ (scan, after) k. total (record {
          rest = k.rest;
          case_nodes = (k.rest.in_range, k.case_nodes);
          default_node = k.default_node;
        })
    scan_parts-Scans (ResolvedParts.default rest) c d next brk cont b cfg t h =
        scan_parts-Scans rest c d next brk cont b cfg t h ⊳ λ (scan, after) k. total (record {
          rest = k.rest;
          case_nodes = k.case_nodes;
          default_node = λ other small. k.rest.in_range;
        })
    scan_parts-Scans (ResolvedParts.stmt s rest) c d next brk cont b cfg t (h, hs) =
        scan_parts-Scans rest c d next brk cont b cfg t hs ⊳ λ (scan, middle) k.
        let low : next < size middle = omega (arith, t.next_node, k.rest.grows) in
        entry-Grows s (suc c) d scan.continuation (some next) cont middle k.rest.cfg
          (record {
            next_node = k.rest.in_range;
            break_node = λ inside. (next, refl, low);
            continue_node = (Targets-weaken next k.rest.grows low t).continue_node;
          })
          h
        ⊳ λ (first, after) p. total (record {
          rest = Grows-then k.rest p (λ l m. ⊎_swap (Memᴰ.append_cases (defined s) m));
          case_nodes = All-weaken scan.cases (λ n small. omega (arith, p.grows)) k.case_nodes;
          default_node = λ other small. omega (arith, k.default_node other small, p.grows);
        })
