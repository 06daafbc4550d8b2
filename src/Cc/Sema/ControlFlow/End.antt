-- ===== src/Cc/Sema/ControlFlow/End.antt =====
-- `may_reach_function_end`, from the graph to the answer.
use mathlib.Core.List.{Memᴰ}
use ex3_rust.Prelude.{
  ℕ, ◌<◌, ◌≡◌, ◌↔◌, refl, ap, arith, Bool, true, List, [], ◌∷◌, in_order, All, All-append,
  All-weaken, none, some, bind-ok, ok, ◌∙◌, length,
}
use ex3_rust.Cc.Diagnostic.{Total, total, ◌⊳◌, Total-expect, Total-weaken, Total-value}
use ex3_rust.Cc.Sema.Ir.{UserLabel, ResolvedStmt}
use ex3_rust.Cc.Sema.Typing.{Frame, IsTypedStmt, defined}
use ex3_rust.Cc.Sema.ControlFlow.{
  NodeId, Edges, CfgBuilder, find_label, resolve_gotos, exit, new_builder, has_node, graph_of,
  reachable, may_reach_function_end,
}
use ex3_rust.Cc.Sema.ControlFlow.Search.{IsWithin}
use ex3_rust.Cc.Sema.ControlFlow.Reachable.{PathFrom, reachable-PathFrom}
use ex3_rust.Cc.Sema.ControlFlow.Growth.{size, HasLabel, IsCfg, add_edges-IsCfg}
use ex3_rust.Cc.Sema.ControlFlow.Building.{Targets, entry-Grows}

-- A goto from a node of the graph to a label that has one.
abbrev IsResolvable : CfgBuilder → NodeId × UserLabel → Type 0
IsResolvable b goto = (goto.0 < size b) × HasLabel goto.1 b

find_label-within :
    (n : ℕ) (label : UserLabel) (entries : List (UserLabel × NodeId)) (node : NodeId)
    → All (λ (e : UserLabel × NodeId). e.1 < n) entries
    → find_label label entries ≡ some node
    → node < n
unfolding find_label
find_label-within n label [] node h e = cc e
find_label-within n label (x ∷ entries) node (h, hs) e =
    ground (arith, find_label-within n label entries node hs)

resolve_gotos-IsCfg :
    (labels : List UserLabel) (gotos : List (NodeId × UserLabel)) (b : CfgBuilder)
    → IsCfg labels b
    → All (IsResolvable b) gotos
    → Total (λ after. IsCfg labels after × (size after ≡ size b)) (resolve_gotos gotos b)
unfolding resolve_gotos
resolve_gotos-IsCfg labels [] b cfg h = total (cfg, refl)
resolve_gotos-IsCfg labels (goto ∷ gotos) b cfg ((low, (node, found)), hs) =
    Total-expect (find_label goto.1 b.labels) node found
      (find_label-within (size b) goto.1 b.labels node cfg.label_nodes found)
    ⊳ λ target small.
        add_edges-IsCfg labels goto.0 (target ∷ []) b cfg low (small, tt)
        ⊳ λ after (kept, same, l, g).
            Total-weaken
              (resolve_gotos-IsCfg labels gotos after kept (
                All-weaken gotos
                  (λ other (near, (place, known)).
                    (omega arith, (place, ap (find_label other.1) l ∙ known)))
                  hs))
              (λ last (fine, even). (fine, omega arith))

All-both :
    {A : Type 0} (P Q : A → Type 0) (xs : List A) → All P xs → All Q xs → All (λ a. P a × Q a) xs
All-both P Q [] hp hq = tt
All-both P Q (x ∷ xs) (p, hp) (q, hq) = ((p, q), All-both P Q xs hp hq)

All-reversed : {A : Type 0} (P : A → Type 0) (xs : List A) → All P xs → All P (in_order xs)
All-reversed P [] h = tt
All-reversed P (x ∷ xs) (h, hs) = All-append P (in_order xs) (x ∷ []) (All-reversed P xs hs) (h, tt)

new_builder-IsCfg : (labels : List UserLabel) → IsCfg labels new_builder
new_builder-IsCfg labels = record {
  edges = (tt, tt);
  label_nodes = tt;
  goto_nodes = tt;
  goto_labels = tt;
}

outermost : Targets 1 0 0 exit none none
outermost = record {
  next_node = omega arith;
  break_node = λ inside. absurd (omega arith);
  continue_node = λ inside. absurd (omega arith);
}

module _ (f : Frame) (body : ResolvedStmt) where
  graph_of-IsWithin :
      IsTypedStmt f 0 0 body
      → ((label : UserLabel) → Memᴰ label f.labels → Memᴰ label (defined body))
      → Total
          (λ (made : NodeId × Edges). (made.0 < length made.1) × IsWithin (length made.1) made.1)
          (graph_of body)
  unfolding graph_of
  graph_of-IsWithin h closed =
      entry-Grows f body 0 0 exit none none new_builder (new_builder-IsCfg f.labels) outermost h
      ⊳ λ (first, b) g.
          resolve_gotos-IsCfg f.labels (in_order b.gotos) b g.cfg (
            All-reversed _ b.gotos (
              All-weaken b.gotos (λ goto (low, m). (low, g.adds goto.1 (closed goto.1 m)))
                (All-both _ _ b.gotos g.cfg.goto_nodes g.cfg.goto_labels)))
          ⊳ λ after (kept, same). total (omega (arith, g.in_range), kept.edges)

  answers :
      (first : NodeId) (edges : Edges) (found : List NodeId)
      → graph_of body ≡ ok (first, edges)
      → reachable edges first ≡ ok found
      → may_reach_function_end body ≡ ok (has_node exit found)
  unfolding may_reach_function_end
  answers first edges found e r =
      bind-ok (graph_of body) _ (first, edges) e ∙ bind-ok (reachable edges first) _ found r

  -- If a resolved body obeys the rules of scope and each label it may go to is one it defines, its
  -- control flow graph is built and searched without a panic, and `may_reach_function_end` answers
  -- yes exactly when a path of the graph leads from the entry of the body to the exit.
  pub may_reach_function_end_lem :
      IsTypedStmt f 0 0 body
      → ((label : UserLabel) → Memᴰ label f.labels → Memᴰ label (defined body))
      → (first : NodeId) × (edges : Edges) × (answer : Bool) × (graph_of body ≡ ok (first, edges))
        × (may_reach_function_end body ≡ ok answer)
        × ((answer ≡ true) ↔ PathFrom edges first exit)
  may_reach_function_end_lem h closed =
      let ((first, edges), e, (low, g)) = Total-value (graph_of-IsWithin h closed) in
      let (found, r, paths) = reachable-PathFrom edges first g low in
      (first, edges, has_node exit found, e, answers first edges found e r, paths exit)
