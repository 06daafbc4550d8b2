-- ===== src/Cc/Sema/ControlFlow/Reachable.antt =====
-- `reachable` finds the nodes that a path leads to.
use ex3_rust.Prelude.{
  suc, ◌<◌, ◌≡◌, ◌↔◌, inl, inr, subst, arith, true, ◌||◌, ◌==◌, Bool-cases, ==_iff, some, List, [],
  ◌∷◌, ◌++◌, in_order, length, ok,
}
use ex3_rust.Cc.Sema.ControlFlow.{NodeId, Edges, successors, has_node, edge_count, reachable}
use ex3_rust.Cc.Sema.ControlFlow.Search.{
  IsWithin, has_node-pushed, remaining-none, search_returns, search_rule,
}

pub data Edge (edges : Edges) (u v : NodeId) : Type 0 where
  edge :
      (targets : List NodeId)
      → successors edges u ≡ some targets
      → has_node v targets ≡ true
      → Edge edges u v

-- The nodes at the end of a path from `u`.
pub data PathFrom (edges : Edges) (u : NodeId) : NodeId → Type 0 where
  here : PathFrom edges u u
  step : {v w : NodeId} → PathFrom edges u v → Edge edges v w → PathFrom edges u w

module _ (edges : Edges) where
  -- What is on the stack or visited has a path; the first node and each successor of a visited node
  -- are on the stack or visited.
  record Explores (first : NodeId) (work seen : List NodeId) : Type 0 where
    sound : (v : NodeId) → (has_node v work || has_node v seen) ≡ true → PathFrom edges first v
    starts : (has_node first work || has_node first seen) ≡ true
    closed :
        (v w : NodeId)
        → has_node v seen ≡ true
        → Edge edges v w
        → (has_node w work || has_node w seen) ≡ true

  Edge-target :
      (u v w : NodeId) (targets : List NodeId)
      → u ≡ v
      → successors edges u ≡ some targets
      → Edge edges v w
      → has_node w targets ≡ true
  Edge-target u v w targets same t (edge others t₂ h) =
      let e : others ≡ targets = ground arith in subst (λ xs. has_node w xs ≡ true) e h

  Explores-skip :
      (first u : NodeId) (work seen : List NodeId)
      → has_node u seen ≡ true
      → Explores first (u ∷ work) seen
      → Explores first work seen
  unfolding has_node
  Explores-skip first u work seen old p = record {
    sound = λ v h. p.sound v (ground arith);
    starts = (let h = p.starts in ground arith);
    closed = λ v w h e. (let k = p.closed v w h e in ground arith);
  }

  Explores-expand :
      (first u : NodeId) (work seen targets : List NodeId)
      → successors edges u ≡ some targets
      → Explores first (u ∷ work) seen
      → Explores first (in_order targets ++ work) (u ∷ seen)
  unfolding has_node
  Explores-expand first u work seen targets t p = record {
    sound = λ v h. elim (Bool-cases (has_node v targets)) [
      | inl new ↦ step (p.sound u (ground arith)) (edge targets t new)
      | inr old ↦
          p.sound v (let split = has_node-pushed v targets work in ground (arith, ==_iff u v))
    ];
    starts = (let split = has_node-pushed first targets work in let h = p.starts in ground arith);
    closed = λ v w h e. elim (Bool-cases (u == v)) [
      | inl same ↦
          (let k = Edge-target u v w targets ((==_iff u v).0 same) t e in
            let split = has_node-pushed w targets work in ground arith)
      | inr other ↦
          (let k = p.closed v w (ground arith) e in
            let split = has_node-pushed w targets work in ground arith)
    ];
  }

  Explores-start : (first : NodeId) → Explores first (first ∷ []) []
  unfolding has_node
  Explores-start first = record {
    sound = λ v h.
        (let e : first ≡ v = (==_iff first v).0 (ground arith) in
          subst (PathFrom edges first) e here);
    starts = ground arith;
    closed = λ v w h e. cc h;
  }

  Explores-complete :
      (first : NodeId) (found : List NodeId)
      → Explores first [] found
      → {v : NodeId} → PathFrom edges first v
      → has_node v found ≡ true
  unfolding has_node
  Explores-complete first found p here = p.starts
  Explores-complete first found p (step {v} {w} path e) =
      p.closed v w (Explores-complete first found p path) e

-- In a graph whose successors are all nodes, `reachable` from a node ends within its bound on the
-- turns of the loop, without an index out of range, and the nodes it returns are exactly those
-- that a path from the node leads to.
pub reachable-PathFrom :
    (edges : Edges) (first : NodeId)
    → IsWithin (length edges) edges
    → first < length edges
    → (found : List NodeId) × (reachable edges first ≡ ok found)
      × ((v : NodeId) → (has_node v found ≡ true) ↔ PathFrom edges first v)
unfolding reachable
reachable-PathFrom edges first g h =
    let fuel = suc (edge_count edges) in
    let (found, e) =
      search_returns edges g fuel (first ∷ []) [] (h, tt) (omega (arith, remaining-none 0 edges)) in
    let p =
      search_rule edges g (Explores edges first) (Explores-skip edges first)
        (Explores-expand edges first) fuel (first ∷ []) [] found (h, tt)
        (Explores-start edges first) e in
    (found, e, λ v. (λ m. p.sound v m, Explores-complete edges first found p))
