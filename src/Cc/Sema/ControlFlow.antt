-- ===== src/Cc/Sema/ControlFlow.antt =====
-- crates/ex3-core/src/cc/sema/control_flow.rs: the control flow graph of a function's body, and
-- whether its end is reachable. A node is its index in the vector of edges.
pub mod Search
pub mod Reachable
pub mod Growth
pub mod Building
pub mod End
use ex3_rust.Prelude.{
  ℕ, zero, suc, ◌+◌, Bool, true, false, not, ◌&&◌, ◌||◌, ◌==◌, if◌then◌else◌, Option, none, some,
  List, [], ◌∷◌, ◌++◌, in_order, length, Result, ok, err, ◌>>=◌, ok_value,
}
use ex3_rust.Cc.Diagnostic.{CcError, Failure, expect}
use ex3_rust.Cc.Sema.Ir.{
  UserLabel, ResolvedExpr, ResolvedStmt, ResolvedStmts, ResolvedElse, ResolvedParts,
}
use ex3_rust.Cc.Sema.Resolver.{Outcome}
use ex3_rust.Cc.Sema.ConstantValue.{constant_value}

abbrev pub NodeId : Type 0
NodeId = ℕ

abbrev pub Edges : Type 0
Edges = List (List NodeId)

-- The labels are a map with the latest entry first, the gotos have the latest first.
pub record CfgBuilder : Type 0 where
  pub edges : Edges
  pub labels : List (UserLabel × NodeId)
  pub gotos : List (NodeId × UserLabel)

abbrev pub exit : NodeId
exit = 0

-- `CfgBuilder::new`.
abbrev pub new_builder : CfgBuilder
new_builder = record { edges = [] ∷ []; labels = []; gotos = [] }

-- `edges[node]`
unfoldable pub successors : Edges → NodeId → Option (List NodeId)
successors [] node = none
successors (targets ∷ edges) zero = some targets
successors (targets ∷ edges) (suc node) = successors edges node

-- `edges[node].extend(more)`
unfoldable pub extend : Edges → NodeId → List NodeId → Option Edges
extend [] node more = none
extend (targets ∷ edges) zero more = some ((targets ++ more) ∷ edges)
extend (targets ∷ edges) (suc node) more =
    let rest = extend edges node more in
    elim rest [ none ↦ none | some extended ↦ some (targets ∷ extended) ]

unfoldable pub find_label : UserLabel → List (UserLabel × NodeId) → Option NodeId
find_label label [] = none
find_label label (entry ∷ labels) =
    if entry.0 == label then some entry.1 else find_label label labels

-- `node_with_edges`, and `node` without any.
unfoldable pub node_with_edges : List NodeId → CfgBuilder → NodeId × CfgBuilder
node_with_edges targets b = (length b.edges, record b { edges = b.edges ++ targets ∷ [] })

unfoldable pub add_edges : NodeId → List NodeId → CfgBuilder → Outcome CfgBuilder
unfolding extend
add_edges from targets b = do
  edges ← expect (extend b.edges from targets)
  ok (record b { edges = edges })

-- The successors of a loop's condition: the body, what comes next, or both.
abbrev pub loop_targets : Option ℕ → NodeId → NodeId → List NodeId
loop_targets (some zero) body next = next ∷ []
loop_targets (some (suc value)) body next = body ∷ []
loop_targets none body next = body ∷ next ∷ []

-- The variables of `switch`, with the cases in the order of the parts.
pub record Scan : Type 0 where
  pub continuation : NodeId
  pub cases : List NodeId
  pub default : Option NodeId

abbrev pub default_target : NodeId → Option NodeId → NodeId
default_target next none = next
default_target next (some target) = target

-- `statement`. The folds over the statements of a block and the parts of a `switch` start with the
-- last.
unfoldable mutual
  unfolding node_with_edges add_edges constant_value

  pub entry :
      ResolvedStmt
      → NodeId
      → Option NodeId
      → Option NodeId
      → CfgBuilder
      → Outcome (NodeId × CfgBuilder)
  entry ResolvedStmt.empty next brk cont b = ok (node_with_edges (next ∷ []) b)
  entry (ResolvedStmt.expr e) next brk cont b = ok (node_with_edges (next ∷ []) b)
  entry (ResolvedStmt.decl slot init) next brk cont b = ok (node_with_edges (next ∷ []) b)
  entry (ResolvedStmt.return value) next brk cont b = ok (node_with_edges [] b)
  entry (ResolvedStmt.goto target) next brk cont b =
      let made = node_with_edges [] b in
      ok (made.0, record (made.1) { gotos = (made.0, target) ∷ b.gotos })
  entry ResolvedStmt.break next brk cont b = do
    target ← expect brk
    ok (node_with_edges (target ∷ []) b)
  entry ResolvedStmt.continue next brk cont b = do
    target ← expect cont
    ok (node_with_edges (target ∷ []) b)
  entry (ResolvedStmt.label name body) next brk cont b = do
    (first, after) ← entry body next brk cont b
    ok (first, record after { labels = (name, first) ∷ after.labels })
  entry (ResolvedStmt.block body) next brk cont b = block_entry body next brk cont b
  entry (ResolvedStmt.conditional test taken other) next brk cont b = do
    (then_entry, middle) ← entry taken next brk cont b
    (else_entry, after) ← else_entry other next brk cont middle
    ok (node_with_edges (then_entry ∷ else_entry ∷ []) after)
  entry (ResolvedStmt.loop test body) next brk cont b = do
    let made = node_with_edges [] b
    (body_entry, after) ← entry body made.0 (some next) (some made.0) made.1
    last ← add_edges made.0 (loop_targets (constant_value test) body_entry next) after
    ok (made.0, last)
  entry (ResolvedStmt.switch e body) next brk cont b = do
    (scan, after) ← scan_parts body next cont b
    ok (node_with_edges (scan.cases ++ default_target next scan.default ∷ []) after)

  pub block_entry :
      ResolvedStmts
      → NodeId
      → Option NodeId
      → Option NodeId
      → CfgBuilder
      → Outcome (NodeId × CfgBuilder)
  block_entry ResolvedStmts.nil next brk cont b = ok (next, b)
  block_entry (ResolvedStmts.cons s ss) next brk cont b = do
    (continuation, after) ← block_entry ss next brk cont b
    entry s continuation brk cont after

  pub else_entry :
      ResolvedElse
      → NodeId
      → Option NodeId
      → Option NodeId
      → CfgBuilder
      → Outcome (NodeId × CfgBuilder)
  else_entry ResolvedElse.nothing next brk cont b = ok (next, b)
  else_entry (ResolvedElse.branch s) next brk cont b = entry s next brk cont b

  -- The loop of `switch`, whose statements break to `next`.
  pub scan_parts : ResolvedParts → NodeId → Option NodeId → CfgBuilder → Outcome (Scan × CfgBuilder)
  scan_parts ResolvedParts.end next cont b =
      ok (record { continuation = next; cases = []; default = none }, b)
  scan_parts (ResolvedParts.case value rest) next cont b = do
    (scan, after) ← scan_parts rest next cont b
    ok (record scan { cases = scan.continuation ∷ scan.cases }, after)
  scan_parts (ResolvedParts.default rest) next cont b = do
    (scan, after) ← scan_parts rest next cont b
    ok (record scan { default = some scan.continuation }, after)
  scan_parts (ResolvedParts.stmt s rest) next cont b = do
    (scan, middle) ← scan_parts rest next cont b
    (first, after) ← entry s scan.continuation (some next) cont middle
    ok (record scan { continuation = first }, after)

-- `resolve_gotos`, over the gotos that are left.
unfoldable pub resolve_gotos : List (NodeId × UserLabel) → CfgBuilder → Outcome CfgBuilder
unfolding add_edges find_label
resolve_gotos [] b = ok b
resolve_gotos (goto ∷ gotos) b = do
  target ← expect (find_label goto.1 b.labels)
  after ← add_edges goto.0 (target ∷ []) b
  resolve_gotos gotos after

unfoldable pub has_node : NodeId → List NodeId → Bool
has_node node [] = false
has_node node (x ∷ xs) = x == node || has_node node xs

-- The `while` loop of `reachable`, on a stack with its top first.
unfoldable pub search : ℕ → Edges → List NodeId → List NodeId → Outcome (List NodeId)
unfolding successors has_node
search fuel edges [] seen = ok seen
search zero edges (node ∷ work) seen = err Failure.panics
search (suc fuel) edges (node ∷ work) seen = elim (has_node node seen) [
  | true ↦ search fuel edges work seen
  | false ↦ do
    targets ← expect (successors edges node)
    search fuel edges (in_order targets ++ work) (node ∷ seen)
]

abbrev pub edge_count : Edges → ℕ
edge_count [] = 0
edge_count (targets ∷ edges) = length targets + edge_count edges

-- Each node is expanded once, so no more than all edges and the first node are popped.
unfoldable pub reachable : Edges → NodeId → Outcome (List NodeId)
unfolding search
reachable edges first = search (suc (edge_count edges)) edges (first ∷ []) []

-- The graph of a body: its entry, and the edges when the gotos are resolved.
unfoldable pub graph_of : ResolvedStmt → Outcome (NodeId × Edges)
unfolding entry resolve_gotos
graph_of body = do
  (first, b) ← entry body exit none none new_builder
  resolved ← resolve_gotos (in_order b.gotos) b
  ok (first, resolved.edges)

unfoldable pub may_reach_function_end : ResolvedStmt → Outcome Bool
unfolding graph_of reachable has_node
may_reach_function_end body = do
  (first, edges) ← graph_of body
  seen ← reachable edges first
  ok (has_node exit seen)
