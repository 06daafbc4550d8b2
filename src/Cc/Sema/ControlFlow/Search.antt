-- ===== src/Cc/Sema/ControlFlow/Search.antt =====
-- The `while` loop of `reachable`: it ends, and keeps what its two branches keep.
use ex3_rust.Prelude.{
  ℕ, zero, suc, ◌+◌, ◌≤◌, ◌<◌, ◌≡◌, inl, inr, refl, sym, ◌∙◌, subst, arith, true, false, ◌||◌,
  if◌then◌else◌, Bool-cases, some, List, [], ◌∷◌, ◌++◌, in_order, length, length-append, All,
  All-append, ok,
}
use ex3_rust.Cc.Sema.ControlFlow.{NodeId, Edges, successors, has_node, search, edge_count}

-- Every successor is a node below a bound.
abbrev pub IsWithin : ℕ → Edges → Type 0
IsWithin n = All (All (λ target. target < n))

has_node-append :
    (v : NodeId) (xs ys : List NodeId) → has_node v (xs ++ ys) ≡ (has_node v xs || has_node v ys)
unfolding has_node
has_node-append v [] ys = refl
has_node-append v (x ∷ xs) ys = ground (arith, has_node-append v xs ys)

has_node-in_order : (v : NodeId) (xs : List NodeId) → has_node v (in_order xs) ≡ has_node v xs
unfolding has_node
has_node-in_order v [] = refl
has_node-in_order v (x ∷ xs) =
    ground (arith, has_node-append v (in_order xs) (x ∷ []), has_node-in_order v xs)

pub has_node-pushed :
    (v : NodeId) (xs ys : List NodeId)
    → has_node v (in_order xs ++ ys) ≡ (has_node v xs || has_node v ys)
has_node-pushed v xs ys = ground (arith, has_node-append v (in_order xs) ys, has_node-in_order v xs)

length-in_order : (xs : List NodeId) → length (in_order xs) ≡ length xs
length-in_order [] = refl
length-in_order (x ∷ xs) = omega (arith, length-append (in_order xs) (x ∷ []), length-in_order xs)

All-in_order : (P : NodeId → Type 0) (xs : List NodeId) → All P xs → All P (in_order xs)
All-in_order P [] h = tt
All-in_order P (x ∷ xs) (h, hs) = All-append P (in_order xs) (x ∷ []) (All-in_order P xs hs) (h, tt)

-- The successors of a node in range.
successors-within :
    (n : ℕ) (edges : Edges) (u : NodeId)
    → IsWithin n edges
    → u < length edges
    → (targets : List NodeId) × (successors edges u ≡ some targets)
      × All (λ target. target < n) targets
unfolding successors
successors-within n [] u h small = absurd (omega arith)
successors-within n (targets ∷ edges) zero (h, hs) small = (targets, refl, h)
successors-within n (targets ∷ edges) (suc u) (h, hs) small =
    successors-within n edges u hs (omega arith)

-- The edges of the nodes, from an index on, that are not expanded yet.
unfoldable pub remaining : ℕ → Edges → List NodeId → ℕ
remaining k [] seen = 0
remaining k (targets ∷ edges) seen =
    (if has_node k seen then 0 else length targets) + remaining (suc k) edges seen

pub remaining-none : (k : ℕ) (edges : Edges) → remaining k edges [] ≡ edge_count edges
unfolding remaining has_node
remaining-none k [] = refl
remaining-none k (targets ∷ edges) = omega (arith, remaining-none (suc k) edges)

remaining-passed :
    (k : ℕ) (edges : Edges) (u : NodeId) (seen : List NodeId)
    → u < k
    → remaining k edges (u ∷ seen) ≡ remaining k edges seen
unfolding remaining has_node
remaining-passed k [] u seen h = refl
remaining-passed k (targets ∷ edges) u seen h =
    ground (arith, remaining-passed (suc k) edges u seen)

remaining-expanded :
    (k i u : ℕ) (edges : Edges) (targets seen : List NodeId)
    → u ≡ k + i
    → successors edges i ≡ some targets
    → has_node u seen ≡ false
    → length targets + remaining k edges (u ∷ seen) ≡ remaining k edges seen
unfolding remaining has_node successors
remaining-expanded k i u [] targets seen e t new = cc t
remaining-expanded k zero u (first ∷ edges) targets seen e t new =
    ground (arith, remaining-passed (suc k) edges u seen)
remaining-expanded k (suc i) u (first ∷ edges) targets seen e t new =
    ground (arith, remaining-expanded (suc k) i u edges targets seen)

module _ (edges : Edges) where
  search-seen :
      (fuel : ℕ) (u : NodeId) (work seen : List NodeId)
      → has_node u seen ≡ true
      → search (suc fuel) edges (u ∷ work) seen ≡ search fuel edges work seen
  unfolding search
  search-seen fuel u work seen e = rw (e, search) refl

  search-new :
      (fuel : ℕ) (u : NodeId) (work seen targets : List NodeId)
      → has_node u seen ≡ false
      → successors edges u ≡ some targets
      → search (suc fuel) edges (u ∷ work) seen
        ≡ search fuel edges (in_order targets ++ work) (u ∷ seen)
  unfolding search
  search-new fuel u work seen targets e t = rw (e, t, search) refl

  module _ (g : IsWithin (length edges) edges) where
    pub search_returns :
        (fuel : ℕ) (work seen : List NodeId)
        → All (λ v. v < length edges) work
        → length work + remaining 0 edges seen ≤ fuel
        → (found : List NodeId) × (search fuel edges work seen ≡ ok found)
    unfolding search
    search_returns fuel [] seen h enough = (seen, refl)
    search_returns zero (u ∷ work) seen h enough = absurd (omega arith)
    search_returns (suc fuel) (u ∷ work) seen (h, hs) enough = elim (Bool-cases (has_node u seen)) [
      | inl old ↦
          let (found, e) = search_returns fuel work seen hs (omega arith) in
          (found, search-seen fuel u work seen old ∙ e)
      | inr new ↦
          let (targets, t, within) = successors-within (length edges) edges u g h in
          let fewer = remaining-expanded 0 u u edges targets seen (omega arith) t new in
          let pushed = length-append (in_order targets) work in
          let (found, e) =
            search_returns fuel (in_order targets ++ work) (u ∷ seen)
              (All-append _ (in_order targets) work (All-in_order _ targets within) hs)
              (omega (arith, length-in_order targets)) in
          (found, search-new fuel u work seen targets new t ∙ e)
    ]

    -- An invariant of the stack and the visited nodes that both branches keep holds at the end.
    pub search_rule :
        (P : List NodeId → List NodeId → Type 0)
        → ((u : NodeId) (work seen : List NodeId)
            → has_node u seen ≡ true
            → P (u ∷ work) seen
            → P work seen)
        → ((u : NodeId) (work seen targets : List NodeId)
            → successors edges u ≡ some targets
            → P (u ∷ work) seen
            → P (in_order targets ++ work) (u ∷ seen))
        → (fuel : ℕ) (work seen found : List NodeId) → All (λ v. v < length edges) work
        → P work seen
        → search fuel edges work seen ≡ ok found
        → P [] found
    unfolding search
    search_rule P skip expand fuel [] seen found h p e = subst (P []) (cc e) p
    search_rule P skip expand zero (u ∷ work) seen found h p e = cc e
    search_rule P skip expand (suc fuel) (u ∷ work) seen found (h, hs) p e =
        elim (Bool-cases (has_node u seen)) [
          | inl old ↦
              search_rule P skip expand fuel work seen found hs (skip u work seen old p)
                (sym (search-seen fuel u work seen old) ∙ e)
          | inr new ↦
              let (targets, t, within) = successors-within (length edges) edges u g h in
              search_rule P skip expand fuel (in_order targets ++ work) (u ∷ seen) found
                (All-append _ (in_order targets) work (All-in_order _ targets within) hs)
                (expand u work seen targets t p)
                (sym (search-new fuel u work seen targets new t) ∙ e)
        ]
