-- ===== src/Frontend/Graph/Inputs/Search.antt =====
-- frontend/src/analysis/graph_based_analysis/input_dependencies.rs: the search from one input ends,
-- and has added the input to exactly the streams that depend on it.
use rtlola.Common.{
  ℕ, zero, suc, ◌+◌, ◌≤◌, Bool, true, some, List, [], ◌∷◌, ◌++◌, length, ◌≡◌, refl, sym, subst, ◌⊎◌,
  inl, inr, ◌↔◌, arith, Returns, Returns-bind,
}
use rtlola.Common.Sets.{◌∈◌, contains, lookup, count_missing}
use rtlola.Frontend.Graph.{DependencyGraph, IsGraph, HasDistinctIds}
use rtlola.Frontend.Graph.Ids.{ast_id}
use rtlola.Frontend.Graph.Inputs.{RequiredInputs, SearchState, with_stack, bfs_color_reachable}
use rtlola.Frontend.Graph.Inputs.Reaching.{
  DependsOn, itself, through, marked, itself_key, Visited, measure, Searches, Goes, visit_all-Goes,
}

stack-cases : (xs : List ℕ) → (xs ≡ []) ⊎ ((x : ℕ) × (ys : List ℕ) × (xs ≡ x ∷ ys))
stack-cases [] = inl refl
stack-cases (x ∷ xs) = inr (x, xs, refl)

abbrev pub Never : ℕ → Type 0
Never n = ⊥

module _ (g : DependencyGraph) (graph : IsGraph g) (distinct : HasDistinctIds g) where
  open g use {node_indices, incoming_neighbors}

  -- The input `i` is added to the streams that depend on the node `k`, and to no other.
  abbrev pub Colors : ℕ → ℕ → (ℕ → List ℕ) → RequiredInputs → Type 0
  Colors k i base dependencies =
      (m : ℕ)
      → m ∈ node_indices
      → (b : Bool) × (lookup dependencies (ast_id g m) ≡ some (base m ++ marked i b))
        × ((b ≡ true) ↔ DependsOn g m k)

  module _ (k i : ℕ) (base : ℕ → List ℕ) where
    abbrev Inv : (ℕ → Type 0) → SearchState → Type 0
    Inv Open s = Searches g graph distinct k i base Open s

    -- Where no node waits, the visited nodes are all that depend on the input.
    complete :
        (s : SearchState)
        → Inv Never s
        → s.stack ≡ []
        → Visited g graph distinct s k
        → {m : ℕ} → DependsOn g m k
        → Visited g graph distinct s m
    complete s inv e hk itself = hk
    complete s inv e hk (through {m = m} edge he source target path) =
        elim (inv.closed m (complete s inv e hk path)) [
          | inl never ↦ absurd never
          | inr (inl waits) ↦ absurd (subst (λ st. m ∈ st) e waits)
          | inr (inr c) ↦ c _ ((graph.neighbor_iff m _).1 (edge, he, source, target))
        ]

    finished :
        (s : SearchState)
        → Inv Never s
        → s.stack ≡ []
        → Visited g graph distinct s k
        → Colors k i base s.input_dependencies
    finished s inv e hk m hm = (
      contains s.visited m,
      inv.tags m hm,
      ((λ h. (inv.sound m h).1), (λ path. complete s inv e hk path)),
    )

    -- The state in which the neighbours of `top` are visited.
    taken :
        (s : SearchState) (top : ℕ) (rest : List ℕ)
        → Inv Never s
        → s.stack ≡ top ∷ rest
        → Inv (λ m. m ≡ top) (with_stack s rest)
    taken s top rest inv e = record {
      tags = inv.tags;
      sound = inv.sound;
      stacked = λ m h. inv.stacked m (rw e (inr h));
      closed = λ m h. elim (inv.closed m h) [
        | inl never ↦ absurd never
        | inr (inl waits) ↦ elim (subst (λ st. m ∈ st) e waits) [
          | inl here ↦ inl here
          | inr there ↦ inr (inl there)
        ]
        | inr (inr c) ↦ inr (inr c)
      ];
    }

    -- The neighbours of `top` are visited.
    settled :
        (s s' : SearchState) (top : ℕ)
        → Goes g graph distinct k i base (λ m. m ≡ top) (incoming_neighbors top) s s'
        → Inv Never s'
    settled s s' top goes = record {
      tags = goes.searches.tags;
      sound = goes.searches.sound;
      stacked = goes.searches.stacked;
      closed = λ m h. elim (goes.searches.closed m h) [
        | inl e ↦ inr (
            inr (
              subst (λ m. (p : ℕ) → p ∈ incoming_neighbors m → Visited g graph distinct s' p)
                (sym e) goes.visits))
        | inr other ↦ inr other
      ];
    }

    neighbors_depend :
        (s : SearchState) (top : ℕ)
        → Inv Never s
        → Visited g graph distinct s top
        → (d : ℕ) → d ∈ incoming_neighbors top
        → (d ∈ node_indices) × DependsOn g d k
    neighbors_depend s top inv h d hd =
        let (e, he, source, target) = (graph.neighbor_iff top d).0 hd in
        (
          subst (λ n. n ∈ node_indices) source ((graph.ends e he).0),
          through e he source target ((inv.sound top h).1),
        )

    pub bfs_color_reachable-Colors :
        (fuel : ℕ) (s : SearchState)
        → Inv Never s
        → Visited g graph distinct s k
        → measure g graph distinct s ≤ fuel
        → Returns (Colors k i base) (bfs_color_reachable g fuel i s)
    unfolding bfs_color_reachable
    bfs_color_reachable-Colors zero s inv hk h = elim (stack-cases s.stack) [
      | inl e ↦ rw (e, bfs_color_reachable) (s.input_dependencies, refl, finished s inv e hk)
      | inr (top, rest, e) ↦
          let l : length (top ∷ rest) + count_missing itself_key s.visited node_indices ≤ 0 =
            subst (λ st. length st + count_missing itself_key s.visited node_indices ≤ 0) e h in
          absurd (omega (arith, l))
    ]
    bfs_color_reachable-Colors (suc fuel) s inv hk h = elim (stack-cases s.stack) [
      | inl e ↦ rw (e, bfs_color_reachable) (s.input_dependencies, refl, finished s inv e hk)
      | inr (top, rest, e) ↦
          let l : length (top ∷ rest) + count_missing itself_key s.visited node_indices ≤ suc fuel =
            subst (λ st. length st + count_missing itself_key s.visited node_indices ≤ suc fuel) e
              h in
          let seen = inv.stacked top (rw e (inl refl)) in
          rw (e, bfs_color_reachable)
            (Returns-bind _ _
              (visit_all-Goes g graph distinct k i base (λ m. m ≡ top) (incoming_neighbors top)
                (with_stack s rest) (neighbors_depend s top inv seen) (taken s top rest inv e))
              λ s' goes.
                bfs_color_reachable-Colors fuel s' (settled (with_stack s rest) s' top goes)
                  (goes.keeps k hk) (omega (arith, l, goes.shrinks)))
    ]
