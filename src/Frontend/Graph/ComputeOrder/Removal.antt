-- ===== src/Frontend/Graph/ComputeOrder/Removal.antt =====
-- frontend/src/analysis/graph_based_analysis/evaluation_order.rs: what the removal of nodes leaves.
use rtlola.Common.{
  ℕ, ◌-◌, ◌==◌, some, ◌≡◌, sym, ap, ◌∙◌, ◌↔◌, ◌<◌, ◌≢◌, inl, inr, arith, Bool-cases, some-injective,
}
use rtlola.Frontend.Graph.{ComputeStep}
use rtlola.Frontend.Graph.Petgraph.{Has, Link, HasDistinctSteps, Petgraph, IsPetgraph, place_before}

-- Every node but the removed one has a place afterwards.
place_after : (n i j : ℕ) → i < n → j < n → j ≢ i → (k : ℕ) × (k < n - 1) × (place_before n i k ≡ j)
place_after n i j hi hj other = elim (Bool-cases (j == n - 1)) [
  | inl last ↦ (i, ground arith, ground arith)
  | inr inner ↦ (j, ground arith, ground arith)
]

place_before_ne :
    (n i j : ℕ) → i < n → j < n - 1 → (place_before n i j < n) × (place_before n i j ≢ i)
place_before_ne n i j hi hj = (ground arith, ground arith)

place_before_injective :
    (n i j k : ℕ) → j < n - 1 → k < n - 1 → place_before n i j ≡ place_before n i k → j ≡ k
place_before_injective n i j k hj hk h = ground arith

module _ (pg : Petgraph) (lib : IsPetgraph pg) where
  open pg use {ComputationGraph, node_count, node_weight, neighbors, remove_node}

  module _ (g : ComputationGraph) (i : ℕ) (x : ComputeStep) (at : node_weight g i ≡ some x) where
    abbrev g' : ComputationGraph
    g' = remove_node g i

    within : i < node_count g
    within = lib.weight_lt g i x at

    before :
        (j : ℕ) (step : ComputeStep)
        → node_weight g' j ≡ some step
        → (j < node_count g - 1) × (node_weight g (place_before (node_count g) i j) ≡ some step)
    before j step e =
        let small = lib.weight_lt g' j step e in
        let h : j < node_count g - 1 = omega (arith, lib.count-remove g i within) in
        (h, sym (lib.weight-remove g i j within h) ∙ e)

    after :
        (j : ℕ) (step : ComputeStep)
        → node_weight g j ≡ some step
        → step ≢ x
        → (k : ℕ) × (k < node_count g - 1)
          × (place_before (node_count g) i k ≡ j)
          × (node_weight g' k ≡ some step)
    after j step e other =
        let (k, small, same) =
          place_after (node_count g) i j within (lib.weight_lt g j step e)
            (λ h. other (some-injective (sym e ∙ ap (node_weight g) h ∙ at))) in
        (k, small, same, lib.weight-remove g i k within small ∙ ap (node_weight g) same ∙ e)

    module _ (distinct : HasDistinctSteps pg g) where
      ne_of_before : (j : ℕ) (step : ComputeStep) → node_weight g' j ≡ some step → step ≢ x
      ne_of_before j step e same =
          let (small, e') = before j step e in
          (place_before_ne (node_count g) i j within small).1
            (distinct _ i x (e' ∙ ap some same) at)

      pub Has-remove_node : (w : ComputeStep) → Has pg g' w ↔ (Has pg g w × (w ≢ x))
      Has-remove_node w = (
        λ (j, e). ((place_before (node_count g) i j, (before j w e).1), ne_of_before j w e),
        λ ((j, e), other). let (k, small, same, e') = after j w e other in (k, e'),
      )

      pub Link-remove_node :
          (v w : ComputeStep) → Link pg g' v w ↔ (Link pg g v w × (v ≢ x) × (w ≢ x))
      Link-remove_node v w = (
        λ (j, k, ev, ew, edge).
            let (hj, ev') = before j v ev in
            let (hk, ew') = before k w ew in
            (
              (
                place_before (node_count g) i j,
                place_before (node_count g) i k,
                ev',
                ew',
                (lib.neighbors-remove g i j k within hj hk).0 edge,
              ),
              ne_of_before j v ev,
              ne_of_before k w ew,
            ),
        λ ((j, k, ev, ew, edge), nv, nw).
            let (j', hj, sj, ev') = after j v ev nv in
            let (k', hk, sk, ew') = after k w ew nw in
            (j', k', ev', ew', (lib.neighbors-remove g i j' k' within hj hk).1 (rw (sj, sk) edge)),
      )

      pub HasDistinctSteps-remove_node : HasDistinctSteps pg g'
      HasDistinctSteps-remove_node j k step ej ek =
          let (hj, ej') = before j step ej in
          let (hk, ek') = before k step ek in
          place_before_injective (node_count g) i j k hj hk (distinct _ _ step ej' ek')
