-- ===== src/Frontend/Graph/ComputationGraph/Adding.antt =====
-- frontend/src/analysis/graph_based_analysis/evaluation_order.rs: what the addition of nodes and
-- edges does to the steps and the links of a graph.
use rtlola.Common.{
  ℕ, some, List, [], ◌∷◌, ◌≡◌, refl, sym, ap, ◌∙◌, ◌↔◌, ◌<◌, ◌⊎◌, inl, inr, arith, some-injective,
}
use rtlola.Common.Sets.{◌∈◌}
use rtlola.Frontend.Graph.{ComputeStep}
use rtlola.Frontend.Graph.Petgraph.{Petgraph, IsPetgraph, Has, Link, HasDistinctSteps}

lt_irrefl : (n : ℕ) → n < n → ⊥
lt_irrefl n h = omega arith

module _ (pg : Petgraph) (lib : IsPetgraph pg) where
  open pg use {ComputationGraph, node_count, node_weight, neighbors, add_node, add_edge}

  -- The graph has the steps `ss`, each once, and the links `links`.
  pub record Holds (g : ComputationGraph) (ss : List ComputeStep)
      (links : List (ComputeStep × ComputeStep)) : Type 0 where
    pub distinct : HasDistinctSteps pg g
    pub has_iff : (w : ComputeStep) → Has pg g w ↔ (w ∈ ss)
    pub link_iff : (v w : ComputeStep) → Link pg g v w ↔ ((v, w) ∈ links)

  -- Every step keeps its place.
  abbrev pub Keeps : ComputationGraph → ComputationGraph → Type 0
  Keeps g g' =
      (j : ℕ) (step : ComputeStep) → node_weight g j ≡ some step → node_weight g' j ≡ some step

  pub empty-Holds : Holds pg.empty [] []
  empty-Holds =
      let nowhere = λ (j : ℕ) (w : ComputeStep) (e : node_weight pg.empty j ≡ some w).
        lt_irrefl j (omega (arith, lib.weight_lt pg.empty j w e, lib.count-empty)) in
      record {
        distinct = λ j k w ej ek. absurd (nowhere j w ej);
        has_iff = λ w. (λ (j, e). nowhere j w e, λ m. absurd m);
        link_iff = λ v w. (λ (j, k, ej, ek, edge). nowhere j v ej, λ m. absurd m);
      }

  module _ (g : ComputationGraph) (ss : List ComputeStep) (links : List (ComputeStep × ComputeStep))
      (holds : Holds g ss links) where
    module _ (step : ComputeStep) (fresh : ¬ (step ∈ ss)) where
      new_at : node_weight (add_node g step).0 (add_node g step).1 ≡ some step
      new_at =
          rw (lib.index-add_node g step) (lib.weight-add_node g step (node_count g) ∙ ground arith)

      old_at : Keeps g (add_node g step).0
      old_at j w e = lib.weight-add_node g step j ∙ ground (arith, lib.weight_lt g j w e)

      weight_cases :
          (j : ℕ) (w : ComputeStep)
          → node_weight (add_node g step).0 j ≡ some w
          → (j ≡ node_count g) × (w ≡ step) ⊎ (node_weight g j ≡ some w)
      weight_cases j w e = ground (arith, lib.weight-add_node g step j)

      not_new : (j : ℕ) → node_weight g j ≡ some step → ⊥
      not_new j e = fresh ((holds.has_iff step).0 (j, e))

      distinct' : HasDistinctSteps pg (add_node g step).0
      distinct' j k w ej ek = elim (weight_cases j w ej) [
        | inl (jn, wn) ↦ elim (weight_cases k w ek) [
          | inl (kn, _) ↦ jn ∙ sym kn
          | inr old ↦ absurd (not_new k (old ∙ ap some wn))
        ]
        | inr old ↦ elim (weight_cases k w ek) [
          | inl (kn, wn) ↦ absurd (not_new j (old ∙ ap some wn))
          | inr old' ↦ holds.distinct j k w old old'
        ]
      ]

      was_at :
          (j : ℕ) (w : ComputeStep)
          → j < node_count g
          → node_weight (add_node g step).0 j ≡ some w
          → node_weight g j ≡ some w
      was_at j w h e = elim (weight_cases j w e) [
        | inl (jn, _) ↦ absurd (omega arith)
        | inr old ↦ old
      ]

      pub add_node-Holds : Holds (add_node g step).0 (step ∷ ss) links
      add_node-Holds = record {
        distinct = distinct';
        has_iff = λ w. (
          λ (j, e). elim (weight_cases j w e) [
            | inl (_, new) ↦ inl new
            | inr old ↦ inr ((holds.has_iff w).0 (j, old))
          ],
          λ m. elim m [
            | inl new ↦ ((add_node g step).1, new_at ∙ ap some (sym new))
            | inr old ↦ let (j, e) = (holds.has_iff w).1 old in (j, old_at j w e)
          ],
        );
        link_iff = λ v w. (
          λ (j, k, ej, ek, edge).
              let edge' = (lib.neighbors-add_node g step j k).0 edge in
              let (hj, hk) = lib.neighbor_lt g j k edge' in
              (holds.link_iff v w).0 (j, k, was_at j v hj ej, was_at k w hk ek, edge'),
          λ m.
              let (j, k, ej, ek, edge) = (holds.link_iff v w).1 m in
              (j, k, old_at j v ej, old_at k w ek, (lib.neighbors-add_node g step j k).1 edge),
        );
      }

      pub add_node-at : node_weight (add_node g step).0 (add_node g step).1 ≡ some step
      add_node-at = new_at

      pub add_node-Keeps : Keeps g (add_node g step).0
      add_node-Keeps = old_at

    module _ (a b : ℕ) (v₀ w₀ : ComputeStep) (at_a : node_weight g a ≡ some v₀)
        (at_b : node_weight g b ≡ some w₀) where
      within_a : a < node_count g
      within_a = lib.weight_lt g a v₀ at_a

      within_b : b < node_count g
      within_b = lib.weight_lt g b w₀ at_b

      same_weight : (j : ℕ) → node_weight (add_edge g a b) j ≡ node_weight g j
      same_weight j = lib.weight-add_edge g a b j within_a within_b

      pub add_edge-Keeps : Keeps g (add_edge g a b)
      add_edge-Keeps j w e = same_weight j ∙ e

      pub add_edge-Holds : Holds (add_edge g a b) ss ((v₀, w₀) ∷ links)
      add_edge-Holds = record {
        distinct = λ j k w ej ek.
            holds.distinct j k w (sym (same_weight j) ∙ ej) (sym (same_weight k) ∙ ek);
        has_iff = λ w. (
          λ (j, e). (holds.has_iff w).0 (j, sym (same_weight j) ∙ e),
          λ m. let (j, e) = (holds.has_iff w).1 m in (j, same_weight j ∙ e),
        );
        link_iff = λ v w. (
          λ (j, k, ej, ek, edge).
              let ej' = sym (same_weight j) ∙ ej in
              let ek' = sym (same_weight k) ∙ ek in
              elim ((lib.neighbors-add_edge g a b j k within_a within_b).0 edge) [
                | inl old ↦ inr ((holds.link_iff v w).0 (j, k, ej', ek', old))
                | inr (ja, kb) ↦
                    let hv : v ≡ v₀ = some-injective (sym ej' ∙ ap (node_weight g) ja ∙ at_a) in
                    let hw : w ≡ w₀ = some-injective (sym ek' ∙ ap (node_weight g) kb ∙ at_b) in
                    inl (rw (hv, hw) refl)
              ],
          λ m. elim m [
            | inl new ↦ (
              a,
              b,
              same_weight a ∙ at_a ∙ ap (λ p. some p.0) (sym new),
              same_weight b ∙ at_b ∙ ap (λ p. some p.1) (sym new),
              (lib.neighbors-add_edge g a b a b within_a within_b).1 (inr (refl, refl)),
            )
            | inr old ↦
                let (j, k, ej, ek, edge) = (holds.link_iff v w).1 old in
                (
                  j,
                  k,
                  same_weight j ∙ ej,
                  same_weight k ∙ ek,
                  (lib.neighbors-add_edge g a b j k within_a within_b).1 (inl edge),
                )
          ],
        );
      }
