-- ===== src/Frontend/Graph/ComputeOrder.antt =====
-- frontend/src/analysis/graph_based_analysis/evaluation_order.rs: the order in which the steps of the
-- streams are computed.
pub mod Removal
pub mod Front
pub mod Layers
pub mod EvaluationOrder
use rtlola.Common.{
  ℕ, zero, suc, ◌+◌, ◌-◌, ◌==◌, ltb, Bool, true, false, ◌&&◌, not, if◌then◌else◌, some, none,
  Option, List, [], ◌∷◌, ◌++◌, map, length, reverse, get_elem?, set, drop_last, Outcome, ok, panic,
  ◌>>=◌, expect, ◌≡◌, ◌↔◌, ◌<◌, ◌⊎◌,
}
use rtlola.Common.Int.{ℤ, pos, negsuc}
use rtlola.Common.Sets.{◌∈◌, lookup, put}
use rtlola.Frontend.Schedule.{is_nil}
use rtlola.Frontend.Graph.{
  StreamNode, rt_output, rt_trigger, classic_input, StreamTy, ComputeStep, TimeOffset, Offset,
  Location, StreamDependency, access, invoke_by_name, get_ast_id, EdgeReference, DependencyGraph,
}
use rtlola.Frontend.Graph.Petgraph.{Petgraph, IsPetgraph, range, place_before}
use rtlola.Frontend.Graph.ComputationGraph.{build_compute_graphs}

abbrev pub indices : List (ℕ × ComputeStep) → List ℕ
indices = map (λ p. p.0)

abbrev pub steps : List (ℕ × ComputeStep) → List ComputeStep
steps = map (λ p. p.1)

-- The second loop takes empty layers from the end.
unfoldable pub drop_empty : List (List ComputeStep) → List (List ComputeStep)
drop_empty [] = []
drop_empty (layer ∷ layers) =
    let rest = drop_empty layers in if is_nil layer && is_nil rest then [] else layer ∷ rest

module _ (pg : Petgraph) where
  open pg use {ComputationGraph, node_count, node_indices, node_weight, neighbors, remove_node}

  -- The nodes that depend on no other node, in the order of their indices, with their steps.
  unfoldable pub front : ComputationGraph → List ℕ → Outcome (List (ℕ × ComputeStep))
  front g [] = ok []
  front g (index ∷ rest) = do
    found ← front g rest
    if is_nil (neighbors g index)
        then (do step ← expect (node_weight g index); ok ((index, step) ∷ found))
        else ok found

  -- `for index in pruned_nodes.iter().rev()`: the last one is removed first.
  unfoldable pub remove_all : ComputationGraph → List ℕ → ComputationGraph
  remove_all g [] = g
  remove_all g (index ∷ rest) = remove_node (remove_all g rest) index

  -- The first loop. Fuel bounds the number of its rounds; without fuel it panics.
  unfoldable pub compute_layers : ℕ → ComputationGraph → Outcome (List (List ComputeStep))
  compute_layers zero g = if node_count g == 0 then ok [] else panic
  compute_layers (suc fuel) g = elim (node_count g == 0) [
    | true ↦ ok []
    | false ↦ do
      pruned ← front g (node_indices g)
      layers ← compute_layers fuel (remove_all g (indices pruned))
      ok (steps pruned ∷ layers)
  ]

  unfoldable pub get_compute_order : ComputationGraph → Outcome (List (List ComputeStep))
  get_compute_order g = do layers ← compute_layers (node_count g) g; ok (drop_empty layers)

pub record EvaluationOrderResult : Type 0 where
  pub event_based_streams_order : List (List ComputeStep)
  pub periodic_streams_order : List (List ComputeStep)

-- `retain_nodes` is that of petgraph: the nodes that pass the test, and the edges between them.
module _ (pg : Petgraph)
    (retain_nodes : (StreamNode → Bool) → DependencyGraph → DependencyGraph) where
  unfoldable pub determine_evaluation_order :
      DependencyGraph → Outcome (EvaluationOrderResult × DependencyGraph)
  determine_evaluation_order g = do
    (unperiodic, periodic) ← build_compute_graphs pg retain_nodes g
    event_based ← get_compute_order pg unperiodic
    real_time ← get_compute_order pg periodic
    ok (record { event_based_streams_order = event_based; periodic_streams_order = real_time }, g)
