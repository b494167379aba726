-- ===== src/Frontend/Graph/ComputationGraph.antt =====
-- frontend/src/analysis/graph_based_analysis/evaluation_order.rs: the graph of the steps of all
-- streams, with an edge from each step to every step that it needs.
pub mod Adding
pub mod Streams
pub mod Needed
pub mod Links
use rtlola.Common.{
  ℕ, zero, suc, ◌+◌, ◌-◌, ◌==◌, ltb, Bool, true, false, ◌&&◌, not, if◌then◌else◌, some, none,
  Option, List, [], ◌∷◌, ◌++◌, map, length, reverse, get_elem?, set, drop_last, Outcome, ok, panic,
  ◌>>=◌, expect, ◌≡◌, ◌↔◌, ◌<◌, ◌⊎◌,
}
use rtlola.Common.Int.{ℤ, pos, negsuc}
use rtlola.Common.Sets.{◌∈◌, lookup, put}
use rtlola.Frontend.Schedule.{is_nil}
use rtlola.Frontend.Graph.{
  StreamNode, rt_output, rt_trigger, classic_input, StreamTy, ComputeStep, TimeOffset, Offset,
  Location, StreamDependency, access, invoke_by_name, get_ast_id, EdgeReference, DependencyGraph,
}
use rtlola.Frontend.Graph.Petgraph.{Petgraph, IsPetgraph, range, place_before}

-- `struct StepEntry`
pub record StepEntry : Type 0 where
  pub invoke : ℕ
  pub extend : ℕ
  pub evaluate : ℕ
  pub terminate : ℕ

-- Which of the steps of a stream? A location other than the expression is of a template.
pub data Part : Type 0 where
  invoke extend evaluate terminate : Part

unfoldable pub entry_of : StepEntry → Part → ℕ
entry_of entry Part.invoke = entry.invoke
entry_of entry Part.extend = entry.extend
entry_of entry Part.evaluate = entry.evaluate
entry_of entry Part.terminate = entry.terminate

unfoldable pub part_of : Location → Part
part_of Location.invoke = Part.invoke
part_of Location.extend = Part.extend
part_of Location.expression = Part.evaluate
part_of Location.terminate = Part.terminate

-- The step of the source and the step of the target between which a dependency adds an edge.
unfoldable pub computation_edge : StreamDependency → ℕ → ℕ → Option (Part × Part)
computation_edge (invoke_by_name _) source_id target_id = some (Part.invoke, Part.evaluate)
computation_edge (access location (Offset.discrete (pos zero)) _) source_id target_id =
    some (part_of location, Part.evaluate)
computation_edge (access location (Offset.discrete (negsuc _)) _) source_id target_id =
    some (part_of location, Part.extend)
computation_edge (access location (Offset.discrete (pos (suc _))) _) source_id target_id = none
computation_edge (access location (Offset.time (TimeOffset.up_to_now _)) _) source_id target_id =
    some (Part.evaluate, Part.evaluate)
computation_edge (access location (Offset.time (TimeOffset.future _)) _) source_id target_id = none
computation_edge (access location Offset.sliding_window _) source_id target_id =
    if source_id == target_id then none else some (Part.evaluate, Part.evaluate)

module _ (pg : Petgraph) where
  open pg use {ComputationGraph, empty, add_node, add_edge}

  -- The steps of one stream, and the edges among them.
  unfoldable pub add_stream :
      ComputationGraph × List (ℕ × StepEntry) → ℕ → ComputationGraph × List (ℕ × StepEntry)
  add_stream (g, mapping) id =
      let (g1, invoke_ix) = add_node g (ComputeStep.invoke id) in
      let (g2, extend_ix) = add_node g1 (ComputeStep.extend id) in
      let (g3, evaluate_ix) = add_node g2 (ComputeStep.evaluate id) in
      let (g4, terminate_ix) = add_node g3 (ComputeStep.terminate id) in
      let g5 = add_edge g4 extend_ix invoke_ix in
      let g6 = add_edge g5 terminate_ix invoke_ix in
      let g7 = add_edge g6 evaluate_ix extend_ix in
      (
        g7,
        put mapping id (record {
          invoke = invoke_ix;
          extend = extend_ix;
          evaluate = evaluate_ix;
          terminate = terminate_ix;
        }),
      )

  -- what a dependency between the streams of two identifiers adds
  unfoldable pub add_between :
      List (ℕ × StepEntry) → ComputationGraph → StreamDependency → ℕ → ℕ → Outcome ComputationGraph
  add_between mapping cg weight source_id target_id =
      elim (computation_edge weight source_id target_id) [
        | none ↦ ok cg
        | some (p, q) ↦ do
          from ← expect (lookup mapping source_id)
          to ← expect (lookup mapping target_id)
          ok (add_edge cg (entry_of from p) (entry_of to q))
      ]

  module _ (g : DependencyGraph) where
    -- the loop over the nodes
    unfoldable pub add_streams :
        List ℕ
        → ComputationGraph × List (ℕ × StepEntry)
        → Outcome (ComputationGraph × List (ℕ × StepEntry))
    add_streams [] state = ok state
    add_streams (node ∷ rest) state = do
      w ← expect (g.node_weight node)
      add_streams rest (add_stream state (get_ast_id w))

    unfoldable pub add_dependency :
        List (ℕ × StepEntry)
        → ComputationGraph
        → EdgeReference StreamDependency
        → Outcome ComputationGraph
    add_dependency mapping cg edge = do
      source ← expect (g.node_weight edge.source)
      target ← expect (g.node_weight edge.target)
      add_between mapping cg edge.weight (get_ast_id source) (get_ast_id target)

    -- the loop over the edges
    unfoldable pub add_dependencies :
        List (ℕ × StepEntry)
        → List (EdgeReference StreamDependency)
        → ComputationGraph
        → Outcome ComputationGraph
    add_dependencies mapping [] cg = ok cg
    add_dependencies mapping (edge ∷ edges) cg = do
      cg' ← add_dependency mapping cg edge
      add_dependencies mapping edges cg'

    unfoldable pub build_compute_graph : Outcome ComputationGraph
    build_compute_graph = do
      (cg, mapping) ← add_streams g.node_indices (empty, [])
      add_dependencies mapping g.edges cg

-- The nodes of the graph for event-based streams, and of the one for periodic streams.
unfoldable pub is_unperiodic : StreamNode → Bool
is_unperiodic (rt_trigger _ (StreamTy.real_time _)) = false
is_unperiodic (rt_output _ (StreamTy.real_time _)) = false
is_unperiodic _ = true

unfoldable pub is_periodic : StreamNode → Bool
is_periodic (classic_input _) = false
is_periodic (rt_trigger _ (StreamTy.event _)) = false
is_periodic (rt_output _ (StreamTy.event _)) = false
is_periodic _ = true

-- `retain_nodes` is that of petgraph: the nodes that pass the test, and the edges between them.
module _ (pg : Petgraph)
    (retain_nodes : (StreamNode → Bool) → DependencyGraph → DependencyGraph) where
  unfoldable pub build_compute_graphs :
      DependencyGraph → Outcome (pg.ComputationGraph × pg.ComputationGraph)
  build_compute_graphs g = do
    unperiodic ← build_compute_graph pg (retain_nodes is_unperiodic g)
    periodic ← build_compute_graph pg (retain_nodes is_periodic g)
    ok (unperiodic, periodic)
