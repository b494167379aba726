-- ===== src/Tests/Analyses.antt =====
-- Runs of the analyses of the dependency graph: an input; a counter that reads the input's last but one
-- value and its own last value; an output that reads the next value of the counter; and a trigger on
-- the counter.
use rtlola.Common.{
  ℕ, zero, suc, ◌<◌, ◌*◌, ◌==◌, if◌then◌else◌, get_elem?, Bool, true, ◌&&◌, some, List, [], ◌∷◌,
  length, ok, Returns, ◌≡◌, refl, ◌↔◌, inl, inr, arith,
}
use rtlola.Common.Int.{pos, negsuc}
use rtlola.Common.Sets.{◌∈◌, contains, lookup}
use rtlola.Frontend.Activation.{Activation}
use rtlola.Frontend.Graph.{
  StreamNode, StreamTy, Span, Offset, Location, StreamDependency, access, StorageRequirement,
  EdgeReference, DependencyGraph, IsGraph, HasDistinctIds, get_ast_id, ComputeStep,
}
use rtlola.Common.Sets.{insert, put}
use rtlola.Frontend.Graph.Future.{
  future_dependent_stream, mark_all, id_of, directly_future_dependent, is_future,
  propagate_future_dependence, propagate_to,
}
use rtlola.Frontend.Graph.Inputs.{
  determine_required_inputs, no_inputs, color_inputs, color_input, push_input, bfs_color_reachable,
  visit_all, visit,
}
use rtlola.Frontend.Graph.Inputs.Collecting.{Collects, NeedsInput}
use rtlola.Frontend.Graph.Inputs.Required.{determine_required_inputs-Collects}
use rtlola.Frontend.Graph.Space.{
  Requirements, determine_buffer_size, buffer_sizes, storage_for, storage_step, past_storage,
}
use rtlola.Frontend.Graph.Space.Largest.{IsShort}
use rtlola.Frontend.Graph.Space.Sizes.{Suffices, requirement, determine_buffer_size-Suffices}
use rtlola.Frontend.Graph.ComputationGraph.{Part}
use rtlola.Frontend.Graph.Ids.{ast_id}
use rtlola.Frontend.Graph.ComputeOrder.EvaluationOrder.{step_rank}
use rtlola.Frontend.Graph.Petgraph.{Has, Link, HasDistinctSteps}
use rtlola.Frontend.Graph.ComputationGraph.{build_compute_graph}
use rtlola.Frontend.Graph.ComputationGraph.Streams.{step_of}
use rtlola.Frontend.Graph.ComputationGraph.Needed.{NeedsStep}
use rtlola.Frontend.Graph.ComputationGraph.Links.{Requires, build_compute_graph-Requires}
use rtlola.Frontend.Graph.ComputeOrder.{get_compute_order}
use rtlola.Frontend.Graph.ComputeOrder.Layers.{Falls, Orders, get_compute_order-Orders}
use rtlola.Tests.Matrices.{Matrix, matrices, matrices-IsPetgraph, neighbor_iff}
use rtlola.Frontend.Graph.Future.Reach.{DependsOnFuture, future_dependent_stream-DependsOnFuture}
use rtlola.Tests.Graphs.{graph_of, graph_of-IsGraph}

abbrev on_input : StreamTy
on_input = StreamTy.event (Activation.stream 10)

abbrev here : Span
here = record { start = 0; end = 1 }

abbrev reads : ℕ → ℕ → Offset → EdgeReference StreamDependency
reads from to offset = record {
  source = from;
  target = to;
  weight = access Location.expression offset here;
}

abbrev nodes : List StreamNode
nodes =
    StreamNode.classic_input 10
    ∷ (StreamNode.rt_output 20 on_input
        ∷ (StreamNode.rt_output 30 on_input ∷ (StreamNode.rt_trigger 40 on_input ∷ [])))

abbrev counter_past : EdgeReference StreamDependency
counter_past = reads 1 1 (Offset.discrete (negsuc 0))

abbrev edges : List (EdgeReference StreamDependency)
edges =
    reads 3 1 (Offset.discrete (pos 0))
    ∷ (reads 1 0 (Offset.discrete (negsuc 1))
        ∷ (counter_past ∷ (reads 2 1 (Offset.discrete (pos 1)) ∷ [])))

abbrev sample : DependencyGraph
sample = graph_of nodes edges

within :
    (e : EdgeReference StreamDependency)
    → e ∈ edges
    → (e.source < length nodes) × (e.target < length nodes)
within e (inl h) = rw h (omega arith, omega arith)
within e (inr (inl h)) = rw h (omega arith, omega arith)
within e (inr (inr (inl h))) = rw h (omega arith, omega arith)
within e (inr (inr (inr (inl h)))) = rw h (omega arith, omega arith)
within e (inr (inr (inr (inr m)))) = absurd m

sample-IsGraph : IsGraph sample
sample-IsGraph = graph_of-IsGraph nodes edges within

-- The identifiers are 10, 20, 30, 40.
id_at : (m : ℕ) (v : StreamNode) → get_elem? nodes m ≡ some v → get_ast_id v ≡ 10 * suc m
unfolding get_ast_id
id_at zero v e = ground arith
id_at (suc zero) v e = ground arith
id_at (suc (suc zero)) v e = ground arith
id_at (suc (suc (suc zero))) v e = ground arith
id_at (suc (suc (suc (suc m)))) v e = cc

sample-HasDistinctIds : HasDistinctIds sample
unfolding get_ast_id
sample-HasDistinctIds m n v w em en same = omega (arith, id_at m v em, id_at n w en, same)

future_dependent_stream-DependsOnFuture_example :
    (s : List ℕ) × (future_dependent_stream sample ≡ ok s)
    × ((n : ℕ) (w : StreamNode)
        → sample.node_weight n ≡ some w
        → (contains s (get_ast_id w) ≡ true) ↔ DependsOnFuture sample sample-IsGraph n)
future_dependent_stream-DependsOnFuture_example =
    future_dependent_stream-DependsOnFuture sample sample-IsGraph sample-HasDistinctIds

-- All streams need the input.
required_sample :
    determine_required_inputs sample
    ≡ ok ((10, 10 ∷ []) ∷ ((20, 10 ∷ []) ∷ ((30, 10 ∷ []) ∷ ((40, 10 ∷ []) ∷ []))))
unfolding determine_required_inputs no_inputs color_inputs color_input push_input
    bfs_color_reachable visit_all visit get_ast_id insert put
required_sample = refl

determine_required_inputs-Collects_example :
    Returns
      (Collects sample sample-IsGraph sample-HasDistinctIds
        (NeedsInput sample sample-IsGraph sample-HasDistinctIds sample.node_indices))
      (determine_required_inputs sample)
determine_required_inputs-Collects_example =
    determine_required_inputs-Collects sample sample-IsGraph sample-HasDistinctIds

abbrev dependent : List ℕ
dependent = 30 ∷ []

found_dependent : future_dependent_stream sample ≡ ok dependent
unfolding future_dependent_stream mark_all id_of get_ast_id directly_future_dependent is_future
    propagate_future_dependence propagate_to insert
found_dependent = refl

short : (e : EdgeReference StreamDependency) → e ∈ edges → IsShort e.weight
short e (inl h) = rw h (omega arith)
short e (inr (inl h)) = rw h (omega arith)
short e (inr (inr (inl h))) = rw h (omega arith)
short e (inr (inr (inr (inl h)))) = rw h (omega arith)
short e (inr (inr (inr (inr m)))) = absurd m

determine_buffer_size-Suffices_example :
    (m : Requirements) × (determine_buffer_size true sample dependent ≡ ok m)
    × ((n : ℕ) (w : StreamNode)
        → sample.node_weight n ≡ some w
        → (k : ℕ) × Suffices true sample sample-IsGraph sample-HasDistinctIds dependent n k
          × (lookup m (get_ast_id w)
              ≡ some (requirement true sample sample-IsGraph sample-HasDistinctIds dependent w k)))
determine_buffer_size-Suffices_example =
    determine_buffer_size-Suffices true sample sample-IsGraph sample-HasDistinctIds dependent short

-- The input is stored three values long, the counter two.
stored :
    determine_buffer_size true sample dependent
    ≡ ok (
        (10, StorageRequirement.finite 3)
        ∷ ((20, StorageRequirement.finite 2)
            ∷ ((30, StorageRequirement.future_ref 1) ∷ ((40, StorageRequirement.finite 1) ∷ []))))
unfolding determine_buffer_size buffer_sizes storage_for storage_step past_storage get_ast_id put
stored = refl

-- The event-based streams are all that there are.
abbrev keep_all : (StreamNode → Bool) → DependencyGraph → DependencyGraph
keep_all p g = if p (StreamNode.classic_input 0) then g else graph_of [] []

-- The number of a stream: how many streams it waits for.
abbrev rank : ℕ → ℕ
rank id = if id == 20 then 1 else if id == 40 then 2 else 0

abbrev EdgeFalls : EdgeReference StreamDependency → Type 0
EdgeFalls e =
    (v w : ComputeStep)
    → NeedsStep e.weight (ast_id sample e.source) (ast_id sample e.target) v w
    → step_rank rank w < step_rank rank v

build_compute_graph-Requires_example :
    (cg : Matrix) × (build_compute_graph matrices sample ≡ ok cg)
    × HasDistinctSteps matrices cg
    × ((w : ComputeStep)
        → Has matrices cg w
          ↔ ((n : ℕ) × (p : Part) × (n ∈ sample.node_indices) × (w ≡ step_of p (ast_id sample n))))
    × ((v w : ComputeStep) → Link matrices cg v w ↔ Requires sample v w)
build_compute_graph-Requires_example =
    build_compute_graph-Requires matrices matrices-IsPetgraph sample sample-IsGraph
      sample-HasDistinctIds

-- Two steps, of which the second needs the first.
abbrev pair : Matrix
pair = record {
  count = 2;
  step = λ j. if j == 0 then ComputeStep.invoke 7 else ComputeStep.extend 7;
  edge = λ j k. j == 1 && k == 0;
}

pair-HasDistinctSteps : HasDistinctSteps matrices pair
pair-HasDistinctSteps j k step ej ek = ground arith

abbrev height : ComputeStep → ℕ
height (ComputeStep.invoke _) = 0
height _ = 1

pair-Falls : Falls matrices matrices-IsPetgraph height pair
pair-Falls v w (j, k, ev, ew, edge) = let found = (neighbor_iff pair j k).0 edge in ground arith

get_compute_order-Orders_example :
    (layers : List (List ComputeStep)) × (get_compute_order matrices pair ≡ ok layers)
    × Orders matrices matrices-IsPetgraph pair layers
get_compute_order-Orders_example =
    get_compute_order-Orders matrices matrices-IsPetgraph height pair pair-HasDistinctSteps
      pair-Falls
