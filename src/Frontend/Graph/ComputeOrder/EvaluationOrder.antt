-- ===== src/Frontend/Graph/ComputeOrder/EvaluationOrder.antt =====
-- frontend/src/analysis/graph_based_analysis/evaluation_order.rs: the evaluation order of the streams
-- of a specification.
use rtlola.Common.{ℕ, ◌+◌, ◌<◌, true, List, ◌≡◌, inl, inr, arith}
use rtlola.Common.Sets.{◌∈◌}
use rtlola.Frontend.Graph.{ComputeStep, StreamDependency, EdgeReference, DependencyGraph}
use rtlola.Frontend.Graph.Ids.{ast_id}
use rtlola.Frontend.Graph.Petgraph.{Petgraph}
use rtlola.Frontend.Graph.ComputationGraph.{Part}
use rtlola.Frontend.Graph.ComputationGraph.Streams.{step_of, first_needed}
use rtlola.Frontend.Graph.ComputationGraph.Needed.{NeedsStep}
use rtlola.Frontend.Graph.ComputationGraph.Links.{Requires}
use rtlola.Frontend.Graph.ComputeOrder.Layers.{InLayer}

-- A number for each step falls along what the steps require: no step requires itself, be it through
-- others.
abbrev pub IsCausal : DependencyGraph → (ComputeStep → ℕ) → Type 0
IsCausal g rank = (v w : ComputeStep) → Requires g v w → rank w < rank v

-- Every step of every stream is in exactly one layer, and each step is in a later layer than all that
-- it requires.
pub record OrdersStreams (g : DependencyGraph) (layers : List (List ComputeStep)) : Type 0 where
  pub placed :
      (n : ℕ) (p : Part) → n ∈ g.node_indices → (k : ℕ) × InLayer layers k (step_of p (ast_id g n))
  pub once : (k l : ℕ) (v : ComputeStep) → InLayer layers k v → InLayer layers l v → k ≡ l
  pub before :
      (k l : ℕ) (v w : ComputeStep)
      → Requires g v w
      → InLayer layers k v
      → InLayer layers l w
      → l < k

-- A rank for the steps of streams that are accessed in expressions only, from a number for each
-- stream.
abbrev pub step_rank : (ℕ → ℕ) → ComputeStep → ℕ
step_rank rank (ComputeStep.invoke _) = 0
step_rank rank (ComputeStep.extend _) = 1
step_rank rank (ComputeStep.terminate _) = 1
step_rank rank (ComputeStep.evaluate id) = 2 + rank id

first_needed_falls :
    (rank : ℕ → ℕ) (p q : Part) (i : ℕ)
    → first_needed p q ≡ true
    → step_rank rank (step_of q i) < step_rank rank (step_of p i)
first_needed_falls rank Part.extend Part.invoke i h = omega arith
first_needed_falls rank Part.terminate Part.invoke i h = omega arith
first_needed_falls rank Part.evaluate Part.extend i h = omega arith
first_needed_falls rank _ _ i h = cc

pub step_rank-IsCausal :
    (g : DependencyGraph) (rank : ℕ → ℕ)
    → ((e : EdgeReference StreamDependency) (v w : ComputeStep)
        → e ∈ g.edges
        → NeedsStep e.weight (ast_id g e.source) (ast_id g e.target) v w
        → step_rank rank w < step_rank rank v)
    → IsCausal g (step_rank rank)
step_rank-IsCausal g rank between v w (inl (n, p, q, m, first, ev, ew)) =
    rw (ev, ew) (first_needed_falls rank p q (ast_id g n) first)
step_rank-IsCausal g rank between v w (inr (e, m, need)) = between e v w m need
