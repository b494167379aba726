-- ===== src/Frontend/Graph/Petgraph.antt =====
-- The crate petgraph, as the computation of the evaluation order uses it: a parameter of the model.
use rtlola.Common.{
  ℕ, zero, suc, ◌-◌, ◌==◌, if◌then◌else◌, some, Option, List, [], ◌∷◌, ◌≡◌, ◌↔◌, ◌<◌, ◌⊎◌,
}
use rtlola.Common.Sets.{◌∈◌}
use rtlola.Frontend.Graph.{ComputeStep}

-- The crate petgraph: graphs whose nodes hold steps, and which change.
pub record Petgraph : Type 1 where
  pub ComputationGraph : Type 0
  pub empty : ComputationGraph
  pub add_node : ComputationGraph → ComputeStep → ComputationGraph × ℕ
  pub add_edge : ComputationGraph → ℕ → ℕ → ComputationGraph
  pub node_count : ComputationGraph → ℕ
  pub node_indices : ComputationGraph → List ℕ
  pub node_weight : ComputationGraph → ℕ → Option ComputeStep
  pub neighbors : ComputationGraph → ℕ → List ℕ
  pub remove_node : ComputationGraph → ℕ → ComputationGraph

-- The first `n` numbers from `k` on.
abbrev pub range : ℕ → ℕ → List ℕ
range k zero = []
range k (suc n) = k ∷ range (suc k) n

-- Where the node `j` stood before node `i` of `n` nodes was removed: the last node takes its place.
abbrev pub place_before : ℕ → ℕ → ℕ → ℕ
place_before n i j = if j == i then n - 1 else j

-- What petgraph documents of these, as far as the loop relies on it.
pub record IsPetgraph (pg : Petgraph) : Type 0 where
  pub indices_lem : (g : pg.ComputationGraph) → pg.node_indices g ≡ range 0 (pg.node_count g)
  pub weight_some :
      (g : pg.ComputationGraph) (j : ℕ)
      → j < pg.node_count g
      → (step : ComputeStep) × (pg.node_weight g j ≡ some step)
  pub weight_lt :
      (g : pg.ComputationGraph) (j : ℕ) (step : ComputeStep)
      → pg.node_weight g j ≡ some step
      → j < pg.node_count g
  pub count-empty : pg.node_count pg.empty ≡ 0
  pub index-add_node :
      (g : pg.ComputationGraph) (step : ComputeStep) → (pg.add_node g step).1 ≡ pg.node_count g
  pub weight-add_node :
      (g : pg.ComputationGraph) (step : ComputeStep) (j : ℕ)
      → pg.node_weight (pg.add_node g step).0 j
        ≡ (if j == pg.node_count g then some step else pg.node_weight g j)
  pub neighbors-add_node :
      (g : pg.ComputationGraph) (step : ComputeStep) (j k : ℕ)
      → (k ∈ pg.neighbors (pg.add_node g step).0 j) ↔ (k ∈ pg.neighbors g j)
  pub weight-add_edge :
      (g : pg.ComputationGraph) (a b j : ℕ)
      → a < pg.node_count g
      → b < pg.node_count g
      → pg.node_weight (pg.add_edge g a b) j ≡ pg.node_weight g j
  pub neighbors-add_edge :
      (g : pg.ComputationGraph) (a b j k : ℕ)
      → a < pg.node_count g
      → b < pg.node_count g
      → (k ∈ pg.neighbors (pg.add_edge g a b) j) ↔ ((k ∈ pg.neighbors g j) ⊎ (j ≡ a) × (k ≡ b))
  pub neighbor_lt :
      (g : pg.ComputationGraph) (j k : ℕ)
      → k ∈ pg.neighbors g j
      → (j < pg.node_count g) × (k < pg.node_count g)
  pub count-remove :
      (g : pg.ComputationGraph) (i : ℕ)
      → i < pg.node_count g
      → pg.node_count (pg.remove_node g i) ≡ pg.node_count g - 1
  pub weight-remove :
      (g : pg.ComputationGraph) (i j : ℕ)
      → i < pg.node_count g
      → j < pg.node_count g - 1
      → pg.node_weight (pg.remove_node g i) j
        ≡ pg.node_weight g (place_before (pg.node_count g) i j)
  pub neighbors-remove :
      (g : pg.ComputationGraph) (i j k : ℕ)
      → i < pg.node_count g
      → j < pg.node_count g - 1
      → k < pg.node_count g - 1
      → (k ∈ pg.neighbors (pg.remove_node g i) j)
        ↔ (place_before (pg.node_count g) i k ∈ pg.neighbors g (place_before (pg.node_count g) i j))

module _ (pg : Petgraph) where
  open pg use {ComputationGraph, node_weight, neighbors}

  abbrev pub Has : ComputationGraph → ComputeStep → Type 0
  Has g step = (j : ℕ) × (node_weight g j ≡ some step)

  -- The first step needs the second.
  abbrev pub Link : ComputationGraph → ComputeStep → ComputeStep → Type 0
  Link g v w =
      (j k : ℕ) × (node_weight g j ≡ some v) × (node_weight g k ≡ some w) × (k ∈ neighbors g j)

  -- No step stands in two nodes.
  abbrev pub HasDistinctSteps : ComputationGraph → Type 0
  HasDistinctSteps g =
      (j k : ℕ) (step : ComputeStep)
      → node_weight g j ≡ some step
      → node_weight g k ≡ some step
      → j ≡ k
