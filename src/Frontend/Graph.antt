-- ===== src/Frontend/Graph.antt =====
-- frontend/src/analysis/graph_based_analysis/mod.rs: the dependency graph of a specification and
-- what the analyses say of it. Frequencies and times are rational numbers, as numerator and
-- denominator; an identifier of a node of the syntax tree is a number.
pub mod Ids
pub mod Future
pub mod Space
pub mod Inputs
pub mod Dependencies
pub mod Petgraph
pub mod ComputationGraph
pub mod ComputeOrder
use rtlola.Common.{ℕ, ◌≡◌, Option, some, List, ◌↔◌}
use rtlola.Common.Int.{ℤ}
use rtlola.Common.Sets.{◌∈◌, IsDistinct}
use rtlola.Frontend.Activation.{Activation}

-- `enum StreamTy` of frontend/src/ty.rs
pub data StreamTy : Type 0 where
  event : Activation ℕ → StreamTy
  real_time : ℤ × ℕ → StreamTy
  infer : List ℕ → StreamTy

pub record Span : Type 0 where
  pub start : ℕ
  pub end : ℕ

pub data StreamNode : Type 0 where
  rt_output : ℕ → StreamTy → StreamNode
  rt_trigger : ℕ → StreamTy → StreamNode
  classic_input : ℕ → StreamNode

pub data ComputeStep : Type 0 where
  invoke extend evaluate terminate : ℕ → ComputeStep

pub data TimeOffset : Type 0 where
  up_to_now future : ℤ × ℕ → TimeOffset

pub data Offset : Type 0 where
  discrete : ℤ → Offset
  time : TimeOffset → Offset
  sliding_window : Offset

pub data Location : Type 0 where
  invoke extend terminate expression : Location

pub data StreamDependency : Type 0 where
  access : Location → Offset → Span → StreamDependency
  invoke_by_name : Span → StreamDependency

-- The numbers are of type `u16`.
pub data StorageRequirement : Type 0 where
  finite : ℕ → StorageRequirement
  future_ref : ℕ → StorageRequirement
  unbounded : StorageRequirement

pub data TrackingRequirement : Type 0 where
  finite : ℕ → TrackingRequirement
  future : TrackingRequirement
  unbounded : TrackingRequirement

unfoldable pub get_ast_id : StreamNode → ℕ
get_ast_id (rt_output id _) = id
get_ast_id (classic_input id) = id
get_ast_id (rt_trigger id _) = id

-- The crate petgraph: a reference to an edge, and a graph as far as the analyses read it. The lists
-- are in the order in which petgraph iterates.
pub record EdgeReference (E : Type 0) : Type 0 where
  pub source : ℕ
  pub target : ℕ
  pub weight : E

pub record Graph (N E : Type 0) : Type 0 where
  pub node_indices : List ℕ
  pub node_weight : ℕ → Option N
  pub outgoing : ℕ → List (EdgeReference E)
  pub incoming : ℕ → List (EdgeReference E)
  pub incoming_neighbors : ℕ → List ℕ
  pub edges : List (EdgeReference E)

abbrev pub DependencyGraph : Type 0
DependencyGraph = Graph StreamNode StreamDependency

-- What petgraph documents of these: they list the nodes and edges of one graph.
pub record IsGraph {N E : Type 0} (g : Graph N E) : Type 0 where
  pub once : IsDistinct g.node_indices
  pub weight_of : (n : ℕ) → n ∈ g.node_indices → (w : N) × (g.node_weight n ≡ some w)
  pub listed : (n : ℕ) (w : N) → g.node_weight n ≡ some w → n ∈ g.node_indices
  pub ends :
      (e : EdgeReference E)
      → e ∈ g.edges
      → (e.source ∈ g.node_indices) × (e.target ∈ g.node_indices)
  pub outgoing_iff :
      (n : ℕ) (e : EdgeReference E) → (e ∈ g.outgoing n) ↔ ((e ∈ g.edges) × (e.source ≡ n))
  pub incoming_iff :
      (n : ℕ) (e : EdgeReference E) → (e ∈ g.incoming n) ↔ ((e ∈ g.edges) × (e.target ≡ n))
  pub neighbor_iff :
      (n m : ℕ)
      → (m ∈ g.incoming_neighbors n)
        ↔ ((e : EdgeReference E) × (e ∈ g.edges) × (e.source ≡ m) × (e.target ≡ n))

-- No two nodes have the same identifier.
abbrev pub HasDistinctIds : DependencyGraph → Type 0
HasDistinctIds g =
    (m n : ℕ) (v w : StreamNode)
    → g.node_weight m ≡ some v
    → g.node_weight n ≡ some w
    → get_ast_id v ≡ get_ast_id w
    → m ≡ n
