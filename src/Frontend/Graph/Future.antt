-- ===== src/Frontend/Graph/Future.antt =====
-- frontend/src/analysis/graph_based_analysis/future_dependency.rs: the streams and triggers that
-- depend on future values, directly or through others.
pub mod Reach
use rtlola.Common.{
  ℕ, zero, suc, ◌≤◌, Bool, true, false, not, if◌then◌else◌, some, List, [], ◌∷◌, any, length,
  Outcome, ok, panic, ◌>>=◌, expect, ltb,
}
use rtlola.Common.Int.{ℤ, pos, ltb_ℤ}
use rtlola.Common.Sets.{contains, insert}
use rtlola.Frontend.Graph.{
  StreamNode, TimeOffset, Offset, StreamDependency, access, invoke_by_name, get_ast_id,
  EdgeReference, DependencyGraph,
}

unfoldable pub is_future : StreamDependency → Bool
is_future (access _ (Offset.discrete offset) _) = ltb_ℤ (pos 0) offset
is_future (access _ (Offset.time (TimeOffset.future _)) _) = true
is_future (access _ (Offset.time (TimeOffset.up_to_now _)) _) = false
is_future (access _ Offset.sliding_window _) = false
is_future (invoke_by_name _) = false

module _ (g : DependencyGraph) where
  -- the identifier of a node that the graph has
  unfoldable pub id_of : ℕ → Outcome ℕ
  id_of n = do w ← expect (g.node_weight n); ok (get_ast_id w)

  unfoldable pub directly_future_dependent : ℕ → Bool
  directly_future_dependent n = any (λ e. is_future e.weight) (g.outgoing n)

  -- The loop over the neighbours, with what is done for one that is not marked yet.
  unfoldable pub propagate_to : (ℕ → List ℕ → Outcome (List ℕ)) → List ℕ → List ℕ → Outcome (List ℕ)
  propagate_to go [] streams = ok streams
  propagate_to go (neighbor ∷ rest) streams = do
    id ← id_of neighbor
    streams' ← elim (contains streams id) [ true ↦ ok streams | false ↦ go neighbor streams ]
    propagate_to go rest streams'

  -- Fuel bounds the depth of the recursion; without fuel it panics.
  unfoldable pub propagate_future_dependence : ℕ → ℕ → List ℕ → Outcome (List ℕ)
  propagate_future_dependence zero node streams = panic
  propagate_future_dependence (suc fuel) node streams = do
    id ← id_of node
    propagate_to (propagate_future_dependence fuel) (g.incoming_neighbors node) (insert streams id)

  -- The loop over the nodes.
  unfoldable pub mark_all : List ℕ → List ℕ → Outcome (List ℕ)
  mark_all [] streams = ok streams
  mark_all (node ∷ rest) streams = do
    id ← id_of node
    streams' ← elim (contains streams id) [
      | true ↦ ok streams
      | false ↦
          if directly_future_dependent node
          then propagate_future_dependence (length g.node_indices) node streams
          else ok streams
    ]
    mark_all rest streams'

  unfoldable pub future_dependent_stream : Outcome (List ℕ)
  future_dependent_stream = mark_all g.node_indices []
