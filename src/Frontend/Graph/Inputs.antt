-- ===== src/Frontend/Graph/Inputs.antt =====
-- frontend/src/analysis/graph_based_analysis/input_dependencies.rs: the inputs that each stream
-- depends on.
pub mod Reaching
pub mod Search
pub mod Collecting
pub mod Required
use rtlola.Common.{
  ℕ, zero, suc, Bool, true, false, some, List, [], ◌∷◌, ◌++◌, length, Outcome, ok, panic, ◌>>=◌,
  expect,
}
use rtlola.Common.Sets.{contains, insert, lookup, put}
use rtlola.Frontend.Graph.{
  StreamNode, rt_output, rt_trigger, classic_input, get_ast_id, DependencyGraph,
}

abbrev pub RequiredInputs : Type 0
RequiredInputs = List (ℕ × List ℕ)

-- What the search changes. The top of the stack is the first of the list.
pub record SearchState : Type 0 where
  pub visited : List ℕ
  pub stack : List ℕ
  pub input_dependencies : RequiredInputs

abbrev pub with_stack : SearchState → List ℕ → SearchState
with_stack s stack = record {
  visited = s.visited;
  stack = stack;
  input_dependencies = s.input_dependencies;
}

-- `input_dependencies.get_mut(&id).unwrap().push(node_id)`
unfoldable pub push_input : RequiredInputs → ℕ → ℕ → Outcome RequiredInputs
push_input dependencies id node_id = do
  inputs ← expect (lookup dependencies id)
  ok (put dependencies id (inputs ++ (node_id ∷ [])))

module _ (g : DependencyGraph) where
  -- what is done for a stream that is visited for the first time
  unfoldable pub visit : ℕ → ℕ → SearchState → Outcome SearchState
  visit node_id dependent_stream s = do
    w ← expect (g.node_weight dependent_stream)
    dependencies ← push_input s.input_dependencies (get_ast_id w) node_id
    ok (record {
      visited = insert s.visited dependent_stream;
      stack = dependent_stream ∷ s.stack;
      input_dependencies = dependencies;
    })

  -- the loop over the neighbours
  unfoldable pub visit_all : ℕ → List ℕ → SearchState → Outcome SearchState
  visit_all node_id [] s = ok s
  visit_all node_id (dependent_stream ∷ rest) s = do
    s' ← elim (contains s.visited dependent_stream) [
      | true ↦ ok s
      | false ↦ visit node_id dependent_stream s
    ]
    visit_all node_id rest s'

  -- Fuel bounds the number of rounds; without fuel it panics.
  unfoldable pub bfs_color_reachable : ℕ → ℕ → SearchState → Outcome RequiredInputs
  bfs_color_reachable zero node_id s = elim s.stack [
    | [] ↦ ok s.input_dependencies
    | top ∷ rest ↦ panic
  ]
  bfs_color_reachable (suc fuel) node_id s = elim s.stack [
    | [] ↦ ok s.input_dependencies
    | top ∷ rest ↦ do
      s' ← visit_all node_id (g.incoming_neighbors top) (with_stack s rest)
      bfs_color_reachable fuel node_id s'
  ]

  -- the first loop over the nodes
  unfoldable pub no_inputs : List ℕ → RequiredInputs → Outcome RequiredInputs
  no_inputs [] dependencies = ok dependencies
  no_inputs (node ∷ rest) dependencies = do
    w ← expect (g.node_weight node)
    no_inputs rest (put dependencies (get_ast_id w) [])

  -- what the second loop does for one node
  unfoldable pub color_input : ℕ → StreamNode → RequiredInputs → Outcome RequiredInputs
  color_input node (classic_input node_id) dependencies = do
    dependencies' ← push_input dependencies node_id node_id
    bfs_color_reachable (length g.node_indices) node_id
        (record { visited = insert [] node; stack = node ∷ []; input_dependencies = dependencies' })
  color_input node (rt_output _ _) dependencies = ok dependencies
  color_input node (rt_trigger _ _) dependencies = ok dependencies

  unfoldable pub color_inputs : List ℕ → RequiredInputs → Outcome RequiredInputs
  color_inputs [] dependencies = ok dependencies
  color_inputs (node ∷ rest) dependencies = do
    w ← expect (g.node_weight node)
    dependencies' ← color_input node w dependencies
    color_inputs rest dependencies'

  unfoldable pub determine_required_inputs : Outcome RequiredInputs
  determine_required_inputs = do
    dependencies ← no_inputs g.node_indices []
    color_inputs g.node_indices dependencies
