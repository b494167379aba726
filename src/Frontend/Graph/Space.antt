-- ===== src/Frontend/Graph/Space.antt =====
-- frontend/src/analysis/graph_based_analysis/space_requirements.rs: how many values of each stream
-- are stored. The argument `debug` tells a build with overflow checks from one without.
pub mod Largest
pub mod Sizes
use rtlola.Common.{
  ℕ, suc, ◌+◌, ◌-◌, ◌^◌, ◌%◌, ◌==◌, ltb, Bool, true, false, ◌&&◌, not, if◌then◌else◌, max, some,
  none, List, [], ◌∷◌, map, Outcome, ok, panic, ◌>>=◌, expect,
}
use rtlola.Common.Int.{ℤ, pos, negsuc, abs, ltb_ℤ}
use rtlola.Common.Sets.{contains, put}
use rtlola.Frontend.Graph.{
  StreamNode, classic_input, Location, expression, Offset, StreamDependency, access, invoke_by_name,
  StorageRequirement, get_ast_id, EdgeReference, DependencyGraph,
}

-- `1 + (*offset).abs() as u16` for an offset of type `i32`
unfoldable pub past_storage : Bool → ℤ → Outcome ℕ
past_storage debug offset =
    let stored = abs offset % 2 ^ 16 in
    if debug && abs offset == 2 ^ 31
    then panic
    else if debug && stored == 2 ^ 16 - 1
    then panic
    else ok ((1 + stored) % 2 ^ 16)

abbrev pub is_expression : Location → Bool
is_expression expression = true
is_expression _ = false

-- What one edge into a stream does to the number of values to store and to `store_all_inputs`.
unfoldable pub storage_step : Bool → Bool → ℕ × Bool → StreamDependency → Outcome (ℕ × Bool)
storage_step debug future_dependent (required, all_inputs)
      (access location (Offset.discrete offset) _) =
    if ltb_ℤ (pos 0) offset
    then ok (
      max required 1,
      (if (future_dependent && not all_inputs) && not (is_expression location)
          then true
          else all_inputs),
    )
    else do p ← past_storage debug offset; ok (max required p, all_inputs)
storage_step debug future_dependent (required, all_inputs) (access _ _ _) =
    ok (required, all_inputs)
storage_step debug future_dependent (required, all_inputs) (invoke_by_name _) =
    ok (max required 1, all_inputs)

unfoldable pub storage_for :
    Bool → Bool → ℕ × Bool → List (EdgeReference StreamDependency) → Outcome (ℕ × Bool)
storage_for debug future_dependent state [] = ok state
storage_for debug future_dependent state (edge ∷ edges) = do
  state' ← storage_step debug future_dependent state edge.weight
  storage_for debug future_dependent state' edges

abbrev pub Requirements : Type 0
Requirements = List (ℕ × StorageRequirement)

abbrev pub sized : Bool → ℕ → StorageRequirement
sized future_dependent k =
    if future_dependent then StorageRequirement.future_ref k else StorageRequirement.finite k

unfoldable pub store_input : StreamNode → Requirements → Requirements
store_input (classic_input id) requirements = put requirements id StorageRequirement.unbounded
store_input _ requirements = requirements

module _ (debug : Bool) (g : DependencyGraph) (future_dependent_streams : List ℕ) where
  -- the loop over the nodes
  unfoldable pub buffer_sizes : List ℕ → Requirements → Bool → Outcome (Requirements × Bool)
  buffer_sizes [] requirements all_inputs = ok (requirements, all_inputs)
  buffer_sizes (node ∷ rest) requirements all_inputs = do
    w ← expect (g.node_weight node)
    let id = get_ast_id w
    let future_dependent = contains future_dependent_streams id
    (required, all_inputs') ← storage_for debug future_dependent (1, all_inputs) (g.incoming node)
    buffer_sizes rest (put requirements id (sized future_dependent required)) all_inputs'

  -- the second loop, which keeps all values of the inputs
  unfoldable pub store_inputs : List ℕ → Requirements → Outcome Requirements
  store_inputs [] requirements = ok requirements
  store_inputs (node ∷ rest) requirements = do
    w ← expect (g.node_weight node)
    store_inputs rest (store_input w requirements)

  unfoldable pub determine_buffer_size : Outcome Requirements
  determine_buffer_size = do
    (requirements, all_inputs) ← buffer_sizes g.node_indices [] false
    if all_inputs then store_inputs g.node_indices requirements else ok requirements
