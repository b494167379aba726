-- ===== src/Tests/Dependencies.antt =====
-- The edges of an expression with an offset and a constant.
use rtlola.Common.{ℕ, true, none, List, [], ◌∷◌, ◌≡◌, refl, inl, inr, ok, Returns}
use rtlola.Common.Int.{negsuc}
use rtlola.Frontend.Ast.{
  Expression, expr_node, ExpressionKind, Offset, BinOp, LitKind, Trigger, Constant,
}
use rtlola.Frontend.Naming.{Declaration}
use rtlola.Frontend.Graph.{Location, StreamDependency, EdgeReference, access}
use rtlola.Frontend.Graph.{Offset as GraphOffset}
use rtlola.Frontend.Graph.Dependencies.{
  Crates, AddsEdges, edge_between, add_edges_for_expression, add_ident, add_access, add_direct,
  stream_id_of, translate_offset,
}
use rtlola.Frontend.Graph.Dependencies.Reads.{reads, Adds}
use rtlola.Frontend.Graph.Dependencies.Fitting.{is_shaped, AllFound}
use rtlola.Frontend.Graph.Dependencies.Built.{add_edges_for_expression-Adds}
use rtlola.Frontend.Graph.Dependencies.Handlers.{add_trigger_dependencies}
use rtlola.Frontend.Graph.Dependencies.Triggers.{
  IsReady, AddsTriggers, add_trigger_dependencies-Adds,
}
use rtlola.Common.Sets.{◌∈◌}
use rtlola.Tests.Names.{here, named, called, input_a}

-- A graph is the list of its edges.
abbrev lists : Crates
lists = record {
  G = List (EdgeReference StreamDependency);
  add_edge = λ g a b w. edge_between a b w ∷ g;
  edges = λ g. g;
  times = λ x y. ok x;
}

lists-AddsEdges : AddsEdges lists
lists-AddsEdges g a b w e = (
  (λ h. elim h [ inl new ↦ inr new | inr old ↦ inl old ]),
  (λ h. elim h [ inl old ↦ inr old | inr new ↦ inl new ]),
)

abbrev const_k : Constant
const_k = record {
  name = named "k";
  ty = none;
  literal = record { kind = LitKind.bool true; id = 50; span = here };
  id = 51;
  span = here;
}

-- `a[-1] + k`
abbrev past_sum : Expression
past_sum =
    expr_node
      (ExpressionKind.binary BinOp.add
        (expr_node (ExpressionKind.offset (called "a" 5) (Offset.discrete (negsuc 0))) 6 here)
        (called "k" 7))
      8 here

abbrev names_k : List (ℕ × Declaration)
names_k = (5, Declaration.in_decl input_a) ∷ ((7, Declaration.const const_k) ∷ [])

-- The input has the identifier 2 and the node 0.
abbrev nodes_k : List (ℕ × ℕ)
nodes_k = (2, 0) ∷ []

one_edge :
    add_edges_for_expression lists names_k nodes_k 1 Location.expression past_sum []
    ≡ ok (edge_between 1 0 (access Location.expression (GraphOffset.discrete (negsuc 0)) here) ∷ [])
unfolding add_edges_for_expression add_ident add_access add_direct stream_id_of translate_offset
one_edge = refl

shaped : is_shaped past_sum ≡ true
unfolding is_shaped
shaped = refl

past_sum-AllFound : AllFound lists names_k nodes_k 1 Location.expression (reads past_sum)
unfolding reads translate_offset
past_sum-AllFound r (inl e) =
    rw e (inl (2, 0, GraphOffset.discrete (negsuc 0), inl (input_a, refl, refl), refl, refl))
past_sum-AllFound r (inr (inl e)) = rw e (inr (refl, (Declaration.const const_k, refl, refl)))
past_sum-AllFound r (inr (inr never)) = absurd never

add_edges_for_expression-Adds_example :
    Returns
      (Adds lists names_k nodes_k 1 Location.expression (reads past_sum) [])
      (add_edges_for_expression lists names_k nodes_k 1 Location.expression past_sum [])
add_edges_for_expression-Adds_example =
    add_edges_for_expression-Adds lists names_k nodes_k 1 Location.expression past_sum []
      lists-AddsEdges shaped past_sum-AllFound

-- `trigger a[-1] + k`, at the node 1
abbrev trigger_k : Trigger
trigger_k = record { name = none; expression = past_sum; message = none; id = 9; span = here }

abbrev nodes_t : List (ℕ × ℕ)
nodes_t = (9, 1) ∷ nodes_k

reads_found : AllFound lists names_k nodes_t 1 Location.expression (reads past_sum)
unfolding reads translate_offset
reads_found r (inl e) =
    rw e (inl (2, 0, GraphOffset.discrete (negsuc 0), inl (input_a, refl, refl), refl, refl))
reads_found r (inr (inl e)) = rw e (inr (refl, (Declaration.const const_k, refl, refl)))
reads_found r (inr (inr never)) = absurd never

trigger_k-IsReady : (t : Trigger) → t ∈ (trigger_k ∷ []) → IsReady lists names_k nodes_t t
trigger_k-IsReady t (inl e) = rw e (1, refl, shaped, reads_found)
trigger_k-IsReady t (inr never) = absurd never

add_trigger_dependencies-Adds_example :
    Returns
      (AddsTriggers lists names_k nodes_t (trigger_k ∷ []) [])
      (add_trigger_dependencies lists names_k nodes_t (trigger_k ∷ []) [])
add_trigger_dependencies-Adds_example =
    add_trigger_dependencies-Adds lists names_k nodes_t (trigger_k ∷ []) [] lists-AddsEdges
      trigger_k-IsReady
