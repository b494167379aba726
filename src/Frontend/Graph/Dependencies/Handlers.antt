-- ===== src/Frontend/Graph/Dependencies/Handlers.antt =====
-- `DependencyAnalyser` of frontend/src/analysis/graph_based_analysis/dependency_graph.rs: the
-- dependencies of outputs and triggers.
use rtlola.Common.{ℕ, Option, none, some, List, [], ◌∷◌, Outcome, ok, panic, ◌>>=◌, expect}
use rtlola.Common.Sets.{lookup}
use rtlola.Frontend.Ast.{Expression, expr_node, ExpressionKind, Output, Trigger, TemplateSpec}
use rtlola.Frontend.Naming.{Declaration}
use rtlola.Frontend.Graph.{Span, Location, invoke_by_name}
use rtlola.Frontend.Graph.Dependencies.{Crates, add_edges_for_expression}

module _ (c : Crates) (naming_table : List (ℕ × Declaration)) (mapping : List (ℕ × ℕ)) where
  open c use {G, add_edge}

  -- the call of `add_edges_for_expression` for a node
  abbrev pub edges_from : ℕ → Expression → Location → G → Outcome G
  edges_from current_node expr location g =
      add_edges_for_expression c naming_table mapping current_node location expr g

  unfoldable pub add_invoke_by_name : ℕ → ℕ → Span → G → Outcome G
  add_invoke_by_name current_node target_id span g = do
    accessed_node ← expect (lookup mapping target_id)
    ok (add_edge g current_node accessed_node (invoke_by_name span))

  -- a target that is an identifier: by its name, or as an expression
  unfoldable pub invoke_ident : ℕ → Expression → Span → Option Declaration → G → Outcome G
  invoke_ident current_node target span none g = panic
  invoke_ident current_node target span (some (Declaration.in_decl input)) g =
      add_invoke_by_name current_node input.id span g
  invoke_ident current_node target span (some (Declaration.out output)) g =
      add_invoke_by_name current_node output.id span g
  invoke_ident current_node target span (some _) g =
      edges_from current_node target Location.invoke g

  -- For a target that is no identifier, `by_name` stays `true`, and neither branch adds an edge.
  unfoldable pub invoke_target : ℕ → Expression → G → Outcome G
  invoke_target current_node (expr_node (ExpressionKind.ident name) id span) g =
      invoke_ident current_node (expr_node (ExpressionKind.ident name) id span) span
        (lookup naming_table id) g
  invoke_target current_node _ g = ok g

  unfoldable pub invoke_condition : ℕ → Option Expression → G → Outcome G
  invoke_condition current_node none g = ok g
  invoke_condition current_node (some cond) g = edges_from current_node cond Location.invoke g

  unfoldable pub handle_invoke : ℕ → TemplateSpec → G → Outcome G
  handle_invoke current_node template_spec g = elim template_spec.inv [
    | none ↦ ok g
    | some invoke_spec ↦ do
      g1 ← invoke_target current_node invoke_spec.target g
      invoke_condition current_node invoke_spec.condition g1
  ]

  unfoldable pub handle_extend : ℕ → TemplateSpec → G → Outcome G
  handle_extend current_node template_spec g = elim template_spec.ext [
    | none ↦ ok g
    | some extend_spec ↦ edges_from current_node extend_spec.target Location.extend g
  ]

  unfoldable pub handle_terminate : ℕ → TemplateSpec → G → Outcome G
  handle_terminate current_node template_spec g = elim template_spec.ter [
    | none ↦ ok g
    | some terminate_spec ↦ edges_from current_node terminate_spec.target Location.terminate g
  ]

  unfoldable pub handle_expression : Output → ℕ → G → Outcome G
  handle_expression output current_node g =
      edges_from current_node output.expression Location.expression g

  unfoldable pub handle_template : ℕ → Option TemplateSpec → G → Outcome G
  handle_template current_node none g = ok g
  handle_template current_node (some template_spec) g = do
    g1 ← handle_invoke current_node template_spec g
    g2 ← handle_extend current_node template_spec g1
    handle_terminate current_node template_spec g2

  unfoldable pub add_output_dependencies : List Output → G → Outcome G
  add_output_dependencies [] g = ok g
  add_output_dependencies (output ∷ outputs) g = do
    current_node ← expect (lookup mapping output.id)
    g1 ← handle_expression output current_node g
    g2 ← handle_template current_node output.template_spec g1
    add_output_dependencies outputs g2

  unfoldable pub add_trigger_dependencies : List Trigger → G → Outcome G
  add_trigger_dependencies [] g = ok g
  add_trigger_dependencies (trigger ∷ triggers) g = do
    current_node ← expect (lookup mapping trigger.id)
    g1 ← edges_from current_node trigger.expression Location.expression g
    add_trigger_dependencies triggers g1
