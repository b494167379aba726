-- ===== src/Frontend/Graph/Dependencies/Walk.antt =====
-- frontend/src/analysis/graph_based_analysis/dependency_graph.rs: the analysis of an expression adds
-- the edges that its accesses to streams call for.
use rtlola.Common.{ℕ, zero, suc, List, [], ◌++◌, Outcome, refl, Post, Post-ok}
use rtlola.Frontend.Ast.{Expression, expr_node, ExpressionKind, Expressions}
use rtlola.Frontend.Naming.{Declaration}
use rtlola.Frontend.Naming.Specs.{codes}
use rtlola.Frontend.Graph.{Span, Location}
use rtlola.Frontend.Graph.Dependencies.{
  Crates, AddsEdges, parse_usize, add_edges_for_expression, add_edges_for_kind, add_edges_for_field,
  add_edges_for_nth, add_edges_for_all,
}
use rtlola.Frontend.Graph.Dependencies.Reads.{
  now, at, window, Read, reads, reads_kind, reads_field, reads_nth, reads_all, Adds,
}
use rtlola.Frontend.Graph.Dependencies.Edges.{
  Added-nil, chain, add_below-Added, add_ident-Added, by_number,
}

module _ (c : Crates) (law : AddsEdges c) (naming_table : List (ℕ × Declaration))
    (mapping : List (ℕ × ℕ)) (current_node : ℕ) (location : Location) where
  open c use {G}

  abbrev Added : List Read → G → G → Type 0
  Added rs g g' = Adds c naming_table mapping current_node location rs g g'

  abbrev go : Expression → G → Outcome G
  go = add_edges_for_expression c naming_table mapping current_node location

  abbrev go_all : Expressions → G → Outcome G
  go_all = add_edges_for_all c naming_table mapping current_node location

  mutual
    unfolding add_edges_for_expression reads

    pub expression-Added : (e : Expression) (g : G) → Post (Added (reads e) g) (go e g)
    expression-Added (expr_node kind id span) g = kind-Added kind id span g

    kind-Added :
        (kind : ExpressionKind) (id : ℕ) (span : Span) (g : G)
        → Post
            (Added (reads_kind kind id span) g)
            (add_edges_for_kind c naming_table mapping current_node location kind id span g)
    kind-Added (ExpressionKind.tuple es) id span g = all-Added es g
    kind-Added (ExpressionKind.function _ _ es) id span g = all-Added es g
    kind-Added ExpressionKind.missing_expression id span g =
        Post-ok (Added [] g) g (Added-nil c law naming_table mapping current_node location g)
    kind-Added (ExpressionKind.lit _) id span g =
        Post-ok (Added [] g) g (Added-nil c law naming_table mapping current_node location g)
    kind-Added (ExpressionKind.default a b) id span g =
        chain c law naming_table mapping current_node location (reads a) (reads b) g _ _
          (expression-Added a g) (expression-Added b)
    kind-Added (ExpressionKind.parenthesized_expression _ e _) id span g = expression-Added e g
    kind-Added (ExpressionKind.unary _ e) id span g = expression-Added e g
    kind-Added (ExpressionKind.stream_access e _) id span g = expression-Added e g
    kind-Added (ExpressionKind.ite x a b) id span g =
        chain c law naming_table mapping current_node location (reads x) (reads a ++ reads b) g _ _
          (expression-Added x g)
          λ h.
            chain c law naming_table mapping current_node location (reads a) (reads b) h _ _
              (expression-Added a h) (expression-Added b)
    kind-Added (ExpressionKind.binary _ a b) id span g =
        chain c law naming_table mapping current_node location (reads a) (reads b) g _ _
          (expression-Added a g) (expression-Added b)
    kind-Added (ExpressionKind.ident x) id span g =
        add_ident-Added c law naming_table mapping current_node location
          (record { id = id; span = span; manner = now }) _ g refl refl
    kind-Added (ExpressionKind.offset e o) id span g =
        add_below-Added c law naming_table mapping current_node location e (at o) g
    kind-Added (ExpressionKind.sliding_window_aggregation e _ _ _) id span g =
        add_below-Added c law naming_table mapping current_node location e window g
    kind-Added (ExpressionKind.field e ident) id span g =
        by_number c law naming_table mapping current_node location (parse_usize (codes ident.name))
          (reads_field e) (add_edges_for_field c naming_table mapping current_node location e) g
          (λ num. field-Added e num g)
    kind-Added (ExpressionKind.method e _ _ es) id span g =
        chain c law naming_table mapping current_node location (reads e) (reads_all es) g _ _
          (expression-Added e g) (all-Added es)

    field-Added :
        (e : Expression) (num : ℕ) (g : G)
        → Post
            (Added (reads_field e num) g)
            (add_edges_for_field c naming_table mapping current_node location e num g)
    field-Added (expr_node (ExpressionKind.tuple es) id span) num g = nth-Added es num g
    field-Added (expr_node kind id span) num g = kind-Added kind id span g

    nth-Added :
        (es : Expressions) (num : ℕ) (g : G)
        → Post
            (Added (reads_nth es num) g)
            (add_edges_for_nth c naming_table mapping current_node location es num g)
    nth-Added Expressions.nil num g = λ g' x. cc
    nth-Added (Expressions.cons e es) zero g = expression-Added e g
    nth-Added (Expressions.cons e es) (suc num) g = nth-Added es num g

    all-Added : (es : Expressions) (g : G) → Post (Added (reads_all es) g) (go_all es g)
    all-Added Expressions.nil g =
        Post-ok (Added [] g) g (Added-nil c law naming_table mapping current_node location g)
    all-Added (Expressions.cons e es) g =
        chain c law naming_table mapping current_node location (reads e) (reads_all es) g _ _
          (expression-Added e g) (all-Added es)
