-- ===== src/Frontend/Graph/Dependencies/Built.antt =====
-- frontend/src/analysis/graph_based_analysis/dependency_graph.rs: `add_edges_for_expression` returns on
-- expressions that have passed the analyses before, and adds the edges that they call for.
use rtlola.Common.{ℕ, zero, suc, true, ◌&&◌, List, ◌++◌, ◌≡◌, refl, inl, Returns}
use rtlola.Frontend.Ast.{Expression, expr_node, ExpressionKind, Expressions}
use rtlola.Frontend.Naming.{Declaration}
use rtlola.Frontend.Naming.Specs.{codes}
use rtlola.Frontend.Graph.{Span, Location}
use rtlola.Frontend.Graph.Dependencies.{
  Crates, AddsEdges, parse_usize, add_edges_for_expression, add_edges_for_kind, add_edges_for_field,
  add_edges_for_nth, add_edges_for_all,
}
use rtlola.Frontend.Graph.Dependencies.Reads.{
  now, at, window, Read, reads, reads_kind, reads_field, reads_nth, reads_all, Adds,
}
use rtlola.Frontend.Graph.Dependencies.Walk.{expression-Added}
use rtlola.Frontend.Graph.Dependencies.Fitting.{
  is_shaped, is_shaped_kind, is_shaped_field, is_shaped_nth, are_shaped, Anything, AllFound,
  add_ident-Returns, below-Returns, both, by_number,
}

module _ (c : Crates) (naming_table : List (ℕ × Declaration)) (mapping : List (ℕ × ℕ))
    (current_node : ℕ) (location : Location) where
  open c use {G}

  abbrev Found : List Read → Type 0
  Found = AllFound c naming_table mapping current_node location

  mutual
    unfolding add_edges_for_expression reads is_shaped

    expression-Returns :
        (e : Expression)
        → is_shaped e ≡ true
        → Found (reads e)
        → (g : G)
        → Returns Anything
            (add_edges_for_expression c naming_table mapping current_node location e g)
    expression-Returns (expr_node kind id span) h all g = kind-Returns kind id span h all g

    kind-Returns :
        (kind : ExpressionKind) (id : ℕ) (span : Span)
        → is_shaped_kind kind ≡ true
        → Found (reads_kind kind id span)
        → (g : G)
        → Returns Anything
            (add_edges_for_kind c naming_table mapping current_node location kind id span g)
    kind-Returns (ExpressionKind.tuple es) id span h all g = all-Returns es h all g
    kind-Returns (ExpressionKind.function _ _ es) id span h all g = all-Returns es h all g
    kind-Returns ExpressionKind.missing_expression id span h all g = (g, refl, tt)
    kind-Returns (ExpressionKind.lit _) id span h all g = (g, refl, tt)
    kind-Returns (ExpressionKind.default a b) id span h all g =
        both c naming_table mapping current_node location (reads a) (reads b) (is_shaped a)
          (is_shaped b) _ _ h all (λ p q. expression-Returns a p q g) (expression-Returns b)
    kind-Returns (ExpressionKind.parenthesized_expression _ e _) id span h all g =
        expression-Returns e h all g
    kind-Returns (ExpressionKind.unary _ e) id span h all g = expression-Returns e h all g
    kind-Returns (ExpressionKind.stream_access e _) id span h all g = expression-Returns e h all g
    kind-Returns (ExpressionKind.ite x a b) id span h all g =
        both c naming_table mapping current_node location (reads x) (reads a ++ reads b)
          (is_shaped x) (is_shaped a && is_shaped b) _ _ h all (λ p q. expression-Returns x p q g)
          λ p q k.
            both c naming_table mapping current_node location (reads a) (reads b) (is_shaped a)
              (is_shaped b) _ _ p q (λ p q. expression-Returns a p q k) (expression-Returns b)
    kind-Returns (ExpressionKind.binary _ a b) id span h all g =
        both c naming_table mapping current_node location (reads a) (reads b) (is_shaped a)
          (is_shaped b) _ _ h all (λ p q. expression-Returns a p q g) (expression-Returns b)
    kind-Returns (ExpressionKind.ident x) id span h all g =
        add_ident-Returns c naming_table mapping current_node location
          (record { id = id; span = span; manner = now }) g (all _ (inl refl))
    kind-Returns (ExpressionKind.offset e o) id span h all g =
        below-Returns c naming_table mapping current_node location e (at o) g (λ x. cc) h all
    kind-Returns (ExpressionKind.sliding_window_aggregation e _ _ _) id span h all g =
        below-Returns c naming_table mapping current_node location e window g (λ x. cc) h all
    kind-Returns (ExpressionKind.field e ident) id span h all g =
        by_number c naming_table mapping current_node location (parse_usize (codes ident.name))
          (reads_field e) (is_shaped_field e)
          (add_edges_for_field c naming_table mapping current_node location e) g h all
          (λ n p q. field-Returns e n p q g)
    kind-Returns (ExpressionKind.method e _ _ es) id span h all g =
        both c naming_table mapping current_node location (reads e) (reads_all es) (is_shaped e)
          (are_shaped es) _ _ h all (λ p q. expression-Returns e p q g) (all-Returns es)

    field-Returns :
        (e : Expression) (num : ℕ)
        → is_shaped_field e num ≡ true
        → Found (reads_field e num)
        → (g : G)
        → Returns Anything
            (add_edges_for_field c naming_table mapping current_node location e num g)
    field-Returns (expr_node (ExpressionKind.tuple es) id span) num h all g =
        nth-Returns es num h all g
    field-Returns (expr_node kind id span) num h all g = kind-Returns kind id span h all g

    nth-Returns :
        (es : Expressions) (num : ℕ)
        → is_shaped_nth es num ≡ true
        → Found (reads_nth es num)
        → (g : G)
        → Returns Anything (add_edges_for_nth c naming_table mapping current_node location es num g)
    nth-Returns Expressions.nil num h all g = cc
    nth-Returns (Expressions.cons e es) zero h all g = expression-Returns e h all g
    nth-Returns (Expressions.cons e es) (suc num) h all g = nth-Returns es num h all g

    all-Returns :
        (es : Expressions)
        → are_shaped es ≡ true
        → Found (reads_all es)
        → (g : G)
        → Returns Anything (add_edges_for_all c naming_table mapping current_node location es g)
    all-Returns Expressions.nil h all g = (g, refl, tt)
    all-Returns (Expressions.cons e es) h all g =
        both c naming_table mapping current_node location (reads e) (reads_all es) (is_shaped e)
          (are_shaped es) _ _ h all (λ p q. expression-Returns e p q g) (all-Returns es)

-- Let adding an edge add this edge and nothing else. Let offsets and windows of an expression stand on
-- identifiers, and fields of tuples be components of them. Let every name that is read stand for a
-- stream with a node, or, where its present value is read, for a constant, a parameter, a function
-- or a type; and let the times of offsets be computed without overflow. Then the analysis of the
-- expression returns, and the edges that it adds are exactly those from the current node to the
-- streams that are read, each with the location, the offset and the place of the access.
pub add_edges_for_expression-Adds :
    (c : Crates) (naming_table : List (ℕ × Declaration)) (mapping : List (ℕ × ℕ)) (current_node : ℕ)
    (location : Location) (e : Expression) (g : c.G)
    → AddsEdges c
    → is_shaped e ≡ true
    → AllFound c naming_table mapping current_node location (reads e)
    → Returns
        (Adds c naming_table mapping current_node location (reads e) g)
        (add_edges_for_expression c naming_table mapping current_node location e g)
add_edges_for_expression-Adds c naming_table mapping current_node location e g law h all =
    let (g', eq, _) = expression-Returns c naming_table mapping current_node location e h all g in
    (g', eq, expression-Added c law naming_table mapping current_node location e g g' eq)
