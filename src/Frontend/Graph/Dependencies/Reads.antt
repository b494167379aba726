-- ===== src/Frontend/Graph/Dependencies/Reads.antt =====
-- frontend/src/analysis/graph_based_analysis/dependency_graph.rs: the accesses to streams that stand
-- in an expression, and the edges that they call for.
use rtlola.Common.{
  ℕ, zero, suc, Option, none, some, List, [], ◌∷◌, ◌++◌, Outcome, ok, ◌≡◌, ◌⊎◌, ◌↔◌,
}
use rtlola.Common.Int.{pos}
use rtlola.Common.Sets.{◌∈◌, lookup}
use rtlola.Frontend.Ast.{
  Expression, expr_node, ExpressionKind, Expressions, Offset as AstOffset, Input, Output,
}
use rtlola.Frontend.Naming.{Declaration}
use rtlola.Frontend.Naming.Specs.{codes}
use rtlola.Frontend.Graph.{Span, Offset, Location, access, StreamDependency, EdgeReference}
use rtlola.Frontend.Graph.Dependencies.{Crates, edge_between, parse_usize, translate_offset}

-- How a name is read: its value now, at an offset, or through a window.
pub data Manner : Type 0 where
  now : Manner
  at : AstOffset → Manner
  window : Manner

-- An identifier in an expression, with its node and its place.
pub record Read : Type 0 where
  pub id : ℕ
  pub span : Span
  pub manner : Manner

-- an identifier below an offset or a window
abbrev pub direct : Expression → Manner → List Read
direct (expr_node (ExpressionKind.ident _) id span) manner =
    record { id = id; span = span; manner = manner } ∷ []
direct _ manner = []

-- Of a tuple of which a field is taken, only this component is read; the duration of a window is
-- a constant.
unfoldable mutual
  pub reads : Expression → List Read
  reads (expr_node kind id span) = reads_kind kind id span

  pub reads_kind : ExpressionKind → ℕ → Span → List Read
  reads_kind (ExpressionKind.tuple es) id span = reads_all es
  reads_kind (ExpressionKind.function _ _ es) id span = reads_all es
  reads_kind ExpressionKind.missing_expression id span = []
  reads_kind (ExpressionKind.lit _) id span = []
  reads_kind (ExpressionKind.default a b) id span = reads a ++ reads b
  reads_kind (ExpressionKind.parenthesized_expression _ e _) id span = reads e
  reads_kind (ExpressionKind.unary _ e) id span = reads e
  reads_kind (ExpressionKind.stream_access e _) id span = reads e
  reads_kind (ExpressionKind.ite c a b) id span = reads c ++ (reads a ++ reads b)
  reads_kind (ExpressionKind.binary _ a b) id span = reads a ++ reads b
  reads_kind (ExpressionKind.ident _) id span = record { id = id; span = span; manner = now } ∷ []
  reads_kind (ExpressionKind.offset e o) id span = direct e (at o)
  reads_kind (ExpressionKind.sliding_window_aggregation e _ _ _) id span = direct e window
  reads_kind (ExpressionKind.field e ident) id span = elim (parse_usize (codes ident.name)) [
    | none ↦ []
    | some num ↦ reads_field e num
  ]
  reads_kind (ExpressionKind.method e _ _ es) id span = reads e ++ reads_all es

  pub reads_field : Expression → ℕ → List Read
  reads_field (expr_node (ExpressionKind.tuple es) id span) num = reads_nth es num
  reads_field (expr_node kind id span) num = reads_kind kind id span

  pub reads_nth : Expressions → ℕ → List Read
  reads_nth Expressions.nil num = []
  reads_nth (Expressions.cons e es) zero = reads e
  reads_nth (Expressions.cons e es) (suc num) = reads_nth es num

  pub reads_all : Expressions → List Read
  reads_all Expressions.nil = []
  reads_all (Expressions.cons e es) = reads e ++ reads_all es

-- The declaration is a stream with this identifier.
abbrev pub IsStream : Option Declaration → ℕ → Type 0
IsStream d stream_id =
    ((input : Input) × (d ≡ some (Declaration.in_decl input)) × (input.id ≡ stream_id))
    ⊎ ((output : Output) × (d ≡ some (Declaration.out output)) × (output.id ≡ stream_id))

-- the offset of an edge for a manner of reading
abbrev pub offset_of : Crates → Manner → Outcome Offset
offset_of c now = ok (Offset.discrete (pos 0))
offset_of c (at o) = translate_offset c o
offset_of c window = ok Offset.sliding_window

module _ (c : Crates) (naming_table : List (ℕ × Declaration)) (mapping : List (ℕ × ℕ))
    (current_node : ℕ) (location : Location) where
  -- An identifier that stands for a stream calls for an edge to the node of the stream.
  abbrev pub CallsFor : Read → EdgeReference StreamDependency → Type 0
  CallsFor r e =
      (stream_id : ℕ) × (target : ℕ) × (offset : Offset) × IsStream (lookup naming_table r.id)
        stream_id
      × (lookup mapping stream_id ≡ some target)
      × (offset_of c r.manner ≡ ok offset)
      × (e ≡ edge_between current_node target (access location offset r.span))

  -- The edges of `g'` are those of `g` and those that are called for.
  abbrev pub Adds : List Read → c.G → c.G → Type 0
  Adds rs g g' =
      (e : EdgeReference StreamDependency)
      → (e ∈ c.edges g') ↔ ((e ∈ c.edges g) ⊎ ((r : Read) × (r ∈ rs) × CallsFor r e))
