-- ===== src/Frontend/Graph/Dependencies.antt =====
-- `DependencyAnalyser` of frontend/src/analysis/graph_based_analysis/dependency_graph.rs: the edges of
-- the dependency graph; and `to_uom_time` of frontend/src/ast/conversion.rs.
pub mod Reads
pub mod Handlers
pub mod Edges
pub mod Walk
pub mod Fitting
pub mod Built
pub mod Triggers
use Prim.Native.Char.{code}
use Prim.Native.String.{String as Text}
use rtlola.Common.{
  ℕ, zero, suc, ◌+◌, ◌-◌, ◌*◌, ◌^◌, ltb, leb, ◌==◌, ◌&&◌, Bool, true, false, if◌then◌else◌, Option,
  none, some, List, [], ◌∷◌, String, Outcome, ok, panic, ◌>>=◌, expect, ◌≡◌, ◌⊎◌, ◌↔◌,
}
use rtlola.Common.Int.{ℤ, pos, ltb_ℤ, abs}
use rtlola.Common.Sets.{◌∈◌, lookup}
use rtlola.Frontend.Ast.{
  Ident, Expression, expr_node, ExpressionKind, Expressions, Offset as AstOffset, TimeUnit, Output,
  Trigger, TemplateSpec, InvokeSpec, ExtendSpec, TerminateSpec,
}
use rtlola.Frontend.Naming.{Declaration}
use rtlola.Frontend.Naming.Specs.{codes}
use rtlola.Frontend.Graph.{
  Span, Offset, TimeOffset, Location, StreamDependency, access, invoke_by_name, EdgeReference,
}

-- The part of the crate petgraph that adds edges, and the arithmetic of the crate num.
pub record Crates : Type 1 where
  pub G : Type 0
  pub add_edge : G → ℕ → ℕ → StreamDependency → G
  pub edges : G → List (EdgeReference StreamDependency)
  pub times : ℤ × ℕ → ℤ × ℕ → Outcome (ℤ × ℕ)

abbrev pub edge_between : ℕ → ℕ → StreamDependency → EdgeReference StreamDependency
edge_between source target weight = record { source = source; target = target; weight = weight }

-- What petgraph documents of `add_edge`: it adds this edge and nothing else.
abbrev pub AddsEdges : Crates → Type 0
AddsEdges c =
    (g : c.G) (a b : ℕ) (w : StreamDependency) (e : EdgeReference StreamDependency)
    → (e ∈ c.edges (c.add_edge g a b w)) ↔ ((e ∈ c.edges g) ⊎ (e ≡ edge_between a b w))

-- `TimeUnit::to_uom_time`, in seconds
unfoldable pub seconds_of : TimeUnit → ℤ × ℕ
seconds_of TimeUnit.nanosecond = (pos 1, 10 ^ 9)
seconds_of TimeUnit.microsecond = (pos 1, 10 ^ 6)
seconds_of TimeUnit.millisecond = (pos 1, 10 ^ 3)
seconds_of TimeUnit.second = (pos 1, 1)
seconds_of TimeUnit.minute = (pos 60, 1)
seconds_of TimeUnit.hour = (pos (60 * 60), 1)
seconds_of TimeUnit.day = (pos (60 * 60 * 24), 1)
seconds_of TimeUnit.week = (pos (60 * 60 * 24 * 7), 1)
seconds_of TimeUnit.year = (pos (60 * 60 * 24 * 365), 1)

-- `str::parse::<usize>`, for 64 bits
unfoldable pub digits : List ℕ → ℕ → Option ℕ
digits [] n = some n
digits (c ∷ cs) n =
    let rest = digits cs (n * 10 + (c - b'0')) in
    if (leb b'0' c && leb c b'9') && ltb (n * 10 + (c - b'0')) (2 ^ 64) then rest else none

unfoldable pub parse_usize : List ℕ → Option ℕ
parse_usize [] = none
parse_usize (c ∷ []) = digits (c ∷ []) 0
parse_usize (c ∷ d ∷ cs) = if c == b'+' then digits (d ∷ cs) 0 else digits (c ∷ d ∷ cs) 0

-- `&self.naming_table[..]` where an input or an output is expected
unfoldable pub stream_id_of : Option Declaration → Outcome ℕ
stream_id_of (some (Declaration.out output)) = ok output.id
stream_id_of (some (Declaration.in_decl input)) = ok input.id
stream_id_of _ = panic

-- `Offset::to_uom_time` and `translate_offset`
unfoldable pub translate_offset : Crates → AstOffset → Outcome Offset
translate_offset c (AstOffset.discrete val) = ok (Offset.discrete val)
translate_offset c (AstOffset.real_time val unit) = do
  time ← c.times val (seconds_of unit)
  if ltb_ℤ val.0 (pos 0)
      then ok (Offset.time (TimeOffset.up_to_now (pos (abs time.0), time.1)))
      else ok (Offset.time (TimeOffset.future time))

module _ (c : Crates) (naming_table : List (ℕ × Declaration)) (mapping : List (ℕ × ℕ))
    (current_node : ℕ) where
  open c use {G, add_edge}

  unfoldable pub add_access : Location → Offset → Span → ℕ → G → Outcome G
  add_access location offset span stream_id g = do
    target ← expect (lookup mapping stream_id)
    ok (add_edge g current_node target (access location offset span))

  -- the case of an identifier
  unfoldable pub add_ident : Location → Span → Option Declaration → G → Outcome G
  add_ident location span none g = panic
  add_ident location span (some (Declaration.type_decl _)) g = ok g
  add_ident location span (some (Declaration.func _)) g = ok g
  add_ident location span (some (Declaration.param _)) g = ok g
  add_ident location span (some (Declaration.const _)) g = ok g
  add_ident location span (some (Declaration.in_decl input)) g =
      add_access location (Offset.discrete (pos 0)) span input.id g
  add_ident location span (some (Declaration.out output)) g =
      add_access location (Offset.discrete (pos 0)) span output.id g
  add_ident location span (some (Declaration.param_out _)) g = panic

  -- the cases of an offset and of a sliding window, which stand on an identifier
  unfoldable pub add_direct : Location → Expression → Outcome Offset → G → Outcome G
  add_direct location (expr_node (ExpressionKind.ident _) id span) translated g = do
    stream_id ← stream_id_of (lookup naming_table id)
    offset ← translated
    add_access location offset span stream_id g
  add_direct location _ translated g = panic

  module _ (location : Location) where
    unfoldable mutual
      pub add_edges_for_expression : Expression → G → Outcome G
      add_edges_for_expression (expr_node kind id span) g = add_edges_for_kind kind id span g

      pub add_edges_for_kind : ExpressionKind → ℕ → Span → G → Outcome G
      add_edges_for_kind (ExpressionKind.tuple elements) id span g = add_edges_for_all elements g
      add_edges_for_kind (ExpressionKind.function _ _ elements) id span g =
          add_edges_for_all elements g
      add_edges_for_kind ExpressionKind.missing_expression id span g = ok g
      add_edges_for_kind (ExpressionKind.lit _) id span g = ok g
      add_edges_for_kind (ExpressionKind.default stream default) id span g = do
        g1 ← add_edges_for_expression stream g
        add_edges_for_expression default g1
      add_edges_for_kind (ExpressionKind.parenthesized_expression _ expr _) id span g =
          add_edges_for_expression expr g
      add_edges_for_kind (ExpressionKind.unary _ expr) id span g = add_edges_for_expression expr g
      add_edges_for_kind (ExpressionKind.stream_access expr _) id span g =
          add_edges_for_expression expr g
      add_edges_for_kind (ExpressionKind.ite cond if_case else_case) id span g = do
        g1 ← add_edges_for_expression cond g
        g2 ← add_edges_for_expression if_case g1
        add_edges_for_expression else_case g2
      add_edges_for_kind (ExpressionKind.binary _ left right) id span g = do
        g1 ← add_edges_for_expression left g
        add_edges_for_expression right g1
      add_edges_for_kind (ExpressionKind.ident _) id span g =
          add_ident location span (lookup naming_table id) g
      add_edges_for_kind (ExpressionKind.offset expr offset) id span g =
          add_direct location expr (translate_offset c offset) g
      add_edges_for_kind (ExpressionKind.sliding_window_aggregation expr _ _ _) id span g =
          add_direct location expr (ok Offset.sliding_window) g
      add_edges_for_kind (ExpressionKind.field expr ident) id span g = do
        num ← expect (parse_usize (codes ident.name))
        add_edges_for_field expr num g
      add_edges_for_kind (ExpressionKind.method inner _ _ params) id span g = do
        g1 ← add_edges_for_expression inner g
        add_edges_for_all params g1

      -- `get_expr_from_tuple`, and the recursive call on what it gives
      pub add_edges_for_field : Expression → ℕ → G → Outcome G
      add_edges_for_field (expr_node (ExpressionKind.tuple entries) id span) num g =
          add_edges_for_nth entries num g
      add_edges_for_field (expr_node kind id span) num g = add_edges_for_kind kind id span g

      pub add_edges_for_nth : Expressions → ℕ → G → Outcome G
      add_edges_for_nth Expressions.nil num g = panic
      add_edges_for_nth (Expressions.cons expr exprs) zero g = add_edges_for_expression expr g
      add_edges_for_nth (Expressions.cons expr exprs) (suc num) g = add_edges_for_nth exprs num g

      pub add_edges_for_all : Expressions → G → Outcome G
      add_edges_for_all Expressions.nil g = ok g
      add_edges_for_all (Expressions.cons expr exprs) g = do
        g1 ← add_edges_for_expression expr g
        add_edges_for_all exprs g1
