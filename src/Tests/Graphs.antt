-- ===== src/Tests/Graphs.antt =====
-- Graphs to run examples on: a dependency graph from the lists of its nodes and edges, and graphs of
-- steps as matrices, with what petgraph documents of them.
use rtlola.Common.{
  ℕ, zero, suc, ◌+◌, ◌==◌, ==_iff, Bool, true, if◌then◌else◌, some, List, [], ◌∷◌, map, length,
  get_elem?, get_elem?-lt_length, ◌≡◌, refl, sym, ap, ◌∙◌, ◌↔◌, ◌<◌, ◌≤◌, inl, inr, arith,
  Bool-cases,
}
use rtlola.Common.Sets.{◌∈◌, IsDistinct}
use rtlola.Frontend.Graph.{StreamNode, StreamDependency, EdgeReference, DependencyGraph, IsGraph}
use rtlola.Frontend.Graph.Petgraph.{range}

abbrev Edges : Type 0
Edges = List (EdgeReference StreamDependency)

abbrev pub select_edges : (EdgeReference StreamDependency → Bool) → Edges → Edges
select_edges p [] = []
select_edges p (e ∷ es) = if p e then e ∷ select_edges p es else select_edges p es

mem-select_edges :
    (p : EdgeReference StreamDependency → Bool) (es : Edges) (e : EdgeReference StreamDependency)
    → (e ∈ select_edges p es) ↔ ((e ∈ es) × (p e ≡ true))
mem-select_edges p [] e = (λ m. absurd m, λ m. m.0)
mem-select_edges p (x ∷ es) e = elim (Bool-cases (p x)) [
  | inl holds ↦ rw holds (
    λ m. elim m [
      | inl here ↦ (inl here, ap p here ∙ holds)
      | inr there ↦ let (m', h) = (mem-select_edges p es e).0 there in (inr m', h)
    ],
    λ (m, h). elim m [
      | inl here ↦ inl here
      | inr there ↦ inr ((mem-select_edges p es e).1 (there, h))
    ],
  )
  | inr fails ↦ rw fails (
    λ m. let (m', h) = (mem-select_edges p es e).0 m in (inr m', h),
    λ (m, h). elim m [
      | inl here ↦ let clash = sym h ∙ ap p here ∙ fails in cc
      | inr there ↦ (mem-select_edges p es e).1 (there, h)
    ],
  )
]

mem-map_source :
    (es : Edges) (m : ℕ)
    → (m ∈ map (λ e. e.source) es)
      ↔ ((e : EdgeReference StreamDependency) × (e ∈ es) × (e.source ≡ m))
mem-map_source [] m = (λ h. absurd h, λ h. h.1)
mem-map_source (x ∷ es) m = (
  λ h. elim h [
    | inl here ↦ (x, inl refl, sym here)
    | inr there ↦ let (e, m', s) = (mem-map_source es m).0 there in (e, inr m', s)
  ],
  λ (e, h, s). elim h [
    | inl here ↦ inl (sym s ∙ ap (λ y. y.source) here)
    | inr there ↦ inr ((mem-map_source es m).1 (e, there, s))
  ],
)

mem-range : (k n j : ℕ) → (j ∈ range k n) ↔ ((k ≤ j) × (j < k + n))
mem-range k zero j = (λ h. absurd h, λ h. absurd (omega arith))
mem-range k (suc n) j = (
  λ h. elim h [
    | inl here ↦ (omega arith, omega arith)
    | inr there ↦ let (lo, hi) = (mem-range (suc k) n j).0 there in (omega arith, omega arith)
  ],
  λ (lo, hi). elim (Bool-cases (j == k)) [
    | inl here ↦ inl ((==_iff j k).0 here)
    | inr other ↦ inr ((mem-range (suc k) n j).1 (ground arith, omega arith))
  ],
)

range-IsDistinct : (k n : ℕ) → IsDistinct (range k n)
range-IsDistinct k zero = tt
range-IsDistinct k (suc n) =
    (λ h. not_below k ((mem-range (suc k) n k).0 h).0, range-IsDistinct (suc k) n)
  where
    not_below : (j : ℕ) → suc j ≤ j → ⊥
    not_below j h = omega arith

abbrev pub graph_of : List StreamNode → Edges → DependencyGraph
graph_of nodes edges = record {
  node_indices = range 0 (length nodes);
  node_weight = get_elem? nodes;
  outgoing = λ n. select_edges (λ e. e.source == n) edges;
  incoming = λ n. select_edges (λ e. e.target == n) edges;
  incoming_neighbors = λ n. map (λ e. e.source) (select_edges (λ e. e.target == n) edges);
  edges = edges;
}

lt_length :
    (nodes : List StreamNode) (n : ℕ) (w : StreamNode)
    → get_elem? nodes n ≡ some w
    → n < length nodes
lt_length [] n w e = cc
lt_length (x ∷ nodes) zero w e = omega arith
lt_length (x ∷ nodes) (suc n) w e = omega (arith, lt_length nodes n w e)

module _ (nodes : List StreamNode) (edges : Edges) where
  pub graph_of-IsGraph :
      ((e : EdgeReference StreamDependency)
        → e ∈ edges
        → (e.source < length nodes) × (e.target < length nodes))
      → IsGraph (graph_of nodes edges)
  graph_of-IsGraph within = record {
    once = range-IsDistinct 0 (length nodes);
    weight_of =
        λ n m. get_elem?-lt_length nodes n (omega (arith, ((mem-range 0 (length nodes) n).0 m).1));
    listed = λ n w e.
        (mem-range 0 (length nodes) n).1 (omega arith, omega (arith, lt_length nodes n w e));
    ends = λ e m.
        let (s, t) = within e m in
        (
          (mem-range 0 (length nodes) e.source).1 (omega arith, omega arith),
          (mem-range 0 (length nodes) e.target).1 (omega arith, omega arith),
        );
    outgoing_iff = λ n e. (
      λ m.
          let (h, s) = (mem-select_edges (λ x. x.source == n) edges e).0 m in
          (h, (==_iff e.source n).0 s),
      λ (h, s). (mem-select_edges (λ x. x.source == n) edges e).1 (h, (==_iff e.source n).1 s),
    );
    incoming_iff = λ n e. incoming n e;
    neighbor_iff = λ n m. (
      λ h.
          let (e, he, s) = (mem-map_source _ m).0 h in
          let (l, t) = (incoming n e).0 he in (e, l, s, t),
      λ (e, l, s, t). (mem-map_source _ m).1 (e, (incoming n e).1 (l, t), s),
    );
  }
    where
      incoming :
          (n : ℕ) (e : EdgeReference StreamDependency)
          → (e ∈ select_edges (λ x. x.target == n) edges) ↔ ((e ∈ edges) × (e.target ≡ n))
      incoming n e = (
        λ m.
            let (h, s) = (mem-select_edges (λ x. x.target == n) edges e).0 m in
            (h, (==_iff e.target n).0 s),
        λ (h, s). (mem-select_edges (λ x. x.target == n) edges e).1 (h, (==_iff e.target n).1 s),
      )
