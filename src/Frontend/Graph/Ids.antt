-- ===== src/Frontend/Graph/Ids.antt =====
-- frontend/src/analysis/graph_based_analysis/mod.rs: the identifiers of the nodes of a graph.
use rtlola.Common.{ℕ, none, some, ◌≡◌, sym, ◌∙◌, arith}
use rtlola.Common.Sets.{◌∈◌}
use rtlola.Frontend.Graph.{StreamNode, get_ast_id, DependencyGraph, IsGraph, HasDistinctIds}

-- the identifier of a node, and 0 for none
abbrev pub ast_id : DependencyGraph → ℕ → ℕ
ast_id g n = elim (g.node_weight n) [ none ↦ 0 | some w ↦ get_ast_id w ]

pub ast_id_lem :
    (g : DependencyGraph) (n : ℕ) (w : StreamNode)
    → g.node_weight n ≡ some w
    → ast_id g n ≡ get_ast_id w
ast_id_lem g n w e = ground (arith, e)

pub ast_id_injective :
    (g : DependencyGraph)
    → IsGraph g
    → HasDistinctIds g
    → (m n : ℕ) → m ∈ g.node_indices
    → n ∈ g.node_indices
    → ast_id g m ≡ ast_id g n
    → m ≡ n
ast_id_injective g graph distinct m n hm hn h =
    let (v, ev) = graph.weight_of m hm in
    let (w, ew) = graph.weight_of n hn in
    distinct m n v w ev ew (sym (ast_id_lem g m v ev) ∙ h ∙ ast_id_lem g n w ew)
