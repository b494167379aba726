-- ===== src/Frontend/Graph/ComputeOrder/Layers.antt =====
-- frontend/src/analysis/graph_based_analysis/evaluation_order.rs: the loop ends, and a step comes
-- after all steps that it needs.
use rtlola.Common.{
  ℕ, zero, suc, ◌==◌, ==_iff, if◌then◌else◌, some, List, [], ◌∷◌, length, ok, ◌≡◌, refl, ap, ◌↔◌,
  ◌<◌, ◌≤◌, ◌⊎◌, inl, inr, arith, Bool-cases, ◌&&◌,
}
use rtlola.Common.Sets.{◌∈◌}
use rtlola.Frontend.Schedule.{is_nil}
use rtlola.Frontend.Graph.{ComputeStep}
use rtlola.Frontend.Graph.Petgraph.{Has, Link, HasDistinctSteps, Petgraph, IsPetgraph}
use rtlola.Frontend.Graph.ComputeOrder.{
  remove_all, front, indices, steps, compute_layers, drop_empty, get_compute_order,
}
use rtlola.Frontend.Graph.ComputeOrder.Front.{Removes, Round, front-Round}

-- The step stands in layer `k`.
abbrev pub InLayer : List (List ComputeStep) → ℕ → ComputeStep → Type 0
InLayer [] k v = ⊥
InLayer (layer ∷ layers) zero v = v ∈ layer
InLayer (layer ∷ layers) (suc k) v = InLayer layers k v

InLayer-drop :
    (layer : List ComputeStep) (layers rest : List (List ComputeStep))
    → ((k : ℕ) (v : ComputeStep) → InLayer rest k v ↔ InLayer layers k v)
    → (k : ℕ) (v : ComputeStep)
    → InLayer (if is_nil layer && is_nil rest then [] else layer ∷ rest) k v
      ↔ InLayer (layer ∷ layers) k v
InLayer-drop [] layers [] same zero v = (λ m. m, λ m. m)
InLayer-drop [] layers [] same (suc k) v = same k v
InLayer-drop [] layers (r ∷ rest) same zero v = (λ m. m, λ m. m)
InLayer-drop [] layers (r ∷ rest) same (suc k) v = same k v
InLayer-drop (x ∷ layer) layers rest same zero v = (λ m. m, λ m. m)
InLayer-drop (x ∷ layer) layers rest same (suc k) v = same k v

length-pos : (xs : List ComputeStep) (v : ComputeStep) → v ∈ xs → 0 < length xs
length-pos [] v m = absurd m
length-pos (x ∷ xs) v m = omega arith

module _ (pg : Petgraph) (lib : IsPetgraph pg) where
  open pg use {ComputationGraph, node_count, node_weight, neighbors, node_indices}

  -- A number for each step that falls along the links: there is no cycle.
  abbrev pub Falls : (ComputeStep → ℕ) → ComputationGraph → Type 0
  Falls rank g = (v w : ComputeStep) → Link pg g v w → rank w < rank v

  -- From every node, links lead to one without.
  sink_below :
      (rank : ComputeStep → ℕ) (g : ComputationGraph) (distinct : HasDistinctSteps pg g)
      (r : Round pg lib g distinct (front pg g (node_indices g)))
      → Falls rank g
      → (bound j : ℕ) (v : ComputeStep) → node_weight g j ≡ some v
      → rank v < bound
      → (w : ComputeStep) × (w ∈ steps r.pruned)
  sink_below rank g distinct r falls zero j v e h = absurd (omega arith)
  sink_below rank g distinct r falls (suc bound) j v e h = elim (r.complete j v e) [
    | inl sink ↦ (v, sink)
    | inr (k, edge) ↦
        let (w, ew) = lib.weight_some g k (lib.neighbor_lt g j k edge).1 in
        let lower = falls v w (j, k, e, ew, edge) in
        sink_below rank g distinct r falls bound k w ew (omega arith)
  ]

  -- Every step is in exactly one layer, and those that it needs are in layers before.
  pub record Orders (g : ComputationGraph) (layers : List (List ComputeStep)) : Type 0 where
    pub only : (k : ℕ) (v : ComputeStep) → InLayer layers k v → Has pg g v
    pub placed : (v : ComputeStep) → Has pg g v → (k : ℕ) × InLayer layers k v
    pub once : (k l : ℕ) (v : ComputeStep) → InLayer layers k v → InLayer layers l v → k ≡ l
    pub before :
        (k l : ℕ) (v w : ComputeStep)
        → Link pg g v w
        → InLayer layers k v
        → InLayer layers l w
        → l < k

  Orders-cons :
      (g g' : ComputationGraph) (distinct : HasDistinctSteps pg g) (ss : List ComputeStep)
      (layers : List (List ComputeStep))
      → Removes pg lib g distinct g' 0 ss
      → ((v w : ComputeStep) → v ∈ ss → Link pg g v w → ⊥)
      → ((v : ComputeStep) → v ∈ ss → Has pg g v)
      → ((v : ComputeStep) → Has pg g v → v ∈ ss ⊎ ¬ (v ∈ ss))
      → Orders g' layers
      → Orders g (ss ∷ layers)
  Orders-cons g g' distinct ss layers r needs_none known split o = record {
    only = only;
    placed = λ v h. elim (split v h) [
      | inl now ↦ (0, now)
      | inr not_yet ↦ let (k, m) = o.placed v ((r.has_iff v).1 (h, not_yet)) in (suc k, m)
    ];
    once = once;
    before = before;
  }
    where
      later : (k : ℕ) (v : ComputeStep) → InLayer layers k v → Has pg g v × ¬ (v ∈ ss)
      later k v m = (r.has_iff v).0 (o.only k v m)

      only : (k : ℕ) (v : ComputeStep) → InLayer (ss ∷ layers) k v → Has pg g v
      only zero v m = known v m
      only (suc k) v m = (later k v m).0

      once :
          (k l : ℕ) (v : ComputeStep)
          → InLayer (ss ∷ layers) k v
          → InLayer (ss ∷ layers) l v
          → k ≡ l
      once zero zero v m n = refl
      once zero (suc l) v m n = absurd ((later l v n).1 m)
      once (suc k) zero v m n = absurd ((later k v m).1 n)
      once (suc k) (suc l) v m n = ap suc (o.once k l v m n)

      before :
          (k l : ℕ) (v w : ComputeStep)
          → Link pg g v w
          → InLayer (ss ∷ layers) k v
          → InLayer (ss ∷ layers) l w
          → l < k
      before zero l v w link m n = absurd (needs_none v w m link)
      before (suc k) zero v w link m n = omega arith
      before (suc k) (suc l) v w link m n =
          let kept = (r.link_iff v w).1 (link, (later k v m).1, (later l w n).1) in
          omega (arith, o.before k l v w kept m n)

  Orders-nil : (g : ComputationGraph) → node_count g ≡ 0 → Orders g []
  Orders-nil g empty = record {
    only = λ k v m. absurd m;
    placed = λ v (j, e). absurd (omega (arith, lib.weight_lt g j v e));
    once = λ k l v m n. absurd m;
    before = λ k l v w link m n. absurd m;
  }

  -- A step is found in a round, or it needs another step and is not found.
  split :
      (g : ComputationGraph) (distinct : HasDistinctSteps pg g)
      (r : Round pg lib g distinct (front pg g (node_indices g))) (v : ComputeStep)
      → Has pg g v
      → v ∈ steps r.pruned ⊎ ¬ (v ∈ steps r.pruned)
  split g distinct r v (j, e) = elim (r.complete j v e) [
    | inl now ↦ inl now
    | inr (k, edge) ↦
        let (w, ew) = lib.weight_some g k (lib.neighbor_lt g j k edge).1 in
        inr (λ m. r.needs_none v w m (j, k, e, ew, edge))
  ]

  compute_layers-Orders :
      (rank : ComputeStep → ℕ) (fuel : ℕ) (g : ComputationGraph)
      → HasDistinctSteps pg g
      → Falls rank g
      → node_count g ≤ fuel
      → (layers : List (List ComputeStep)) × (compute_layers pg fuel g ≡ ok layers)
        × Orders g layers
  unfolding compute_layers
  compute_layers-Orders rank zero g distinct falls enough =
      let empty : node_count g ≡ 0 = omega arith in ([], rw empty refl, Orders-nil g empty)
  compute_layers-Orders rank (suc fuel) g distinct falls enough =
      elim (Bool-cases (node_count g == 0)) [
        | inl empty ↦
            ([], rw (empty, compute_layers) refl, Orders-nil g ((==_iff (node_count g) 0).0 empty))
        | inr more ↦
            let r = front-Round pg lib g distinct in
            let g' = remove_all pg g (indices r.pruned) in
            let (first, e) = lib.weight_some g 0 (ground arith) in
            let (sink, m) =
              sink_below rank g distinct r falls (suc (rank first)) 0 first e (omega arith) in
            let found = length-pos (steps r.pruned) sink m in
            let (layers, returns, o) =
              compute_layers-Orders rank fuel g' r.removes.distinct'
                (λ v w link. falls v w ((r.removes.link_iff v w).0 link).0)
                (omega (arith, r.removes.fewer)) in
            (
              steps r.pruned ∷ layers,
              rw (more, compute_layers) (rw (r.returns, returns) refl),
              Orders-cons g g' distinct (steps r.pruned) layers r.removes r.needs_none r.known
                  (split g distinct r) o,
            )
      ]

  -- The layers without the empty ones at the end are the same layers.
  InLayer-drop_empty :
      (layers : List (List ComputeStep)) (k : ℕ) (v : ComputeStep)
      → InLayer (drop_empty layers) k v ↔ InLayer layers k v
  unfolding drop_empty
  InLayer-drop_empty [] k v = (λ m. m, λ m. m)
  InLayer-drop_empty (layer ∷ layers) k v =
      InLayer-drop layer layers (drop_empty layers) (InLayer-drop_empty layers) k v

  -- On a graph in which no step stands in two nodes and the links lead round in no cycle, the loops
  -- end without a panic, every step is in exactly one layer, and a step is in a later layer than all
  -- steps that it is linked to.
  pub get_compute_order-Orders :
      (rank : ComputeStep → ℕ) (g : ComputationGraph)
      → HasDistinctSteps pg g
      → Falls rank g
      → (layers : List (List ComputeStep)) × (get_compute_order pg g ≡ ok layers) × Orders g layers
  unfolding get_compute_order
  get_compute_order-Orders rank g distinct falls =
      let (layers, returns, o) =
        compute_layers-Orders rank (node_count g) g distinct falls (omega arith) in
      let same = InLayer-drop_empty layers in
      (
        drop_empty layers,
        rw returns refl,
        record {
          only = λ k v m. o.only k v ((same k v).0 m);
          placed = λ v h. let (k, m) = o.placed v h in (k, (same k v).1 m);
          once = λ k l v m n. o.once k l v ((same k v).0 m) ((same l v).0 n);
          before = λ k l v w link m n. o.before k l v w link ((same k v).0 m) ((same l w).0 n);
        },
      )
