-- ===== src/Frontend/Graph/ComputeOrder/Front.antt =====
-- frontend/src/analysis/graph_based_analysis/evaluation_order.rs: one round of the loop finds the
-- steps that need no other, and removes them.
use rtlola.Common.{
  ℕ, zero, suc, ◌+◌, ◌==◌, ==_iff, true, false, some, List, [], ◌∷◌, length, Outcome, ok, ◌≡◌, refl,
  sym, ap, ◌∙◌, ◌↔◌, ◌<◌, ◌≤◌, ◌⊎◌, inl, inr, arith, Bool-cases, subst, some-injective,
}
use rtlola.Common.Sets.{◌∈◌}
use rtlola.Frontend.Schedule.{is_nil}
use rtlola.Frontend.Graph.{ComputeStep}
use rtlola.Frontend.Graph.Petgraph.{Has, Link, HasDistinctSteps, Petgraph, IsPetgraph, range}
use rtlola.Frontend.Graph.ComputeOrder.{remove_all, front, indices, steps}
use rtlola.Frontend.Graph.ComputeOrder.Removal.{
  Has-remove_node, Link-remove_node, HasDistinctSteps-remove_node,
}

-- The indices increase, from `b` on.
abbrev Ascending : ℕ → List (ℕ × ComputeStep) → Type 0
Ascending b [] = Unit {0}
Ascending b ((i, x) ∷ ps) = (b ≤ i) × Ascending (suc i) ps

index_of : (v : ComputeStep) (ps : List (ℕ × ComputeStep)) → v ∈ steps ps → (i : ℕ) × ((i, v) ∈ ps)
index_of v [] m = absurd m
index_of v ((i, x) ∷ ps) (inl e) = (i, inl (ap (λ y. (i, y)) e))
index_of v ((i, x) ∷ ps) (inr m) = let (j, m') = index_of v ps m in (j, inr m')

not-mem_of_nil : (xs : List ℕ) (k : ℕ) → is_nil xs ≡ true → k ∈ xs → ⊥
not-mem_of_nil [] k h m = m
not-mem_of_nil (x ∷ xs) k h m = cc

first_of : (xs : List ℕ) → is_nil xs ≡ false → (k : ℕ) × (k ∈ xs)
first_of [] h = cc
first_of (x ∷ xs) h = (x, inl refl)

module _ (pg : Petgraph) (lib : IsPetgraph pg) (g : pg.ComputationGraph)
    (distinct : HasDistinctSteps pg g) where
  open pg use {ComputationGraph, node_count, node_weight, neighbors, remove_node, node_indices}

  -- The steps `ss` and no others are removed, and nodes before `b` keep their places.
  pub record Removes (g' : ComputationGraph) (b : ℕ) (ss : List ComputeStep) : Type 0 where
    pub stable : (j : ℕ) → j < b → node_weight g' j ≡ node_weight g j
    pub has_iff : (w : ComputeStep) → Has pg g' w ↔ (Has pg g w × ¬ (w ∈ ss))
    pub link_iff : (v w : ComputeStep) → Link pg g' v w ↔ (Link pg g v w × ¬ (v ∈ ss) × ¬ (w ∈ ss))
    pub distinct' : HasDistinctSteps pg g'
    pub fewer : node_count g' + length ss ≡ node_count g

  Removes-cons :
      (g' : ComputationGraph) (b i : ℕ) (x : ComputeStep) (ss : List ComputeStep)
      → b ≤ i
      → node_weight g i ≡ some x
      → Removes g' (suc i) ss
      → Removes (remove_node g' i) b (x ∷ ss)
  Removes-cons g' b i x ss le e r =
      let at : node_weight g' i ≡ some x = r.stable i (omega arith) ∙ e in
      let within = lib.weight_lt g' i x at in
      record {
        stable = λ j h.
            lib.weight-remove g' i j within (omega arith)
            ∙ ap (node_weight g') (ground arith)
            ∙ r.stable j (omega arith);
        has_iff = λ w. ground (arith, Has-remove_node pg lib g' i x at r.distinct' w, r.has_iff w);
        link_iff = λ v w.
            ground (arith, Link-remove_node pg lib g' i x at r.distinct' v w, r.link_iff v w);
        distinct' = HasDistinctSteps-remove_node pg lib g' i x at r.distinct';
        fewer = omega (arith, lib.count-remove g' i within, r.fewer);
      }

  remove_all-Removes :
      (b : ℕ) (ps : List (ℕ × ComputeStep))
      → Ascending b ps
      → ((i : ℕ) (x : ComputeStep) → (i, x) ∈ ps → node_weight g i ≡ some x)
      → Removes (remove_all pg g (indices ps)) b (steps ps)
  unfolding remove_all
  remove_all-Removes b [] up at = record {
    stable = λ j h. refl;
    has_iff = λ w. (λ h. (h, elim [ ]), λ h. h.0);
    link_iff = λ v w. (λ h. (h, elim [ ], elim [ ]), λ h. h.0);
    distinct' = distinct;
    fewer = omega arith;
  }
  remove_all-Removes b ((i, x) ∷ ps) up at =
      Removes-cons (remove_all pg g (indices ps)) b i x (steps ps) up.0 (at i x (inl refl))
        (remove_all-Removes (suc i) ps up.1 (λ j y m. at j y (inr m)))

  -- What the search for the front finds among the nodes from `k` on.
  record Found (k n : ℕ) (o : Outcome (List (ℕ × ComputeStep))) : Type 0 where
    found : List (ℕ × ComputeStep)
    returns : o ≡ ok found
    ascending : Ascending k found
    at :
        (i : ℕ) (x : ComputeStep)
        → (i, x) ∈ found
        → (node_weight g i ≡ some x) × (is_nil (neighbors g i) ≡ true)
    complete :
        (i : ℕ) (x : ComputeStep)
        → k ≤ i
        → i < k + n
        → node_weight g i ≡ some x
        → is_nil (neighbors g i) ≡ true
        → x ∈ steps found

  Ascending-weaken : (ps : List (ℕ × ComputeStep)) (b : ℕ) → Ascending (suc b) ps → Ascending b ps
  Ascending-weaken [] b h = tt
  Ascending-weaken ((i, x) ∷ ps) b h = (omega arith, h.1)

  front-Found : (n k : ℕ) → k + n ≤ node_count g → Found k n (front pg g (range k n))
  unfolding front
  front-Found zero k h = record {
    found = [];
    returns = refl;
    ascending = tt;
    at = λ i x. elim [ ];
    complete = λ i x lo hi e sink. absurd (omega arith);
  }
  front-Found (suc n) k h =
      let rest = front-Found n (suc k) (omega arith) in
      let (x, e) = lib.weight_some g k (omega arith) in
      elim (Bool-cases (is_nil (neighbors g k))) [
        | inl sink ↦ record {
          found = (k, x) ∷ rest.found;
          returns = rw (rest.returns, sink, e) refl;
          ascending = (omega arith, rest.ascending);
          at = λ i y m. elim m [
            | inl first ↦
                subst (λ p. (node_weight g p.0 ≡ some p.1) × (is_nil (neighbors g p.0) ≡ true))
                  (sym first) (e, sink)
            | inr later ↦ rest.at i y later
          ];
          complete = λ i y lo hi ey nil. elim (Bool-cases (i == k)) [
            | inl here ↦
                inl (some-injective (sym ey ∙ ap (node_weight g) ((==_iff i k).0 here) ∙ e))
            | inr there ↦ inr (rest.complete i y (ground arith) (omega arith) ey nil)
          ];
        }
        | inr busy ↦ record {
          found = rest.found;
          returns = rw (rest.returns, busy) refl;
          ascending = Ascending-weaken rest.found k rest.ascending;
          at = rest.at;
          complete = λ i y lo hi ey nil. elim (Bool-cases (i == k)) [
            | inl here ↦
                let clash : true ≡ false =
                  sym nil ∙ ap (λ j. is_nil (neighbors g j)) ((==_iff i k).0 here) ∙ busy in
                cc
            | inr there ↦ rest.complete i y (ground arith) (omega arith) ey nil
          ];
        }
      ]

  -- A round finds the steps that need no other, and removes them.
  pub record Round (o : Outcome (List (ℕ × ComputeStep))) : Type 0 where
    pub pruned : List (ℕ × ComputeStep)
    pub returns : o ≡ ok pruned
    pub removes : Removes (remove_all pg g (indices pruned)) 0 (steps pruned)
    pub needs_none : (v w : ComputeStep) → v ∈ steps pruned → Link pg g v w → ⊥
    pub known : (v : ComputeStep) → v ∈ steps pruned → Has pg g v
    pub complete :
        (j : ℕ) (v : ComputeStep)
        → node_weight g j ≡ some v
        → v ∈ steps pruned ⊎ ((k : ℕ) × (k ∈ neighbors g j))

  pub front-Round : Round (front pg g (node_indices g))
  front-Round =
      let f = front-Found (node_count g) 0 (omega arith) in
      record {
        pruned = f.found;
        returns = ap (front pg g) (lib.indices_lem g) ∙ f.returns;
        removes = remove_all-Removes 0 f.found f.ascending (λ i x m. (f.at i x m).0);
        needs_none = λ v w m link.
            let (i, m') = index_of v f.found m in
            let (e, sink) = f.at i v m' in
            not-mem_of_nil (neighbors g i) link.1 sink
              (subst (λ j. link.1 ∈ neighbors g j) (distinct link.0 i v link.2 e) link.4);
        known = λ v m. let (i, m') = index_of v f.found m in (i, (f.at i v m').0);
        complete = λ j v e. elim (Bool-cases (is_nil (neighbors g j))) [
          | inl sink ↦
              inl (f.complete j v (omega arith) (omega (arith, lib.weight_lt g j v e)) e sink)
          | inr busy ↦ inr (first_of (neighbors g j) busy)
        ];
      }
