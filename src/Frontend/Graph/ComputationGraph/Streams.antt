-- ===== src/Frontend/Graph/ComputationGraph/Streams.antt =====
-- frontend/src/analysis/graph_based_analysis/evaluation_order.rs: the nodes of the graph of steps.
use rtlola.Common.{
  ℕ, ◌==◌, ==_iff, Bool, true, false, some, List, [], ◌∷◌, ◌≡◌, refl, sym, ap, ◌∙◌, ◌↔◌, inl, inr,
  arith, Bool-cases, ==_false→ne, subst,
}
use mathlib.Core.Logic.{⊎_elim}
use rtlola.Common.Sets.{◌∈◌, lookup, put, lookup-put}
use rtlola.Frontend.Graph.{ComputeStep}
use rtlola.Frontend.Graph.Petgraph.{Petgraph, IsPetgraph}
use rtlola.Frontend.Graph.ComputationGraph.{StepEntry, Part, entry_of, add_stream}
use rtlola.Frontend.Graph.ComputationGraph.Adding.{
  Holds, add_node-Holds, add_node-at, add_node-Keeps, add_edge-Holds, add_edge-Keeps,
}

abbrev pub step_of : Part → ℕ → ComputeStep
step_of Part.invoke id = ComputeStep.invoke id
step_of Part.extend id = ComputeStep.extend id
step_of Part.evaluate id = ComputeStep.evaluate id
step_of Part.terminate id = ComputeStep.terminate id

-- The step of a stream that each of its steps needs first.
abbrev pub first_needed : Part → Part → Bool
first_needed Part.extend Part.invoke = true
first_needed Part.terminate Part.invoke = true
first_needed Part.evaluate Part.extend = true
first_needed _ _ = false

abbrev pub all_steps : List ℕ → List ComputeStep
all_steps [] = []
all_steps (i ∷ ids) =
    ComputeStep.terminate i
    ∷ (ComputeStep.evaluate i ∷ (ComputeStep.extend i ∷ (ComputeStep.invoke i ∷ all_steps ids)))

abbrev pub inner_links : List ℕ → List (ComputeStep × ComputeStep)
inner_links [] = []
inner_links (i ∷ ids) =
    (ComputeStep.evaluate i, ComputeStep.extend i)
    ∷ ((ComputeStep.terminate i, ComputeStep.invoke i)
        ∷ ((ComputeStep.extend i, ComputeStep.invoke i) ∷ inner_links ids))

id_of_step : ComputeStep → ℕ
id_of_step (ComputeStep.invoke i) = i
id_of_step (ComputeStep.extend i) = i
id_of_step (ComputeStep.evaluate i) = i
id_of_step (ComputeStep.terminate i) = i

mem-all_steps : (ids : List ℕ) (w : ComputeStep) → w ∈ all_steps ids → id_of_step w ∈ ids
unfolding id_of_step
mem-all_steps [] w m = absurd m
mem-all_steps (i ∷ ids) w (inl e) = inl (ap id_of_step e)
mem-all_steps (i ∷ ids) w (inr (inl e)) = inl (ap id_of_step e)
mem-all_steps (i ∷ ids) w (inr (inr (inl e))) = inl (ap id_of_step e)
mem-all_steps (i ∷ ids) w (inr (inr (inr (inl e)))) = inl (ap id_of_step e)
mem-all_steps (i ∷ ids) w (inr (inr (inr (inr m)))) = inr (mem-all_steps ids w m)

pub part_of_mem :
    (ids : List ℕ) (w : ComputeStep)
    → w ∈ all_steps ids
    → (i : ℕ) × (p : Part) × (i ∈ ids) × (w ≡ step_of p i)
part_of_mem [] w m = absurd m
part_of_mem (i ∷ ids) w (inl e) = (i, Part.terminate, inl refl, e)
part_of_mem (i ∷ ids) w (inr (inl e)) = (i, Part.evaluate, inl refl, e)
part_of_mem (i ∷ ids) w (inr (inr (inl e))) = (i, Part.extend, inl refl, e)
part_of_mem (i ∷ ids) w (inr (inr (inr (inl e)))) = (i, Part.invoke, inl refl, e)
part_of_mem (i ∷ ids) w (inr (inr (inr (inr m)))) =
    let (j, p, mj, e) = part_of_mem ids w m in (j, p, inr mj, e)

pub mem_of_part : (ids : List ℕ) (i : ℕ) (p : Part) → i ∈ ids → step_of p i ∈ all_steps ids
mem_of_part [] i p m = absurd m
mem_of_part (j ∷ ids) i p (inr m) = inr (inr (inr (inr (mem_of_part ids i p m))))
mem_of_part (j ∷ ids) i Part.invoke (inl e) = inr (inr (inr (inl (ap ComputeStep.invoke e))))
mem_of_part (j ∷ ids) i Part.extend (inl e) = inr (inr (inl (ap ComputeStep.extend e)))
mem_of_part (j ∷ ids) i Part.evaluate (inl e) = inr (inl (ap ComputeStep.evaluate e))
mem_of_part (j ∷ ids) i Part.terminate (inl e) = inl (ap ComputeStep.terminate e)

inner_here :
    (i : ℕ) (ids : List ℕ) (p q : Part) (v w : ComputeStep)
    → first_needed p q ≡ true
    → v ≡ step_of p i
    → w ≡ step_of q i
    → (v, w) ∈ inner_links (i ∷ ids)
inner_here i ids Part.extend Part.invoke v w f ev ew = inr (inr (inl (rw (ev, ew) refl)))
inner_here i ids Part.terminate Part.invoke v w f ev ew = inr (inl (rw (ev, ew) refl))
inner_here i ids Part.evaluate Part.extend v w f ev ew = inl (rw (ev, ew) refl)
inner_here i ids _ _ v w f ev ew = cc

pub mem-inner_links :
    (ids : List ℕ) (v w : ComputeStep)
    → ((v, w) ∈ inner_links ids) ↔ (
        (i : ℕ) × (p q : Part) × (i ∈ ids)
        × (first_needed p q ≡ true)
        × (v ≡ step_of p i)
        × (w ≡ step_of q i))
mem-inner_links [] v w = (λ m. absurd m, λ h. h.3)
mem-inner_links (i ∷ ids) v w = (
  λ m. elim m [
    | inl e ↦ (i, Part.evaluate, Part.extend, inl refl, refl, ap (λ p. p.0) e, ap (λ p. p.1) e)
    | inr (inl e) ↦
        (i, Part.terminate, Part.invoke, inl refl, refl, ap (λ p. p.0) e, ap (λ p. p.1) e)
    | inr (inr (inl e)) ↦
        (i, Part.extend, Part.invoke, inl refl, refl, ap (λ p. p.0) e, ap (λ p. p.1) e)
    | inr (inr (inr rest)) ↦
        let (j, p, q, mj, f, ev, ew) = (mem-inner_links ids v w).0 rest in
        (j, p, q, inr mj, f, ev, ew)
  ],
  λ (j, p, q, mj, f, ev, ew). elim mj [
    | inl e ↦ inner_here i ids p q v w f (ev ∙ ap (step_of p) e) (ew ∙ ap (step_of q) e)
    | inr m ↦ inr (inr (inr ((mem-inner_links ids v w).1 (j, p, q, m, f, ev, ew))))
  ],
)

invoke_ne_extend : (i : ℕ) → ComputeStep.invoke i ≡ ComputeStep.extend i → ⊥
invoke_ne_extend i h = cc

evaluate_new :
    (i : ℕ) (all : List ComputeStep)
    → (ComputeStep.evaluate i ∈ all → ⊥)
    → ComputeStep.evaluate i ∈ (ComputeStep.extend i ∷ (ComputeStep.invoke i ∷ all))
    → ⊥
evaluate_new i all new (inl e) = cc
evaluate_new i all new (inr (inl e)) = cc
evaluate_new i all new (inr (inr m)) = new m

terminate_new :
    (i : ℕ) (all : List ComputeStep)
    → (ComputeStep.terminate i ∈ all → ⊥)
    → ComputeStep.terminate i
      ∈ (ComputeStep.evaluate i ∷ (ComputeStep.extend i ∷ (ComputeStep.invoke i ∷ all)))
    → ⊥
terminate_new i all new (inl e) = cc
terminate_new i all new (inr (inl e)) = cc
terminate_new i all new (inr (inr (inl e))) = cc
terminate_new i all new (inr (inr (inr m))) = new m

module _ (pg : Petgraph) (lib : IsPetgraph pg) where
  open pg use {ComputationGraph, node_weight, add_node, add_edge}

  -- The graph has the steps of the streams `ids` and the links among them, and each stream has its
  -- entry in the map.
  pub record Streams (cg : ComputationGraph) (mapping : List (ℕ × StepEntry)) (ids : List ℕ)
      : Type 0 where
    pub holds : Holds pg lib cg (all_steps ids) (inner_links ids)
    pub placed :
        (i : ℕ)
        → i ∈ ids
        → (entry : StepEntry) × (lookup mapping i ≡ some entry)
          × ((p : Part) → node_weight cg (entry_of entry p) ≡ some (step_of p i))

  pub add_stream-Streams :
      (cg : ComputationGraph) (mapping : List (ℕ × StepEntry)) (ids : List ℕ) (i : ℕ)
      → Streams cg mapping ids
      → ¬ (i ∈ ids)
      → Streams (add_stream pg (cg, mapping) i).0 (add_stream pg (cg, mapping) i).1 (i ∷ ids)
  unfolding add_stream entry_of id_of_step
  add_stream-Streams cg mapping ids i st fresh =
      let is_new = λ (w : ComputeStep) (e : id_of_step w ≡ i) (m : w ∈ all_steps ids).
        fresh (subst (λ k. k ∈ ids) e (mem-all_steps ids w m)) in
      let (g1, a) = add_node cg (ComputeStep.invoke i) in
      let (g2, b) = add_node g1 (ComputeStep.extend i) in
      let (g3, c) = add_node g2 (ComputeStep.evaluate i) in
      let (g4, d) = add_node g3 (ComputeStep.terminate i) in
      let g5 = add_edge g4 b a in
      let g6 = add_edge g5 d a in
      let all = all_steps ids in
      let links = inner_links ids in
      let inv = ComputeStep.invoke i in
      let ext = ComputeStep.extend i in
      let eva = ComputeStep.evaluate i in
      let ter = ComputeStep.terminate i in
      let new1 = is_new inv refl in
      let new2 =
        λ (m : ext ∈ (inv ∷ all)). ⊎_elim (λ e. invoke_ne_extend i (sym e)) (is_new ext refl) m in
      let new3 = λ (m : eva ∈ (ext ∷ (inv ∷ all))). evaluate_new i all (is_new eva refl) m in
      let new4 =
        λ (m : ter ∈ (eva ∷ (ext ∷ (inv ∷ all)))). terminate_new i all (is_new ter refl) m in
      let h1 = add_node-Holds pg lib cg all links st.holds inv new1 in
      let h2 = add_node-Holds pg lib g1 (inv ∷ all) links h1 ext new2 in
      let h3 = add_node-Holds pg lib g2 (ext ∷ (inv ∷ all)) links h2 eva new3 in
      let h4 = add_node-Holds pg lib g3 (eva ∷ (ext ∷ (inv ∷ all))) links h3 ter new4 in
      let k1 = add_node-Keeps pg lib cg all links st.holds inv new1 in
      let k2 = add_node-Keeps pg lib g1 (inv ∷ all) links h1 ext new2 in
      let k3 = add_node-Keeps pg lib g2 (ext ∷ (inv ∷ all)) links h2 eva new3 in
      let k4 = add_node-Keeps pg lib g3 (eva ∷ (ext ∷ (inv ∷ all))) links h3 ter new4 in
      let at_d = add_node-at pg lib g3 (eva ∷ (ext ∷ (inv ∷ all))) links h3 ter new4 in
      let at_c = k4 c eva (add_node-at pg lib g2 (ext ∷ (inv ∷ all)) links h2 eva new3) in
      let at_b = k4 b ext (k3 b ext (add_node-at pg lib g1 (inv ∷ all) links h1 ext new2)) in
      let at_a =
        k4 a inv (k3 a inv (k2 a inv (add_node-at pg lib cg all links st.holds inv new1))) in
      let ss = all_steps (i ∷ ids) in
      let h5 = add_edge-Holds pg lib g4 ss links h4 b a ext inv at_b at_a in
      let k5 = add_edge-Keeps pg lib g4 ss links h4 b a ext inv at_b at_a in
      let l5 = (ext, inv) ∷ links in
      let h6 = add_edge-Holds pg lib g5 ss l5 h5 d a ter inv (k5 d ter at_d) (k5 a inv at_a) in
      let k6 = add_edge-Keeps pg lib g5 ss l5 h5 d a ter inv (k5 d ter at_d) (k5 a inv at_a) in
      let l6 = (ter, inv) ∷ l5 in
      let at_c6 = k6 c eva (k5 c eva at_c) in
      let at_b6 = k6 b ext (k5 b ext at_b) in
      let k7 = add_edge-Keeps pg lib g6 ss l6 h6 c b eva ext at_c6 at_b6 in
      let keeps =
        λ (j : ℕ) (w : ComputeStep) (e : node_weight g4 j ≡ some w). k7 j w (k6 j w (k5 j w e)) in
      let entry : StepEntry = record { invoke = a; extend = b; evaluate = c; terminate = d } in
      record {
        holds = add_edge-Holds pg lib g6 ss l6 h6 c b eva ext at_c6 at_b6;
        placed = λ j m. elim (Bool-cases (i == j)) [
          | inl same ↦
              let here : i ≡ j = (==_iff i j).0 same in
              subst
                (λ k.
                  (e : StepEntry) × (lookup (put mapping i entry) k ≡ some e)
                  × ((p : Part)
                      → node_weight (add_edge g6 c b) (entry_of e p) ≡ some (step_of p k)))
                here
                (
                  entry,
                  lookup-put mapping i i entry ∙ ground arith,
                  λ p.
                      elim p
                        as (λ q.
                          node_weight (add_edge g6 c b) (entry_of entry q) ≡ some (step_of q i)) [
                            | Part.invoke ↦ keeps a inv at_a
                            | Part.extend ↦ keeps b ext at_b
                            | Part.evaluate ↦ keeps c eva at_c
                            | Part.terminate ↦ keeps d ter at_d
                          ],
                )
          | inr other ↦
              let (old, e, at) =
                st.placed j (⊎_elim (λ h. absurd (==_false→ne i j other (sym h))) (λ h. h) m) in
              (
                old,
                lookup-put mapping i j entry ∙ rw other e,
                λ p.
                    let w = step_of p j in
                    let ix = entry_of old p in
                    keeps ix w (k4 ix w (k3 ix w (k2 ix w (k1 ix w (at p))))),
              )
        ];
      }
