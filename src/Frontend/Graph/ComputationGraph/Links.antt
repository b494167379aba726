-- ===== src/Frontend/Graph/ComputationGraph/Links.antt =====
-- frontend/src/analysis/graph_based_analysis/evaluation_order.rs: the graph of steps has exactly the
-- steps of the streams, and links a step exactly to those that it needs.
use rtlola.Common.{
  >>=-step, ℕ, true, none, some, Option-cases, List, [], ◌∷◌, Outcome, ok, expect, ◌≡◌, refl, sym,
  ap, ap₂, ◌∙◌, some-injective, ◌↔◌, ◌⊎◌, inl, inr, subst,
}
use rtlola.Common.Sets.{◌∈◌, IsDistinct, lookup}
use rtlola.Frontend.Graph.{
  ComputeStep, StreamDependency, EdgeReference, DependencyGraph, IsGraph, HasDistinctIds,
}
use rtlola.Frontend.Graph.Ids.{ast_id, ast_id_lem, ast_id_injective}
use rtlola.Frontend.Graph.Petgraph.{Petgraph, IsPetgraph, Has, Link, HasDistinctSteps}
use rtlola.Frontend.Graph.ComputationGraph.{
  StepEntry, Part, entry_of, computation_edge, add_stream, add_streams, add_between, add_dependency,
  add_dependencies, build_compute_graph,
}
use rtlola.Frontend.Graph.ComputationGraph.Adding.{
  Holds, empty-Holds, add_edge-Holds, add_edge-Keeps,
}
use rtlola.Frontend.Graph.ComputationGraph.Streams.{
  step_of, first_needed, all_steps, inner_links, mem-inner_links, part_of_mem, mem_of_part, Streams,
  add_stream-Streams,
}
use rtlola.Frontend.Graph.ComputationGraph.Needed.{Linked, NeedsStep, computation_edge-NeedsStep}

module _ (g : DependencyGraph) where
  -- The edge of a dependency of the graph links the step `v` to the step `w`.
  abbrev LinkedBy : EdgeReference StreamDependency → ComputeStep → ComputeStep → Type 0
  LinkedBy e v w = Linked e.weight (ast_id g e.source) (ast_id g e.target) v w

  -- The step `v` needs the step `w` of its own stream, or of a stream that its stream depends on.
  abbrev pub Requires : ComputeStep → ComputeStep → Type 0
  Requires v w =
      ((n : ℕ) × (p q : Part) × (n ∈ g.node_indices)
        × (first_needed p q ≡ true)
        × (v ≡ step_of p (ast_id g n))
        × (w ≡ step_of q (ast_id g n)))
      ⊎ ((e : EdgeReference StreamDependency) × (e ∈ g.edges)
          × NeedsStep e.weight (ast_id g e.source) (ast_id g e.target) v w)

module _ (pg : Petgraph) (lib : IsPetgraph pg) (g : DependencyGraph) (graph : IsGraph g)
    (distinct : HasDistinctIds g) where
  open pg use {ComputationGraph, node_weight}

  abbrev ids_after : List ℕ → List ℕ → List ℕ
  ids_after [] ids = ids
  ids_after (n ∷ nodes) ids = ids_after nodes (ast_id g n ∷ ids)

  mem-ids_after :
      (nodes ids : List ℕ) (i : ℕ)
      → (i ∈ ids_after nodes ids) ↔ ((i ∈ ids) ⊎ ((n : ℕ) × (n ∈ nodes) × (i ≡ ast_id g n)))
  mem-ids_after [] ids i =
      (λ m. inl m, λ m. elim m [ inl h ↦ h | inr (n, nowhere, e) ↦ absurd nowhere ])
  mem-ids_after (n ∷ nodes) ids i = (
    λ m. elim ((mem-ids_after nodes (ast_id g n ∷ ids) i).0 m) [
      | inl (inl e) ↦ inr (n, inl refl, e)
      | inl (inr old) ↦ inl old
      | inr (k, mk, e) ↦ inr (k, inr mk, e)
    ],
    λ m. (mem-ids_after nodes (ast_id g n ∷ ids) i).1 (elim m [
      | inl old ↦ inl (inr old)
      | inr (k, inl here, e) ↦ inl (inl (e ∙ ap (ast_id g) here))
      | inr (k, inr there, e) ↦ inr (k, there, e)
    ]),
  )

  add_streams-Streams :
      (nodes : List ℕ) (cg : ComputationGraph) (mapping : List (ℕ × StepEntry)) (ids : List ℕ)
      → IsDistinct nodes
      → ((n : ℕ) → n ∈ nodes → (n ∈ g.node_indices) × ¬ (ast_id g n ∈ ids))
      → Streams pg lib cg mapping ids
      → (cg' : ComputationGraph) × (mapping' : List (ℕ × StepEntry)) × (add_streams pg g nodes
            (cg, mapping)
          ≡ ok (cg', mapping'))
        × Streams pg lib cg' mapping' (ids_after nodes ids)
  unfolding add_streams
  add_streams-Streams [] cg mapping ids once fresh st = (cg, mapping, refl, st)
  add_streams-Streams (n ∷ nodes) cg mapping ids once fresh st =
      let (hn, new) = fresh n (inl refl) in
      let (w, e) = graph.weight_of n hn in
      let id = ast_id_lem g n w e in
      let st' = add_stream-Streams pg lib cg mapping ids (ast_id g n) st new in
      let (cg', mapping', returns, built) =
        add_streams-Streams nodes (add_stream pg (cg, mapping) (ast_id g n)).0
          (add_stream pg (cg, mapping) (ast_id g n)).1 (ast_id g n ∷ ids) once.1
          (λ k hk. (
            (fresh k (inr hk)).0,
            λ m. elim m [
              | inl same ↦ once.0 (
                  subst (λ j. j ∈ nodes)
                    (ast_id_injective g graph distinct k n (fresh k (inr hk)).0 hn same) hk)
              | inr old ↦ (fresh k (inr hk)).1 old
            ],
          ))
          st' in
      (cg', mapping', rw (e, ← id) returns, built)

  -- What the loop over the edges adds.
  record Added (links : List (ComputeStep × ComputeStep))
      (edges : List (EdgeReference StreamDependency)) (ss : List ComputeStep)
      (o : Outcome ComputationGraph) : Type 0 where
    result : ComputationGraph
    returns : o ≡ ok result
    links' : List (ComputeStep × ComputeStep)
    holds : Holds pg lib result ss links'
    mem_iff :
        (v w : ComputeStep)
        → ((v, w) ∈ links') ↔ (
            ((v, w) ∈ links)
            ⊎ ((e : EdgeReference StreamDependency) × (e ∈ edges) × LinkedBy g e v w))

  -- Every stream has its entry in the map.
  abbrev Placed : List (ℕ × StepEntry) → ComputationGraph → Type 0
  Placed mapping cg =
      (n : ℕ)
      → n ∈ g.node_indices
      → (entry : StepEntry) × (lookup mapping (ast_id g n) ≡ some entry)
        × ((p : Part) → node_weight cg (entry_of entry p) ≡ some (step_of p (ast_id g n)))

  Added-skip :
      (links : List (ComputeStep × ComputeStep)) (e : EdgeReference StreamDependency)
      (edges : List (EdgeReference StreamDependency)) (ss : List ComputeStep)
      (o : Outcome ComputationGraph)
      → computation_edge e.weight (ast_id g e.source) (ast_id g e.target) ≡ none
      → Added links edges ss o
      → Added links (e ∷ edges) ss o
  Added-skip links e edges ss o skipped a = record {
    result = a.result;
    returns = a.returns;
    links' = a.links';
    holds = a.holds;
    mem_iff = λ v w. (
      λ m. elim ((a.mem_iff v w).0 m) [
        | inl old ↦ inl old
        | inr (x, mx, need) ↦ inr (x, inr mx, need)
      ],
      λ m. (a.mem_iff v w).1 (elim m [
        | inl old ↦ inl old
        | inr (x, inl here, need) ↦
            let (p, q, edge, ev, ew) = subst (λ y. LinkedBy g y v w) here need in
            let clash = sym skipped ∙ edge in cc
        | inr (x, inr there, need) ↦ inr (x, there, need)
      ]),
    );
  }

  Added-link :
      (links : List (ComputeStep × ComputeStep)) (e : EdgeReference StreamDependency) (p q : Part)
      (edges : List (EdgeReference StreamDependency)) (ss : List ComputeStep)
      (o : Outcome ComputationGraph)
      → computation_edge e.weight (ast_id g e.source) (ast_id g e.target) ≡ some (p, q)
      → Added ((step_of p (ast_id g e.source), step_of q (ast_id g e.target)) ∷ links) edges ss o
      → Added links (e ∷ edges) ss o
  Added-link links e p q edges ss o linked a = record {
    result = a.result;
    returns = a.returns;
    links' = a.links';
    holds = a.holds;
    mem_iff = λ v w. (
      λ m. elim ((a.mem_iff v w).0 m) [
        | inl (inl new) ↦ inr (e, inl refl, (p, q, linked, ap (λ x. x.0) new, ap (λ x. x.1) new))
        | inl (inr old) ↦ inl old
        | inr (x, mx, need) ↦ inr (x, inr mx, need)
      ],
      λ m. (a.mem_iff v w).1 (elim m [
        | inl old ↦ inl (inr old)
        | inr (x, inl here, need) ↦
            let (p', q', edge, ev, ew) = subst (λ y. LinkedBy g y v w) here need in
            let same : (p', q') ≡ (p, q) = some-injective (sym edge ∙ linked) in
            inl (
              inl (
                ap₂ (λ a b. (a, b)) (ev ∙ ap (λ x. step_of x.0 (ast_id g e.source)) same)
                  (ew ∙ ap (λ x. step_of x.1 (ast_id g e.target)) same)))
        | inr (x, inr there, need) ↦ inr (x, there, need)
      ]),
    );
  }

  add_dependency_lem :
      (mapping : List (ℕ × StepEntry)) (cg : ComputationGraph) (e : EdgeReference StreamDependency)
      → e ∈ g.edges
      → add_dependency pg g mapping cg e
        ≡ add_between pg mapping cg e.weight (ast_id g e.source) (ast_id g e.target)
  unfolding add_dependency
  add_dependency_lem mapping cg e m =
      let (hs, ht) = graph.ends e m in
      let (v, ev) = graph.weight_of e.source hs in
      let (w, ew) = graph.weight_of e.target ht in
      let same =
        ap₂ (add_between pg mapping cg e.weight) (sym (ast_id_lem g e.source v ev))
          (sym (ast_id_lem g e.target w ew)) in
      >>=-step (expect (g.node_weight e.source)) _ (ap expect ev)
      ∙ >>=-step (expect (g.node_weight e.target)) _ (ap expect ew)
      ∙ same

  add_dependencies-Added :
      (mapping : List (ℕ × StepEntry)) (edges : List (EdgeReference StreamDependency))
      (cg : ComputationGraph) (ss : List ComputeStep) (links : List (ComputeStep × ComputeStep))
      → ((e : EdgeReference StreamDependency) → e ∈ edges → e ∈ g.edges)
      → Placed mapping cg
      → Holds pg lib cg ss links
      → Added links edges ss (add_dependencies pg g mapping edges cg)
  unfolding add_dependencies add_between
  add_dependencies-Added mapping [] cg ss links within placed holds = record {
    result = cg;
    returns = refl;
    links' = links;
    holds = holds;
    mem_iff = λ v w.
        (λ m. inl m, λ m. elim m [ inl old ↦ old | inr (x, nowhere, need) ↦ absurd nowhere ]);
  }
  add_dependencies-Added mapping (e ∷ edges) cg ss links within placed holds =
      let he = within e (inl refl) in
      let later = λ (x : EdgeReference StreamDependency) (m : x ∈ edges). within x (inr m) in
      let first = add_dependency_lem mapping cg e he in
      elim (Option-cases (computation_edge e.weight (ast_id g e.source) (ast_id g e.target))) [
        | inl skipped ↦ rw first (
            rw (skipped, add_between)
              (Added-skip links e edges ss _ skipped
                (add_dependencies-Added mapping edges cg ss links later placed holds)))
        | inr ((p, q), linked) ↦
            let (hs, ht) = graph.ends e he in
            let (from, ef, at_from) = placed e.source hs in
            let (to, et, at_to) = placed e.target ht in
            let v = step_of p (ast_id g e.source) in
            let w = step_of q (ast_id g e.target) in
            let cg' = pg.add_edge cg (entry_of from p) (entry_of to q) in
            let keeps =
              add_edge-Keeps pg lib cg ss links holds (entry_of from p) (entry_of to q) v w
                (at_from p) (at_to q) in
            let holds' =
              add_edge-Holds pg lib cg ss links holds (entry_of from p) (entry_of to q) v w
                (at_from p) (at_to q) in
            let placed' : Placed mapping cg' = λ n hn.
              let (x, ex, at_x) = placed n hn in
              (x, ex, λ r. keeps (entry_of x r) (step_of r (ast_id g n)) (at_x r)) in
            rw first (
              rw (linked, add_between)
                (rw (ef, et)
                  (Added-link links e p q edges ss _ linked (
                    add_dependencies-Added mapping edges cg' ss ((v, w) ∷ links) later placed'
                      holds'))))
      ]

  -- The identifiers of the nodes.
  mem_ids : (n : ℕ) → n ∈ g.node_indices → ast_id g n ∈ ids_after g.node_indices []
  mem_ids n m = (mem-ids_after g.node_indices [] (ast_id g n)).1 (inr (n, m, refl))

  -- For a graph whose nodes have distinct identifiers, the graph of steps is built without a panic; it
  -- holds each step once, namely the steps of the graph's nodes; and it links a step to another exactly
  -- if the step requires the other: within a stream, to be extended or terminated needs the invocation
  -- and to be evaluated needs the extension; between streams, as `NeedsStep` says.
  pub build_compute_graph-Requires :
      (cg : ComputationGraph) × (build_compute_graph pg g ≡ ok cg)
      × HasDistinctSteps pg cg
      × ((w : ComputeStep)
          → Has pg cg w
            ↔ ((n : ℕ) × (p : Part) × (n ∈ g.node_indices) × (w ≡ step_of p (ast_id g n))))
      × ((v w : ComputeStep) → Link pg cg v w ↔ Requires g v w)
  unfolding build_compute_graph
  build_compute_graph-Requires =
      let empty_streams : Streams pg lib pg.empty [] [] = record {
        holds = empty-Holds pg lib;
        placed = λ i m. absurd m;
      } in
      let (cg, mapping, nodes_done, st) =
        add_streams-Streams g.node_indices pg.empty [] [] graph.once
          (λ n m. (m, λ nowhere. nowhere)) empty_streams in
      let ids = ids_after g.node_indices [] in
      let placed = λ (n : ℕ) (m : n ∈ g.node_indices). st.placed (ast_id g n) (mem_ids n m) in
      let added =
        add_dependencies-Added mapping g.edges cg (all_steps ids) (inner_links ids) (λ e m. m)
          placed st.holds in
      let edge_iff = λ (e : EdgeReference StreamDependency).
        computation_edge-NeedsStep e.weight (ast_id g e.source) (ast_id g e.target) in
      (
        added.result,
        rw nodes_done added.returns,
        added.holds.distinct,
        λ w. (
          λ h.
              let (i, p, m, e) = part_of_mem ids w ((added.holds.has_iff w).0 h) in
              elim ((mem-ids_after g.node_indices [] i).0 m) [
                | inl nowhere ↦ absurd nowhere
                | inr (n, hn, same) ↦ (n, p, hn, e ∙ ap (step_of p) same)
              ],
          λ (n, p, hn, e). (added.holds.has_iff w).1 (
              subst (λ x. x ∈ all_steps ids) (sym e)
                (mem_of_part ids (ast_id g n) p (mem_ids n hn))),
        ),
        λ v w. (
          λ link. elim ((added.mem_iff v w).0 ((added.holds.link_iff v w).0 link)) [
            | inl inner ↦
                let (i, p, q, m, first, ev, ew) = (mem-inner_links ids v w).0 inner in
                elim ((mem-ids_after g.node_indices [] i).0 m) [
                  | inl nowhere ↦ absurd nowhere
                  | inr (n, hn, same) ↦
                      inl (n, p, q, hn, first, ev ∙ ap (step_of p) same, ew ∙ ap (step_of q) same)
                ]
            | inr (e, m, linked) ↦ inr (e, m, (edge_iff e v w).0 linked)
          ],
          λ r. (added.holds.link_iff v w).1 (
              (added.mem_iff v w).1 (elim r [
                | inl (n, p, q, hn, first, ev, ew) ↦
                    inl
                      ((mem-inner_links ids v w).1 (ast_id g n, p, q, mem_ids n hn, first, ev, ew))
                | inr (e, m, need) ↦ inr (e, m, (edge_iff e v w).1 need)
              ])),
        ),
      )
