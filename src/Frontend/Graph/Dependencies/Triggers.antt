-- ===== src/Frontend/Graph/Dependencies/Triggers.antt =====
-- frontend/src/analysis/graph_based_analysis/dependency_graph.rs: the edges that all triggers of a
-- specification add.
use rtlola.Common.{
  ℕ, true, some, List, [], ◌∷◌, ◌≡◌, refl, sym, subst, ◌∙◌, ◌⊎◌, inl, inr, ◌↔◌, some-injective,
  Returns, Returns-bind,
}
use rtlola.Common.Sets.{◌∈◌, lookup}
use rtlola.Frontend.Ast.{Trigger}
use rtlola.Frontend.Naming.{Declaration}
use rtlola.Frontend.Graph.{Location, StreamDependency, EdgeReference}
use rtlola.Frontend.Graph.Dependencies.{Crates, AddsEdges}
use rtlola.Frontend.Graph.Dependencies.Reads.{Read, reads, CallsFor, Adds}
use rtlola.Frontend.Graph.Dependencies.Fitting.{is_shaped, AllFound}
use rtlola.Frontend.Graph.Dependencies.Built.{add_edges_for_expression-Adds}
use rtlola.Frontend.Graph.Dependencies.Handlers.{add_trigger_dependencies}

module _ (c : Crates) (naming_table : List (ℕ × Declaration)) (mapping : List (ℕ × ℕ)) where
  open c use {G, edges}

  -- The expression of the trigger has passed the analyses before, and the trigger has a node.
  abbrev pub IsReady : Trigger → Type 0
  IsReady t =
      (n : ℕ) × (lookup mapping t.id ≡ some n)
      × (is_shaped t.expression ≡ true)
      × AllFound c naming_table mapping n Location.expression (reads t.expression)

  -- An access in the expression of the trigger calls for the edge.
  abbrev pub TriggerCalls : Trigger → EdgeReference StreamDependency → Type 0
  TriggerCalls t e =
      (n : ℕ) × (r : Read) × (lookup mapping t.id ≡ some n)
      × (r ∈ reads t.expression)
      × CallsFor c naming_table mapping n Location.expression r e

  abbrev pub AddsTriggers : List Trigger → G → G → Type 0
  AddsTriggers ts g g' =
      (e : EdgeReference StreamDependency)
      → (e ∈ edges g') ↔ ((e ∈ edges g) ⊎ ((t : Trigger) × (t ∈ ts) × TriggerCalls t e))

  AddsTriggers-cons :
      (t : Trigger) (ts : List Trigger) (n : ℕ) (g h k : G)
      → lookup mapping t.id ≡ some n
      → Adds c naming_table mapping n Location.expression (reads t.expression) g h
      → AddsTriggers ts h k
      → AddsTriggers (t ∷ ts) g k
  AddsTriggers-cons t ts n g h k found a b e = (
    (λ m. elim ((b e).0 m) [
      | inr (u, mem, calls) ↦ inr (u, inr mem, calls)
      | inl mid ↦ elim ((a e).0 mid) [
        | inl old ↦ inl old
        | inr (r, mem, call) ↦ inr (t, inl refl, (n, r, found, mem, call))
      ]
    ]),
    (λ m. elim m [
      | inl old ↦ (b e).1 (inl ((a e).1 (inl old)))
      | inr (u, inr mem, calls) ↦ (b e).1 (inr (u, mem, calls))
      | inr (u, inl same, calls) ↦
          let (n', r, found', mem, call) = subst (λ u. TriggerCalls u e) same calls in
          let nodes : n' ≡ n = some-injective (sym found' ∙ found) in
          (b e).1 (
            inl (
              (a e).1 (
                inr (
                  r,
                  mem,
                  subst (λ n. CallsFor c naming_table mapping n Location.expression r e) nodes call,
                ))))
    ]),
  )

  -- Let adding an edge add this edge and nothing else; let every trigger have a node, and an
  -- expression whose offsets and windows stand on identifiers, whose fields of tuples exist, and
  -- whose names are found. Then the triggers' dependencies are added without a panic, and the edges
  -- added are exactly those from the node of a trigger to the streams that its expression reads.
  pub add_trigger_dependencies-Adds :
      (triggers : List Trigger) (g : G)
      → AddsEdges c
      → ((t : Trigger) → t ∈ triggers → IsReady t)
      → Returns
          (AddsTriggers triggers g)
          (add_trigger_dependencies c naming_table mapping triggers g)
  unfolding add_trigger_dependencies
  add_trigger_dependencies-Adds [] g law ready = (
    g,
    refl,
    λ e. ((λ h. inl h), (λ h. elim h [ inl old ↦ old | inr (t, never, calls) ↦ absurd never ])),
  )
  add_trigger_dependencies-Adds (t ∷ ts) g law ready =
      let (n, found, shaped, all) = ready t (inl refl) in
      rw found (
        Returns-bind _ _
          (add_edges_for_expression-Adds c naming_table mapping n Location.expression t.expression g
            law shaped all)
          λ h a.
            let (k, eq, b) = add_trigger_dependencies-Adds ts h law (λ u mem. ready u (inr mem)) in
            (k, eq, AddsTriggers-cons t ts n g h k found a b))
