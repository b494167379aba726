-- ===== src/Frontend/Graph/Inputs/Required.antt =====
-- frontend/src/analysis/graph_based_analysis/input_dependencies.rs: the table lists for each stream
-- the inputs that it depends on.
use rtlola.Common.{
  ℕ, some, List, [], ◌∷◌, ==_iff, if-true, ◌≡◌, refl, sym, ◌⊎◌, inl, inr, ◌↔◌, arith, Returns,
  Returns-bind,
}
use rtlola.Common.Sets.{◌∈◌, lookup, put, lookup-put}
use rtlola.Frontend.Graph.{get_ast_id, DependencyGraph, IsGraph, HasDistinctIds}
use rtlola.Frontend.Graph.Ids.{ast_id, ast_id_lem}
use rtlola.Frontend.Graph.Inputs.{
  RequiredInputs, no_inputs, color_inputs, determine_required_inputs,
}
use rtlola.Frontend.Graph.Inputs.Collecting.{Collects, NeedsInput, color_input-Collects}

module _ (g : DependencyGraph) (graph : IsGraph g) (distinct : HasDistinctIds g) where
  open g use {node_indices}

  split-NeedsInput :
      (n : ℕ) (ns : List ℕ) (P : ℕ → ℕ → Type 0) (m i : ℕ)
      → ((P m i ⊎ NeedsInput g graph distinct (n ∷ []) m i) ⊎ NeedsInput g graph distinct ns m i)
        ↔ (P m i ⊎ NeedsInput g graph distinct (n ∷ ns) m i)
  split-NeedsInput n ns P m i = (
    (λ h. elim h [
      | inl (inl p) ↦ inl p
      | inl (inr (k, inl e, w, d)) ↦ inr (k, inl e, w, d)
      | inl (inr (k, inr never, w, d)) ↦ absurd never
      | inr (k, mem, w, d) ↦ inr (k, inr mem, w, d)
    ]),
    (λ h. elim h [
      | inl p ↦ inl (inl p)
      | inr (k, inl e, w, d) ↦ inl (inr (k, inl e, w, d))
      | inr (k, inr mem, w, d) ↦ inr (k, mem, w, d)
    ]),
  )

  same-Collects :
      {P Q : ℕ → ℕ → Type 0} (dependencies : RequiredInputs)
      → ((m i : ℕ) → P m i ↔ Q m i)
      → Collects g graph distinct P dependencies
      → Collects g graph distinct Q dependencies
  same-Collects dependencies same h m hm =
      let (v, e, iff) = h m hm in
      (v, e, λ i. ((λ x. (same m i).0 ((iff i).0 x)), (λ q. (iff i).1 ((same m i).1 q))))

  color_inputs-Collects :
      (ns : List ℕ) {P : ℕ → ℕ → Type 0} (dependencies : RequiredInputs)
      → ((n : ℕ) → n ∈ ns → n ∈ node_indices)
      → Collects g graph distinct P dependencies
      → Returns
          (Collects g graph distinct (λ m i. P m i ⊎ NeedsInput g graph distinct ns m i))
          (color_inputs g ns dependencies)
  unfolding color_inputs
  color_inputs-Collects [] {P = P} dependencies hn h = (
    dependencies,
    refl,
    same-Collects dependencies
        (λ m i. ((λ p. inl p), (λ x. elim x [ inl p ↦ p | inr (k, never, w, d) ↦ absurd never ])))
        h,
  )
  color_inputs-Collects (n ∷ ns) {P = P} dependencies hn h =
      let (w, e) = graph.weight_of n (hn n (inl refl)) in
      rw e (
        Returns-bind _ _
          (color_input-Collects g graph distinct n w dependencies (hn n (inl refl)) e h)
          λ d' h'.
            let (r, e', c) = color_inputs-Collects ns d' (λ k hk. hn k (inr hk)) h' in
            (r, e', same-Collects r (split-NeedsInput n ns P) c))

  -- the first loop
  no_inputs_lem :
      (ns : List ℕ) (dependencies : RequiredInputs)
      → ((n : ℕ) → n ∈ ns → n ∈ node_indices)
      → Returns
          (λ d.
            (m : ℕ)
            → (m ∈ ns) ⊎ (lookup dependencies (ast_id g m) ≡ some [])
            → lookup d (ast_id g m) ≡ some [])
          (no_inputs g ns dependencies)
  unfolding no_inputs
  no_inputs_lem [] dependencies hn =
      (dependencies, refl, λ m h. elim h [ inl never ↦ absurd never | inr e ↦ e ])
  no_inputs_lem (n ∷ ns) dependencies hn =
      let (w, e) = graph.weight_of n (hn n (inl refl)) in
      let id : get_ast_id w ≡ ast_id g n = sym (ast_id_lem g n w e) in
      let (d, r, h) =
        no_inputs_lem ns (put dependencies (get_ast_id w) []) (λ k hk. hn k (inr hk)) in
      (
        d,
        rw e r,
        λ m q. h m (elim q [
          | inl (inr later) ↦ inl later
          | inl (inl here) ↦ inr (
              rw (here, id, lookup-put dependencies (ast_id g n) (ast_id g n) [])
                (if-true _ _ _ ((==_iff (ast_id g n) (ast_id g n)).1 refl)))
          | inr old ↦
              inr (ground (arith, lookup-put dependencies (get_ast_id w) (ast_id g m) [], old))
        ]),
      )

-- Let a graph have different identifiers for different nodes. Then the analysis returns a table
-- that lists for each stream the identifiers of exactly those inputs that it depends on, directly
-- or through other streams.
pub determine_required_inputs-Collects :
    (g : DependencyGraph) (graph : IsGraph g) (distinct : HasDistinctIds g)
    → Returns
        (Collects g graph distinct (NeedsInput g graph distinct g.node_indices))
        (determine_required_inputs g)
unfolding determine_required_inputs
determine_required_inputs-Collects g graph distinct =
    Returns-bind _ _ (no_inputs_lem g graph distinct g.node_indices [] (λ n h. h)) λ d h.
      let (r, e, c) =
        color_inputs-Collects g graph distinct g.node_indices {P = λ m i. ⊥} d (λ n h. h)
          (λ m hm. ([], h m (inl hm), λ i. ((λ x. x), (λ x. x)))) in
      (
        r,
        e,
        same-Collects g graph distinct r
            (λ m i. ((λ x. elim x [ inl never ↦ absurd never | inr q ↦ q ]), (λ q. inr q))) c,
      )
