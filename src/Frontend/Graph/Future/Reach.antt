-- ===== src/Frontend/Graph/Future/Reach.antt =====
-- frontend/src/analysis/graph_based_analysis/future_dependency.rs: the marked streams are those
-- that reach an access to a future value.
use rtlola.Common.{
  ℕ, zero, suc, ◌≤◌, true, false, some, List, [], ◌∷◌, length, Outcome, ok, ◌≡◌, refl, sym, subst,
  ◌⊎◌, inl, inr, ◌↔◌, arith, Bool-cases,
}
use rtlola.Common.Sets.{
  ◌∈◌, contains, insert, contains-insert, contains-insert_self, Includes, Includes-insert,
  count_missing, count_missing_mono, count_missing-insert, count_missing-le-length, any-mem,
  any_of_mem,
}
use rtlola.Frontend.Graph.{
  StreamNode, StreamDependency, get_ast_id, EdgeReference, DependencyGraph, IsGraph, HasDistinctIds,
}
use rtlola.Frontend.Graph.Ids.{ast_id, ast_id_lem, ast_id_injective}
use rtlola.Frontend.Graph.Future.{
  is_future, id_of, directly_future_dependent, propagate_to, propagate_future_dependence, mark_all,
  future_dependent_stream,
}

module _ (g : DependencyGraph) (graph : IsGraph g) where
  -- A path of dependencies that ends with an access to a future value.
  pub data DependsOnFuture : ℕ → Type 0 where
    access :
        {n : ℕ} (e : EdgeReference StreamDependency)
        → e ∈ g.edges
        → e.source ≡ n
        → is_future e.weight ≡ true
        → DependsOnFuture n
    through :
        {n m : ℕ} (e : EdgeReference StreamDependency)
        → e ∈ g.edges
        → e.source ≡ n
        → e.target ≡ m
        → DependsOnFuture m
        → DependsOnFuture n

module _ (g : DependencyGraph) (graph : IsGraph g) (distinct : HasDistinctIds g) where
  open g use {node_indices, incoming_neighbors}

  id_of_lem : (n : ℕ) → n ∈ node_indices → id_of g n ≡ ok (ast_id g n)
  unfolding id_of
  id_of_lem n m = let (w, e) = graph.weight_of n m in ground (arith, e)

  abbrev Marked : List ℕ → ℕ → Type 0
  Marked s n = contains s (ast_id g n) ≡ true

  -- What marking adds: only what depends on the future, and with a node all that depend on it.
  record Propagates (s s' : List ℕ) : Type 0 where
    keeps : Includes s s'
    sound : (m : ℕ) → m ∈ node_indices → Marked s' m → Marked s m ⊎ DependsOnFuture g graph m
    closed :
        (m : ℕ)
        → m ∈ node_indices
        → Marked s' m
        → Marked s m ⊎ ((p : ℕ) → p ∈ incoming_neighbors m → Marked s' p)

  Propagates-refl : (s : List ℕ) → Propagates s s
  Propagates-refl s = record { keeps = λ a h. h; sound = λ m hm h. inl h; closed = λ m hm h. inl h }

  Propagates-trans : (s t u : List ℕ) → Propagates s t → Propagates t u → Propagates s u
  Propagates-trans s t u p q = record {
    keeps = λ a h. q.keeps a (p.keeps a h);
    sound = λ m hm h. elim (q.sound m hm h) [ inl old ↦ p.sound m hm old | inr new ↦ inr new ];
    closed = λ m hm h. elim (q.closed m hm h) [
      | inl old ↦ elim (p.closed m hm old) [
        | inl older ↦ inl older
        | inr new ↦ inr (λ n hn. q.keeps (ast_id g n) (new n hn))
      ]
      | inr new ↦ inr new
    ];
  }

  -- The outcome marks the targets, and what it adds is as above.
  record Ends (s targets : List ℕ) (o : Outcome (List ℕ)) : Type 0 where
    result : List ℕ
    returns : o ≡ ok result
    propagates : Propagates s result
    marks : (m : ℕ) → m ∈ targets → Marked result m

  abbrev missing : List ℕ → ℕ
  missing s = count_missing (ast_id g) s node_indices

  -- What is asked of the marking of one node, by sets with at most `fuel` nodes missing.
  abbrev GoEnds : ℕ → (ℕ → List ℕ → Outcome (List ℕ)) → Type 0
  GoEnds fuel go =
      (n : ℕ) (s : List ℕ)
      → n ∈ node_indices
      → DependsOnFuture g graph n
      → contains s (ast_id g n) ≡ false
      → missing s ≤ fuel
      → Ends s (n ∷ []) (go n s)

  Ends-cons :
      (n : ℕ) (rest s t : List ℕ) (o : Outcome (List ℕ))
      → Propagates s t
      → Marked t n
      → Ends t rest o
      → Ends s (n ∷ rest) o
  Ends-cons n rest s t o p m e = record {
    result = e.result;
    returns = e.returns;
    propagates = Propagates-trans s t e.result p e.propagates;
    marks = λ k hk. elim hk [
      | inl here ↦ subst (Marked e.result) (sym here) (e.propagates.keeps (ast_id g n) m)
      | inr there ↦ e.marks k there
    ];
  }

  propagate_to-Ends :
      (fuel : ℕ) (go : ℕ → List ℕ → Outcome (List ℕ)) (targets s : List ℕ)
      → GoEnds fuel go
      → ((m : ℕ) → m ∈ targets → (m ∈ node_indices) × DependsOnFuture g graph m)
      → missing s ≤ fuel
      → Ends s targets (propagate_to g go targets s)
  unfolding propagate_to
  propagate_to-Ends fuel go [] s ends h enough = record {
    result = s;
    returns = refl;
    propagates = Propagates-refl s;
    marks = λ m. elim [ ];
  }
  propagate_to-Ends fuel go (n ∷ rest) s ends h enough =
      let (hn, dep) = h n (inl refl) in
      rw (id_of_lem n hn) (elim (Bool-cases (contains s (ast_id g n))) [
        | inl old ↦ rw old (
            Ends-cons n rest s s _ (Propagates-refl s) old
              (propagate_to-Ends fuel go rest s ends (λ m hm. h m (inr hm)) enough))
        | inr new ↦
            let first = ends n s hn dep new enough in
            let fewer =
              count_missing_mono (ast_id g) s first.result node_indices first.propagates.keeps in
            rw (new, first.returns)
              (Ends-cons n rest s first.result _ first.propagates (first.marks n (inl refl)) (
                propagate_to-Ends fuel go rest first.result ends (λ m hm. h m (inr hm))
                  (omega arith)))
      ])

  -- A node enters the set, and then what depends on it.
  Propagates-insert :
      (n : ℕ) (s t : List ℕ)
      → n ∈ node_indices
      → DependsOnFuture g graph n
      → Propagates (insert s (ast_id g n)) t
      → ((p : ℕ) → p ∈ incoming_neighbors n → Marked t p)
      → Propagates s t
  Propagates-insert n s t hn dep p all = record {
    keeps = λ a h. p.keeps a (Includes-insert s (ast_id g n) a h);
    sound = λ m hm h. elim (p.sound m hm h) [
      | inl old ↦ elim (split m old) [
        | inl same ↦
            inr (
              subst (DependsOnFuture g graph) (ast_id_injective g graph distinct n m hn hm same)
                dep)
        | inr older ↦ inl older
      ]
      | inr new ↦ inr new
    ];
    closed = λ m hm h. elim (p.closed m hm h) [
      | inl old ↦ elim (split m old) [
        | inl same ↦ inr (
            subst (λ k. (q : ℕ) → q ∈ incoming_neighbors k → Marked t q)
              (ast_id_injective g graph distinct n m hn hm same) all)
        | inr older ↦ inl older
      ]
      | inr new ↦ inr new
    ];
  }
    where
      split : (m : ℕ) → Marked (insert s (ast_id g n)) m → (ast_id g n ≡ ast_id g m) ⊎ Marked s m
      split m h = ground (arith, contains-insert s (ast_id g n) (ast_id g m))

  dependent :
      (n : ℕ)
      → DependsOnFuture g graph n
      → (m : ℕ) → m ∈ incoming_neighbors n
      → (m ∈ node_indices) × DependsOnFuture g graph m
  dependent n dep m h =
      let (e, he, from, to) = (graph.neighbor_iff n m).0 h in
      (subst (λ k. k ∈ node_indices) from (graph.ends e he).0, through e he from to dep)

  propagate_future_dependence-Ends : (fuel : ℕ) → GoEnds fuel (propagate_future_dependence g fuel)
  unfolding propagate_future_dependence
  propagate_future_dependence-Ends zero n s hn dep new enough =
      absurd (omega (arith, count_missing-insert (ast_id g) s node_indices n hn new))
  propagate_future_dependence-Ends (suc fuel) n s hn dep new enough =
      let fewer = count_missing-insert (ast_id g) s node_indices n hn new in
      let rest =
        propagate_to-Ends fuel (propagate_future_dependence g fuel) (incoming_neighbors n)
          (insert s (ast_id g n)) (propagate_future_dependence-Ends fuel) (dependent n dep)
          (omega arith) in
      record {
        result = rest.result;
        returns = rw (id_of_lem n hn) rest.returns;
        propagates = Propagates-insert n s rest.result hn dep rest.propagates rest.marks;
        marks = λ m. elim [
          | inl e ↦
              subst (Marked rest.result) (sym e)
                (rest.propagates.keeps (ast_id g n) (contains-insert_self s (ast_id g n)))
          | inr nothing ↦ absurd nothing
        ];
      }

  -- What the loop over the nodes returns, and that it marks the nodes that access the future.
  record Covers (s nodes : List ℕ) (o : Outcome (List ℕ)) : Type 0 where
    result : List ℕ
    returns : o ≡ ok result
    propagates : Propagates s result
    marks : (m : ℕ) → m ∈ nodes → directly_future_dependent g m ≡ true → Marked result m

  Covers-cons :
      (n : ℕ) (rest s t : List ℕ) (o : Outcome (List ℕ))
      → Propagates s t
      → (directly_future_dependent g n ≡ true → Marked t n)
      → Covers t rest o
      → Covers s (n ∷ rest) o
  Covers-cons n rest s t o p m e = record {
    result = e.result;
    returns = e.returns;
    propagates = Propagates-trans s t e.result p e.propagates;
    marks = λ k hk direct. elim hk [
      | inl here ↦ subst (Marked e.result) (sym here) (
          e.propagates.keeps (ast_id g n)
            (m (subst (λ i. directly_future_dependent g i ≡ true) here direct)))
      | inr there ↦ e.marks k there direct
    ];
  }

  directly-DependsOnFuture :
      (n : ℕ) → directly_future_dependent g n ≡ true → DependsOnFuture g graph n
  unfolding directly_future_dependent
  directly-DependsOnFuture n h =
      let (e, he, future) = any-mem (λ e. is_future e.weight) (g.outgoing n) h in
      let (listed, from) = (graph.outgoing_iff n e).0 he in access e listed from future

  mark_all-Covers :
      (nodes s : List ℕ)
      → ((m : ℕ) → m ∈ nodes → m ∈ node_indices)
      → Covers s nodes (mark_all g nodes s)
  unfolding mark_all
  mark_all-Covers [] s h = record {
    result = s;
    returns = refl;
    propagates = Propagates-refl s;
    marks = λ m. elim [ ];
  }
  mark_all-Covers (n ∷ rest) s h =
      let hn = h n (inl refl) in
      let go_on = λ (t : List ℕ). mark_all-Covers rest t (λ m hm. h m (inr hm)) in
      rw (id_of_lem n hn) (elim (Bool-cases (contains s (ast_id g n))) [
        | inl old ↦ rw old (Covers-cons n rest s s _ (Propagates-refl s) (λ direct. old) (go_on s))
        | inr new ↦ elim (Bool-cases (directly_future_dependent g n)) [
          | inl direct ↦
              let first =
                propagate_future_dependence-Ends (length node_indices) n s hn
                  (directly-DependsOnFuture n direct) new
                  (count_missing-le-length (ast_id g) s node_indices) in
              rw (new, direct, first.returns)
                (Covers-cons n rest s first.result _ first.propagates
                  (λ _. first.marks n (inl refl)) (go_on first.result))
          | inr indirect ↦
              rw (new, indirect)
                (Covers-cons n rest s s _ (Propagates-refl s) (λ direct. cc) (go_on s))
        ]
      ])

  -- With nothing marked before, all that depends on the future is marked in the end.
  Marked-of_depends :
      (t : List ℕ)
      → Propagates [] t
      → ((m : ℕ) → m ∈ node_indices → directly_future_dependent g m ≡ true → Marked t m)
      → {n : ℕ} → DependsOnFuture g graph n
      → Marked t n
  unfolding directly_future_dependent
  Marked-of_depends t p direct (access {n} e he from future) =
      direct n (subst (λ k. k ∈ node_indices) from (graph.ends e he).0) (
        any_of_mem (λ e. is_future e.weight) (g.outgoing n) e
          ((graph.outgoing_iff n e).1 (he, from)) future)
  Marked-of_depends t p direct (through {n} {m} e he from to rest) =
      let hm = subst (λ k. k ∈ node_indices) to (graph.ends e he).1 in
      elim (p.closed m hm (Marked-of_depends t p direct rest)) [
        | inl before ↦ cc
        | inr all ↦ all n ((graph.neighbor_iff m n).1 (e, he, from, to))
      ]

-- In a graph whose nodes have distinct identifiers the analysis ends without a panic, and the set
-- holds the identifier of a node exactly if a path of dependencies leads from the node to an access
-- to a future value.
pub future_dependent_stream-DependsOnFuture :
    (g : DependencyGraph) (graph : IsGraph g)
    → HasDistinctIds g
    → (s : List ℕ) × (future_dependent_stream g ≡ ok s)
      × ((n : ℕ) (w : StreamNode)
          → g.node_weight n ≡ some w
          → (contains s (get_ast_id w) ≡ true) ↔ DependsOnFuture g graph n)
unfolding future_dependent_stream
future_dependent_stream-DependsOnFuture g graph distinct =
    let all = mark_all-Covers g graph distinct g.node_indices [] (λ m hm. hm) in
    (
      all.result,
      all.returns,
      λ n w e.
          let id = ast_id_lem g n w e in
          (
            λ marked.
                elim (all.propagates.sound n (graph.listed n w e)
                  (subst (λ k. contains all.result k ≡ true) (sym id) marked)) [
                    | inl before ↦ cc
                    | inr depends ↦ depends
                  ],
            λ depends.
                subst (λ k. contains all.result k ≡ true) id
                  (Marked-of_depends g graph distinct all.result all.propagates all.marks depends),
          ),
    )
