-- ===== src/Frontend/Graph/Inputs/Reaching.antt =====
-- frontend/src/analysis/graph_based_analysis/input_dependencies.rs: what one search keeps true.
use rtlola.Common.{
  ℕ, ◌+◌, ◌≤◌, ◌==◌, ==_iff, Bool, true, false, some, List, [], ◌∷◌, ◌++◌, append-nil, length, ok,
  ◌≡◌, ◌≢◌, refl, sym, ap, subst, ◌⊎◌, inl, inr, arith, Bool-cases, if-true, ne→==_false,
  ==_false→ne, Returns, Returns-bind,
}
use rtlola.Common.Sets.{
  ◌∈◌, contains, insert, contains-insert, contains-insert_self, lookup, put, lookup-put,
  count_missing, count_missing-insert,
}
use rtlola.Frontend.Graph.{
  StreamDependency, get_ast_id, EdgeReference, DependencyGraph, IsGraph, HasDistinctIds,
}
use rtlola.Frontend.Graph.Ids.{ast_id, ast_id_lem, ast_id_injective}
use rtlola.Frontend.Graph.Inputs.{SearchState, push_input, visit, visit_all}

-- A path of dependencies from one node to another.
pub data DependsOn (g : DependencyGraph) : ℕ → ℕ → Type 0 where
  itself : {n : ℕ} → DependsOn g n n
  through :
      {n m k : ℕ} (e : EdgeReference StreamDependency)
      → e ∈ g.edges
      → e.source ≡ n
      → e.target ≡ m
      → DependsOn g m k
      → DependsOn g n k

abbrev pub marked : ℕ → Bool → List ℕ
marked i true = i ∷ []
marked i false = []

abbrev pub itself_key : ℕ → ℕ
itself_key n = n

module _ (g : DependencyGraph) (graph : IsGraph g) (distinct : HasDistinctIds g) where
  open g use {node_indices, incoming_neighbors}

  abbrev pub Visited : SearchState → ℕ → Type 0
  Visited s n = contains s.visited n ≡ true

  abbrev pub measure : SearchState → ℕ
  measure s = length s.stack + count_missing itself_key s.visited node_indices

  -- The search from the input `k` with the identifier `i`: `base` are the inputs of the streams
  -- before it, and `Open` holds for the node whose neighbours are being visited.
  pub record Searches (k i : ℕ) (base : ℕ → List ℕ) (Open : ℕ → Type 0) (s : SearchState)
      : Type 0 where
    pub tags :
        (m : ℕ)
        → m ∈ node_indices
        → lookup s.input_dependencies (ast_id g m)
          ≡ some (base m ++ marked i (contains s.visited m))
    pub sound : (m : ℕ) → Visited s m → (m ∈ node_indices) × DependsOn g m k
    pub stacked : (m : ℕ) → m ∈ s.stack → Visited s m
    pub closed :
        (m : ℕ)
        → Visited s m
        → Open m ⊎ (m ∈ s.stack) ⊎ ((p : ℕ) → p ∈ incoming_neighbors m → Visited s p)

  -- the entry of a stream after one visit
  tag_visited :
      (i d m : ℕ) (base : ℕ → List ℕ) (s : SearchState)
      → d ∈ node_indices
      → m ∈ node_indices
      → contains s.visited d ≡ false
      → lookup s.input_dependencies (ast_id g m) ≡ some (base m ++ marked i (contains s.visited m))
      → lookup (put s.input_dependencies (ast_id g d) (base d ++ (i ∷ []))) (ast_id g m)
        ≡ some (base m ++ marked i (contains (insert s.visited d) m))
  tag_visited i d m base s hd hm new h = elim (Bool-cases (d == m)) [
    | inl e ↦
        let same : d ≡ m = (==_iff d m).0 e in
        rw
          (
            lookup-put s.input_dependencies (ast_id g d) (ast_id g m) (base d ++ (i ∷ [])),
            contains-insert s.visited d m,
            e,
            same,
            if-true (ast_id g m == ast_id g m) (some (base m ++ (i ∷ [])))
                (lookup s.input_dependencies (ast_id g m)) ((==_iff _ _).1 refl),
          )
          refl
    | inr e ↦
        let other : ast_id g d ≢ ast_id g m =
          λ q. ==_false→ne d m e (ast_id_injective g graph distinct d m hd hm q) in
        rw
          (
            lookup-put s.input_dependencies (ast_id g d) (ast_id g m) (base d ++ (i ∷ [])),
            contains-insert s.visited d m,
            e,
            ne→==_false (ast_id g d) (ast_id g m) other,
          )
          h
  ]

  -- What a step of the search does: `s'` is a state with the nodes of `ds` visited.
  pub record Goes (k i : ℕ) (base : ℕ → List ℕ) (Open : ℕ → Type 0) (ds : List ℕ)
      (s s' : SearchState) : Type 0 where
    pub searches : Searches k i base Open s'
    pub shrinks : measure s' ≤ measure s
    pub visits : (d : ℕ) → d ∈ ds → Visited s' d
    pub keeps : (m : ℕ) → Visited s m → Visited s' m

  visit_result : ℕ → ℕ → (ℕ → List ℕ) → SearchState → SearchState
  visit_result i d base s = record {
    visited = insert s.visited d;
    stack = d ∷ s.stack;
    input_dependencies = put s.input_dependencies (ast_id g d) (base d ++ (i ∷ []));
  }

  visit_lem :
      (i d : ℕ) (base : ℕ → List ℕ) (s : SearchState)
      → d ∈ node_indices
      → lookup s.input_dependencies (ast_id g d) ≡ some (base d)
      → visit g i d s ≡ ok (visit_result i d base s)
  unfolding visit push_input visit_result
  visit_lem i d base s hd h =
      let (w, e) = graph.weight_of d hd in
      let q : get_ast_id w ≡ ast_id g d = sym (ast_id_lem g d w e) in rw (e, q, h) refl

  inserted :
      (s : SearchState) (d m : ℕ) → contains (insert s.visited d) m ≡ true → (d ≡ m) ⊎ Visited s m
  inserted s d m h = ground (arith, contains-insert s.visited d m, h)

  keeps_insert : (s : SearchState) (d m : ℕ) → Visited s m → contains (insert s.visited d) m ≡ true
  keeps_insert s d m h = ground (arith, contains-insert s.visited d m, h)

  -- A visit keeps what is true of the search, and takes one of the nodes that are missing.
  pub visit-Goes :
      (k i d : ℕ) (base : ℕ → List ℕ) (Open : ℕ → Type 0) (s : SearchState)
      → d ∈ node_indices
      → DependsOn g d k
      → contains s.visited d ≡ false
      → Searches k i base Open s
      → Returns (Goes k i base Open (d ∷ []) s) (visit g i d s)
  unfolding visit_result
  visit-Goes k i d base Open s hd path new inv = (
    visit_result i d base s,
    visit_lem i d base s hd (rw (inv.tags d hd, new) (ap some (append-nil (base d)))),
    record {
      searches = record {
        tags = λ m hm. tag_visited i d m base s hd hm new (inv.tags m hm);
        sound = λ m h. elim (inserted s d m h) [
          | inl e ↦ subst (λ m. (m ∈ node_indices) × DependsOn g m k) e (hd, path)
          | inr old ↦ inv.sound m old
        ];
        stacked = λ m h. elim h [
          | inl e ↦
              subst (λ m. contains (insert s.visited d) m ≡ true) (sym e)
                (contains-insert_self s.visited d)
          | inr st ↦ keeps_insert s d m (inv.stacked m st)
        ];
        closed = λ m h. elim (inserted s d m h) [
          | inl e ↦ inr (inl (inl (sym e)))
          | inr old ↦ elim (inv.closed m old) [
            | inl o ↦ inl o
            | inr (inl st) ↦ inr (inl (inr st))
            | inr (inr c) ↦ inr (inr (λ p hp. keeps_insert s d p (c p hp)))
          ]
        ];
      };
      shrinks = omega (arith, count_missing-insert itself_key s.visited node_indices d hd new);
      visits = λ m h. elim h [
        | inl e ↦
            subst (λ m. contains (insert s.visited d) m ≡ true) (sym e)
              (contains-insert_self s.visited d)
        | inr n ↦ absurd n
      ];
      keeps = λ m h. keeps_insert s d m h;
    },
  )

  stay-Goes :
      (k i d : ℕ) (base : ℕ → List ℕ) (Open : ℕ → Type 0) (s : SearchState)
      → Visited s d
      → Searches k i base Open s
      → Goes k i base Open (d ∷ []) s s
  stay-Goes k i d base Open s h inv = record {
    searches = inv;
    shrinks = omega arith;
    visits = λ m e. elim e [ inl e ↦ subst (Visited s) (sym e) h | inr n ↦ absurd n ];
    keeps = λ m h. h;
  }

  Goes-cons :
      (k i d : ℕ) (base : ℕ → List ℕ) (Open : ℕ → Type 0) (ds : List ℕ) (s s' s'' : SearchState)
      → Goes k i base Open (d ∷ []) s s'
      → Goes k i base Open ds s' s''
      → Goes k i base Open (d ∷ ds) s s''
  Goes-cons k i d base Open ds s s' s'' a b = record {
    searches = b.searches;
    shrinks = omega (arith, a.shrinks, b.shrinks);
    visits = λ m h. elim h [ inl e ↦ b.keeps m (a.visits m (inl e)) | inr r ↦ b.visits m r ];
    keeps = λ m h. b.keeps m (a.keeps m h);
  }

  -- the loop over the neighbours
  pub visit_all-Goes :
      (k i : ℕ) (base : ℕ → List ℕ) (Open : ℕ → Type 0) (ds : List ℕ) (s : SearchState)
      → ((d : ℕ) → d ∈ ds → (d ∈ node_indices) × DependsOn g d k)
      → Searches k i base Open s
      → Returns (Goes k i base Open ds s) (visit_all g i ds s)
  unfolding visit_all
  visit_all-Goes k i base Open [] s hs inv = (
    s,
    refl,
    record { searches = inv; shrinks = omega arith; visits = λ m h. absurd h; keeps = λ m h. h },
  )
  visit_all-Goes k i base Open (d ∷ ds) s hs inv =
      let (hd, path) = hs d (inl refl) in
      Returns-bind {P = Goes k i base Open (d ∷ []) s} _ _
        (elim (Bool-cases (contains s.visited d)) [
          | inl old ↦ rw old (s, refl, stay-Goes k i d base Open s old inv)
          | inr new ↦ rw new (visit-Goes k i d base Open s hd path new inv)
        ])
        λ s' a.
          let (s'', e, b) = visit_all-Goes k i base Open ds s' (λ m hm. hs m (inr hm)) a.searches in
          (s'', e, Goes-cons k i d base Open ds s s' s'' a b)
