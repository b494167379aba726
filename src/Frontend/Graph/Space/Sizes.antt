-- ===== src/Frontend/Graph/Space/Sizes.antt =====
-- frontend/src/analysis/graph_based_analysis/space_requirements.rs: the storage requirement of every
-- stream.
use rtlola.Common.{
  ℕ, suc, ◌≤◌, ◌<◌, ◌==◌, Bool, true, false, ◌&&◌, ◌||◌, if◌then◌else◌, some, List, [], ◌∷◌,
  Outcome, ok, ◌≡◌, refl, ap, sym, ◌∙◌, subst, ◌⊎◌, inl, inr, arith, Bool-cases, some-injective,
  ==_false→ne, any,
}
use rtlola.Common.Sets.{◌∈◌, contains, put, lookup, lookup-put}
use rtlola.Frontend.Graph.{
  StreamNode, classic_input, rt_output, rt_trigger, StreamDependency, StorageRequirement,
  get_ast_id, EdgeReference, DependencyGraph, IsGraph, HasDistinctIds,
}
use rtlola.Frontend.Graph.Ids.{ast_id, ast_id_lem, ast_id_injective}
use rtlola.Frontend.Graph.Space.{
  Requirements, sized, buffer_sizes, store_input, store_inputs, determine_buffer_size,
}
use rtlola.Frontend.Graph.Space.Largest.{
  past_reach, looks_ahead, IsShort, largest, largest-ge, largest-covers, largest-attained,
  storage_for_lem,
}

or_assoc : (a b c : Bool) → ((a || b) || c) ≡ (a || (b || c))
or_assoc true b c = refl
or_assoc false b c = refl

abbrev pub is_input : StreamNode → Bool
is_input (classic_input _) = true
is_input (rt_output _ _) = false
is_input (rt_trigger _ _) = false

store_input_cases :
    (v : StreamNode) (m : Requirements)
    → (is_input v ≡ true) × (store_input v m ≡ put m (get_ast_id v) StorageRequirement.unbounded)
      ⊎ (is_input v ≡ false) × (store_input v m ≡ m)
unfolding store_input get_ast_id
store_input_cases (classic_input id) m = inl (refl, refl)
store_input_cases (rt_output id t) m = inr (refl, refl)
store_input_cases (rt_trigger id t) m = inr (refl, refl)

module _ (debug : Bool) (g : DependencyGraph) (graph : IsGraph g) (distinct : HasDistinctIds g)
    (s : List ℕ) where
  open g use {node_indices, incoming}

  abbrev demands_inputs : ℕ → Bool
  demands_inputs n = contains s (ast_id g n) && any (λ e. looks_ahead e.weight) (incoming n)

  abbrev Short : Type 0
  Short = (e : EdgeReference StreamDependency) → e ∈ g.edges → IsShort e.weight

  -- What the first loop returns for the nodes that it goes over.
  record Sizes (nodes : List ℕ) (m : Requirements) (all_inputs : Bool)
      (o : Outcome (Requirements × Bool)) : Type 0 where
    result : Requirements
    returns : o ≡ ok (result, all_inputs || any demands_inputs nodes)
    entry :
        (n : ℕ)
        → n ∈ nodes
        → lookup result (ast_id g n)
          ≡ some (sized (contains s (ast_id g n)) (largest 1 (incoming n)))
    other :
        (n : ℕ)
        → n ∈ node_indices
        → n ∈ nodes ⊎ (lookup result (ast_id g n) ≡ lookup m (ast_id g n))

  buffer_sizes-step :
      (x : ℕ) (nodes : List ℕ) (m : Requirements) (a : Bool) (w : StreamNode) (i : ℕ)
      → Short
      → g.node_weight x ≡ some w
      → i ≡ get_ast_id w
      → buffer_sizes debug g s (x ∷ nodes) m a
        ≡ buffer_sizes debug g s nodes
            (put m i (sized (contains s i) (largest 1 (incoming x))))
            (a || (contains s i && any (λ e. looks_ahead e.weight) (incoming x)))
  unfolding buffer_sizes
  buffer_sizes-step x nodes m a w i short e id =
      let edges =
        storage_for_lem debug (contains s i) 1 a (incoming x)
          (λ d hd. short d ((graph.incoming_iff x d).0 hd).0) (omega arith) in
      rw (e, ← id, edges) refl

  buffer_sizes-Sizes :
      (nodes : List ℕ) (m : Requirements) (all_inputs : Bool)
      → Short
      → ((n : ℕ) → n ∈ nodes → n ∈ node_indices)
      → Sizes nodes m all_inputs (buffer_sizes debug g s nodes m all_inputs)
  unfolding buffer_sizes
  buffer_sizes-Sizes [] m a short within = record {
    result = m;
    returns = ground arith;
    entry = λ n. elim [ ];
    other = λ n hn. inr refl;
  }
  buffer_sizes-Sizes (x ∷ nodes) m a short within =
      let hx = within x (inl refl) in
      let (w, e) = graph.weight_of x hx in
      let rest =
        buffer_sizes-Sizes nodes
          (put m (ast_id g x) (sized (contains s (ast_id g x)) (largest 1 (incoming x))))
          (a || demands_inputs x) short (λ n hn. within n (inr hn)) in
      record {
        result = rest.result;
        returns =
            buffer_sizes-step x nodes m a w (ast_id g x) short e (ast_id_lem g x w e)
            ∙ rest.returns
            ∙ ap (λ b. ok (rest.result, b))
                (or_assoc a (demands_inputs x) (any demands_inputs nodes));
        entry = λ n hn. elim (rest.other n (within n hn)) [
          | inl later ↦ rest.entry n later
          | inr same ↦ elim hn [
            | inl here ↦ same ∙ rw here (lookup-put m (ast_id g x) (ast_id g x) _ ∙ ground arith)
            | inr there ↦ rest.entry n there
          ]
        ];
        other = λ n hn. elim (rest.other n hn) [
          | inl later ↦ inl (inr later)
          | inr same ↦ elim (Bool-cases (ast_id g x == ast_id g n)) [
            | inl equal ↦ inl (inl (ast_id_injective g graph distinct n x hn hx (ground arith)))
            | inr differ ↦ inr (same ∙ lookup-put m (ast_id g x) (ast_id g n) _ ∙ rw differ)
          ]
        ];
      }

  -- What the second loop leaves for a node, if it goes over `nodes`.
  abbrev Kept : List ℕ → Requirements → Requirements → ℕ → StreamNode → Type 0
  Kept nodes m m' n w =
      (is_input w ≡ true) × (lookup m' (ast_id g n) ≡ some StorageRequirement.unbounded)
      ⊎ (lookup m' (ast_id g n) ≡ lookup m (ast_id g n)) × (n ∈ nodes → is_input w ≡ false)

  Kept-cons :
      (x : ℕ) (v : StreamNode) (nodes : List ℕ) (m m' : Requirements) (n : ℕ) (w : StreamNode)
      → g.node_weight x ≡ some v
      → g.node_weight n ≡ some w
      → Kept nodes (store_input v m) m' n w
      → Kept (x ∷ nodes) m m' n w
  Kept-cons x v nodes m m' n w ex en (inl input) = inl input
  Kept-cons x v nodes m m' n w ex en (inr (same, rest)) = elim (store_input_cases v m) [
    | inl (input, stored) ↦ elim (Bool-cases (get_ast_id v == ast_id g n)) [
      | inl equal ↦
          let here = distinct x n v w ex en (ground (arith, ast_id_lem g n w en)) in
          inl (
            subst (λ u. is_input u ≡ true) (some-injective (sym ex ∙ ap g.node_weight here ∙ en))
                input,
            same ∙ rw stored (lookup-put m (get_ast_id v) (ast_id g n) _ ∙ rw equal),
          )
      | inr differ ↦ inr (
        same ∙ rw stored (lookup-put m (get_ast_id v) (ast_id g n) _ ∙ rw differ),
        λ h. elim h [
          | inl here ↦
              absurd (==_false→ne _ _ differ (sym (ast_id_lem g x v ex) ∙ ap (ast_id g) (sym here)))
          | inr there ↦ rest there
        ],
      )
    ]
    | inr (stream, stored) ↦ inr (
      same ∙ ap (λ k. lookup k (ast_id g n)) stored,
      λ h. elim h [
        | inl here ↦
            subst (λ u. is_input u ≡ false)
              (some-injective (sym ex ∙ ap g.node_weight (sym here) ∙ en)) stream
        | inr there ↦ rest there
      ],
    )
  ]

  store_inputs_lem :
      (nodes : List ℕ) (m : Requirements)
      → ((n : ℕ) → n ∈ nodes → n ∈ node_indices)
      → (m' : Requirements) × (store_inputs debug g s nodes m ≡ ok m')
        × ((n : ℕ) (w : StreamNode) → g.node_weight n ≡ some w → Kept nodes m m' n w)
  unfolding store_inputs
  store_inputs_lem [] m within = (m, refl, λ n w e. inr (refl, elim [ ]))
  store_inputs_lem (x ∷ nodes) m within =
      let (v, e) = graph.weight_of x (within x (inl refl)) in
      let (m', returns, kept) =
        store_inputs_lem nodes (store_input v m) (λ n hn. within n (inr hn)) in
      (m', rw e returns, λ n w en. Kept-cons x v nodes m m' n w e en (kept n w en))

  -- `k` is one more than the farthest access into the past of the node's stream, and at least one.
  pub record Suffices (n k : ℕ) : Type 0 where
    pub positive : 1 ≤ k
    pub covers :
        (e : EdgeReference StreamDependency) → e ∈ g.edges → e.target ≡ n → past_reach e.weight < k
    pub attained :
        (k ≡ 1)
        ⊎ ((e : EdgeReference StreamDependency) × (e ∈ g.edges)
            × (e.target ≡ n)
            × (k ≡ suc (past_reach e.weight)))

  largest-Suffices : (n : ℕ) → Suffices n (largest 1 (incoming n))
  largest-Suffices n = record {
    positive = largest-ge 1 (incoming n);
    covers = λ e he to. largest-covers 1 (incoming n) e ((graph.incoming_iff n e).1 (he, to));
    attained = elim (largest-attained 1 (incoming n)) [
      | inl least ↦ inl least
      | inr (e, he, equal) ↦
          let (listed, to) = (graph.incoming_iff n e).0 he in inr (e, listed, to, equal)
    ];
  }

  -- Does a stream that depends on the future look ahead outside of its expression?
  abbrev pub keeps_inputs : Bool
  keeps_inputs = any demands_inputs node_indices

  abbrev pub requirement : StreamNode → ℕ → StorageRequirement
  requirement w k =
      if keeps_inputs && is_input w
      then StorageRequirement.unbounded
      else sized (contains s (get_ast_id w)) k

  -- In a graph whose nodes have distinct identifiers and whose accesses reach less than 65535 values
  -- into the past, the analysis returns without a panic, and for every stream it asks for one value
  -- more than the farthest access by a discrete offset into the stream's past, and for one at least
  -- (accesses by real time count as reaching no value back); as a requirement on future references, if
  -- the stream is in the given set, and for all values of an input, if an access outside of an
  -- expression looks ahead in a stream of the set.
  pub determine_buffer_size-Suffices :
      Short
      → (m : Requirements) × (determine_buffer_size debug g s ≡ ok m)
        × ((n : ℕ) (w : StreamNode)
            → g.node_weight n ≡ some w
            → (k : ℕ) × Suffices n k × (lookup m (get_ast_id w) ≡ some (requirement w k)))
  unfolding determine_buffer_size
  determine_buffer_size-Suffices short =
      let sizes = buffer_sizes-Sizes node_indices [] false short (λ n hn. hn) in
      let (m, stored, kept) = store_inputs_lem node_indices sizes.result (λ n hn. hn) in
      elim (Bool-cases keeps_inputs) [
        | inl keep ↦ (
          m,
          rw sizes.returns (rw keep stored),
          λ n w e. (
            largest 1 (incoming n),
            largest-Suffices n,
            rw keep (elim (kept n w e) [
              | inl (input, all_kept) ↦ rw input (
                  subst (λ i. lookup m i ≡ some StorageRequirement.unbounded) (ast_id_lem g n w e)
                    all_kept)
              | inr (same, stream) ↦ rw (stream (graph.listed n w e)) (
                  subst (λ i. lookup m i ≡ some (sized (contains s i) (largest 1 (incoming n))))
                    (ast_id_lem g n w e) (same ∙ sizes.entry n (graph.listed n w e)))
            ]),
          ),
        )
        | inr forget ↦ (
          sizes.result,
          rw sizes.returns (rw forget refl),
          λ n w e. (
            largest 1 (incoming n),
            largest-Suffices n,
            rw forget (
                subst
                  (λ i.
                    lookup sizes.result i ≡ some (sized (contains s i) (largest 1 (incoming n))))
                  (ast_id_lem g n w e) (sizes.entry n (graph.listed n w e))),
          ),
        )
      ]
