-- ===== src/Frontend/Graph/Inputs/Collecting.antt =====
-- frontend/src/analysis/graph_based_analysis/input_dependencies.rs: what the table lists after the
-- search from one node.
use rtlola.Common.{
  ℕ, Bool, true, false, Option, some, none, List, [], ◌∷◌, ◌++◌, append-nil, length, ◌>>=◌,
  bind_assoc, some-injective, ◌≡◌, refl, sym, ap, subst, ◌∙◌, ◌⊎◌, inl, inr, ◌↔◌, arith, Returns,
  Returns-bind,
}
use rtlola.Common.Sets.{mem-append, ◌∈◌, lookup, count_missing-le-length}
use rtlola.Frontend.Graph.{
  StreamNode, rt_output, rt_trigger, classic_input, get_ast_id, DependencyGraph, IsGraph,
  HasDistinctIds,
}
use rtlola.Frontend.Graph.Ids.{ast_id}
use rtlola.Frontend.Graph.Inputs.{
  RequiredInputs, SearchState, push_input, visit, bfs_color_reachable, color_input,
}
use rtlola.Frontend.Graph.Inputs.Reaching.{
  DependsOn, itself, marked, itself_key, Searches, visit-Goes,
}
use rtlola.Frontend.Graph.Inputs.Search.{Never, Colors, bfs_color_reachable-Colors}

abbrev or_empty : Option (List ℕ) → List ℕ
or_empty none = []
or_empty (some xs) = xs

module _ (g : DependencyGraph) (graph : IsGraph g) (distinct : HasDistinctIds g) where
  open g use {node_indices}

  -- For every stream the table lists the identifiers `i` for which `P` holds.
  abbrev pub Collects : (ℕ → ℕ → Type 0) → RequiredInputs → Type 0
  Collects P dependencies =
      (m : ℕ)
      → m ∈ node_indices
      → (inputs : List ℕ) × (lookup dependencies (ast_id g m) ≡ some inputs)
        × ((i : ℕ) → (i ∈ inputs) ↔ P m i)

  -- Stream `m` depends on an input with the identifier `i`, among the given nodes.
  abbrev pub NeedsInput : List ℕ → ℕ → ℕ → Type 0
  NeedsInput nodes m i =
      (k : ℕ) × (k ∈ nodes) × (g.node_weight k ≡ some (classic_input i)) × DependsOn g m k

  abbrev base_of : RequiredInputs → ℕ → List ℕ
  base_of dependencies m = or_empty (lookup dependencies (ast_id g m))

  base_of_lem :
      {P : ℕ → ℕ → Type 0} (dependencies : RequiredInputs)
      → Collects P dependencies
      → (m : ℕ) → m ∈ node_indices
      → (lookup dependencies (ast_id g m) ≡ some (base_of dependencies m))
        × ((i : ℕ) → (i ∈ base_of dependencies m) ↔ P m i)
  base_of_lem dependencies h m hm = let (v, e, q) = h m hm in (rw e refl, rw e q)

  start : RequiredInputs → SearchState
  start dependencies = record { visited = []; stack = []; input_dependencies = dependencies }

  start-Searches :
      (k i : ℕ) {P : ℕ → ℕ → Type 0} (dependencies : RequiredInputs)
      → Collects P dependencies
      → Searches g graph distinct k i (base_of dependencies) Never (start dependencies)
  unfolding start
  start-Searches k i dependencies h = record {
    tags = λ m hm.
        (base_of_lem dependencies h m hm).0 ∙ ap some (sym (append-nil (base_of dependencies m)));
    sound = λ m e. cc;
    stacked = λ m n. absurd n;
    closed = λ m e. cc;
  }

  -- The search begins by visiting the input itself.
  color_input-visit :
      (n i : ℕ) (dependencies : RequiredInputs)
      → g.node_weight n ≡ some (classic_input i)
      → color_input g n (classic_input i) dependencies
        ≡ (visit g i n (start dependencies) >>= bfs_color_reachable g (length node_indices) i)
  unfolding color_input visit start get_ast_id
  color_input-visit n i dependencies e = rw e (sym (bind_assoc (push_input dependencies i i) _ _))

  from_mark :
      (n id m i : ℕ) (b : Bool)
      → g.node_weight n ≡ some (classic_input id)
      → (b ≡ true) ↔ DependsOn g m n
      → i ∈ marked id b
      → NeedsInput (n ∷ []) m i
  from_mark n id m i false w path h = absurd h
  from_mark n id m i true w path (inl e) = (n, inl refl, rw e w, path.0 refl)
  from_mark n id m i true w path (inr h) = absurd h

  to_mark :
      (n id m i : ℕ) (b : Bool)
      → g.node_weight n ≡ some (classic_input id)
      → (b ≡ true) ↔ DependsOn g m n
      → NeedsInput (n ∷ []) m i
      → i ∈ marked id b
  to_mark n id m i b w path (k, inr h, wk, d) = absurd h
  to_mark n id m i b w path (k, inl e, wk, d) =
      let on : b ≡ true = path.1 (subst (DependsOn g m) e d) in
      let same : some (classic_input i) ≡ some (classic_input id) =
        sym wk ∙ ap g.node_weight e ∙ w in
      rw on (inl cc)

  -- One more input has been searched from.
  added :
      (n id : ℕ) {P : ℕ → ℕ → Type 0} (before after : RequiredInputs)
      → g.node_weight n ≡ some (classic_input id)
      → Collects P before
      → Colors g graph distinct n id (base_of before) after
      → Collects (λ m i. P m i ⊎ NeedsInput (n ∷ []) m i) after
  added n id before after w h c m hm =
      let (b, e, path) = c m hm in
      let (_, q) = base_of_lem before h m hm in
      (
        base_of before m ++ marked id b,
        e,
        λ i. (
          (λ mem. elim ((mem-append i (base_of before m) (marked id b)).0 mem) [
            | inl old ↦ inl ((q i).0 old)
            | inr new ↦ inr (from_mark n id m i b w path new)
          ]),
          (λ p. elim p [
            | inl old ↦ (mem-append i (base_of before m) (marked id b)).1 (inl ((q i).1 old))
            | inr new ↦
                (mem-append i (base_of before m) (marked id b)).1
                  (inr (to_mark n id m i b w path new))
          ]),
        ),
      )

  -- A node that is no input adds nothing.
  unchanged :
      (n : ℕ) (w : StreamNode) {P : ℕ → ℕ → Type 0} (dependencies : RequiredInputs)
      → g.node_weight n ≡ some w
      → ((i : ℕ) → ¬ (w ≡ classic_input i))
      → Collects P dependencies
      → Collects (λ m i. P m i ⊎ NeedsInput (n ∷ []) m i) dependencies
  unchanged n w dependencies e never h m hm =
      let (v, q, iff) = h m hm in
      (
        v,
        q,
        λ i. (
          (λ x. inl ((iff i).0 x)),
          (λ x. elim x [
            | inl p ↦ (iff i).1 p
            | inr (k, inr none_left, wk, d) ↦ absurd none_left
            | inr (k, inl same, wk, d) ↦
                absurd (never i (some-injective (sym e ∙ ap g.node_weight (sym same) ∙ wk)))
          ]),
        ),
      )

  pub color_input-Collects :
      (n : ℕ) (w : StreamNode) {P : ℕ → ℕ → Type 0} (dependencies : RequiredInputs)
      → n ∈ node_indices
      → g.node_weight n ≡ some w
      → Collects P dependencies
      → Returns (Collects (λ m i. P m i ⊎ NeedsInput (n ∷ []) m i)) (color_input g n w dependencies)
  unfolding color_input start
  color_input-Collects n (classic_input id) dependencies hn w h =
      rw (color_input-visit n id dependencies w) (
        Returns-bind _ _
          (visit-Goes g graph distinct n id n (base_of dependencies) Never (start dependencies) hn
            itself refl (start-Searches n id dependencies h))
          λ s goes.
            let (after, e, c) =
              bfs_color_reachable-Colors g graph distinct n id (base_of dependencies)
                (length node_indices) s goes.searches (goes.visits n (inl refl))
                (omega (arith, goes.shrinks, count_missing-le-length itself_key [] node_indices)) in
            (after, e, added n id dependencies after w h c))
  color_input-Collects n (rt_output a b) dependencies hn w h =
      (dependencies, refl, unchanged n (rt_output a b) dependencies w (λ i e. cc) h)
  color_input-Collects n (rt_trigger a b) dependencies hn w h =
      (dependencies, refl, unchanged n (rt_trigger a b) dependencies w (λ i e. cc) h)
