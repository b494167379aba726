-- ===== src/Frontend/Graph/Space/Largest.antt =====
-- frontend/src/analysis/graph_based_analysis/space_requirements.rs: the number of stored values is
-- one more than the farthest access into the past.
use rtlola.Common.{
  ℕ, suc, ◌^◌, ◌≤◌, ◌<◌, Bool, false, ◌&&◌, ◌||◌, not, if◌then◌else◌, max, List, [], ◌∷◌, ok, ◌≡◌,
  refl, sym, ◌∙◌, subst, ◌⊎◌, inl, inr, arith, Bool-cases, any, leb,
}
use rtlola.Common.Int.{ℤ, pos, abs, ltb_ℤ}
use rtlola.Common.Sets.{◌∈◌}
use rtlola.Frontend.Graph.{Offset, StreamDependency, access, invoke_by_name, EdgeReference}
use rtlola.Frontend.Graph.Space.{past_storage, is_expression, storage_step, storage_for}

-- How many values before the current one does a discrete access reach? An access by real time counts
-- as 0: how many values it needs depends on when they come.
abbrev pub past_reach : StreamDependency → ℕ
past_reach (access _ (Offset.discrete offset) _) = if ltb_ℤ (pos 0) offset then 0 else abs offset
past_reach (access _ _ _) = 0
past_reach (invoke_by_name _) = 0

-- Is it an access to a future value, elsewhere than in the stream's expression?
abbrev pub looks_ahead : StreamDependency → Bool
looks_ahead (access location (Offset.discrete offset) _) =
    ltb_ℤ (pos 0) offset && not (is_expression location)
looks_ahead (access _ _ _) = false
looks_ahead (invoke_by_name _) = false

-- The number fits into 16 bits.
abbrev pub IsShort : StreamDependency → Type 0
IsShort d = suc (past_reach d) < 2 ^ 16

past_storage_lem :
    (debug : Bool) (offset : ℤ)
    → suc (abs offset) < 2 ^ 16
    → past_storage debug offset ≡ ok (suc (abs offset))
unfolding past_storage
past_storage_lem debug offset h = ground arith

storage_step_lem :
    (debug future_dependent : Bool) (required : ℕ) (all_inputs : Bool) (d : StreamDependency)
    → IsShort d
    → 1 ≤ required
    → storage_step debug future_dependent (required, all_inputs) d
      ≡ ok (max required (suc (past_reach d)), all_inputs || (future_dependent && looks_ahead d))
unfolding storage_step
storage_step_lem debug f r a (access l (Offset.discrete offset) s) h k =
    ground (arith, past_storage_lem debug offset)
storage_step_lem debug f r a (access l (Offset.time t) s) h k = ground arith
storage_step_lem debug f r a (access l Offset.sliding_window s) h k = ground arith
storage_step_lem debug f r a (invoke_by_name s) h k = ground arith

-- the farthest reach of the edges, and of `required`
abbrev pub largest : ℕ → List (EdgeReference StreamDependency) → ℕ
largest k [] = k
largest k (e ∷ es) = largest (max k (suc (past_reach e.weight))) es

pub storage_for_lem :
    (debug future_dependent : Bool) (required : ℕ) (all_inputs : Bool)
    (es : List (EdgeReference StreamDependency))
    → ((e : EdgeReference StreamDependency) → e ∈ es → IsShort e.weight)
    → 1 ≤ required
    → storage_for debug future_dependent (required, all_inputs) es
      ≡ ok (
        largest required es,
        all_inputs || (future_dependent && any (λ e. looks_ahead e.weight) es),
      )
unfolding storage_for
storage_for_lem debug f r a [] h k = ground arith
storage_for_lem debug f r a (e ∷ es) h k =
    let tail =
      storage_for_lem debug f (max r (suc (past_reach e.weight))) (a || (f && looks_ahead e.weight))
        es (λ x hx. h x (inr hx)) (omega arith) in
    rw (storage_step_lem debug f r a e.weight (h e (inl refl)) k) (tail ∙ ground arith)

pub largest-ge : (k : ℕ) (es : List (EdgeReference StreamDependency)) → k ≤ largest k es
largest-ge k [] = omega arith
largest-ge k (e ∷ es) = omega (arith, largest-ge (max k (suc (past_reach e.weight))) es)

pub largest-covers :
    (k : ℕ) (es : List (EdgeReference StreamDependency)) (e : EdgeReference StreamDependency)
    → e ∈ es
    → past_reach e.weight < largest k es
largest-covers k [] e m = absurd m
largest-covers k (x ∷ es) e (inl here) =
    subst (λ y. past_reach y.weight < largest k (x ∷ es)) (sym here)
      (omega (arith, largest-ge (max k (suc (past_reach x.weight))) es))
largest-covers k (x ∷ es) e (inr there) =
    largest-covers (max k (suc (past_reach x.weight))) es e there

pub largest-attained :
    (k : ℕ) (es : List (EdgeReference StreamDependency))
    → (largest k es ≡ k)
      ⊎ ((e : EdgeReference StreamDependency) × (e ∈ es)
          × (largest k es ≡ suc (past_reach e.weight)))
largest-attained k [] = inl refl
largest-attained k (x ∷ es) = elim (largest-attained (max k (suc (past_reach x.weight))) es) [
  | inl start ↦ elim (Bool-cases (leb (suc (past_reach x.weight)) k)) [
    | inl small ↦ inl (start ∙ ground arith)
    | inr big ↦ inr (x, inl refl, start ∙ ground arith)
  ]
  | inr (e, m, h) ↦ inr (e, inr m, h)
]
