-- ===== src/Frontend/ValueTy/Constraints.antt =====
-- frontend/src/ty.rs: what a conjunction of constraints demands, and that a type without open
-- constraints is left in the end.
use rtlola.Common.{
  ◌<◌, Bool, true, false, ◌&&◌, Option, none, some, Outcome, ok, ◌≡◌, refl, ap, ◌∙◌, arith, ◌≤◌,
  ◌==◌, ==_iff, ltb, Bool-cases, inl, inr, if-true, if-false, ==_false→lt, lt→ltb, ltb→lt,
  ltb-false, >>-step,
}
use rtlola.Frontend.ValueTy.{
  TypeConstraint, ValueTy, rank, has_default, conjoin_ordered, conjoin_smaller, conjunction,
  satisfies, is_primitive,
}

-- Does a type satisfy the constraint, if there is one that can be satisfied?
abbrev pub meets : ValueTy → Option TypeConstraint → Bool
meets ty none = false
meets ty (some c) = satisfies ty c

conjoin_ordered-satisfies :
    (a b : TypeConstraint) (ty : ValueTy)
    → rank a < rank b
    → meets ty (conjoin_ordered a b) ≡ (satisfies ty a && satisfies ty b)
unfolding conjoin_ordered satisfies is_primitive rank
conjoin_ordered-satisfies a b ty h = ground arith

rank_injective : (a b : TypeConstraint) → rank a ≡ rank b → a ≡ b
unfolding rank
rank_injective a b h = ground arith

and_same : (b : Bool) → b ≡ (b && b)
and_same true = refl
and_same false = refl

and_swap : (a b : Bool) → (a && b) ≡ (b && a)
and_swap true true = refl
and_swap true false = refl
and_swap false true = refl
and_swap false false = refl

-- what the conjunction of two constraints returns
abbrev Demands : TypeConstraint → TypeConstraint → Outcome (Option TypeConstraint) → Type 0
Demands a b o =
    (c : Option TypeConstraint) × (o ≡ ok c)
    × ((ty : ValueTy) → meets ty c ≡ (satisfies ty a && satisfies ty b))

conjoin_smaller-Demands :
    (a b : TypeConstraint) → rank a ≤ rank b → Demands a b (conjoin_smaller a b)
unfolding conjoin_smaller
conjoin_smaller-Demands a b le = elim (Bool-cases (rank a == rank b)) [
  | inl same ↦ (
    some a,
    if-true (rank a == rank b) (ok (some a)) _ same,
    λ ty.
        and_same (satisfies ty a)
        ∙ ap (λ c. satisfies ty a && satisfies ty c)
            (rank_injective a b ((==_iff (rank a) (rank b)).0 same)),
  )
  | inr other ↦
      let lt = ==_false→lt (rank a) (rank b) other le in
      (
        conjoin_ordered a b,
        if-false (rank a == rank b) (ok (some a)) _ other
            ∙ >>-step (ltb (rank a) (rank b)) (ok (conjoin_ordered a b))
                (lt→ltb (rank a) (rank b) lt),
        λ ty. conjoin_ordered-satisfies a b ty lt,
      )
]

-- The conjunction of two constraints never fails its assertion, and a type satisfies the constraint
-- that it returns exactly if it satisfies both; where it returns none, no type satisfies both.
pub conjunction-satisfies :
    (a b : TypeConstraint)
    → (c : Option TypeConstraint) × (conjunction a b ≡ ok c)
      × ((ty : ValueTy) → meets ty c ≡ (satisfies ty a && satisfies ty b))
unfolding conjunction
conjunction-satisfies a b = elim (Bool-cases (ltb (rank b) (rank a))) [
  | inl swapped ↦
      let below = ltb→lt (rank b) (rank a) swapped in
      let (c, returned, demanded) = conjoin_smaller-Demands b a (omega arith) in
      (
        c,
        if-true (ltb (rank b) (rank a)) (conjoin_smaller b a) _ swapped ∙ returned,
        λ ty. demanded ty ∙ and_swap (satisfies ty b) (satisfies ty a),
      )
  | inr ordered ↦
      let (c, returned, demanded) =
        conjoin_smaller-Demands a b (ltb-false (rank b) (rank a) ordered) in
      (c, if-false (ltb (rank b) (rank a)) (conjoin_smaller b a) _ ordered ∙ returned, demanded)
]

-- The default type of a constraint satisfies it.
pub has_default-satisfies :
    (c : TypeConstraint) (ty : ValueTy) → has_default c ≡ some ty → satisfies ty c ≡ true
unfolding has_default satisfies
has_default-satisfies c ty h = ground arith
