-- ===== src/Frontend/Activation/Meaning.antt =====
-- What an activation condition says of the streams that got a new value, and that the operations of
-- frontend/src/ty.rs respect it.
use rtlola.Common.{
  Bool, true, false, ◌&&◌, ◌||◌, ◌≡◌, refl, sym, ap, ap₂, ◌∙◌, arith, inl, inr, Bool-cases,
  and_parts,
}
use rtlola.Common.Eq.{Eq}
use rtlola.Frontend.Activation.{
  Activation, Activations, conjunction, disjunction, stream, nil, cons, append_all, activation_eq,
  activations_eq, contains, all_contained, implies_valid, implies_by_shape, conjoin,
}

module _ {V : Type 0} (fresh : V → Bool) where
  unfoldable mutual
    pub holds : Activation V → Bool
    holds (conjunction c) = all_hold c
    holds (disjunction d) = any_holds d
    holds (stream v) = fresh v
    holds Activation.true = true

    pub all_hold : Activations V → Bool
    all_hold nil = true
    all_hold (cons a rest) = holds a && all_hold rest

    pub any_holds : Activations V → Bool
    any_holds nil = false
    any_holds (cons a rest) = holds a || any_holds rest

  pub all_hold-append_all :
      (xs ys : Activations V) → all_hold (append_all xs ys) ≡ (all_hold xs && all_hold ys)
  unfolding holds
  all_hold-append_all nil ys = refl
  all_hold-append_all (cons x xs) ys = ground (arith, all_hold-append_all xs ys)

  -- The conjunction of two conditions holds exactly when both hold.
  pub holds-conjoin : (a b : Activation V) → holds (conjoin a b) ≡ (holds a && holds b)
  unfolding conjoin holds
  holds-conjoin (conjunction c) (conjunction d) = all_hold-append_all c d
  holds-conjoin (conjunction c) (disjunction d) =
      ground (arith, all_hold-append_all c (cons (disjunction d) nil))
  holds-conjoin (conjunction c) (stream v) =
      ground (arith, all_hold-append_all c (cons (stream v) nil))
  holds-conjoin (conjunction c) Activation.true =
      ground (arith, all_hold-append_all c (cons Activation.true nil))
  holds-conjoin (disjunction d) (conjunction c) =
      ground (arith, all_hold-append_all c (cons (disjunction d) nil))
  holds-conjoin (stream v) (conjunction c) =
      ground (arith, all_hold-append_all c (cons (stream v) nil))
  holds-conjoin a b = ground arith

module _ {V : Type 0} ⦃e : Eq V⦄ where
  mutual
    unfolding activation_eq

    activation_eq→eq : (a b : Activation V) → activation_eq a b ≡ true → a ≡ b
    activation_eq→eq (conjunction a) (conjunction b) h = ap conjunction (activations_eq→eq a b h)
    activation_eq→eq (disjunction a) (disjunction b) h = ap disjunction (activations_eq→eq a b h)
    activation_eq→eq (stream a) (stream b) h = ap stream ((e.beq_iff a b).0 h)
    activation_eq→eq Activation.true Activation.true h = refl
    activation_eq→eq _ _ h = cc

    activations_eq→eq : (a b : Activations V) → activations_eq a b ≡ true → a ≡ b
    activations_eq→eq nil nil h = refl
    activations_eq→eq (cons a as') (cons b bs) h =
        let (same, rest) = and_parts (activation_eq a b) (activations_eq as' bs) h in
        ap₂ cons (activation_eq→eq a b same) (activations_eq→eq as' bs rest)
    activations_eq→eq _ _ h = cc

  module _ (fresh : V → Bool) where
    holds_of_contains :
        (left : Activations V) (cond : Activation V)
        → contains left cond ≡ true
        → all_hold fresh left ≡ true
        → holds fresh cond ≡ true
    unfolding contains holds
    holds_of_contains nil cond h k = cc
    holds_of_contains (cons a rest) cond h k = elim (Bool-cases (activation_eq a cond)) [
      | inl same ↦ ap (holds fresh) (sym (activation_eq→eq a cond same)) ∙ ground arith
      | inr other ↦ holds_of_contains rest cond (ground arith) (ground arith)
    ]

    all_hold_of_all_contained :
        (left right : Activations V)
        → all_contained left right ≡ true
        → all_hold fresh left ≡ true
        → all_hold fresh right ≡ true
    unfolding all_contained holds
    all_hold_of_all_contained left nil h k = refl
    all_hold_of_all_contained left (cons cond rest) h k =
        ground (arith, holds_of_contains left cond, all_hold_of_all_contained left rest)

    -- `implies_valid` is sound: where it says yes, the first condition implies the second, whatever
    -- streams are fresh.
    pub implies_valid_sound :
        (a b : Activation V)
        → implies_valid a b ≡ true
        → holds fresh a ≡ true
        → holds fresh b ≡ true
    unfolding implies_valid holds
    implies_valid_sound a b h k = elim (Bool-cases (activation_eq a b)) [
      | inl same ↦ ap (holds fresh) (sym (activation_eq→eq a b same)) ∙ k
      | inr other ↦ by_shape a b (rw other at h) k
    ]
      where
        by_shape :
            (a b : Activation V)
            → implies_by_shape a b ≡ true
            → holds fresh a ≡ true
            → holds fresh b ≡ true
        by_shape (conjunction left) (conjunction right) h k =
            all_hold_of_all_contained left right h k
        by_shape (conjunction left) (disjunction d) h k = holds_of_contains left (disjunction d) h k
        by_shape (conjunction left) (stream v) h k = holds_of_contains left (stream v) h k
        by_shape (conjunction left) Activation.true h k = refl
        by_shape _ _ h k = ground arith
