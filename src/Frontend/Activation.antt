-- ===== src/Frontend/Activation.antt =====
-- `Activation` of frontend/src/ty.rs: when an event-based stream gets a new value.
mod Data
pub mod Meaning
pub use Data.*
use rtlola.Common.{ℕ, Bool, true, false, ◌&&◌, ◌||◌, if◌then◌else◌}
use rtlola.Common.Eq.{Eq}

abbrev pub append_all : {V : Type 0} → Activations V → Activations V → Activations V
append_all nil ys = ys
append_all (cons x xs) ys = cons x (append_all xs ys)

abbrev pub push : {V : Type 0} → Activations V → Activation V → Activations V
push xs a = append_all xs (cons a nil)

module _ {V : Type 0} ⦃e : Eq V⦄ where
  -- the derived `PartialEq`
  unfoldable mutual
    pub activation_eq : Activation V → Activation V → Bool
    activation_eq (conjunction a) (conjunction b) = activations_eq a b
    activation_eq (disjunction a) (disjunction b) = activations_eq a b
    activation_eq (stream a) (stream b) = e.beq a b
    activation_eq Activation.true Activation.true = true
    activation_eq _ _ = false

    pub activations_eq : Activations V → Activations V → Bool
    activations_eq nil nil = true
    activations_eq (cons a as') (cons b bs) = activation_eq a b && activations_eq as' bs
    activations_eq _ _ = false

  -- `left.contains(cond)`
  unfoldable pub contains : Activations V → Activation V → Bool
  contains nil cond = false
  contains (cons a as') cond = activation_eq a cond || contains as' cond

  -- `right.iter().all(|cond| left.contains(cond))`
  unfoldable pub all_contained : Activations V → Activations V → Bool
  all_contained left nil = true
  all_contained left (cons cond rest) = contains left cond && all_contained left rest

  abbrev pub implies_by_shape : Activation V → Activation V → Bool
  implies_by_shape (conjunction left) (conjunction right) = all_contained left right
  implies_by_shape (conjunction left) other = contains left other
  implies_by_shape _ Activation.true = true
  implies_by_shape _ _ = false

  unfoldable pub implies_valid : Activation V → Activation V → Bool
  implies_valid self other = if activation_eq self other then true else implies_by_shape self other

-- `Activation::conjunction`
unfoldable pub conjoin : {V : Type 0} → Activation V → Activation V → Activation V
conjoin Activation.true other = other
conjoin (conjunction left) (conjunction right) = conjunction (append_all left right)
conjoin (conjunction c) other = conjunction (push c other)
conjoin other (conjunction c) = conjunction (push c other)
conjoin self other = conjunction (cons self (cons other nil))
