-- ===== src/Common/Refines.antt =====
-- One computation refines another if what it returns is what the other returns.
use mathlib.Core.Path.{◌≡◌, refl, ap, ◌∙◌}
use mathlib.Core.Bool.{Bool, true, false}
use rtlola.Common.Bools.{if◌then◌else◌}
use rtlola.Common.Outcomes.{Outcome, ok, panic, ◌>>=◌, ◌>>◌, assert}

infix 4 ◌⊑◌
abbrev pub ◌⊑◌ {ℓ} : {A : Type ℓ} → Outcome A → Outcome A → Type ℓ
m ⊑ n = (a : _) → m ≡ ok a → n ≡ ok a

module _ {ℓ} {A : Type ℓ} where
  pub ⊑-refl : (m : Outcome A) → m ⊑ m
  ⊑-refl m a h = h

  pub panic-⊑ : (n : Outcome A) → panic ⊑ n
  panic-⊑ n a h = cc

  pub assert-⊑ : (b : Bool) (m n : Outcome A) → m ⊑ n → (assert b >> m) ⊑ n
  assert-⊑ true m n h = h
  assert-⊑ false m n h = panic-⊑ n

  pub if-⊑ :
      (b : Bool) (m m' n n' : Outcome A)
      → m ⊑ n
      → m' ⊑ n'
      → (if b then m else m') ⊑ (if b then n else n')
  if-⊑ true m m' n n' h k = h
  if-⊑ false m m' n n' h k = k

module _ {ℓ κ} {A : Type ℓ} {B : Type κ} where
  pub bind-⊑ :
      (m n : Outcome A) (f g : A → Outcome B)
      → m ⊑ n
      → ((a : A) → f a ⊑ g a)
      → (m >>= f) ⊑ (n >>= g)
  bind-⊑ (ok a) n f g h k b e = ap (λ o. o >>= g) (h a refl) ∙ k a b e
  bind-⊑ panic n f g h k b e = cc
