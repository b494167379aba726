-- ===== src/Common/Outcomes.antt =====
-- What a Rust function does: it returns a value, or it panics (`panic!`, a failed `assert!`,
-- `unreachable!`, `unimplemented!`, an index out of range, a checked overflow).
use mathlib.Core.Path.{◌≡◌, refl, subst, ap, ◌∙◌}
use mathlib.Core.Logic.{◌⊎◌, inl, inr}
use mathlib.Core.Bool.{Bool, true, false}
use mathlib.Core.Option.{Option, none, some}
use rtlola.Common.Bools.{if◌then◌else◌, some-injective}

pub data Outcome {ℓ} (A : Type ℓ) : Type ℓ where
  ok : A → Outcome A
  panic : Outcome A

infixl 10 ◌>>=◌ ◌>>◌
abbrev pub ◌>>=◌ {ℓ κ} : {A : Type ℓ} {B : Type κ} → Outcome A → (A → Outcome B) → Outcome B
ok a >>= f = f a
panic >>= f = panic

abbrev pub ◌>>◌ {ℓ κ} : {A : Type ℓ} {B : Type κ} → Outcome A → Outcome B → Outcome B
m >> k = m >>= λ _. k

-- `assert!`
abbrev pub assert : Bool → Outcome (Unit {0})
assert true = ok tt
assert false = panic

-- `Option::expect`, `Option::unwrap`, and a slice read `v[i]` over `get_elem?`
abbrev pub expect {ℓ} : {A : Type ℓ} → Option A → Outcome A
expect none = panic
expect (some a) = ok a

pub bind-ok {ℓ} : {A : Type ℓ} (m : Outcome A) → (m >>= ok) ≡ m
bind-ok (ok a) = refl
bind-ok panic = refl

pub bind_assoc {ℓ κ μ} :
    {A : Type ℓ} {B : Type κ} {C : Type μ} (m : Outcome A) (f : A → Outcome B) (g : B → Outcome C)
    → (m >>= f >>= g) ≡ (m >>= λ a. f a >>= g)
bind_assoc (ok a) f g = refl
bind_assoc panic f g = refl

pub bind_cong {ℓ κ} :
    {A : Type ℓ} {B : Type κ} (m : Outcome A) (f g : A → Outcome B)
    → ((a : A) → f a ≡ g a)
    → (m >>= f) ≡ (m >>= g)
bind_cong (ok a) f g h = h a
bind_cong panic f g h = refl

pub Outcome-cases {ℓ} : {A : Type ℓ} (m : Outcome A) → (m ≡ panic) ⊎ ((a : A) × (m ≡ ok a))
Outcome-cases panic = inl refl
Outcome-cases (ok a) = inr (a, refl)

-- A chain goes on with what its first step returns.
pub >>=-step {ℓ κ} :
    {A : Type ℓ} {B : Type κ} (m : Outcome A) (f : A → Outcome B) {a : A}
    → m ≡ ok a
    → (m >>= f) ≡ f a
>>=-step (ok b) f h = cc
>>=-step panic f h = cc

pub >>-step {ℓ} : {B : Type ℓ} (b : Bool) (m : Outcome B) → b ≡ true → (assert b >> m) ≡ m
>>-step true m h = refl
>>-step false m h = cc

ok-injective {ℓ} : {A : Type ℓ} {a b : A} → ok a ≡ ok b → a ≡ b
ok-injective h = cc

-- Whatever a computation returns satisfies `Q`.
abbrev pub Post {ℓ κ} : {A : Type ℓ} → (A → Type κ) → Outcome A → Type (ℓ ⊔ κ)
Post Q m = (a : _) → m ≡ ok a → Q a

pub Post-bind {ℓ κ μ ν} :
    {A : Type ℓ} {B : Type κ} {P : A → Type μ} {Q : B → Type ν} (m : Outcome A) (f : A → Outcome B)
    → Post P m
    → ((a : A) → P a → Post Q (f a))
    → Post Q (m >>= f)
Post-bind (ok a) f h k = k a (h a refl)
Post-bind panic f h k = λ b e. cc

-- What the first step returns may be anything.
pub Post-any {ℓ κ ν} :
    {A : Type ℓ} {B : Type κ} {Q : B → Type ν} (m : Outcome A) (f : A → Outcome B)
    → ((a : A) → Post Q (f a))
    → Post Q (m >>= f)
Post-any (ok a) f k = k a
Post-any panic f k = λ b e. cc

pub Post-ok {ℓ κ} : {A : Type ℓ} (Q : A → Type κ) (a : A) → Q a → Post Q (ok a)
Post-ok Q a q b h = subst Q (ok-injective h) q

pub Post-if {ℓ κ} :
    {A : Type ℓ} {Q : A → Type κ} (b : Bool) (m n : Outcome A)
    → Post Q m
    → Post Q n
    → Post Q (if b then m else n)
Post-if true m n h k = h
Post-if false m n h k = k

-- A computation returns, and what it returns satisfies `Q`.
abbrev pub Returns {ℓ κ} : {A : Type ℓ} → (A → Type κ) → Outcome A → Type (ℓ ⊔ κ)
Returns Q m = (a : _) × (m ≡ ok a) × Q a

pub Returns-ok {ℓ κ} : {A : Type ℓ} (Q : A → Type κ) (a : A) → Q a → Returns Q (ok a)
Returns-ok Q a q = (a, refl, q)

pub Returns-bind {ℓ κ μ ν} :
    {A : Type ℓ} {B : Type κ} {P : A → Type μ} {Q : B → Type ν} (m : Outcome A) (f : A → Outcome B)
    → Returns P m
    → ((a : A) → P a → Returns Q (f a))
    → Returns Q (m >>= f)
Returns-bind m f (a, e, p) k = let (b, e', q) = k a p in (b, >>=-step m f e ∙ e', q)

pub Returns-assert {ℓ κ} :
    {B : Type ℓ} {Q : B → Type κ} (b : Bool) (m : Outcome B)
    → b ≡ true
    → Returns Q m
    → Returns Q (assert b >> m)
Returns-assert b m h (a, e, q) = (a, >>-step b m h ∙ e, q)

pub Returns-expect {ℓ κ} :
    {A : Type ℓ} {Q : A → Type κ} (o : Option A) (a : A) → o ≡ some a → Q a → Returns Q (expect o)
Returns-expect (some b) a e q = (a, ap ok (some-injective e), q)
Returns-expect none a e q = cc
