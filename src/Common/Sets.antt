-- ===== src/Common/Sets.antt =====
-- Membership in lists, and `HashSet` and `HashMap` with numbers as keys, as lists.
use Prim.Native.Nat.{ℕ, suc, ◌≤◌, ◌<◌}
use mathlib.Core.Path.{◌≡◌, refl}
use mathlib.Core.Logic.{◌⊎◌, ◌↔◌, inl, inr}
use mathlib.Core.Bool.{Bool, true, false, ◌||◌}
use mathlib.Core.Option.{Option, none, some}
use mathlib.Core.List.{List, [], ◌∷◌, ◌++◌}
use native.Mathlib.Omega.{arith}
use rtlola.Common.Bools.{◌==◌, if◌then◌else◌, Bool-cases}
use rtlola.Common.Lists.{length, any}

infix 50 ◌∈◌
abbrev pub ◌∈◌ : {A : Type 0} → A → List A → Type 0
a ∈ [] = ⊥
a ∈ (x ∷ xs) = (a ≡ x) ⊎ (a ∈ xs)

-- No element occurs twice.
abbrev pub IsDistinct : List ℕ → Type 0
IsDistinct [] = Unit {0}
IsDistinct (x ∷ xs) = ¬ (x ∈ xs) × IsDistinct xs

-- `HashSet::contains` and `HashSet::insert`
abbrev pub contains : List ℕ → ℕ → Bool
contains [] a = false
contains (x ∷ xs) a = x == a || contains xs a

unfoldable pub insert : List ℕ → ℕ → List ℕ
insert xs a = if contains xs a then xs else a ∷ xs

pub contains-insert : (xs : List ℕ) (a b : ℕ) → contains (insert xs a) b ≡ (a == b || contains xs b)
unfolding insert
contains-insert xs a b = ground arith

-- `HashMap::get` and `HashMap::insert`
module _ {V : Type 0} where
  abbrev pub lookup : List (ℕ × V) → ℕ → Option V
  lookup [] k = none
  lookup ((j, v) ∷ m) k = if j == k then some v else lookup m k

  unfoldable pub put : List (ℕ × V) → ℕ → V → List (ℕ × V)
  put [] k v = (k, v) ∷ []
  put ((j, w) ∷ m) k v = if j == k then (k, v) ∷ m else (j, w) ∷ put m k v

  pub lookup-put :
      (m : List (ℕ × V)) (k j : ℕ) (v : V)
      → lookup (put m k v) j ≡ (if k == j then some v else lookup m j)
  unfolding put
  lookup-put [] k j v = refl
  lookup-put ((i, w) ∷ m) k j v = ground (arith, lookup-put m k j v)

-- The number of those `xs` whose keys are not in the set `s`.
abbrev pub count_missing : (ℕ → ℕ) → List ℕ → List ℕ → ℕ
count_missing key s [] = 0
count_missing key s (x ∷ xs) =
    if contains s (key x) then count_missing key s xs else suc (count_missing key s xs)

abbrev pub Includes : List ℕ → List ℕ → Type 0
Includes s s' = (a : ℕ) → contains s a ≡ true → contains s' a ≡ true

pub count_missing_mono :
    (key : ℕ → ℕ) (s s' xs : List ℕ)
    → Includes s s'
    → count_missing key s' xs ≤ count_missing key s xs
count_missing_mono key s s' [] h = omega arith
count_missing_mono key s s' (x ∷ xs) h = ground (arith, h (key x), count_missing_mono key s s' xs h)

pub Includes-insert : (s : List ℕ) (a : ℕ) → Includes s (insert s a)
Includes-insert s a b h = ground (arith, contains-insert s a b)

pub contains-insert_self : (s : List ℕ) (a : ℕ) → contains (insert s a) a ≡ true
contains-insert_self s a = ground (arith, contains-insert s a a)

-- An element that is added is missing no more.
pub count_missing-insert :
    (key : ℕ → ℕ) (s xs : List ℕ) (x : ℕ)
    → x ∈ xs
    → contains s (key x) ≡ false
    → count_missing key (insert s (key x)) xs < count_missing key s xs
count_missing-insert key s [] x m h = absurd m
count_missing-insert key s (y ∷ ys) x (inl e) h =
    let here : contains (insert s (key x)) (key y) ≡ true =
      rw (← e) (contains-insert_self s (key x)) in
    let there : contains s (key y) ≡ false = rw (← e) h in
    rw (here, there)
      (ground (arith, count_missing_mono key s (insert s (key x)) ys (Includes-insert s (key x))))
count_missing-insert key s (y ∷ ys) x (inr m) h =
    ground (arith, count_missing-insert key s ys x m h, Includes-insert s (key x) (key y))

pub count_missing-le-length : (key : ℕ → ℕ) (s xs : List ℕ) → count_missing key s xs ≤ length xs
count_missing-le-length key s [] = omega arith
count_missing-le-length key s (x ∷ xs) = ground (arith, count_missing-le-length key s xs)

module _ {A : Type 0} (p : A → Bool) where
  pub any-mem : (xs : List A) → any p xs ≡ true → (x : A) × (x ∈ xs) × (p x ≡ true)
  any-mem [] h = cc
  any-mem (x ∷ xs) h = elim (Bool-cases (p x)) [
    | inl here ↦ (x, inl refl, here)
    | inr other ↦ let (y, m, e) = any-mem xs (rw other at h) in (y, inr m, e)
  ]

  pub any_of_mem : (xs : List A) (x : A) → x ∈ xs → p x ≡ true → any p xs ≡ true
  any_of_mem [] x m e = absurd m
  any_of_mem (y ∷ xs) x (inl here) e = let h : p y ≡ true = rw (← here) e in rw h
  any_of_mem (y ∷ xs) x (inr there) e = ground (arith, any_of_mem xs x there e)

pub mem-append : {A : Type 0} (i : A) (xs ys : List A) → (i ∈ (xs ++ ys)) ↔ ((i ∈ xs) ⊎ (i ∈ ys))
mem-append i [] ys = ((λ h. inr h), (λ h. elim h [ inl n ↦ absurd n | inr m ↦ m ]))
mem-append i (x ∷ xs) ys =
    let (f, b) = mem-append i xs ys in
    (
      (λ h. elim h [
        | inl e ↦ inl (inl e)
        | inr m ↦ elim (f m) [ inl a ↦ inl (inr a) | inr c ↦ inr c ]
      ]),
      (λ h. elim h [
        | inl (inl e) ↦ inl e
        | inl (inr m) ↦ inr (b (inl m))
        | inr m ↦ inr (b (inr m))
      ]),
    )
