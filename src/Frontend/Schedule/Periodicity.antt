-- ===== src/Frontend/Schedule/Periodicity.antt =====
-- frontend/src/ir/schedule.rs, `apply_periodicity`: which streams are due in which step.
use native.Mathlib.Nat.{mul-mod_left, div-add-mod, le-div_iff_mul-le, mod-eq_of_lt, mul_comm}
use rtlola.Common.{
  ℕ, zero, suc, ◌+◌, ◌-◌, ◌*◌, ◌/◌, ◌%◌, ◌≤◌, ◌<◌, ◌==◌, ==_iff, ltb, leb, Bool, true, false, ◌&&◌,
  if◌then◌else◌, Bool-cases, Option, none, some, List, [], ◌∷◌, ◌++◌, append-nil, append_assoc, map,
  length, get_elem?, some-injective, set, ◌≡◌, ◌≢◌, refl, sym, ap, ◌∙◌, inl, inr, arith,
  get_elem?-ge_length, get_elem?-lt_length, get_elem?-set_self, get_elem?-set_ne, length-set,
  ltb→lt, ltb-false, ==_false→ne,
}
use rtlola.Frontend.Schedule.{extend_while, apply_from, no_streams, apply_periodicity}

-- Is step `i` a multiple of the period of `ix + 1` steps?
abbrev pub is_multiple : ℕ → ℕ → Bool
is_multiple ix i = suc i % suc ix == 0

-- What is due in step `i`: the streams whose first step is `ix` are due in every step whose number,
-- counted from one, is a multiple of `ix + 1`. `ix` is the number of the first step in the list.
unfoldable pub due_from : ℕ → List (List ℕ) → ℕ → List ℕ
due_from ix [] i = []
due_from ix (streams ∷ steps) i =
    let rest = due_from (suc ix) steps i in if is_multiple ix i then streams ++ rest else rest

-- Does the inner loop, from `k` on, reach cell `i`?
abbrev reaches : ℕ → ℕ → ℕ → Bool
reaches k ix i = leb (k * suc ix) (suc i) && is_multiple ix i

next_multiple : (q m n : ℕ) → n % suc m ≡ 0 → q * suc m ≤ n → n ≢ q * suc m → suc q * suc m ≤ n
next_multiple q m n h le ne =
    let d = n / suc m in
    let quotient : suc m * d + n % suc m ≡ n = div-add-mod n (suc m) in
    let below : q ≤ d = (le-div_iff_mul-le (omega arith)).1 le in
    let other : q ≢ d = λ e. ne (
      sym quotient
      ∙ ap (λ (r : ℕ). suc m * d + r) h
      ∙ omega (arith, mul_comm (suc m) d, ap (λ (t : ℕ). t * suc m) e)) in
    (le-div_iff_mul-le (omega arith)).0 (omega arith)

multiple_self : (q m : ℕ) → (q * suc m) % suc m ≡ 0
multiple_self q m = mul-mod_left q (suc m)

-- The cell that the loop changes with `k` is reached from `k` on, but not later.
reaches_cell :
    (k ix i : ℕ)
    → suc i ≡ suc k * suc ix
    → (reaches (suc k) ix i ≡ true) × (reaches (suc (suc k)) ix i ≡ false)
reaches_cell k ix i h =
    let multiple : suc i % suc ix ≡ 0 = ap (λ (n : ℕ). n % suc ix) h ∙ multiple_self (suc k) ix in
    let next : suc (suc k) * suc ix ≡ suc k * suc ix + suc ix = omega arith in
    (ground arith, ground arith)

-- Every other cell is reached from `k` on exactly if it is reached from `k + 1` on.
reaches_other : (k ix i : ℕ) → suc i ≢ k * suc ix → reaches k ix i ≡ reaches (suc k) ix i
reaches_other k ix i h =
    let next : suc k * suc ix ≡ k * suc ix + suc ix = omega arith in
    ground (arith, next_multiple k ix (suc i))

below_length : {A : Type 0} (xs : List A) (i : ℕ) {a : A} → get_elem? xs i ≡ some a → i < length xs
below_length xs i h = elim (Bool-cases (ltb i (length xs))) [
  | inl below ↦ ltb→lt i (length xs) below
  | inr above ↦ cc (get_elem?-ge_length xs i (ltb-false i (length xs) above), h)
]

above_length : {A : Type 0} (xs : List A) (i : ℕ) → none ≡ get_elem? xs i → length xs ≤ i
above_length xs i h = elim (Bool-cases (ltb i (length xs))) [
  | inl below ↦
      let (a, found) = get_elem?-lt_length xs i (ltb→lt i (length xs) below) in cc (h, found)
  | inr above ↦ ltb-false i (length xs) above
]

unreached : (k ix i : ℕ) → suc i < k * suc ix → reaches k ix i ≡ false
unreached k ix i h = ground arith

abbrev extended : Bool → List ℕ → List ℕ → List ℕ
extended b t streams = if b then t ++ streams else t

-- What the inner loop leaves in a cell, given enough fuel.
extend_while_lem :
    (fuel k ix : ℕ) (streams : List ℕ) (res : List (List ℕ)) (i : ℕ) (t : List ℕ)
    → length res ≤ fuel + k
    → get_elem? res i ≡ some t
    → get_elem? (extend_while fuel (suc k) ix streams res) i
      ≡ some (extended (reaches (suc k) ix i) t streams)
unfolding extend_while
extend_while_lem zero k ix streams res i t enough h =
    let below = below_length res i h in
    let far : suc k * suc ix ≡ k * ix + k + ix + 1 = omega arith in
    h ∙ ap (λ (b : Bool). some (extended b t streams)) (sym (unreached (suc k) ix i (omega arith)))
extend_while_lem (suc fuel) k ix streams res i t enough h =
    step (get_elem? res (suc k * suc ix - 1)) refl
      λ res' t' enough' h'. extend_while_lem fuel (suc k) ix streams res' i t' enough' h'
  where
    far : suc k * suc ix ≡ k * ix + k + ix + 1
    far = omega arith

    step :
        (o : Option (List ℕ))
        → o ≡ get_elem? res (suc k * suc ix - 1)
        → ((res' : List (List ℕ)) (t' : List ℕ)
            → length res' ≤ fuel + suc k
            → get_elem? res' i ≡ some t'
            → get_elem? (extend_while fuel (suc (suc k)) ix streams res') i
              ≡ some (extended (reaches (suc (suc k)) ix i) t' streams))
        → get_elem?
            (elim o [
              | none ↦ res
              | some target ↦
                  extend_while fuel
                    (suc (suc k))
                    ix
                    streams
                    (set res (suc k * suc ix - 1) (target ++ streams))
            ])
            i
          ≡ some (extended (reaches (suc k) ix i) t streams)
    step none out rec =
        let below = below_length res i h in
        let above = above_length res (suc k * suc ix - 1) out in
        let before : suc i < suc k * suc ix = omega (arith, far) in
        h ∙ ap (λ (b : Bool). some (extended b t streams)) (sym (unreached (suc k) ix i before))
    step (some target) found rec =
        let j = suc k * suc ix - 1 in
        let below = below_length res j (sym found) in
        let res' = set res j (target ++ streams) in
        let enough' : length res' ≤ fuel + suc k =
          omega (arith, length-set res j (target ++ streams)) in
        elim (Bool-cases (i == j)) [
          | inl same ↦
              let at : i ≡ j = (==_iff i j).0 same in
              let (now, later) = reaches_cell k ix i (omega (arith, far)) in
              rec res' (target ++ streams) enough'
                (ap (λ n. get_elem? res' n) at ∙ get_elem?-set_self res j (target ++ streams) below)
              ∙ ap (λ (b : Bool). some (extended b (target ++ streams) streams)) later
              ∙ ap (λ u. some (u ++ streams))
                  (some-injective (found ∙ ap (get_elem? res) (sym at) ∙ h))
              ∙ ap (λ (b : Bool). some (extended b t streams)) (sym now)
          | inr other ↦
              let ne = ==_false→ne i j other in
              rec res' t enough'
                (get_elem?-set_ne res j i (target ++ streams) (λ e. ne (sym e)) ∙ h)
              ∙ ap (λ (b : Bool). some (extended b t streams))
                  (sym (reaches_other (suc k) ix i (λ e. ne (omega (arith, far, e)))))
        ]

-- Every multiple is reached from the first round on.
reaches_first : (ix i : ℕ) → reaches 1 ix i ≡ is_multiple ix i
reaches_first ix i = ground (arith, λ (h : suc i < suc ix). mod-eq_of_lt h)

either : (b : Bool) (xs : List ℕ) → xs ≡ (if b then xs else xs)
either true xs = refl
either false xs = refl

apply_from_lem :
    (ix : ℕ) (steps res : List (List ℕ)) (i : ℕ) (t : List ℕ)
    → get_elem? res i ≡ some t
    → get_elem? (apply_from ix steps res) i ≡ some (t ++ due_from ix steps i)
unfolding apply_from due_from
apply_from_lem ix [] res i t h = h ∙ ap some (sym (append-nil t))
apply_from_lem ix ([] ∷ steps) res i t h =
    apply_from_lem (suc ix) steps res i t h
    ∙ ap (λ rest. some (t ++ rest)) (either (is_multiple ix i) (due_from (suc ix) steps i))
apply_from_lem ix ((s ∷ streams) ∷ steps) res i t h =
    apply_from_lem (suc ix) steps (extend_while (length res) 1 ix (s ∷ streams) res) i
      (extended (reaches 1 ix i) t (s ∷ streams))
      (extend_while_lem (length res) 0 ix (s ∷ streams) res i t (omega arith) h)
    ∙ ap some (joined (is_multiple ix i) (reaches_first ix i))
  where
    joined :
        (b : Bool)
        → reaches 1 ix i ≡ b
        → extended (reaches 1 ix i) t (s ∷ streams) ++ due_from (suc ix) steps i
          ≡ t
            ++ (if b then (s ∷ streams) ++ due_from (suc ix) steps i else due_from (suc ix) steps i)
    joined true e =
        ap (λ (b : Bool). extended b t (s ∷ streams) ++ due_from (suc ix) steps i) e
        ∙ append_assoc t (s ∷ streams) (due_from (suc ix) steps i)
    joined false e = ap (λ (b : Bool). extended b t (s ∷ streams) ++ due_from (suc ix) steps i) e

initial_cell :
    (steps : List (List ℕ)) (i : ℕ)
    → i < length steps
    → get_elem? (map no_streams steps) i ≡ some []
initial_cell [] i h = let no : ⊥ = omega arith in elim no [ ]
initial_cell (x ∷ steps) zero h = refl
initial_cell (x ∷ steps) (suc i) h = initial_cell steps i (omega arith)

-- In every step of the hyper-period those streams are due whose first step, counted from one,
-- divides the number of the step, in the order of their first steps.
pub apply_periodicity-due_from :
    (steps : List (List ℕ)) (i : ℕ)
    → i < length steps
    → get_elem? (apply_periodicity steps) i ≡ some (due_from 0 steps i)
unfolding apply_periodicity
apply_periodicity-due_from steps i h =
    apply_from_lem 0 steps (map no_streams steps) i [] (initial_cell steps i h)

length-extend_while :
    (fuel k ix : ℕ) (streams : List ℕ) (res : List (List ℕ))
    → length (extend_while fuel k ix streams res) ≡ length res
unfolding extend_while
length-extend_while zero k ix streams res = refl
length-extend_while (suc fuel) k ix streams res =
    step (get_elem? res (k * suc ix - 1)) λ res'. length-extend_while fuel (suc k) ix streams res'
  where
    step :
        (o : Option (List ℕ))
        → ((res' : List (List ℕ))
            → length (extend_while fuel (suc k) ix streams res') ≡ length res')
        → length (elim o [
          | none ↦ res
          | some target ↦
              extend_while fuel (suc k) ix streams (set res (k * suc ix - 1) (target ++ streams))
        ])
          ≡ length res
    step none rec = refl
    step (some target) rec =
        rec (set res (k * suc ix - 1) (target ++ streams))
        ∙ length-set res (k * suc ix - 1) (target ++ streams)

length-apply_from :
    (ix : ℕ) (steps res : List (List ℕ)) → length (apply_from ix steps res) ≡ length res
unfolding apply_from
length-apply_from ix [] res = refl
length-apply_from ix ([] ∷ steps) res = length-apply_from (suc ix) steps res
length-apply_from ix ((s ∷ streams) ∷ steps) res =
    length-apply_from (suc ix) steps (extend_while (length res) 1 ix (s ∷ streams) res)
    ∙ length-extend_while (length res) 1 ix (s ∷ streams) res

length-no_streams : (steps : List (List ℕ)) → length (map no_streams steps) ≡ length steps
length-no_streams [] = refl
length-no_streams (x ∷ steps) = ap suc (length-no_streams steps)

pub length-apply_periodicity :
    (steps : List (List ℕ)) → length (apply_periodicity steps) ≡ length steps
unfolding apply_periodicity
length-apply_periodicity steps =
    length-apply_from 0 steps (map no_streams steps) ∙ length-no_streams steps
