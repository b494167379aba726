-- ===== src/Interpreter/Controller/Scheduled.antt =====
-- frontend/src/ir/schedule.rs makes deadlines that the offline loop of
-- interpreter/src/coordination/controller.rs can work with.
use native.Mathlib.Nat.{le-div_iff_mul-le}
use rtlola.Common.{
  ℕ, zero, suc, ◌+◌, ◌*◌, ◌/◌, ◌≤◌, ◌<◌, Bool, true, false, ◌&&◌, if◌then◌else◌, some, List, [],
  ◌∷◌, ◌++◌, length, get_elem?, some-injective, ok, ◌≡◌, refl, sym, ap, ◌∙◌, arith, >>=-step,
  and_intro, ltb, lt→ltb,
}
use rtlola.Frontend.Schedule.{
  Deadline, is_nil, condense_from, condense_deadlines, apply_periodicity,
}
use rtlola.Frontend.Schedule.Deadlines.{is_last_due}
use rtlola.Frontend.Schedule.Periodicity.{
  due_from, is_multiple, apply_periodicity-due_from, length-apply_periodicity,
}
use rtlola.Interpreter.Controller.Cycles.{all_pause, is_some_deadline}

-- the last step, by its index
is_last_due_at :
    (steps : List (List ℕ)) (i s : ℕ) (due : List ℕ)
    → length steps ≡ suc i
    → get_elem? steps i ≡ some (s ∷ due)
    → is_last_due steps ≡ true
unfolding is_last_due
is_last_due_at [] i s due h k = cc
is_last_due_at (step ∷ []) zero s due h k = cc
is_last_due_at (step ∷ []) (suc i) s due h k = cc
is_last_due_at (step ∷ next ∷ steps) zero s due h k = let no : ⊥ = omega arith in elim no [ ]
is_last_due_at (step ∷ next ∷ steps) (suc i) s due h k =
    is_last_due_at (next ∷ steps) i s due (omega arith) k

not_nil_either :
    (b : Bool) (xs ys : List ℕ) → is_nil ys ≡ false → is_nil (if b then xs ++ ys else ys) ≡ false
not_nil_either true [] ys h = h
not_nil_either true (x ∷ xs) ys h = refl
not_nil_either false xs ys h = h

head_of : (xs : List ℕ) → is_nil xs ≡ false → (x : ℕ) × (rest : List ℕ) × (xs ≡ x ∷ rest)
head_of [] h = cc
head_of (x ∷ rest) h = (x, rest, refl)

-- A stream whose first step divides the step is due in it.
due_from-some :
    (ix j : ℕ) (steps : List (List ℕ)) (i s : ℕ) (streams : List ℕ)
    → get_elem? steps j ≡ some (s ∷ streams)
    → is_multiple (ix + j) i ≡ true
    → is_nil (due_from ix steps i) ≡ false
unfolding due_from
due_from-some ix j [] i s streams h k = cc
due_from-some ix zero (step ∷ steps) i s streams h k =
    let rest = due_from (suc ix) steps i in
    let same : ix + 0 ≡ ix = omega arith in
    ap (λ x. is_nil (if is_multiple ix i then x ++ rest else rest)) (some-injective h)
    ∙ ap (λ (b : Bool). is_nil (if b then (s ∷ streams) ++ rest else rest))
        (ap (λ (n : ℕ). is_multiple n i) (sym same) ∙ k)
due_from-some ix (suc j) (step ∷ steps) i s streams h k =
    let same : ix + suc j ≡ suc ix + j = omega arith in
    not_nil_either (is_multiple ix i) step (due_from (suc ix) steps i) (
      due_from-some (suc ix) j steps i s streams h (ap (λ (n : ℕ). is_multiple n i) (sym same) ∙ k))

pause_positive : (n d c : ℕ) → 0 < d → d ≤ n → 0 < n * suc c / d
pause_positive n d c pos le = (le-div_iff_mul-le pos).1 (omega arith)

condense_from-runs :
    (n d count : ℕ) (steps : List (List ℕ))
    → 0 < d
    → d ≤ n
    → is_last_due steps ≡ true
    → (ds : List Deadline) × (condense_from (n, d) count steps ≡ ok ds)
      × (is_some_deadline ds ≡ true)
      × (all_pause ds ≡ true)
unfolding condense_from is_last_due is_some_deadline all_pause
condense_from-runs n d count [] pos le h = cc
condense_from-runs n d count ([] ∷ []) pos le h = cc
condense_from-runs n d count ([] ∷ next ∷ steps) pos le h =
    condense_from-runs n d (suc count) (next ∷ steps) pos le h
condense_from-runs n d count ((s ∷ due) ∷ []) pos le h =
    let positive = lt→ltb 0 (n * suc count / d) (pause_positive n d count pos le) in
    (
      record { pause = n * suc count / d; due = s ∷ due } ∷ [],
      refl,
      refl,
      ap (λ b. b && true) positive,
    )
condense_from-runs n d count ((s ∷ due) ∷ next ∷ steps) pos le h =
    let (ds, ran, first, pauses) = condense_from-runs n d 0 (next ∷ steps) pos le h in
    let positive = lt→ltb 0 (n * suc count / d) (pause_positive n d count pos le) in
    (
      record { pause = n * suc count / d; due = s ∷ due } ∷ ds,
      >>=-step (condense_from (n, d) 0 (next ∷ steps)) _ ran,
      refl,
      and_intro (ltb 0 (n * suc count / d)) (all_pause ds) positive pauses,
    )

-- If the period of the steps is at least a nanosecond and the first step of some stream divides the
-- number of steps, then the deadlines are made without a panic, there is one, and each pause takes
-- time.
pub condense_deadlines-all_pause :
    (n d : ℕ) (steps : List (List ℕ)) (i j s : ℕ) (streams : List ℕ)
    → 0 < d
    → d ≤ n
    → length steps ≡ suc i
    → get_elem? steps j ≡ some (s ∷ streams)
    → is_multiple j i ≡ true
    → (ds : List Deadline) × (condense_deadlines (n, d) (apply_periodicity steps) ≡ ok ds)
      × (is_some_deadline ds ≡ true)
      × (all_pause ds ≡ true)
unfolding condense_deadlines
condense_deadlines-all_pause n d steps i j s streams pos le h k l =
    let start : 0 + j ≡ j = omega arith in
    let (x, rest, nonempty) =
      head_of (due_from 0 steps i)
        (due_from-some 0 j steps i s streams k (ap (λ (m : ℕ). is_multiple m i) start ∙ l)) in
    condense_from-runs n d 0 (apply_periodicity steps) pos le (
      is_last_due_at (apply_periodicity steps) i x rest (length-apply_periodicity steps ∙ h)
        (apply_periodicity-due_from steps i (omega (arith, h)) ∙ ap some nonempty))
