-- ===== src/Frontend/Schedule/Deadlines.antt =====
-- frontend/src/ir/schedule.rs, `condense_deadlines`: the pauses lead to the steps that have streams.
use native.Mathlib.Nat.{div-one}
use rtlola.Common.{
  ℕ, suc, ◌+◌, ◌*◌, ◌/◌, Bool, true, false, not, List, [], ◌∷◌, ok, ◌≡◌, refl, ap, ap₂, ◌∙◌, arith,
  >>=-step,
}
use rtlola.Frontend.Schedule.{Deadline, is_nil, condense_from, condense_deadlines}

-- The deadlines with their times, from the time `t` on.
abbrev pub times_from : ℕ → List Deadline → List (ℕ × List ℕ)
times_from t [] = []
times_from t (d ∷ deadlines) = (t + d.pause, d.due) ∷ times_from (t + d.pause) deadlines

-- The steps that have streams, with their times. The step number `ix` ends after `ix + 1` periods.
abbrev pub step_times : ℕ → ℕ → List (List ℕ) → List (ℕ × List ℕ)
step_times period ix [] = []
step_times period ix ([] ∷ steps) = step_times period (suc ix) steps
step_times period ix ((s ∷ due) ∷ steps) =
    (period * suc ix, s ∷ due) ∷ step_times period (suc ix) steps

-- Is there a last step, with streams?
unfoldable pub is_last_due : List (List ℕ) → Bool
is_last_due [] = false
is_last_due (step ∷ []) = not (is_nil step)
is_last_due (step ∷ next ∷ steps) = is_last_due (next ∷ steps)

Condensed : ℕ → ℕ → ℕ → List (List ℕ) → Type 0
Condensed period from count steps =
    (deadlines : List Deadline) × (condense_from (period, 1) count steps ≡ ok deadlines)
    × (times_from (period * from) deadlines ≡ step_times period (from + count) steps)

condense_nil : (period from : ℕ) → Condensed period from 0 []
unfolding condense_from Condensed
condense_nil period from = ([], refl, refl)

condense_cons :
    (period from count s : ℕ) (due : List ℕ) (steps : List (List ℕ))
    → Condensed period (from + suc count) 0 steps
    → Condensed period from count ((s ∷ due) ∷ steps)
unfolding condense_from Condensed
condense_cons period from count s due steps (deadlines, ran, times) =
    let pause = period * suc count / 1 in
    let reached : period * from + pause ≡ period * (from + suc count) =
      omega (arith, div-one (period * suc count)) in
    let same : from + suc count + 0 ≡ suc (from + count) = omega arith in
    let now : period * (from + suc count) ≡ period * suc (from + count) = omega arith in
    (
      record { pause = pause; due = s ∷ due } ∷ deadlines,
      >>=-step (condense_from (period, 1) 0 steps) _ ran,
      ap (λ (t : ℕ). (t, s ∷ due) ∷ times_from t deadlines) reached
          ∙ ap₂ (λ (t : ℕ) (rest : List (ℕ × List ℕ)). (t, s ∷ due) ∷ rest) now
              (times ∙ ap (λ (ix : ℕ). step_times period ix steps) same),
    )

condense_from_lem :
    (period from count : ℕ) (steps : List (List ℕ))
    → is_last_due steps ≡ true
    → Condensed period from count steps
unfolding condense_from is_last_due Condensed
condense_from_lem period from count [] h = cc
condense_from_lem period from count ([] ∷ []) h = cc
condense_from_lem period from count ([] ∷ next ∷ steps) h =
    let (deadlines, ran, times) = condense_from_lem period from (suc count) (next ∷ steps) h in
    let same : from + suc count ≡ suc (from + count) = omega arith in
    (deadlines, ran, times ∙ ap (λ (ix : ℕ). step_times period ix (next ∷ steps)) same)
condense_from_lem period from count ((s ∷ due) ∷ []) h =
    condense_cons period from count s due [] (condense_nil period (from + suc count))
condense_from_lem period from count ((s ∷ due) ∷ next ∷ steps) h =
    condense_cons period from count s due (next ∷ steps)
      (condense_from_lem period (from + suc count) 0 (next ∷ steps) h)

-- If the length of a step is a whole number of nanoseconds and the last step has streams, then the
-- deadlines, each after its own pause since the one before (and the first after its pause since the
-- start), fall on the ends of the steps that have streams, and hold the streams of these. So the pause
-- of a deadline is the one before it, as the interpreter takes it; the docs of `Deadline` and
-- `Schedule` describe it as the one after it, with the first deadline at the start.
pub condense_deadlines-step_times :
    (period : ℕ) (steps : List (List ℕ))
    → is_last_due steps ≡ true
    → (deadlines : List Deadline) × (condense_deadlines (period, 1) steps ≡ ok deadlines)
      × (times_from 0 deadlines ≡ step_times period 0 steps)
unfolding condense_deadlines Condensed
condense_deadlines-step_times period steps h =
    let (deadlines, ran, times) = condense_from_lem period 0 0 steps h in
    let start : 0 ≡ period * 0 = omega arith in
    (deadlines, ran, ap (λ (t : ℕ). times_from t deadlines) start ∙ times)
