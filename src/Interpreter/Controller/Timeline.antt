-- ===== src/Interpreter/Controller/Timeline.antt =====
-- The cycles that the offline mode of interpreter/src/coordination/controller.rs is to run: the
-- deadlines of the schedule, round after round, merged with the events by their times.
use rtlola.Common.{
  ℕ, zero, suc, ◌+◌, Bool, true, false, ◌&&◌, if◌then◌else◌, ltb, leb, List, [], ◌∷◌, ◌++◌, Outcome,
  ok, ◌>>=◌, ◌≡◌, refl, sym, ap, ◌∙◌, bind_assoc, bind_cong,
}
use rtlola.Frontend.Schedule.{Deadline}
use rtlola.Frontend.Schedule.Deadlines.{times_from}
use rtlola.Interpreter.Controller.{WorkItem}

-- A cycle of the evaluator: for an event, or for the streams that are due at a time.
pub data Cycle (V : Type 0) : Type 0 where
  of_event : List V → ℕ → Cycle V
  of_deadline : List ℕ → ℕ → Cycle V

-- the time after the pauses of all deadlines
abbrev pub time_after : ℕ → List Deadline → ℕ
time_after t [] = t
time_after t (d ∷ deadlines) = time_after (t + d.pause) deadlines

-- The deadlines of a number of rounds, with their times, from the time `t` on.
abbrev pub rounds : List Deadline → ℕ → ℕ → List (ℕ × List ℕ)
rounds deadlines zero t = []
rounds deadlines (suc k) t = times_from t deadlines ++ rounds deadlines k (time_after t deadlines)

-- the streams of the last deadline
abbrev pub last_due : List Deadline → List ℕ
last_due [] = []
last_due (d ∷ []) = d.due
last_due (d ∷ e ∷ deadlines) = last_due (e ∷ deadlines)

-- What the schedule asks for up to the time `n` and beyond: the streams of the last deadline at the
-- time 0, and then round after round.
abbrev pub timeline : List Deadline → ℕ → List (ℕ × List ℕ)
timeline deadlines n = (0, last_due deadlines) ∷ rounds deadlines (suc (suc n)) 0

-- Without time-driven streams no deadline is asked for.
abbrev pub planned : Bool → List Deadline → ℕ → List (ℕ × List ℕ)
planned true deadlines n = timeline deadlines n
planned false deadlines n = []

-- The cycles of the deadlines at the front whose times pass a test, and the deadlines after them.
unfoldable pub cycles_while : {V : Type 0} → (ℕ → Bool) → List (ℕ × List ℕ) → List (Cycle V)
cycles_while p [] = []
cycles_while p ((t, due) ∷ rest) =
    let later = cycles_while p rest in if p t then of_deadline due t ∷ later else []

unfoldable pub deadlines_after : (ℕ → Bool) → List (ℕ × List ℕ) → List (ℕ × List ℕ)
deadlines_after p [] = []
deadlines_after p ((t, due) ∷ rest) =
    let later = deadlines_after p rest in if p t then later else (t, due) ∷ rest

pub cycles_while-true :
    {V : Type 0} (p : ℕ → Bool) (t : ℕ) (due : List ℕ) (rest : List (ℕ × List ℕ))
    → p t ≡ true
    → cycles_while {V = V} p ((t, due) ∷ rest) ≡ of_deadline due t ∷ cycles_while p rest
unfolding cycles_while
cycles_while-true p t due rest h =
    ap (λ (b : Bool). if b then of_deadline due t ∷ cycles_while p rest else []) h

pub cycles_while-false :
    {V : Type 0} (p : ℕ → Bool) (t : ℕ) (due : List ℕ) (rest : List (ℕ × List ℕ))
    → p t ≡ false
    → cycles_while {V = V} p ((t, due) ∷ rest) ≡ []
unfolding cycles_while
cycles_while-false p t due rest h =
    ap (λ (b : Bool). if b then of_deadline due t ∷ cycles_while p rest else []) h

pub deadlines_after-true :
    (p : ℕ → Bool) (t : ℕ) (due : List ℕ) (rest : List (ℕ × List ℕ))
    → p t ≡ true
    → deadlines_after p ((t, due) ∷ rest) ≡ deadlines_after p rest
unfolding deadlines_after
deadlines_after-true p t due rest h =
    ap (λ (b : Bool). if b then deadlines_after p rest else (t, due) ∷ rest) h

-- Each event comes after the deadlines before its time, and before one of the same time. The deadlines
-- up to the time of the last event, which is `last`, come before the end.
unfoldable pub merged : {V : Type 0} → ℕ → List (ℕ × List ℕ) → List (WorkItem V) → List (Cycle V)
merged last deadlines [] = []
merged last deadlines (WorkItem.event e ts ∷ items) =
    cycles_while (λ t. ltb t ts) deadlines
    ++ (of_event e ts ∷ merged ts (deadlines_after (λ t. ltb t ts) deadlines) items)
merged last deadlines (WorkItem.time due ts ∷ items) = []
merged last deadlines (WorkItem.end ∷ items) = cycles_while (λ t. leb t last) deadlines

-- Events with times up to `n`, and then the end.
unfoldable pub is_over_by : {V : Type 0} → ℕ → List (WorkItem V) → Bool
is_over_by n [] = false
is_over_by n (WorkItem.event e ts ∷ items) = leb ts n && is_over_by n items
is_over_by n (WorkItem.time due ts ∷ items) = false
is_over_by n (WorkItem.end ∷ items) = true

module _ {V M : Type 0} (eval_event : List V → ℕ → M → Outcome M)
    (eval_time_driven_outputs : List ℕ → ℕ → M → Outcome M) where
  abbrev pub run_cycle : Cycle V → M → Outcome M
  run_cycle (of_event e ts) m = eval_event e ts m
  run_cycle (of_deadline due t) m = eval_time_driven_outputs due t m

  -- The cycles one after the other, up to the first that panics.
  abbrev pub run_cycles : List (Cycle V) → M → Outcome M
  run_cycles [] m = ok m
  run_cycles (c ∷ cycles) m = run_cycle c m >>= run_cycles cycles

  pub run_cycles-++ :
      (xs ys : List (Cycle V)) (m : M)
      → run_cycles (xs ++ ys) m ≡ (run_cycles xs m >>= run_cycles ys)
  run_cycles-++ [] ys m = refl
  run_cycles-++ (c ∷ xs) ys m =
      bind_cong (run_cycle c m) _ _ (run_cycles-++ xs ys)
      ∙ sym (bind_assoc (run_cycle c m) (run_cycles xs) (run_cycles ys))
