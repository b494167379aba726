-- ===== src/Interpreter/Controller/Ahead.antt =====
-- The offline loop of interpreter/src/coordination/controller.rs: the place of its iterator over the
-- deadlines in the timeline.
use rtlola.Common.{
  ℕ, zero, suc, ◌+◌, ◌≤◌, ◌<◌, true, ltb, List, [], ◌∷◌, ◌++◌, ok, ◌≡◌, refl, arith, and_parts,
  ltb→lt,
}
use rtlola.Frontend.Schedule.{Deadline}
use rtlola.Frontend.Schedule.Deadlines.{times_from}
use rtlola.Interpreter.Controller.{next_of_cycle, Offline}
use rtlola.Interpreter.Controller.Cycles.{all_pause, is_some_deadline}
use rtlola.Interpreter.Controller.Timeline.{time_after, rounds}

-- The deadlines after the next one: the rest of this round, and `k` more rounds.
abbrev pub later : {M : Type 0} → List Deadline → Offline M → ℕ → List (ℕ × List ℕ)
later deadlines s k =
    times_from s.next_deadline s.upcoming
    ++ rounds deadlines k (time_after s.next_deadline s.upcoming)

abbrev pub ahead : {M : Type 0} → List Deadline → Offline M → ℕ → List (ℕ × List ℕ)
ahead deadlines s k = (s.next_deadline, s.due_streams) ∷ later deadlines s k

-- `k` more rounds reach beyond the time `n`
abbrev pub Reaches : {M : Type 0} → ℕ → Offline M → ℕ → Type 0
Reaches n s k = (n < s.next_deadline + k) × (all_pause s.upcoming ≡ true)

-- The next deadline of the cycle is the first of what is ahead, if that reaches beyond the time `n`.
pub record Next (deadlines upcoming : List Deadline) (n t k : ℕ) : Type 0 where
  pub deadline : Deadline
  pub rest : List Deadline
  pub more : ℕ
  pub taken : next_of_cycle deadlines upcoming ≡ ok (deadline, rest)
  pub positive : ltb 0 deadline.pause ≡ true
  pub first :
      (times_from t upcoming ++ rounds deadlines k (time_after t upcoming))
      ≡ (t + deadline.pause, deadline.due)
        ∷ (times_from (t + deadline.pause) rest
            ++ rounds deadlines more (time_after (t + deadline.pause) rest))
  pub reaches : n < t + deadline.pause + more
  pub paused : all_pause rest ≡ true

pub next_of_cycle_lem :
    (deadlines upcoming : List Deadline) (n t k : ℕ)
    → is_some_deadline deadlines ≡ true
    → all_pause deadlines ≡ true
    → all_pause upcoming ≡ true
    → n < t + k
    → t ≤ n
    → Next deadlines upcoming n t k
unfolding next_of_cycle all_pause is_some_deadline
next_of_cycle_lem deadlines (d ∷ upcoming) n t k some pauses h reach le =
    let (pos, rest) = and_parts (ltb 0 d.pause) (all_pause upcoming) h in
    record {
      deadline = d;
      rest = upcoming;
      more = k;
      taken = refl;
      positive = pos;
      first = refl;
      reaches = omega arith;
      paused = rest;
    }
next_of_cycle_lem (d ∷ deadlines) [] n t (suc k) some pauses h reach le =
    let (pos, rest) = and_parts (ltb 0 d.pause) (all_pause deadlines) pauses in
    let later = ltb→lt 0 d.pause pos in
    record {
      deadline = d;
      rest = deadlines;
      more = k;
      taken = refl;
      positive = pos;
      first = refl;
      reaches = omega arith;
      paused = rest;
    }
next_of_cycle_lem deadlines [] n t zero some pauses h reach le =
    let none_left : ⊥ = omega arith in elim none_left [ ]
next_of_cycle_lem [] [] n t (suc k) some pauses h reach le = cc
