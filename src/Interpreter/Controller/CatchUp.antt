-- ===== src/Interpreter/Controller/CatchUp.antt =====
-- The offline loop of interpreter/src/coordination/controller.rs: the deadlines that it runs before an
-- event.
use rtlola.Common.{
  ℕ, zero, suc, ◌+◌, ◌≤◌, ◌<◌, Bool, true, false, ◌&&◌, ltb, List, ◌∷◌, Outcome, ok, ◌>>=◌, ◌≡◌,
  refl, sym, ap, ◌∙◌, arith, inl, inr, Bool-cases, ltb→lt, if-true, ltb-false, le→ltb-false,
  bind_assoc, bind_cong,
}
use rtlola.Frontend.Schedule.{Deadline}
use rtlola.Interpreter.Controller.{Offline, schedule_timed, schedule_while}
use rtlola.Interpreter.Controller.Cycles.{all_pause, is_some_deadline}
use rtlola.Interpreter.Controller.Timeline.{
  Cycle, of_deadline, cycles_while, deadlines_after, run_cycles, cycles_while-true,
  deadlines_after-true,
}
use rtlola.Interpreter.Controller.Ahead.{later, ahead, Reaches, next_of_cycle_lem}

-- the same place in the schedule, with another memory
abbrev pub at : {M : Type 0} → Offline M → M → Offline M
at s m = record s { memory = m }

abbrev pub before : ℕ → ℕ → Bool
before ts t = ltb t ts

module _ {V M : Type 0} (eval_event : List V → ℕ → M → Outcome M)
    (eval_time_driven_outputs : List ℕ → ℕ → M → Outcome M) (deadlines : List Deadline)
    (some_deadline : is_some_deadline deadlines ≡ true) (pauses : all_pause deadlines ≡ true) where
  -- One call of `schedule_timed` runs the next deadline, and moves on to the one after it.
  pub record Moved (n : ℕ) (s : Offline M) (k : ℕ) : Type 0 where
    pub next : Offline M
    pub rest : ℕ
    pub same : next.current_time ≡ s.current_time
    pub runs :
        (m : M)
        → schedule_timed eval_event eval_time_driven_outputs deadlines (at s m)
          ≡ (eval_time_driven_outputs s.due_streams s.next_deadline m >>= λ m'. ok (at next m'))
    pub moved : later deadlines s k ≡ ahead deadlines next rest
    pub after : s.next_deadline < next.next_deadline
    pub reaches : Reaches n next rest

  pub schedule_timed_lem :
      (n : ℕ) (s : Offline M) (k : ℕ) → Reaches n s k → s.next_deadline ≤ n → Moved n s k
  unfolding schedule_timed
  schedule_timed_lem n s k (reach, paused) le =
      let d =
        next_of_cycle_lem deadlines s.upcoming n s.next_deadline k some_deadline pauses paused reach
          le in
      let later = ltb→lt 0 d.deadline.pause d.positive in
      record {
        next = record s {
          due_streams = d.deadline.due;
          next_deadline = s.next_deadline + d.deadline.pause;
          upcoming = d.rest;
        };
        rest = d.more;
        same = refl;
        runs = λ m. rw (d.taken, d.positive) refl;
        moved = d.first;
        after = omega arith;
        reaches = (d.reaches, d.paused);
      }

  abbrev pub run : List (Cycle V) → M → Outcome M
  run = run_cycles eval_event eval_time_driven_outputs

  abbrev while_before : ℕ → ℕ → Offline M → Outcome (Offline M)
  while_before fuel ts =
      schedule_while eval_event eval_time_driven_outputs deadlines fuel
        (λ next. true && ltb next ts)

  -- The loop runs the deadlines before the time `ts`, and stops at the first that is not.
  pub record CaughtUp (n fuel ts : ℕ) (s : Offline M) (k : ℕ) : Type 0 where
    pub next : Offline M
    pub rest : ℕ
    pub same : next.current_time ≡ s.current_time
    pub runs :
        (m : M)
        → while_before fuel ts (at s m)
          ≡ (run (cycles_while (before ts) (ahead deadlines s k)) m >>= λ m'. ok (at next m'))
    pub moved : deadlines_after (before ts) (ahead deadlines s k) ≡ ahead deadlines next rest
    pub reached : ts ≤ next.next_deadline
    pub reaches : Reaches n next rest

  caught_up :
      (n fuel ts : ℕ) (s : Offline M) (k : ℕ)
      → Reaches n s k
      → ltb s.next_deadline ts ≡ false
      → CaughtUp n fuel ts s k
  unfolding schedule_while cycles_while deadlines_after
  caught_up n zero ts s k reaches h = record {
    next = s;
    rest = k;
    same = refl;
    runs = λ m. rw h refl;
    moved = rw h refl;
    reached = ltb-false s.next_deadline ts h;
    reaches = reaches;
  }
  caught_up n (suc fuel) ts s k reaches h = record {
    next = s;
    rest = k;
    same = refl;
    runs = λ m. rw h refl;
    moved = rw h refl;
    reached = ltb-false s.next_deadline ts h;
    reaches = reaches;
  }

  -- Running the next deadline first, and then the cycles `c`.
  pub first_runs :
      (s : Offline M) (k n : ℕ) (one : Moved n s k) (go : Offline M → Outcome (Offline M))
      (cycles : List (Cycle V)) (end : Offline M)
      → ((m : M) → go (at one.next m) ≡ (run cycles m >>= λ m'. ok (at end m')))
      → (m : M)
      → (schedule_timed eval_event eval_time_driven_outputs deadlines (at s m) >>= go)
        ≡ (run (of_deadline s.due_streams s.next_deadline ∷ cycles) m >>= λ m'. ok (at end m'))
  first_runs s k n one go cycles end h m =
      let first = eval_time_driven_outputs s.due_streams s.next_deadline m in
      ap (λ o. o >>= go) (one.runs m)
      ∙ bind_assoc first (λ m'. ok (at one.next m')) go
      ∙ bind_cong first _ _ h
      ∙ sym (bind_assoc first (run cycles) (λ m'. ok (at end m')))

  catch_up_once :
      (n fuel ts : ℕ) (s : Offline M) (k : ℕ)
      → ltb s.next_deadline ts ≡ true
      → (one : Moved n s k) → CaughtUp n fuel ts one.next one.rest
      → CaughtUp n (suc fuel) ts s k
  unfolding schedule_while
  catch_up_once n fuel ts s k early one c =
      let cycles =
        cycles_while-true (before ts) s.next_deadline s.due_streams (later deadlines s k) early
        ∙ ap (λ ds. of_deadline s.due_streams s.next_deadline ∷ cycles_while (before ts) ds)
            one.moved in
      record {
        next = c.next;
        rest = c.rest;
        same = c.same ∙ one.same;
        runs = λ m.
            if-true (ltb s.next_deadline ts) _ (ok (at s m)) early
            ∙ first_runs s k n one (while_before fuel ts)
                (cycles_while (before ts) (ahead deadlines one.next one.rest)) c.next c.runs m
            ∙ ap (λ cs. run cs m >>= λ m'. ok (at c.next m')) (sym cycles);
        moved =
            deadlines_after-true (before ts) s.next_deadline s.due_streams (later deadlines s k)
              early
            ∙ ap (deadlines_after (before ts)) one.moved
            ∙ c.moved;
        reached = c.reached;
        reaches = c.reaches;
      }

  pub catch_up :
      (n fuel ts : ℕ) (s : Offline M) (k : ℕ)
      → Reaches n s k
      → ts ≤ n
      → ts ≤ s.next_deadline + fuel
      → CaughtUp n fuel ts s k
  catch_up n zero ts s k reaches within enough =
      caught_up n zero ts s k reaches (le→ltb-false s.next_deadline ts (omega arith))
  catch_up n (suc fuel) ts s k reaches within enough = elim (Bool-cases (ltb s.next_deadline ts)) [
    | inr reached ↦ caught_up n (suc fuel) ts s k reaches reached
    | inl early ↦
        let lt = ltb→lt s.next_deadline ts early in
        let one = schedule_timed_lem n s k reaches (omega arith) in
        let earlier = one.after in
        catch_up_once n fuel ts s k early one
          (catch_up n fuel ts one.next one.rest one.reaches within (omega arith))
  ]
