-- ===== src/Interpreter/Controller.antt =====
-- interpreter/src/coordination/{mod,controller,time_driven_manager}.rs: the loops that feed the
-- evaluator. What an evaluator does is a parameter: `M` is its state, and `eval_event` and
-- `eval_time_driven_outputs` are its cycles.
pub mod Cycles
pub mod Timeline
pub mod Ahead
pub mod CatchUp
pub mod OfflineOrder
pub mod Refinement
pub mod Scheduled
use rtlola.Common.{
  ℕ, zero, suc, ◌+◌, ◌-◌, Bool, true, false, ◌&&◌, if◌then◌else◌, ltb, ◌==◌, Option, none, some,
  List, [], ◌∷◌, Outcome, ok, panic, ◌>>=◌, ◌>>◌, assert, expect,
}
use rtlola.Frontend.Schedule.{Deadline}

pub data WorkItem (V : Type 0) : Type 0 where
  event : List V → ℕ → WorkItem V
  time : List ℕ → ℕ → WorkItem V
  end : WorkItem V

-- `get_last_due`
unfoldable pub get_last_due : List Deadline → Outcome (List ℕ)
get_last_due [] = panic
get_last_due (d ∷ []) = ok d.due
get_last_due (d ∷ e ∷ ds) = get_last_due (e ∷ ds)

-- `next` of the iterator `deadlines.iter().cycle()`, of which `upcoming` is what is left of the
-- current round
unfoldable pub next_of_cycle : List Deadline → List Deadline → Outcome (Deadline × List Deadline)
next_of_cycle deadlines (d ∷ upcoming) = ok (d, upcoming)
next_of_cycle (d ∷ deadlines) [] = ok (d, deadlines)
next_of_cycle [] [] = panic

-- the local variables of the offline loop, with the state of its evaluator
pub record Offline (M : Type 0) : Type 0 where
  pub memory : M
  pub due_streams : List ℕ
  pub next_deadline : ℕ
  pub upcoming : List Deadline
  pub current_time : ℕ

module _ {V M : Type 0} (eval_event : List V → ℕ → M → Outcome M)
    (eval_time_driven_outputs : List ℕ → ℕ → M → Outcome M) where
  -- The queue of the online mode: the items of both producers, in the order in which they came.
  -- If the queue ends, both producers have hung up.
  unfoldable pub evaluate_online : List (WorkItem V) → M → Outcome M
  evaluate_online [] m = panic
  evaluate_online (WorkItem.event e ts ∷ items) m = eval_event e ts m >>= evaluate_online items
  evaluate_online (WorkItem.time t ts ∷ items) m =
      eval_time_driven_outputs t ts m >>= evaluate_online items
  evaluate_online (WorkItem.end ∷ items) m = ok m

  module _ (deadlines : List Deadline) where
    unfoldable pub schedule_timed : Offline M → Outcome (Offline M)
    schedule_timed s = do
      m ← eval_time_driven_outputs s.due_streams s.next_deadline s.memory
      (deadline, rest) ← next_of_cycle deadlines s.upcoming
      assert (ltb 0 deadline.pause)
      ok (record s {
        memory = m;
        due_streams = deadline.due;
        next_deadline = s.next_deadline + deadline.pause;
        upcoming = rest;
      })

    -- `while`: schedule as long as the test holds of the next deadline. The first argument is fuel.
    unfoldable pub schedule_while : ℕ → (ℕ → Bool) → Offline M → Outcome (Offline M)
    schedule_while zero test s = if test s.next_deadline then panic else ok s
    schedule_while (suc fuel) test s =
        if test s.next_deadline then schedule_timed s >>= schedule_while fuel test else ok s

    unfoldable pub handle_event : Bool → List V → ℕ → Offline M → Outcome (Offline M)
    handle_event has_time_driven e ts s = do
      s' ← schedule_while (ts - s.next_deadline) (λ next. has_time_driven && ltb next ts) s
      m ← eval_event e ts s'.memory
      ok (record s' { memory = m; current_time = ts })

    unfoldable pub handle_end : Bool → Offline M → Outcome (Offline M)
    handle_end has_time_driven s =
        schedule_while 1 (λ next. has_time_driven && s.current_time == next) s

    -- the loop over the items that the reader of the input sends
    unfoldable pub offline_loop : Bool → List (WorkItem V) → Offline M → Outcome (Offline M)
    offline_loop has [] s = panic
    offline_loop has (WorkItem.event e ts ∷ items) s =
        handle_event has e ts s >>= offline_loop has items
    offline_loop has (WorkItem.time t ts ∷ items) s = panic
    offline_loop has (WorkItem.end ∷ items) s = handle_end has s

    abbrev pub first_due : Bool → Outcome (List ℕ)
    first_due true = get_last_due deadlines
    first_due false = ok []

    unfoldable pub evaluate_offline : Bool → List (WorkItem V) → M → Outcome (Offline M)
    evaluate_offline has items m = do
      due ← first_due has
      offline_loop has items (record {
        memory = m;
        due_streams = due;
        next_deadline = 0;
        upcoming = deadlines;
        current_time = 0;
      })
