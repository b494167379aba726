-- ===== src/Interpreter/Controller/Refinement.antt =====
-- The loops of interpreter/src/coordination/controller.rs over an evaluator that refines another.
use rtlola.Common.{
  ℕ, zero, suc, ◌-◌, Bool, ◌&&◌, ltb, ◌==◌, List, [], ◌∷◌, Outcome, ok, panic, ◌>>=◌,
}
use rtlola.Common.Refines.{◌⊑◌, ⊑-refl, if-⊑, bind-⊑}
use rtlola.Frontend.Schedule.{Deadline}
use rtlola.Interpreter.Controller.{
  WorkItem, Offline, schedule_timed, schedule_while, handle_event, handle_end, offline_loop,
  first_due, evaluate_offline,
}

module _ {V M : Type 0} (eval eval' : List V → ℕ → M → Outcome M)
    (timed timed' : List ℕ → ℕ → M → Outcome M)
    (eval-⊑ : (e : List V) (ts : ℕ) (m : M) → eval e ts m ⊑ eval' e ts m)
    (timed-⊑ : (due : List ℕ) (ts : ℕ) (m : M) → timed due ts m ⊑ timed' due ts m)
    (deadlines : List Deadline) where
  schedule-⊑ :
      (s : Offline M)
      → schedule_timed eval timed deadlines s ⊑ schedule_timed eval' timed' deadlines s
  unfolding schedule_timed
  schedule-⊑ s =
      bind-⊑ (timed s.due_streams s.next_deadline s.memory) _ _ _
        (timed-⊑ s.due_streams s.next_deadline s.memory) λ m. ⊑-refl _

  while-⊑ :
      (fuel : ℕ) (test : ℕ → Bool) (s : Offline M)
      → schedule_while eval timed deadlines fuel test s
        ⊑ schedule_while eval' timed' deadlines fuel test s
  unfolding schedule_while
  while-⊑ zero test s = ⊑-refl _
  while-⊑ (suc fuel) test s =
      if-⊑ (test s.next_deadline)
        (schedule_timed eval timed deadlines s >>= schedule_while eval timed deadlines fuel test)
        (ok s) _ _
        (bind-⊑ (schedule_timed eval timed deadlines s) _ _ _ (schedule-⊑ s) (while-⊑ fuel test))
        (⊑-refl (ok s))

  loop-⊑ :
      (has : Bool) (items : List (WorkItem V)) (s : Offline M)
      → offline_loop eval timed deadlines has items s
        ⊑ offline_loop eval' timed' deadlines has items s
  unfolding offline_loop handle_event handle_end
  loop-⊑ has [] s = ⊑-refl panic
  loop-⊑ has (WorkItem.event e ts ∷ items) s =
      bind-⊑ (handle_event eval timed deadlines has e ts s) _ _ _
        (bind-⊑
          (schedule_while eval timed deadlines (ts - s.next_deadline) (λ next. has && ltb next ts)
            s)
          _ _ _ (while-⊑ (ts - s.next_deadline) (λ next. has && ltb next ts) s)
          λ s1. bind-⊑ (eval e ts s1.memory) _ _ _ (eval-⊑ e ts s1.memory) λ m. ⊑-refl _)
        (loop-⊑ has items)
  loop-⊑ has (WorkItem.time t ts ∷ items) s = ⊑-refl panic
  loop-⊑ has (WorkItem.end ∷ items) s = while-⊑ 1 (λ next. has && s.current_time == next) s

  pub evaluate_offline-⊑ :
      (has : Bool) (items : List (WorkItem V)) (m : M)
      → evaluate_offline eval timed deadlines has items m
        ⊑ evaluate_offline eval' timed' deadlines has items m
  unfolding evaluate_offline
  evaluate_offline-⊑ has items m =
      bind-⊑ (first_due eval timed deadlines has) _ _ _ (⊑-refl _) λ due. loop-⊑ has items _
