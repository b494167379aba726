-- ===== src/Interpreter/Controller/OfflineOrder.antt =====
-- The offline loop of interpreter/src/coordination/controller.rs: which cycles of the evaluator it
-- runs, and in which order.
use rtlola.Common.{
  ℕ, zero, suc, ◌-◌, ◌≤◌, Bool, true, false, ◌&&◌, ltb, leb, ◌==◌, List, [], ◌∷◌, ◌++◌, Outcome, ok,
  panic, ◌>>=◌, ◌≡◌, refl, sym, ap, ◌∙◌, arith, inl, inr, Bool-cases, and_parts, leb→le, ==_iff,
  if-true, if-false, lt→==_false, ==_false→lt, bind_assoc, bind_cong, bind-ok,
}
use rtlola.Frontend.Schedule.{Deadline}
use rtlola.Interpreter.Controller.{
  WorkItem, get_last_due, Offline, schedule_while, handle_event, handle_end, offline_loop,
  evaluate_offline,
}
use rtlola.Interpreter.Controller.Cycles.{all_pause, is_some_deadline, is_scheduled}
use rtlola.Interpreter.Controller.Timeline.{
  Cycle, of_event, of_deadline, last_due, timeline, planned, cycles_while, deadlines_after, merged,
  is_over_by, run_cycles, run_cycles-++, cycles_while-true, cycles_while-false,
}
use rtlola.Interpreter.Controller.Ahead.{later, ahead, Reaches}
use rtlola.Interpreter.Controller.CatchUp.{
  at, before, CaughtUp, schedule_timed_lem, first_runs, catch_up,
}

-- What a computation returns goes on through a chain.
chain_two :
    {M S : Type 0} (o : Outcome M) (f : M → S) (next : S → Outcome S) (end : S → Outcome M)
    → ((o >>= λ m. ok (f m)) >>= next >>= end) ≡ (o >>= λ m. next (f m) >>= end)
chain_two (ok m) f next end = refl
chain_two panic f next end = refl

chain_three :
    {M S : Type 0} (o : Outcome M) (f : M → S) (first next : S → Outcome S) (end : S → Outcome M)
    → ((o >>= λ m. ok (f m)) >>= first >>= next >>= end) ≡ (o >>= λ m. first (f m) >>= next >>= end)
chain_three (ok m) f first next end = refl
chain_three panic f first next end = refl

module _ {V M : Type 0} (eval_event : List V → ℕ → M → Outcome M)
    (eval_time_driven_outputs : List ℕ → ℕ → M → Outcome M) (deadlines : List Deadline)
    (some_deadline : is_some_deadline deadlines ≡ true) (pauses : all_pause deadlines ≡ true) where
  abbrev run : List (Cycle V) → M → Outcome M
  run = run_cycles eval_event eval_time_driven_outputs

  -- The rest of a run: of the loop, only the memory that it leaves.
  abbrev loop : List (WorkItem V) → Offline M → Outcome M
  loop items s =
      offline_loop eval_event eval_time_driven_outputs deadlines true items s >>= λ s'. ok s'.memory

  memory_of :
      (cycles : List (Cycle V)) (end : Offline M) (m : M) (o : Outcome (Offline M))
      → o ≡ (run cycles m >>= λ m'. ok (at end m'))
      → (o >>= λ s'. ok s'.memory) ≡ run cycles m
  memory_of cycles end m o h =
      ap (λ x. x >>= λ (s' : Offline M). ok s'.memory) h
      ∙ bind_assoc (run cycles m) (λ m'. ok (at end m')) (λ s'. ok s'.memory)
      ∙ bind-ok (run cycles m)

  handle_end_lem :
      (n : ℕ) (s : Offline M) (k : ℕ)
      → Reaches n s k
      → s.current_time ≤ n
      → s.current_time ≤ s.next_deadline
      → (m : M)
      → (handle_end eval_event eval_time_driven_outputs deadlines true (at s m) >>= λ s'.
          ok s'.memory)
        ≡ run (cycles_while (λ t. leb t s.current_time) (ahead deadlines s k)) m
  unfolding handle_end schedule_while
  handle_end_lem n s k reaches within le m =
      let last = λ (t : ℕ). leb t s.current_time in
      elim (Bool-cases (s.current_time == s.next_deadline)) [
        | inl due ↦
            let now = (==_iff s.current_time s.next_deadline).0 due in
            let one =
              schedule_timed_lem eval_event eval_time_driven_outputs deadlines some_deadline pauses
                n s k reaches (omega arith) in
            let after = one.after in
            let passed : leb one.next.next_deadline s.current_time ≡ false = ground arith in
            let stops : (s.current_time == one.next.next_deadline) ≡ false =
              lt→==_false s.current_time one.next.next_deadline (omega arith) in
            let same = one.same in
            let cycles =
              cycles_while-true last s.next_deadline s.due_streams (later deadlines s k)
                (ground arith)
              ∙ ap (λ ds. of_deadline s.due_streams s.next_deadline ∷ ds)
                  (ap (cycles_while last) one.moved
                    ∙ cycles_while-false last one.next.next_deadline one.next.due_streams
                        (later deadlines one.next one.rest) passed) in
            memory_of (of_deadline s.due_streams s.next_deadline ∷ []) one.next m _ (
              if-true (s.current_time == s.next_deadline) _ (ok (at s m)) due
              ∙ first_runs eval_event eval_time_driven_outputs deadlines some_deadline pauses s k n
                  one _ [] one.next
                  (λ m'. if-false (s.current_time == one.next.next_deadline) panic _ stops) m)
            ∙ ap (λ cs. run cs m) (sym cycles)
        | inr passed ↦
            let lt = ==_false→lt s.current_time s.next_deadline passed le in
            memory_of [] s m _ (if-false (s.current_time == s.next_deadline) _ (ok (at s m)) passed)
            ∙ ap (λ cs. run cs m)
                (sym (
                  cycles_while-false last s.next_deadline s.due_streams (later deadlines s k)
                    (ground arith)))
      ]

  event_runs :
      (e : List V) (ts n k : ℕ) (items : List (WorkItem V)) (s : Offline M)
      (c : CaughtUp eval_event eval_time_driven_outputs deadlines some_deadline pauses n
        (ts - s.next_deadline)
        ts
        s
        k)
      (cycles : List (Cycle V))
      → ((m : M) → loop items (at (record c.next { current_time = ts }) m) ≡ run cycles m)
      → (m : M)
      → loop (WorkItem.event e ts ∷ items) (at s m)
        ≡ run (cycles_while (before ts) (ahead deadlines s k) ++ (of_event e ts ∷ cycles)) m
  unfolding offline_loop handle_event
  event_runs e ts n k items s c cycles h m =
      let earlier = cycles_while (before ts) (ahead deadlines s k) in
      let go = offline_loop eval_event eval_time_driven_outputs deadlines true items in
      let step = λ (s' : Offline M).
        eval_event e ts s'.memory >>= λ m2. ok (record s' { memory = m2; current_time = ts }) in
      ap (λ o. o >>= step >>= go >>= λ (s' : Offline M). ok s'.memory) (c.runs m)
      ∙ chain_three (run earlier m) (at c.next) step go (λ s'. ok s'.memory)
      ∙ bind_cong (run earlier m) _ _ (λ m'.
        chain_two (eval_event e ts m') (λ m2. record c.next { memory = m2; current_time = ts }) go
          (λ s'. ok s'.memory)
        ∙ bind_cong (eval_event e ts m') _ _ h)
      ∙ sym (run_cycles-++ eval_event eval_time_driven_outputs earlier (of_event e ts ∷ cycles) m)

  offline_loop_lem :
      (n : ℕ) (items : List (WorkItem V)) (s : Offline M) (k : ℕ)
      → Reaches n s k
      → s.current_time ≤ n
      → s.current_time ≤ s.next_deadline
      → is_over_by n items ≡ true
      → (m : M) → loop items (at s m) ≡ run (merged s.current_time (ahead deadlines s k) items) m
  unfolding is_over_by merged offline_loop
  offline_loop_lem n (WorkItem.event e ts ∷ items) s k reaches within le h m =
      let (early, rest) = and_parts (leb ts n) (is_over_by n items) h in
      let by = leb→le ts n early in
      let c =
        catch_up eval_event eval_time_driven_outputs deadlines some_deadline pauses n
          (ts - s.next_deadline) ts s k reaches by (omega arith) in
      let next = record c.next { current_time = ts } in
      event_runs e ts n k items s c
        (merged ts (deadlines_after (before ts) (ahead deadlines s k)) items)
        (λ m'.
          offline_loop_lem n items next c.rest c.reaches by c.reached rest m'
          ∙ ap (λ ds. run (merged ts ds items) m') (sym c.moved))
        m
  offline_loop_lem n (WorkItem.end ∷ items) s k reaches within le h m =
      handle_end_lem n s k reaches within le m
  offline_loop_lem n (WorkItem.time t ts ∷ items) s k reaches within le h m = cc
  offline_loop_lem n [] s k reaches within le h m = cc

  get_last_due_lem :
      (ds : List Deadline) → is_some_deadline ds ≡ true → get_last_due ds ≡ ok (last_due ds)
  unfolding get_last_due is_some_deadline
  get_last_due_lem [] h = cc
  get_last_due_lem (d ∷ []) h = refl
  get_last_due_lem (d ∷ e ∷ ds) h = get_last_due_lem (e ∷ ds) refl

  timed_run :
      (n : ℕ) (items : List (WorkItem V))
      → is_over_by n items ≡ true
      → (m : M)
      → (evaluate_offline eval_event eval_time_driven_outputs deadlines true items m >>= λ s.
          ok s.memory)
        ≡ run (merged 0 (timeline deadlines n) items) m
  unfolding evaluate_offline
  timed_run n items h m =
      let start : List ℕ → Offline M = λ due. record {
        memory = m;
        due_streams = due;
        next_deadline = 0;
        upcoming = deadlines;
        current_time = 0;
      } in
      ap
        (λ o.
          o
          >>= (λ due.
              offline_loop eval_event eval_time_driven_outputs deadlines true items (start due))
          >>= λ (s : Offline M). ok s.memory)
        (get_last_due_lem deadlines some_deadline)
      ∙ offline_loop_lem n items (start (last_due deadlines)) (suc n) (omega arith, pauses)
          (omega arith) (omega arith) h m

module _ {V M : Type 0} (eval_event : List V → ℕ → M → Outcome M)
    (eval_time_driven_outputs : List ℕ → ℕ → M → Outcome M) (deadlines : List Deadline) where
  while_untimed :
      (fuel : ℕ) (test : ℕ → Bool) (s : Offline M)
      → schedule_while eval_event eval_time_driven_outputs deadlines fuel
          (λ next. false && test next)
          s
        ≡ ok s
  unfolding schedule_while
  while_untimed zero test s = refl
  while_untimed (suc fuel) test s = refl

  untimed_loop :
      (n : ℕ) (items : List (WorkItem V)) (s : Offline M)
      → is_over_by n items ≡ true
      → (offline_loop eval_event eval_time_driven_outputs deadlines false items s >>= λ s'.
          ok s'.memory)
        ≡ run_cycles eval_event eval_time_driven_outputs (merged s.current_time [] items) s.memory
  unfolding offline_loop handle_event handle_end is_over_by merged cycles_while deadlines_after
  untimed_loop n (WorkItem.event e ts ∷ items) s h =
      let (early, rest) = and_parts (leb ts n) (is_over_by n items) h in
      let go = offline_loop eval_event eval_time_driven_outputs deadlines false items in
      let step = λ (s' : Offline M).
        eval_event e ts s'.memory >>= λ m2. ok (record s' { memory = m2; current_time = ts }) in
      ap (λ o. o >>= step >>= go >>= λ (s' : Offline M). ok s'.memory)
        (while_untimed (ts - s.next_deadline) (λ next. ltb next ts) s)
      ∙ chain_two (eval_event e ts s.memory) (λ m2. record s { memory = m2; current_time = ts }) go
          (λ s'. ok s'.memory)
      ∙ bind_cong (eval_event e ts s.memory) _ _
          (λ m2. untimed_loop n items (record s { memory = m2; current_time = ts }) rest)
  untimed_loop n (WorkItem.end ∷ items) s h =
      ap (λ o. o >>= λ (s' : Offline M). ok s'.memory)
        (while_untimed 1 (λ next. s.current_time == next) s)
  untimed_loop n (WorkItem.time t ts ∷ items) s h = cc
  untimed_loop n [] s h = cc

  -- If, where there are time-driven streams, the schedule has a deadline and every pause takes time,
  -- and the items are events up to some time `n` and then the end, then the offline loop does, for
  -- every evaluator and every memory, what running these cycles one after the other does: the events
  -- in their order, and, with time-driven streams, first the streams of the last deadline at the time
  -- 0, then the deadlines round after round at the times to which their pauses add up, each before the
  -- events of a later time and after those of its own time, up to the time of the last event. It
  -- leaves the memory that they leave, and panics exactly if one of them does.
  pub evaluate_offline-cycles :
      (has_time_driven : Bool)
      → is_scheduled has_time_driven deadlines ≡ true
      → (n : ℕ) (items : List (WorkItem V)) → is_over_by n items ≡ true
      → (m : M)
      → (evaluate_offline eval_event eval_time_driven_outputs deadlines has_time_driven items m
          >>= λ s. ok s.memory)
        ≡ run_cycles eval_event eval_time_driven_outputs
            (merged 0 (planned has_time_driven deadlines n) items)
            m
  unfolding evaluate_offline is_scheduled
  evaluate_offline-cycles true scheduled n items h m =
      let (some_deadline, pauses) =
        and_parts (is_some_deadline deadlines) (all_pause deadlines) scheduled in
      timed_run eval_event eval_time_driven_outputs deadlines some_deadline pauses n items h m
  evaluate_offline-cycles false scheduled n items h m =
      untimed_loop n items
        (record {
          memory = m;
          due_streams = [];
          next_deadline = 0;
          upcoming = deadlines;
          current_time = 0;
        })
        h
