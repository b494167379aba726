-- ===== src/Interpreter/Evaluator/Cycle.antt =====
-- interpreter/src/evaluator.rs, `eval_event`: what a cycle leaves in the evaluator's memory.
use rtlola.Common.{
  ℕ, suc, Bool, true, false, ◌||◌, ◌==◌, if◌then◌else◌, Option, none, some, List, [], ◌∷◌,
  get_elem?, Outcome, ok, ◌>>=◌, ◌>>◌, assert, expect, ◌≡◌, refl, ap, sym, subst, ◌∙◌, Post,
  Post-bind, Post-any, Post-ok, Post-if,
}
use rtlola.Interpreter.Store
use rtlola.Interpreter.GlobalStore.{
  get_out_instance, put_out_instance, get_in_instance, put_in_instance,
}
use rtlola.Ir.Program.{Trigger}
use rtlola.Interpreter.Value.{Value}
use rtlola.Interpreter.Condition
use rtlola.Interpreter.Expr.Context.{Platform}
use rtlola.Interpreter.Evaluator.{
  Evaluator, Memory, stream_value, eval_stream, context, publish, register, is_true, inform_windows,
  eval_event_driven_output, eval_event_driven_outputs, eval_layers, eval_event, update_windows,
  eval_all_event_driven_outputs, start_cycle, accept_inputs, accept_input, prepare_evaluation,
  clear_freshness, is_monotone, takes_event_time,
}

module _ {F : Type 0} (p : Platform F) where
  -- what the evaluation of outputs leaves as it is
  abbrev Same : Memory p → Memory p → Type 0
  Same m m' = (m'.time_last_event ≡ m.time_last_event) × (m'.fresh_inputs ≡ m.fresh_inputs)

  Same-refl : (m : Memory p) → Same m m
  Same-refl m = (refl, refl)

  Same-trans : (l m n : Memory p) → Same l m → Same m n → Same l n
  Same-trans l m n (t, i) (t', i') = (t' ∙ t, i' ∙ i)

  abbrev Keeps : (Memory p → Outcome (Memory p)) → Type 0
  Keeps f = (m : Memory p) → Post (Same m) (f m)

  Keeps-seq : (f g : Memory p → Outcome (Memory p)) → Keeps f → Keeps g → Keeps (λ m. f m >>= g)
  Keeps-seq f g hf hg m =
      Post-bind (f m) g (hf m) λ m1 same m2 e. Same-trans m m1 m2 same (hg m1 m2 e)

  register-Keeps :
      (trigger : Option Trigger) (ix : ℕ) (res : Value F) (ts : ℕ)
      → Keeps (register p trigger ix res ts)
  unfolding register
  register-Keeps none ix res ts m = Post-any (get_out_instance m.global_store ix) _ λ inst.
      Post-any (put_out_instance m.global_store ix (Store.push_value inst res)) _
        λ store. Post-ok (Same m) _ (refl, refl)
  register-Keeps (some trig) ix res ts m = some_case (is_true res)
    where
      some_case :
          (b : Bool)
          → Post (Same m) (
              ok (
                if b
                then record m {
                  emitted = record { trigger_idx = trig.trigger_idx; ts = ts } ∷ m.emitted;
                }
                else m))
      some_case true = Post-ok (Same m) _ (refl, refl)
      some_case false = Post-ok (Same m) m (refl, refl)

  stream-Keeps : (ev : Evaluator p) (ix ts : ℕ) → Keeps (eval_stream p ev ix ts)
  unfolding eval_stream publish
  stream-Keeps ev ix ts m = Post-any (stream_value p ev ix (context p m ts)) _ λ res.
      Post-any (expect (get_elem? ev.triggers ix)) _ λ trigger.
        Post-bind (register p trigger ix res ts m) _ (register-Keeps trigger ix res ts m) λ m1 same.
          Post-any (expect (get_elem? ev.ir.outputs ix)) _ λ extended.
            Post-any (inform_windows p extended.dependent_windows res ts m1.global_store) _
              λ store. Post-ok (Same m) _ same

  output-Keeps : (ev : Evaluator p) (ix ts : ℕ) → Keeps (eval_event_driven_output p ev ix ts)
  unfolding eval_event_driven_output
  output-Keeps ev ix ts m = Post-any (expect (get_elem? ev.activation_conditions ix)) _ λ ac.
      Post-any (Condition.eval p.bit_sets ac m.fresh_inputs) _ λ active.
        Post-if active (eval_stream p ev ix ts m) (ok m) (stream-Keeps ev ix ts m)
          (Post-ok (Same m) m (Same-refl m))

  outputs-Keeps :
      (ev : Evaluator p) (ixs : List ℕ) (ts : ℕ) → Keeps (eval_event_driven_outputs p ev ixs ts)
  unfolding eval_event_driven_outputs
  outputs-Keeps ev [] ts = λ m. Post-ok (Same m) m (Same-refl m)
  outputs-Keeps ev (ix ∷ ixs) ts =
      Keeps-seq (eval_event_driven_output p ev ix ts) (eval_event_driven_outputs p ev ixs ts)
        (output-Keeps ev ix ts) (outputs-Keeps ev ixs ts)

  layers-Keeps :
      (ev : Evaluator p) (layers : List (List ℕ)) (ts : ℕ) → Keeps (eval_layers p ev layers ts)
  unfolding eval_layers
  layers-Keeps ev [] ts = λ m. Post-ok (Same m) m (Same-refl m)
  layers-Keeps ev (layer ∷ layers) ts =
      Keeps-seq (eval_event_driven_outputs p ev layer ts) (eval_layers p ev layers ts)
        (outputs-Keeps ev layer ts) (layers-Keeps ev layers ts)

  all-Keeps : (ev : Evaluator p) (ts : ℕ) → Keeps (eval_all_event_driven_outputs p ev ts)
  unfolding eval_all_event_driven_outputs prepare_evaluation
  all-Keeps ev ts =
      Keeps-seq (prepare_evaluation p ev ts) (eval_layers p ev ev.layers ts)
        (λ m.
          Post-any (update_windows p ev.ir.sliding_windows ts m.global_store) _
            λ store. Post-ok (Same m) _ (refl, refl))
        (layers-Keeps ev ev.layers ts)

  -- Has the input `j` a value in an event that starts with the input `ix`?
  unfoldable pub has_value : ℕ → List (Value F) → ℕ → Bool
  has_value ix [] j = false
  has_value ix (Value.none ∷ vs) j = has_value (suc ix) vs j
  has_value ix (v ∷ vs) j = ix == j || has_value (suc ix) vs j

  -- what accepting inputs does to the time and to the set of fresh inputs
  abbrev Accepted : ℕ → List (Value F) → Memory p → Memory p → Type 0
  Accepted ix event m m' =
      (m'.time_last_event ≡ m.time_last_event)
      × ((j : ℕ)
          → p.bit_sets.contains m'.fresh_inputs j
            ≡ (has_value ix event j || p.bit_sets.contains m.fresh_inputs j))

  -- one input
  abbrev Inserted : ℕ → Memory p → Memory p → Type 0
  Inserted ix m m' =
      (m'.time_last_event ≡ m.time_last_event)
      × ((j : ℕ)
          → p.bit_sets.contains m'.fresh_inputs j
            ≡ (ix == j || p.bit_sets.contains m.fresh_inputs j))

  input-Accepted :
      (ev : Evaluator p) (ix : ℕ) (v : Value F) (ts : ℕ) (m : Memory p)
      → Post (Inserted ix m) (accept_input p ev ix v ts m)
  unfolding accept_input
  input-Accepted ev ix v ts m = Post-any (get_in_instance m.global_store ix) _ λ inst.
      Post-any (expect (get_elem? ev.ir.inputs ix)) _ λ extended.
        Post-any
          (inform_windows p extended.dependent_windows v ts
            (put_in_instance m.global_store ix (Store.push_value inst v)))
          _
          λ store.
            Post-ok (Inserted ix m) _ (refl, λ j. p.bit_sets.contains-insert ix j m.fresh_inputs)

  or_rotate : (a b c : Bool) → (a || (b || c)) ≡ ((b || a) || c)
  or_rotate true true c = refl
  or_rotate true false c = refl
  or_rotate false true c = refl
  or_rotate false false c = refl

  accept-Accepted :
      (ev : Evaluator p) (ix : ℕ) (event : List (Value F)) (ts : ℕ) (m : Memory p)
      → Post (Accepted ix event m) (accept_inputs p ev ix event ts m)
  unfolding accept_inputs accept_input has_value
  accept-Accepted ev ix [] ts m = Post-ok (Accepted ix [] m) m (refl, λ j. refl)
  accept-Accepted ev ix (Value.none ∷ vs) ts m = accept-Accepted ev (suc ix) vs ts m
  accept-Accepted ev ix (v ∷ vs) ts m =
      Post-bind (accept_input p ev ix v ts m) _ (input-Accepted ev ix v ts m) λ m1 (t, fresh).
        λ m2 e.
          let (t', fresh') = accept-Accepted ev (suc ix) vs ts m1 m2 e in
          (
            t' ∙ t,
            λ j.
                fresh' j
                ∙ ap (λ b. has_value (suc ix) vs j || b) (fresh j)
                ∙ or_rotate (has_value (suc ix) vs j) (ix == j)
                    (p.bit_sets.contains m.fresh_inputs j),
          )

  or_false : (b : Bool) → (b || false) ≡ b
  or_false true = refl
  or_false false = refl

  -- the start of a cycle that takes the time of its event
  abbrev Started : ℕ → Memory p → ℕ × Memory p → Type 0
  Started ts m (now, started) =
      (is_monotone m.time_last_event ts ≡ true) × (started.time_last_event ≡ some ts)

  start-Started :
      (ev : Evaluator p) (ts clock : ℕ) (m : Memory p)
      → takes_event_time ev.config.mode ≡ true
      → Post (Started ts m) (start_cycle p ev ts clock m)
  unfolding start_cycle
  start-Started ev ts clock m timed =
      subst
        (λ b. Post (Started ts m) (
          if b
          then assert (is_monotone m.time_last_event ts)
            >> ok (ts, record m { time_last_event = some ts })
          else ok (clock, m)))
        (sym timed) (checked (is_monotone m.time_last_event ts) refl)
    where
      checked :
          (b : Bool)
          → b ≡ is_monotone m.time_last_event ts
          → Post (Started ts m) (assert b >> ok (ts, record m { time_last_event = some ts }))
      checked true h = Post-ok (Started ts m) _ (sym h, refl)
      checked false h = λ a e. cc

  -- The event is not older than the last cycle, its time is that of the last cycle now, and the fresh
  -- inputs are those with a value in it.
  abbrev pub Leaves : List (Value F) → ℕ → Memory p → Memory p → Type 0
  Leaves event ts m n =
      (is_monotone m.time_last_event ts ≡ true)
      × (n.time_last_event ≡ some ts)
      × ((j : ℕ) → p.bit_sets.contains n.fresh_inputs j ≡ has_value 0 event j)

  -- In the offline and the API mode, an event's cycle returns only if the event is not older than
  -- the last cycle. It leaves the event's time as the time of the last cycle, and as fresh inputs
  -- just the inputs with a value in the event.
  pub eval_event-Leaves :
      (ev : Evaluator p) (event : List (Value F)) (ts clock : ℕ) (m m' : Memory p)
      → takes_event_time ev.config.mode ≡ true
      → eval_event p ev event ts clock m ≡ ok m'
      → Leaves event ts m m'
  unfolding eval_event clear_freshness
  eval_event-Leaves ev event ts clock m m' timed =
      Post-bind {Q = Leaves event ts m} (start_cycle p ev ts clock m) _
        (start-Started ev ts clock m timed)
        (λ (now, started) (monotone, at).
          Post-bind {Q = Leaves event ts m}
            (accept_inputs p ev 0 event now (clear_freshness p started)) _
            (accept-Accepted ev 0 event now (clear_freshness p started))
            λ m1 (t, fresh). λ m2 e.
              let (t', same) = all-Keeps ev now m1 m2 e in
              (
                monotone,
                t' ∙ t ∙ at,
                λ j.
                    ap (λ s. p.bit_sets.contains s j) same
                    ∙ fresh j
                    ∙ ap (λ b. has_value 0 event j || b) (p.bit_sets.contains-empty j)
                    ∙ or_false (has_value 0 event j),
              ))
        m'
