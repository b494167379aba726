-- ===== src/Interpreter/Evaluator/Choice.antt =====
-- interpreter/src/evaluator.rs runs compiled closures or the interpreter: a cycle with the one
-- against a cycle with the other.
use rtlola.Common.{
  ℕ, zero, suc, Bool, true, ◌&&◌, List, [], ◌∷◌, get_elem?, Outcome, ok, panic, ◌>>=◌, expect, ◌≡◌,
  and_parts,
}
use rtlola.Common.Refines.{◌⊑◌, ⊑-refl, panic-⊑, if-⊑, bind-⊑}
use rtlola.Ir.{Expression}
use rtlola.Interpreter.Value.{Value}
use rtlola.Interpreter.Condition
use rtlola.Interpreter.Expr.Context.{Platform, Context}
use rtlola.Interpreter.Expr.Interpreted.{eval_expr}
use rtlola.Interpreter.Expr.Compiled.{CompiledExpr, compile}
use rtlola.Interpreter.Expr.Agreement.{is_shared, compile-eval_expr}
use rtlola.Frontend.Schedule.{Deadline}
use rtlola.Interpreter.Controller.{WorkItem, Offline, evaluate_offline}
use rtlola.Interpreter.Controller.Refinement.{evaluate_offline-⊑}
use rtlola.Interpreter.Evaluator.{
  Evaluator, Memory, EvaluatorChoice, closure_based, interpreted, compile_all, stream_value,
  eval_stream, context, publish, eval_streams, eval_event_driven_output, eval_event_driven_outputs,
  eval_layers, eval_event, eval_all_event_driven_outputs, eval_time_driven_outputs, start_cycle,
  accept_inputs, accept_input, prepare_evaluation, clear_freshness,
}

unfoldable pub all_shared_exprs : {F : Type 0} → List (Expression F) → Bool
all_shared_exprs [] = true
all_shared_exprs (e ∷ es) = is_shared e && all_shared_exprs es

module _ {F : Type 0} (p : Platform F) where
  abbrev pub choosing : EvaluatorChoice → Evaluator p → Evaluator p
  choosing c ev = record ev { config = record ev.config { evaluator = c } }

  parts :
      (m : Outcome (CompiledExpr p)) (ms : Outcome (List (CompiledExpr p))) (f : CompiledExpr p)
      (fs : List (CompiledExpr p))
      → (do g ← m; gs ← ms; ok (g ∷ gs)) ≡ ok (f ∷ fs)
      → (m ≡ ok f) × (ms ≡ ok fs)
  parts (ok g) (ok gs) f fs h = (cc, cc)
  parts (ok g) panic f fs h = cc
  parts panic ms f fs h = cc

  nth-⊑ :
      (es : List (Expression F)) (fs : List (CompiledExpr p)) (ix : ℕ) (ctx : Context p)
      → compile_all p es ≡ ok fs
      → all_shared_exprs es ≡ true
      → (expect (get_elem? fs ix) >>= λ f. f ctx) ⊑ (expect (get_elem? es ix) >>= eval_expr p ctx)
  unfolding compile_all all_shared_exprs
  nth-⊑ es [] ix ctx h k = panic-⊑ _
  nth-⊑ [] (f ∷ fs) ix ctx h k = λ v r. cc
  nth-⊑ (e ∷ es) (f ∷ fs) zero ctx h k = λ v r.
      compile-eval_expr p e f ctx v ((and_parts (is_shared e) (all_shared_exprs es) k).0)
        ((parts (compile p e) (compile_all p es) f fs h).0) r
  nth-⊑ (e ∷ es) (f ∷ fs) (suc ix) ctx h k =
      nth-⊑ es fs ix ctx ((parts (compile p e) (compile_all p es) f fs h).1)
        ((and_parts (is_shared e) (all_shared_exprs es) k).1)

module _ {F : Type 0} (p : Platform F) (ev : Evaluator p)
    (compiled : compile_all p ev.exprs ≡ ok ev.compiled_exprs)
    (shared : all_shared_exprs ev.exprs ≡ true) where
  abbrev c : Evaluator p
  c = choosing p closure_based ev

  abbrev i : Evaluator p
  i = choosing p interpreted ev

  value-⊑ : (ix : ℕ) (ctx : Context p) → stream_value p c ix ctx ⊑ stream_value p i ix ctx
  unfolding stream_value
  value-⊑ ix ctx = nth-⊑ p ev.exprs ev.compiled_exprs ix ctx compiled shared

  stream-⊑ : (ix ts : ℕ) (m : Memory p) → eval_stream p c ix ts m ⊑ eval_stream p i ix ts m
  unfolding eval_stream publish
  stream-⊑ ix ts m =
      bind-⊑ (stream_value p c ix (context p m ts)) _ _ _ (value-⊑ ix (context p m ts))
        λ res. ⊑-refl _

  streams-⊑ :
      (ixs : List ℕ) (ts : ℕ) (m : Memory p) → eval_streams p c ixs ts m ⊑ eval_streams p i ixs ts m
  unfolding eval_streams
  streams-⊑ [] ts m = ⊑-refl (ok m)
  streams-⊑ (ix ∷ ixs) ts m =
      bind-⊑ (eval_stream p c ix ts m) _ _ _ (stream-⊑ ix ts m) (streams-⊑ ixs ts)

  output-⊑ :
      (ix ts : ℕ) (m : Memory p)
      → eval_event_driven_output p c ix ts m ⊑ eval_event_driven_output p i ix ts m
  unfolding eval_event_driven_output
  output-⊑ ix ts m = bind-⊑ (expect (get_elem? ev.activation_conditions ix)) _ _ _ (⊑-refl _) λ ac.
      bind-⊑ (Condition.eval p.bit_sets ac m.fresh_inputs) _ _ _ (⊑-refl _) λ active.
        if-⊑ active (eval_stream p c ix ts m) (ok m) _ _ (stream-⊑ ix ts m) (⊑-refl (ok m))

  outputs-⊑ :
      (ixs : List ℕ) (ts : ℕ) (m : Memory p)
      → eval_event_driven_outputs p c ixs ts m ⊑ eval_event_driven_outputs p i ixs ts m
  unfolding eval_event_driven_outputs
  outputs-⊑ [] ts m = ⊑-refl (ok m)
  outputs-⊑ (ix ∷ ixs) ts m =
      bind-⊑ (eval_event_driven_output p c ix ts m) _ _ _ (output-⊑ ix ts m) (outputs-⊑ ixs ts)

  layers-⊑ :
      (layers : List (List ℕ)) (ts : ℕ) (m : Memory p)
      → eval_layers p c layers ts m ⊑ eval_layers p i layers ts m
  unfolding eval_layers
  layers-⊑ [] ts m = ⊑-refl (ok m)
  layers-⊑ (layer ∷ layers) ts m =
      bind-⊑ (eval_event_driven_outputs p c layer ts m) _ _ _ (outputs-⊑ layer ts m)
        (layers-⊑ layers ts)

  -- what does not look at the evaluators' choice
  accept-⊑ :
      (ix : ℕ) (event : List (Value F)) (ts : ℕ) (m : Memory p)
      → accept_inputs p c ix event ts m ⊑ accept_inputs p i ix event ts m
  unfolding accept_inputs accept_input
  accept-⊑ ix [] ts m = ⊑-refl (ok m)
  accept-⊑ ix (Value.none ∷ vs) ts m = accept-⊑ (suc ix) vs ts m
  accept-⊑ ix (v ∷ vs) ts m =
      bind-⊑ (accept_input p c ix v ts m) _ _ _ (⊑-refl _) (accept-⊑ (suc ix) vs ts)

  event-⊑ :
      (event : List (Value F)) (ts clock : ℕ) (m : Memory p)
      → eval_event p c event ts clock m ⊑ eval_event p i event ts clock m
  unfolding eval_event start_cycle eval_all_event_driven_outputs prepare_evaluation
  event-⊑ event ts clock m = bind-⊑ (start_cycle p c ts clock m) _ _ _ (⊑-refl _) λ (now, started).
      bind-⊑ (accept_inputs p c 0 event now (clear_freshness p started)) _ _ _
        (accept-⊑ 0 event now (clear_freshness p started))
        λ accepted.
          bind-⊑ (prepare_evaluation p c now accepted) _ _ _ (⊑-refl _) (layers-⊑ ev.layers now)

  timed-⊑ :
      (outputs : List ℕ) (ts clock : ℕ) (m : Memory p)
      → eval_time_driven_outputs p c outputs ts clock m
        ⊑ eval_time_driven_outputs p i outputs ts clock m
  unfolding eval_time_driven_outputs start_cycle prepare_evaluation
  timed-⊑ outputs ts clock m =
      bind-⊑ (start_cycle p c ts clock m) _ _ _ (⊑-refl _) λ (now, started).
        bind-⊑ (prepare_evaluation p c now (clear_freshness p started)) _ _ _ (⊑-refl _) λ prepared.
          bind-⊑ (eval_streams p c outputs now prepared) _ _ _ (streams-⊑ outputs now prepared)
            λ evaluated. ⊑-refl _

  -- If every output's expression was compiled, and none calls `at`, calls `matches` on byte strings
  -- or converts within a kind of number, then whatever state the offline loop ends in when the
  -- evaluator runs the compiled closures, it ends in the same state, with the same triggers emitted,
  -- when the evaluator interprets the expressions.
  pub evaluate_offline-choice :
      (deadlines : List Deadline) (has_time_driven : Bool) (items : List (WorkItem (Value F)))
      (clock : ℕ) (m : Memory p) (s : Offline (Memory p))
      → evaluate_offline
          (λ e ts. eval_event p (choosing p closure_based ev) e ts clock)
          (λ due ts. eval_time_driven_outputs p (choosing p closure_based ev) due ts clock)
          deadlines
          has_time_driven
          items
          m
        ≡ ok s
      → evaluate_offline
          (λ e ts. eval_event p (choosing p interpreted ev) e ts clock)
          (λ due ts. eval_time_driven_outputs p (choosing p interpreted ev) due ts clock)
          deadlines
          has_time_driven
          items
          m
        ≡ ok s
  evaluate_offline-choice deadlines has_time_driven items clock m =
      evaluate_offline-⊑ _ _ _ _ (λ e ts. event-⊑ e ts clock) (λ due ts. timed-⊑ due ts clock)
        deadlines has_time_driven items m
