-- ===== src/Interpreter/Evaluator.antt =====
-- `EvaluatorData` and `Evaluator` of interpreter/src/evaluator.rs: one evaluation cycle. What a
-- cycle does not change is an `Evaluator`, what it changes is a `Memory`.
pub mod Choice
pub mod Cycle
use rtlola.Common.{
  ℕ, zero, suc, Bool, true, false, not, ◌||◌, if◌then◌else◌, leb, Option, none, some, String, List,
  [], ◌∷◌, map, length, get_elem?, set, Outcome, ok, panic, ◌>>=◌, ◌>>◌, assert, expect,
}
use rtlola.Common.Int.{pos}
use rtlola.Ir.{Expression, StreamReference, in_ref, out_ref, out_ix}
use rtlola.Ir.Program
use rtlola.Ir.Program.{RtLolaIr, InputStream, OutputStream, Trigger}
use rtlola.Ir.Layers.{get_event_driven_layers}
use rtlola.Frontend.Activation.{Activation}
use rtlola.Interpreter.Value.{Value, bool}
use rtlola.Interpreter.Store
use rtlola.Interpreter.Condition
use rtlola.Interpreter.Condition.{ActivationCondition}
use rtlola.Interpreter.SlidingWindow
use rtlola.Interpreter.GlobalStore
use rtlola.Interpreter.GlobalStore.{
  GlobalStore, get_in_instance, get_out_instance, get_window, put_in_instance, put_out_instance,
  put_window,
}
use rtlola.Interpreter.Expr.Context.{Platform, Context}
use rtlola.Interpreter.Expr.Interpreted.{eval_expr}
use rtlola.Interpreter.Expr.Compiled.{CompiledExpr, compile}

-- `ExecutionMode` and `EvaluatorChoice` of interpreter/src/basics/config.rs
pub data ExecutionMode : Type 0 where
  offline online api : ExecutionMode

pub data EvaluatorChoice : Type 0 where
  closure_based interpreted : EvaluatorChoice

pub record EvalConfig : Type 0 where
  pub evaluator : EvaluatorChoice
  pub mode : ExecutionMode

-- A call of `OutputHandler::trigger`: which trigger, and when.
pub record Emission : Type 0 where
  pub trigger_idx : ℕ
  pub ts : ℕ

pub record Evaluator {F : Type 0} (p : Platform F) : Type 0 where
  pub layers : List (List ℕ)
  pub activation_conditions : List (ActivationCondition p.bit_sets.BitSet)
  pub exprs : List (Expression F)
  pub compiled_exprs : List (CompiledExpr p)
  pub triggers : List (Option Trigger)
  pub ir : RtLolaIr F
  pub config : EvalConfig

-- `emitted` is what the handler was told, the last first.
pub record Memory {F : Type 0} (p : Platform F) : Type 0 where
  pub global_store : GlobalStore F
  pub time_last_event : Option ℕ
  pub fresh_inputs : p.bit_sets.BitSet
  pub fresh_outputs : p.bit_sets.BitSet
  pub emitted : List Emission

abbrev pub choose {ℓ} : {A : Type ℓ} → EvaluatorChoice → A → A → A
choose EvaluatorChoice.closure_based a b = a
choose EvaluatorChoice.interpreted a b = b

-- Is the time of a cycle the time of its event? If not, it is what the clock says.
unfoldable pub takes_event_time : ExecutionMode → Bool
takes_event_time ExecutionMode.online = false
takes_event_time _ = true

unfoldable pub is_monotone : Option ℕ → ℕ → Bool
is_monotone none ts = true
is_monotone (some last) ts = leb last ts

unfoldable pub is_true : {F : Type 0} → Value F → Bool
is_true (bool b) = b
is_true _ = false

module _ {F : Type 0} (p : Platform F) where
  unfoldable pub condition_of :
      Option (Activation StreamReference) → Outcome (ActivationCondition p.bit_sets.BitSet)
  condition_of none = ok ActivationCondition.time_driven
  condition_of (some ac) = Condition.new p.bit_sets ac

  unfoldable pub conditions :
      List (OutputStream F) → Outcome (List (ActivationCondition p.bit_sets.BitSet))
  conditions [] = ok []
  conditions (o ∷ os) = do ac ← condition_of o.ac; acs ← conditions os; ok (ac ∷ acs)

  unfoldable pub place_triggers :
      List Trigger → List (Option Trigger) → Outcome (List (Option Trigger))
  place_triggers [] triggers = ok triggers
  place_triggers (t ∷ ts) triggers = do
    ix ← out_ix t.reference
    expect (get_elem? triggers ix)
    place_triggers ts (set triggers ix (some t))

  -- the closures of all output streams
  unfoldable pub compile_all : List (Expression F) → Outcome (List (CompiledExpr p))
  compile_all [] = ok []
  compile_all (e ∷ es) = do f ← compile p e; fs ← compile_all es; ok (f ∷ fs)

  unfoldable pub compiled_for :
      EvaluatorChoice → List (Expression F) → Outcome (List (CompiledExpr p))
  compiled_for EvaluatorChoice.closure_based es = compile_all es
  compiled_for EvaluatorChoice.interpreted es = ok []

  -- `EvaluatorData::new` and `into_evaluator`
  unfoldable pub new : RtLolaIr F → EvalConfig → Outcome (Evaluator p × Memory p)
  new ir config = do
    layers ← get_event_driven_layers ir
    acs ← conditions ir.outputs
    store ← GlobalStore.new p.floats p.debug ir 0
    triggers ← place_triggers ir.triggers (map (λ _. none) ir.outputs)
    let exprs = map (λ (o : OutputStream F). o.expr) ir.outputs
    compiled ← compiled_for config.evaluator exprs
    ok (
      record {
        layers = layers;
        activation_conditions = acs;
        exprs = exprs;
        compiled_exprs = compiled;
        triggers = triggers;
        ir = ir;
        config = config;
      },
      record {
        global_store = store;
        time_last_event = none;
        fresh_inputs = p.bit_sets.empty;
        fresh_outputs = p.bit_sets.empty;
        emitted = [];
      },
    )

  unfoldable pub clear_freshness : Memory p → Memory p
  clear_freshness m = record m { fresh_inputs = p.bit_sets.empty; fresh_outputs = p.bit_sets.empty }

  -- The dependent windows take the value, in the order in which they are listed.
  unfoldable pub inform_windows : List ℕ → Value F → ℕ → GlobalStore F → Outcome (GlobalStore F)
  inform_windows [] v ts store = ok store
  inform_windows (win ∷ wins) v ts store = do
    w ← get_window store win
    w' ← SlidingWindow.accept_value p.floats p.debug w v ts
    inform_windows wins v ts (put_window store win w')

  unfoldable pub accept_input : Evaluator p → ℕ → Value F → ℕ → Memory p → Outcome (Memory p)
  accept_input ev input v ts m = do
    inst ← get_in_instance m.global_store input
    extended ← expect (get_elem? ev.ir.inputs input)
    let stored = put_in_instance m.global_store input (Store.push_value inst v)
    store ← inform_windows extended.dependent_windows v ts stored
    ok (record m { global_store = store; fresh_inputs = p.bit_sets.insert input m.fresh_inputs })

  -- An input without a value is no input.
  unfoldable pub accept_inputs :
      Evaluator p → ℕ → List (Value F) → ℕ → Memory p → Outcome (Memory p)
  accept_inputs ev ix [] ts m = ok m
  accept_inputs ev ix (Value.none ∷ vs) ts m = accept_inputs ev (suc ix) vs ts m
  accept_inputs ev ix (v ∷ vs) ts m = accept_input ev ix v ts m >>= accept_inputs ev (suc ix) vs ts

  unfoldable pub update_windows :
      List Program.SlidingWindow → ℕ → GlobalStore F → Outcome (GlobalStore F)
  update_windows [] ts store = ok store
  update_windows (win ∷ wins) ts store = do
    w ← get_window store win.reference
    w' ← SlidingWindow.update p.floats p.debug w ts
    update_windows wins ts (put_window store win.reference w')

  unfoldable pub prepare_evaluation : Evaluator p → ℕ → Memory p → Outcome (Memory p)
  prepare_evaluation ev ts m = do
    store ← update_windows ev.ir.sliding_windows ts m.global_store
    ok (record m { global_store = store })

  -- `as_EvaluationContext`
  unfoldable pub context : Memory p → ℕ → Context p
  context m ts = record {
    ts = ts;
    global_store = m.global_store;
    fresh_inputs = m.fresh_inputs;
    fresh_outputs = m.fresh_outputs;
  }

  unfoldable pub stream_value : Evaluator p → ℕ → Context p → Outcome (Value F)
  stream_value ev ix ctx =
      choose ev.config.evaluator (do f ← expect (get_elem? ev.compiled_exprs ix); f ctx)
        (do e ← expect (get_elem? ev.exprs ix); eval_expr p ctx e)

  -- A stream's value is stored, and it is fresh then. A trigger's value is only looked at.
  unfoldable pub register : Option Trigger → ℕ → Value F → ℕ → Memory p → Outcome (Memory p)
  register none ix res ts m = do
    inst ← get_out_instance m.global_store ix
    store ← put_out_instance m.global_store ix (Store.push_value inst res)
    ok (record m { global_store = store; fresh_outputs = p.bit_sets.insert ix m.fresh_outputs })
  register (some trig) ix res ts m = ok (
      if is_true res
      then record m { emitted = record { trigger_idx = trig.trigger_idx; ts = ts } ∷ m.emitted }
      else m)

  -- what follows the evaluation of a stream's expression
  unfoldable pub publish : Evaluator p → ℕ → Value F → ℕ → Memory p → Outcome (Memory p)
  publish ev ix res ts m = do
    trigger ← expect (get_elem? ev.triggers ix)
    m' ← register trigger ix res ts m
    extended ← expect (get_elem? ev.ir.outputs ix)
    store ← inform_windows extended.dependent_windows res ts m'.global_store
    ok (record m' { global_store = store })

  unfoldable pub eval_stream : Evaluator p → ℕ → ℕ → Memory p → Outcome (Memory p)
  eval_stream ev ix ts m = do res ← stream_value ev ix (context m ts); publish ev ix res ts m

  unfoldable pub eval_streams : Evaluator p → List ℕ → ℕ → Memory p → Outcome (Memory p)
  eval_streams ev [] ts m = ok m
  eval_streams ev (ix ∷ ixs) ts m = eval_stream ev ix ts m >>= eval_streams ev ixs ts

  unfoldable pub eval_event_driven_output : Evaluator p → ℕ → ℕ → Memory p → Outcome (Memory p)
  eval_event_driven_output ev ix ts m = do
    ac ← expect (get_elem? ev.activation_conditions ix)
    active ← Condition.eval p.bit_sets ac m.fresh_inputs
    if active then eval_stream ev ix ts m else ok m

  unfoldable pub eval_event_driven_outputs :
      Evaluator p → List ℕ → ℕ → Memory p → Outcome (Memory p)
  eval_event_driven_outputs ev [] ts m = ok m
  eval_event_driven_outputs ev (ix ∷ ixs) ts m =
      eval_event_driven_output ev ix ts m >>= eval_event_driven_outputs ev ixs ts

  unfoldable pub eval_layers : Evaluator p → List (List ℕ) → ℕ → Memory p → Outcome (Memory p)
  eval_layers ev [] ts m = ok m
  eval_layers ev (layer ∷ layers) ts m =
      eval_event_driven_outputs ev layer ts m >>= eval_layers ev layers ts

  unfoldable pub eval_all_event_driven_outputs : Evaluator p → ℕ → Memory p → Outcome (Memory p)
  eval_all_event_driven_outputs ev ts m = prepare_evaluation ev ts m >>= eval_layers ev ev.layers ts

  -- The time of the cycle. `clock` is what `start_time.elapsed()` returns.
  unfoldable pub start_cycle : Evaluator p → ℕ → ℕ → Memory p → Outcome (ℕ × Memory p)
  start_cycle ev ts clock m =
      if takes_event_time ev.config.mode
      then (do
        assert (is_monotone m.time_last_event ts)
        ok (ts, record m { time_last_event = some ts }))
      else ok (clock, m)

  unfoldable pub eval_event : Evaluator p → List (Value F) → ℕ → ℕ → Memory p → Outcome (Memory p)
  eval_event ev event ts clock m = do
    (now, started) ← start_cycle ev ts clock m
    accepted ← accept_inputs ev 0 event now (clear_freshness started)
    eval_all_event_driven_outputs ev now accepted

  unfoldable pub eval_time_driven_outputs :
      Evaluator p → List ℕ → ℕ → ℕ → Memory p → Outcome (Memory p)
  eval_time_driven_outputs ev outputs ts clock m = do
    (now, started) ← start_cycle ev ts clock m
    prepared ← prepare_evaluation ev now (clear_freshness started)
    evaluated ← eval_streams ev outputs now prepared
    ok (clear_freshness evaluated)
