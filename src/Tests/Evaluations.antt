-- ===== src/Tests/Evaluations.antt =====
-- One specification, on the platform of the examples: an input, an output one above it, a trigger
-- on that output, and an output that is due every two nanoseconds.
use rtlola.Common.{◌>>=◌, ℕ, true, Option, none, some, List, [], ◌∷◌, Outcome, ok, panic, ◌≡◌, refl}
use rtlola.Ir.{
  Ty, UIntTy, ArithLogOp, Constant, Expression, load_constant, arith_log, stream_access, default,
  nil, cons, StreamAccessKind, StreamReference, in_ref, out_ref, bounded, in_ix,
}
use rtlola.Ir.Program.{RtLolaIr, InputStream, OutputStream, Trigger}
use rtlola.Frontend.Activation.{Activation}
use rtlola.Interpreter.Value.{Value, unsigned, value_add, value_cmp}
use rtlola.Interpreter.Words.{unsigned_result}
use rtlola.Interpreter.Store
use rtlola.Interpreter.Condition
use rtlola.Interpreter.Condition.{ActivationCondition, eval_general}
use rtlola.Interpreter.GlobalStore.{
  GlobalStore, get_in_instance, get_out_instance, put_in_instance, put_out_instance,
}
use rtlola.Interpreter.Expr.Context.{
  Context, access, lookup_latest_check, is_fresh, lookup_latest, instance_of,
}
use rtlola.Interpreter.Expr.Operators
use rtlola.Interpreter.Expr.Compiled.{CompiledExpr, compile}
use rtlola.Interpreter.Expr.Interpreted.{eval_expr}
use rtlola.Interpreter.Expr.Agreement.{is_shared, compile-eval_expr}
use rtlola.Interpreter.Evaluator.{
  Evaluator, Memory, EvaluatorChoice, ExecutionMode, closure_based, interpreted, compile_all,
  eval_event, eval_time_driven_outputs, takes_event_time, start_cycle, is_monotone, accept_inputs,
  accept_input, clear_freshness, inform_windows, eval_all_event_driven_outputs, prepare_evaluation,
  update_windows, eval_layers, eval_event_driven_outputs, eval_event_driven_output, eval_streams,
  eval_stream, stream_value, context, publish, register, is_true,
}
use rtlola.Interpreter.Evaluator.Choice.{all_shared_exprs, choosing, evaluate_offline-choice}
use rtlola.Interpreter.Evaluator.Cycle.{eval_event-Leaves, Leaves}
use rtlola.Frontend.Schedule.{Deadline}
use rtlola.Frontend.Schedule.{sort_deadlines, keyed, sort_by_layer, insert_by_layer}
use rtlola.Frontend.Schedule.Sorting.{Sorted, all_outputs, are_outputs, sort_deadlines-Sorted}
use rtlola.Interpreter.Controller.Cycles.{is_scheduled, all_pause, is_some_deadline}
use rtlola.Interpreter.Controller.Timeline.{
  of_event, of_deadline, timeline, cycles_while, deadlines_after, merged, is_over_by, run_cycles,
}
use rtlola.Interpreter.Controller.OfflineOrder.{evaluate_offline-cycles}
use rtlola.Interpreter.Controller.{
  WorkItem, Offline, evaluate_offline, get_last_due, next_of_cycle, schedule_timed, schedule_while,
  handle_event, handle_end, offline_loop,
}
use rtlola.Tests.Platforms.{platform}

abbrev u64 : Ty
u64 = Ty.uint UIntTy.u64

abbrev number : ℕ → Expression ℕ
number n = load_constant (Constant.uint n) u64

abbrev current : StreamReference → Expression ℕ
current r = stream_access r StreamAccessKind.sync u64

abbrev above : Expression ℕ
above = arith_log ArithLogOp.add (cons (current (in_ref 0)) (cons (number 1) nil)) u64 u64

abbrev alarm : Expression ℕ
alarm = arith_log ArithLogOp.gt (cons (current (out_ref 0)) (cons (number 3) nil)) u64 Ty.bool

abbrev last_or_zero : Expression ℕ
last_or_zero =
    default (stream_access (in_ref 0) StreamAccessKind.hold (Ty.option u64)) (number 0) u64

abbrev input : InputStream
input = record { ty = u64; dependent_windows = []; memory_bound = bounded 1 }

abbrev output : ℕ → Expression ℕ → ℕ → Option (Activation StreamReference) → OutputStream ℕ
output ix expr layer ac = record {
  ty = u64;
  expr = expr;
  dependent_windows = [];
  memory_bound = bounded 1;
  layer = layer;
  reference = out_ref ix;
  ac = ac;
}

abbrev on_input : Option (Activation StreamReference)
on_input = some (Activation.stream (in_ref 0))

abbrev trigger : Trigger
trigger = record { message = "above three"; reference = out_ref 1; trigger_idx = 0 }

abbrev ir : RtLolaIr ℕ
ir = record {
  inputs = input ∷ [];
  outputs =
      output 0 above 1 on_input ∷ output 1 alarm 2 on_input ∷ output 2 last_or_zero 1 none ∷ [];
  time_driven = record { reference = out_ref 2; period = (2, 1) } ∷ [];
  event_driven = out_ref 0 ∷ out_ref 1 ∷ [];
  sliding_windows = [];
  triggers = trigger ∷ [];
}

abbrev exprs : List (Expression ℕ)
exprs = above ∷ alarm ∷ last_or_zero ∷ []

abbrev or_nil : Outcome (List (CompiledExpr platform)) → List (CompiledExpr platform)
or_nil (ok fs) = fs
or_nil panic = []

abbrev evaluator : Evaluator platform
evaluator = record {
  layers = (0 ∷ []) ∷ (1 ∷ []) ∷ [];
  activation_conditions =
      ActivationCondition.general (Activation.stream (in_ref 0))
      ∷ ActivationCondition.general (Activation.stream (in_ref 0))
      ∷ ActivationCondition.time_driven
      ∷ [];
  exprs = exprs;
  compiled_exprs = or_nil (compile_all platform exprs);
  triggers = none ∷ some trigger ∷ none ∷ [];
  ir = ir;
  config = record { evaluator = closure_based; mode = ExecutionMode.offline };
}

abbrev store : GlobalStore ℕ
store = record {
  inputs = Store.new (bounded 1) ∷ [];
  index_map = 0 ∷ 1 ∷ 2 ∷ [];
  np_outputs = Store.new (bounded 1) ∷ Store.new (bounded 1) ∷ Store.new (bounded 1) ∷ [];
  np_windows = [];
}

abbrev memory : Memory platform
memory = record {
  global_store = store;
  time_last_event = none;
  fresh_inputs = [];
  fresh_outputs = [];
  emitted = [];
}

compiled : compile_all platform exprs ≡ ok (or_nil (compile_all platform exprs))
unfolding compile_all compile Operators.constant
compiled = refl

shared : all_shared_exprs exprs ≡ true
unfolding all_shared_exprs is_shared
shared = refl

abbrev items : List (WorkItem (Value ℕ))
items = WorkItem.event (unsigned 1 ∷ []) 1 ∷ WorkItem.event (unsigned 5 ∷ []) 5 ∷ WorkItem.end ∷ []

abbrev deadlines : List Deadline
deadlines = record { pause = 2; due = 2 ∷ [] } ∷ []

abbrev run_with : EvaluatorChoice → Outcome (Offline (Memory platform))
run_with c =
    evaluate_offline (λ e ts. eval_event platform (choosing platform c evaluator) e ts 0)
      (λ due ts. eval_time_driven_outputs platform (choosing platform c evaluator) due ts 0)
      deadlines true items memory

abbrev or_start : Outcome (Offline (Memory platform)) → Offline (Memory platform)
or_start (ok s) = s
or_start panic = record {
  memory = memory;
  due_streams = [];
  next_deadline = 0;
  upcoming = [];
  current_time = 0;
}

abbrev final : Offline (Memory platform)
final = or_start (run_with closure_based)

ran : run_with closure_based ≡ ok final
unfolding evaluate_offline get_last_due next_of_cycle schedule_timed schedule_while handle_event
    handle_end offline_loop compile Operators.constant Operators.unary access lookup_latest_check
    is_fresh lookup_latest instance_of get_in_instance Store.get_value Operators.binary value_add
    Store.push_value unsigned_result Store.abs_i16 Store.new Store.evict compile_all
    get_out_instance put_in_instance put_out_instance value_cmp takes_event_time eval_event
    eval_time_driven_outputs Condition.eval eval_general in_ix start_cycle is_monotone accept_inputs
    accept_input clear_freshness inform_windows eval_all_event_driven_outputs prepare_evaluation
    update_windows eval_layers eval_event_driven_outputs eval_event_driven_output eval_streams
    eval_stream stream_value context publish register is_true
ran = refl

evaluate_offline-choice_example : run_with interpreted ≡ ok final
evaluate_offline-choice_example =
    evaluate_offline-choice platform evaluator compiled shared deadlines true items 0 memory final
      ran

-- The schedule has its deadline at the times 0, 2 and 4, before the event of the time 5.
deadlines_scheduled : is_scheduled true deadlines ≡ true
unfolding is_scheduled is_some_deadline all_pause
deadlines_scheduled = refl

items_over : is_over_by 5 items ≡ true
unfolding is_over_by
items_over = refl

planned_cycles :
    merged 0 (timeline deadlines 5) items
    ≡ of_deadline (2 ∷ []) 0
      ∷ of_event (unsigned 1 ∷ []) 1
      ∷ of_deadline (2 ∷ []) 2
      ∷ of_deadline (2 ∷ []) 4
      ∷ of_event (unsigned 5 ∷ []) 5
      ∷ []
unfolding merged cycles_while deadlines_after
planned_cycles = refl

evaluate_offline-cycles_example :
    (run_with closure_based >>= λ s. ok s.memory)
    ≡ run_cycles
        (λ e ts. eval_event platform (choosing platform closure_based evaluator) e ts 0)
        (λ due ts.
          eval_time_driven_outputs platform (choosing platform closure_based evaluator) due ts 0)
        (merged 0 (timeline deadlines 5) items)
        memory
evaluate_offline-cycles_example =
    evaluate_offline-cycles
      (λ e ts. eval_event platform (choosing platform closure_based evaluator) e ts 0)
      (λ due ts.
        eval_time_driven_outputs platform (choosing platform closure_based evaluator) due ts 0)
      deadlines true deadlines_scheduled 5 items items_over memory

-- Of these the alarm is evaluated last.
abbrev unsorted : List Deadline
unsorted = record { pause = 3; due = 1 ∷ 2 ∷ 0 ∷ [] } ∷ record { pause = 1; due = 2 ∷ [] } ∷ []

unsorted_outputs : all_outputs ir unsorted ≡ true
unfolding all_outputs are_outputs
unsorted_outputs = refl

sort_deadlines-Sorted_example :
    (sorted : List Deadline) × (sort_deadlines ir unsorted ≡ ok sorted) × Sorted ir unsorted sorted
sort_deadlines-Sorted_example = sort_deadlines-Sorted ir unsorted unsorted_outputs

sorts :
    sort_deadlines ir unsorted
    ≡ ok (record { pause = 3; due = 2 ∷ 0 ∷ 1 ∷ [] } ∷ record { pause = 1; due = 2 ∷ [] } ∷ [])
unfolding sort_deadlines keyed sort_by_layer insert_by_layer
sorts = refl

abbrev or_none : Outcome (CompiledExpr platform) → CompiledExpr platform
or_none (ok f) = f
or_none panic = λ ctx. panic

abbrev ctx : Context platform
ctx = record {
  ts = 7;
  global_store = record store {
    inputs = Store.push_value (Store.new (bounded 1)) (unsigned 7) ∷ [];
  };
  fresh_inputs = 0 ∷ [];
  fresh_outputs = [];
}

above_compiles : compile platform above ≡ ok (or_none (compile platform above))
unfolding compile Operators.constant
above_compiles = refl

above_shared : is_shared above ≡ true
unfolding is_shared
above_shared = refl

above_returns : or_none (compile platform above) ctx ≡ ok (unsigned 8)
unfolding compile Operators.constant Operators.unary access lookup_latest_check is_fresh
    lookup_latest instance_of get_in_instance Store.get_value Operators.binary value_add
    Store.push_value unsigned_result
above_returns = refl

compile-eval_expr_example : eval_expr platform ctx above ≡ ok (unsigned 8)
compile-eval_expr_example =
    compile-eval_expr platform above (or_none (compile platform above)) ctx (unsigned 8)
      above_shared above_compiles above_returns

abbrev or_memory : Outcome (Memory platform) → Memory platform
or_memory (ok m) = m
or_memory panic = memory

abbrev after_event : Memory platform
after_event = or_memory (eval_event platform evaluator (unsigned 5 ∷ []) 3 0 memory)

event_returns : eval_event platform evaluator (unsigned 5 ∷ []) 3 0 memory ≡ ok after_event
unfolding compile Operators.constant Operators.unary access lookup_latest_check is_fresh
    lookup_latest instance_of get_in_instance Store.get_value Operators.binary value_add
    Store.push_value unsigned_result Store.abs_i16 Store.new Store.evict compile_all
    get_out_instance put_in_instance put_out_instance value_cmp takes_event_time eval_event
    eval_time_driven_outputs Condition.eval eval_general in_ix start_cycle is_monotone accept_inputs
    accept_input clear_freshness inform_windows eval_all_event_driven_outputs prepare_evaluation
    update_windows eval_layers eval_event_driven_outputs eval_event_driven_output eval_streams
    eval_stream stream_value context publish register is_true
event_returns = refl

event_timed : takes_event_time evaluator.config.mode ≡ true
unfolding takes_event_time
event_timed = refl

eval_event-Leaves_example : Leaves platform (unsigned 5 ∷ []) 3 memory after_event
eval_event-Leaves_example =
    eval_event-Leaves platform evaluator (unsigned 5 ∷ []) 3 0 memory after_event event_timed
      event_returns
