-- ===== src/Tests/Runs.antt =====
-- Examples of the theorems on stores, windows, activation conditions, layers and the offline loop.
use mathlib.Core.List.{Memᴰ}
use mathlib.Core.List.Memᴰ.{head}
use rtlola.Common.{
  ℕ, ◌<◌, Bool, true, false, ◌&&◌, ltb, some, List, [], ◌∷◌, get_elem?, ok, panic, ◌>>=◌, ◌≡◌, refl,
  arith,
}
use rtlola.Common.Int.{pos, negsuc}
use rtlola.Common.Eq.{nat_eq}
use rtlola.Ir.{bounded, in_ref, Ty, WindowOperation, StreamReference}
use rtlola.Ir.Layers.{layers_of, layers_from, max_layer, in_layer}
use rtlola.Ir.Layers.Order.{layers_of-in_order, layers_of_complete}
use rtlola.Frontend.Activation.{
  Activation, conjunction, stream, nil, cons, implies_valid, conjoin, activation_eq, contains,
}
use rtlola.Frontend.Activation.Meaning.{holds, holds-conjoin, implies_valid_sound}
use rtlola.Interpreter.Value.{Value, unsigned}
use rtlola.Interpreter.Store
use rtlola.Interpreter.Store.History.{
  pushes, kept, buffer-pushes, get_value-pushes, get_value_future,
}
use rtlola.Interpreter.Window.{BIx, buckets_since, quickfix_duration_div, seconds}
use rtlola.Interpreter.Window.Index.{buckets_since_lem}
use rtlola.Interpreter.Window.Spec.{Op, accept, update}
use rtlola.Interpreter.Window.Refine.{observe-eq-in_window, observe}
use rtlola.Interpreter.Aggregation.Monoids
use rtlola.Interpreter.SlidingWindow
use rtlola.Interpreter.SlidingWindow.Refusals.{new-unsupported}
use rtlola.Interpreter.Condition
use rtlola.Interpreter.Condition.FastPath.{is_well_formed, is_fresh, eval-new, over_inputs}
use rtlola.Frontend.Schedule.{Deadline}
use rtlola.Frontend.Schedule.{apply_periodicity, condense_deadlines}
use rtlola.Frontend.Schedule.Periodicity.{due_from, apply_periodicity-due_from}
use rtlola.Frontend.Schedule.Deadlines.{times_from, is_last_due, condense_deadlines-step_times}
use rtlola.Interpreter.Controller.Scheduled.{condense_deadlines-all_pause}
use rtlola.Interpreter.Controller.Cycles.{all_pause, is_some_deadline}
use rtlola.Tests.Platforms.{fixed, fixed-RoundsMonotonely, lists}

abbrev history : List ℕ
history = 3 ∷ 2 ∷ 1 ∷ []

buffer-pushes_example : (pushes (Store.new (bounded 2)) history).buffer ≡ kept (bounded 2) history
buffer-pushes_example = buffer-pushes (bounded 2) history

get_value-pushes_example :
    Store.get_value true (pushes (Store.new (bounded 2)) history) (negsuc 0) ≡ ok (some 2)
get_value-pushes_example = get_value-pushes true (bounded 2) history 1 (omega arith)

get_value_future_example :
    Store.get_value true (pushes (Store.new (bounded 2)) history) (pos 1) ≡ panic
get_value_future_example = get_value_future true (pushes (Store.new (bounded 2)) history) 0

abbrev bucket : ℕ → ℕ → BIx
bucket period ix = record { period = period; ix = ix }

buckets_since_lem_example : buckets_since (bucket 2 1) (bucket 1 63) 64 ≡ ok 2
buckets_since_lem_example =
    buckets_since_lem (bucket 2 1) (bucket 1 63) 64 (omega arith) (omega arith)

new-unsupported_example :
    SlidingWindow.new fixed true 100 false WindowOperation.sum 0 Ty.bool ≡ panic
new-unsupported_example = new-unsupported fixed true false 100 0 WindowOperation.sum Ty.bool refl

abbrev both : Activation StreamReference
both = conjunction (cons (stream (in_ref 0)) (cons (stream (in_ref 1)) nil))

both-is_well_formed : is_well_formed both ≡ true
unfolding over_inputs
both-is_well_formed = refl

eval-new_example :
    (Condition.new lists both >>= λ c. Condition.eval lists c (1 ∷ 0 ∷ []))
    ≡ ok (holds (is_fresh lists (1 ∷ 0 ∷ [])) both)
eval-new_example = eval-new lists (1 ∷ 0 ∷ []) both both-is_well_formed

abbrev first_fresh : ℕ → Bool
first_fresh n = ltb n 2

abbrev zero_and_one : Activation ℕ
zero_and_one = conjunction (cons (stream 0) (cons (stream 1) nil))

holds-conjoin_example :
    holds first_fresh (conjoin zero_and_one (stream 2))
    ≡ (holds first_fresh zero_and_one && holds first_fresh (stream 2))
holds-conjoin_example = holds-conjoin first_fresh zero_and_one (stream 2)

zero_and_one_implies : implies_valid zero_and_one (stream 1) ≡ true
unfolding implies_valid activation_eq contains
zero_and_one_implies = refl

zero_and_one-holds : holds first_fresh zero_and_one ≡ true
unfolding holds
zero_and_one-holds = refl

implies_valid_sound_example : holds first_fresh (stream 1) ≡ true
implies_valid_sound_example =
    implies_valid_sound first_fresh zero_and_one (stream 1) zero_and_one_implies zero_and_one-holds

abbrev streams : List (ℕ × ℕ)
streams = (2, 1) ∷ (0, 0) ∷ []

layers_of_complete_example :
    (a : ℕ) × (A : List ℕ) × (get_elem? (layers_of streams) a ≡ some A) × Memᴰ 1 A
layers_of_complete_example = layers_of_complete streams 2 1 (head refl)

first_layer : get_elem? (layers_of streams) 0 ≡ some (0 ∷ [])
unfolding layers_from max_layer in_layer
first_layer = refl

second_layer : get_elem? (layers_of streams) 1 ≡ some (1 ∷ [])
unfolding layers_from max_layer in_layer
second_layer = refl

layers_of-in_order_example : (l k : ℕ) × Memᴰ (l, 0) streams × Memᴰ (k, 1) streams × (l < k)
layers_of-in_order_example =
    layers_of-in_order streams 0 1 (0 ∷ []) (1 ∷ []) 0 1 first_layer second_layer (omega arith)
      (head refl) (head refl)

abbrev ops : List (Op (Value ℕ))
ops = accept (unsigned 4) 10 ∷ update 20 ∷ accept (unsigned 5) 70 ∷ []

abbrev first_steps : List (List ℕ)
first_steps = (0 ∷ []) ∷ (1 ∷ []) ∷ [] ∷ (2 ∷ []) ∷ []

apply_periodicity-due_from_example :
    get_elem? (apply_periodicity first_steps) 3 ≡ some (0 ∷ 1 ∷ 2 ∷ [])
unfolding due_from
apply_periodicity-due_from_example = apply_periodicity-due_from first_steps 3 (omega arith)

last_step_due : is_last_due first_steps ≡ true
unfolding is_last_due
last_step_due = refl

condense_deadlines-step_times_example :
    (ds : List Deadline) × (condense_deadlines (500, 1) first_steps ≡ ok ds)
    × (times_from 0 ds ≡ (500, 0 ∷ []) ∷ (1000, 1 ∷ []) ∷ (2000, 2 ∷ []) ∷ [])
condense_deadlines-step_times_example = condense_deadlines-step_times 500 first_steps last_step_due

-- The value at 10 is no longer in the window.
observe-eq-in_window_example :
    observe fixed (Monoids.sum fixed) 128 false 0 ops 150 ≡ ok (unsigned 5)
unfolding quickfix_duration_div seconds
observe-eq-in_window_example =
    observe-eq-in_window fixed (Monoids.sum fixed) 128 false 0 fixed-RoundsMonotonely (omega arith)
      ops 150 (omega arith, (omega arith, (omega arith, tt))) (omega arith) (refl, (refl, tt))

condense_deadlines-all_pause_example :
    (ds : List Deadline) × (condense_deadlines (500, 1) (apply_periodicity first_steps) ≡ ok ds)
    × (is_some_deadline ds ≡ true)
    × (all_pause ds ≡ true)
condense_deadlines-all_pause_example =
    condense_deadlines-all_pause 500 1 first_steps 3 0 0 [] (omega arith) (omega arith) refl refl
      refl
