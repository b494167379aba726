-- ===== src/Lib.antt =====
-- RTLola: a verification library for the stream monitor of this repository.
--
-- The frontend (frontend/src) compiles a specification into an intermediate representation; the
-- interpreter (interpreter/src) runs it over events. This library models the analysis of names, the
-- dependencies of streams and what is derived from them, the representation, the conditions under
-- which streams are evaluated, and the interpreter from its values up to the loop that feeds it.
--
-- The files, and the code that they are about:
--   Common             names, lists, integers, results of code that may panic, refinement of results
--   Ir                 frontend/src/ir.rs: types, expressions, references
--   Ir.Program         frontend/src/ir.rs: RTLolaIR and its streams
--   Ir.Layers          frontend/src/ir.rs: RTLolaIR::get_event_driven_layers
--   Frontend.Activation frontend/src/ty.rs: Activation, implies_valid, conjunction
--   Frontend.Schedule  frontend/src/ir/schedule.rs: the steps and deadlines of periodic streams
--   Frontend.ValueTy   frontend/src/ty.rs: ValueTy and TypeConstraint
--   Frontend.Ast       frontend/src/ast.rs: the syntax tree
--   Frontend.Stdlib    frontend/src/stdlib.rs: declarations of operators and functions
--   Frontend.Naming    frontend/src/analysis/naming.rs: ScopedDecl, Declaration; its Expressions,
--                      Specs and Check: NamingAnalysis
--   Frontend.Graph     frontend/src/analysis/graph_based_analysis/mod.rs: the dependency graph; the
--                      crate petgraph, as a parameter, is in it and in Frontend.Graph.Petgraph
--   Frontend.Graph.Dependencies frontend/src/analysis/graph_based_analysis/dependency_graph.rs: the
--                      edges of the graph
--   Frontend.Graph.Future frontend/src/analysis/graph_based_analysis/future_dependency.rs
--   Frontend.Graph.Space frontend/src/analysis/graph_based_analysis/space_requirements.rs
--   Frontend.Graph.Inputs frontend/src/analysis/graph_based_analysis/input_dependencies.rs
--   Frontend.Graph.ComputationGraph, Frontend.Graph.ComputeOrder
--                      frontend/src/analysis/graph_based_analysis/evaluation_order.rs
--   Interpreter.Words, Interpreter.Value interpreter/src/storage/value.rs: values and their operators
--   Interpreter.Floats, Interpreter.BitSet the crates for floats and bit sets, as parameters
--   Interpreter.Store, Interpreter.GlobalStore interpreter/src/storage/stores.rs
--   Interpreter.Window, Interpreter.SlidingWindow interpreter/src/storage/window.rs
--   Interpreter.Aggregation interpreter/src/storage/window_aggregations.rs
--   Interpreter.Condition interpreter/src/evaluator.rs: ActivationCondition
--   Interpreter.Expr   interpreter/src/evaluator.rs: the lookups and eval_expr, as Interpreted;
--                      interpreter/src/closuregen.rs: compile, as Compiled
--   Interpreter.Evaluator interpreter/src/evaluator.rs: EvaluatorData and Evaluator
--   Interpreter.Controller interpreter/src/coordination: the online and the offline loop; its Timeline
--                      lists the cycles that an offline run is to consist of
--   Tests              a platform to run examples on, and examples
--
-- How they interact: the analysis of names gives a table from the occurrences of names to their
-- declarations. From it and the expressions the edges of the dependency graph are made, and from
-- the graph the required inputs, the evaluation order and the sizes of the stores. The controller
-- hands events and deadlines to the evaluator. A cycle of the evaluator stores the inputs, moves the windows on and evaluates the streams whose condition holds,
-- layer by layer, with the interpreter or with compiled closures. Expressions read the stores and
-- the windows; new values go to the stores and to the windows that depend on them.
--
-- How the model is made: a Rust function is a function of the same name; where it may panic it
-- returns an `Outcome`. `&mut self` is an argument and a result. What is done through
-- `get_in_instance_mut` and the like is done by `get_in_instance` and `put_in_instance`. Words are
-- natural numbers and integers, with wrap-around or a panic written out; the argument `debug` tells
-- a build with overflow checks from one without. Durations are numbers of nanoseconds. Floats, bit
-- sets and regular expressions are parameters, with laws only where a theorem has them as a
-- hypothesis. The queue of the online mode is a list of the items of both producers in the order of
-- their arrival. Names are ASCII text, as in the grammar; the innermost scope stands first; a report
-- to the user is a value with what its message says.
--
-- Fuel: `schedule_while` takes the time between the next deadline and the event as fuel; since each
-- pause takes time, that many rounds are enough. `extend_while` takes the number of steps as fuel;
-- since it moves on by one step or more in each round, it is past the last step by then.
-- `propagate_future_dependence` takes the number of nodes as a bound on its depth; since each call
-- marks one more node, that is enough. `bfs_color_reachable` takes the number of nodes as well: each
-- node is on its stack once at most. `compute_layers` takes the number of nodes; each round removes
-- one or more if the graph has no cycle, and on a cycle the loop of the program does not end, where
-- the model panics. All other loops are structural.
--
-- Not modelled: the parser and the checks of its result, the messages of reports, the table of
-- methods, the unifier and the type checker (only the lattice of constraints on value types is),
-- the nodes of the dependency graph and the search for its cycles, the tracking sizes, the lowering to the intermediate representation, input and output, threads, and output to
-- a user.
pub mod Common
pub mod Ir
pub mod Frontend
pub mod Interpreter
pub mod Tests
