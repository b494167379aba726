-- ===== src/Interpreter.antt =====
-- The interpreter: values, stream memory, sliding windows, evaluation.
pub mod Words
pub mod Floats
pub mod Value
pub mod Store
pub mod Window
pub mod Aggregation
pub mod SlidingWindow
pub mod BitSet
pub mod Condition
pub mod GlobalStore
pub mod Expr
pub mod Evaluator
pub mod Controller
