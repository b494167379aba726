-- ===== src/Interpreter/Expr.antt =====
-- Expression evaluation: what both evaluators share, `ExpressionEvaluator` of
-- interpreter/src/evaluator.rs and the closures of interpreter/src/closuregen.rs.
pub mod Context
pub mod Operators
pub mod Interpreted
pub mod Compiled
pub mod Agreement
