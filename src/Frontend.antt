-- ===== src/Frontend.antt =====
-- The frontend: the syntax tree, names, types, constraints, activation conditions, the analyses of
-- the dependency graph, schedules.
pub mod Ast
pub mod Stdlib
pub mod Naming
pub mod Activation
pub mod Graph
pub mod Schedule
pub mod ValueTy
