-- ===== src/Tests.antt =====
-- Concrete platforms, and runs of the theorems on them.
mod Platforms
mod Evaluations
mod Runs
mod Types
mod Graphs
mod Matrices
mod Analyses
mod Names
mod Dependencies
