-- ===== src/Frontend/Activation/Data.antt =====
-- `enum Activation<Var>` of frontend/src/ty.rs. `Activations` is `Vec<Activation<Var>>`.
mutual
  pub data Activation (V : Type 0) : Type 0 where
    conjunction : Activations V → Activation V
    disjunction : Activations V → Activation V
    stream : V → Activation V
    true : Activation V

  pub data Activations (V : Type 0) : Type 0 where
    nil : Activations V
    cons : Activation V → Activations V → Activations V
