-- ===== src/Interpreter/Value/Data.antt =====
-- The type `Value` of interpreter/src/storage/value.rs.
use rtlola.Common.{ℕ, Bool, String, List}
use rtlola.Common.Int.{ℤ}

-- `F` is the type of floats. `Values` is `Box<[Value]>`.
mutual
  pub data Value (F : Type 0) : Type 0 where
    none : Value F
    bool : Bool → Value F
    unsigned : ℕ → Value F
    signed : ℤ → Value F
    float : F → Value F
    tuple : Values F → Value F
    str : String → Value F
    bytes : List ℕ → Value F

  pub data Values (F : Type 0) : Type 0 where
    nil : Values F
    cons : Value F → Values F → Values F
