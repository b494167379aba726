-- ===== src/Interpreter/SlidingWindow/Refusals.antt =====
-- Window specifications that interpreter/src/storage/window.rs refuses.
use rtlola.Common.{ℕ, Bool, true, false, ◌≡◌, refl, arith, panic}
use rtlola.Ir.{Ty, WindowOperation}
use rtlola.Interpreter.Floats.{FloatOps}
use rtlola.Interpreter.Window
use rtlola.Interpreter.Aggregation.{generic_value}
use rtlola.Interpreter.SlidingWindow.{new}

-- The operations that a window can run over values of a type, however often it is optional.
abbrev pub is_supported : WindowOperation → Ty → Bool
is_supported WindowOperation.count _ = true
is_supported WindowOperation.integral _ = true
is_supported WindowOperation.product _ = false
is_supported op (Ty.option t) = is_supported op t
is_supported WindowOperation.conjunction Ty.bool = true
is_supported WindowOperation.disjunction Ty.bool = true
is_supported WindowOperation.conjunction _ = false
is_supported WindowOperation.disjunction _ = false
is_supported _ (Ty.uint _) = true
is_supported _ (Ty.int _) = true
is_supported _ (Ty.float _) = true
is_supported _ _ = false

module _ {F : Type 0} (fl : FloatOps F) (debug wait : Bool) (dur ts : ℕ) where
  -- To create a window panics, unless it is a count or an integral, or its type, with options
  -- removed, is one of numbers for a minimum, maximum, sum or average, and Boolean for a conjunction
  -- or disjunction.
  pub new-unsupported :
      (op : WindowOperation) (ty : Ty)
      → is_supported op ty ≡ false
      → new fl debug dur wait op ts ty ≡ panic
  unfolding new Window.new generic_value
  new-unsupported WindowOperation.product (Ty.option t) h =
      new-unsupported WindowOperation.product t h
  new-unsupported WindowOperation.sum (Ty.option t) h = new-unsupported WindowOperation.sum t h
  new-unsupported WindowOperation.min (Ty.option t) h = new-unsupported WindowOperation.min t h
  new-unsupported WindowOperation.max (Ty.option t) h = new-unsupported WindowOperation.max t h
  new-unsupported WindowOperation.average (Ty.option t) h =
      new-unsupported WindowOperation.average t h
  new-unsupported WindowOperation.conjunction (Ty.option t) h =
      new-unsupported WindowOperation.conjunction t h
  new-unsupported WindowOperation.disjunction (Ty.option t) h =
      new-unsupported WindowOperation.disjunction t h
  new-unsupported WindowOperation.sum Ty.bool h = refl
  new-unsupported _ _ h = ground arith
