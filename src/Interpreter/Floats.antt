-- ===== src/Interpreter/Floats.antt =====
-- The floating point operations that the interpreter calls: those of `f64` (`raw_…`), and those of
-- the crate ordered_float on `NotNan<f64>`, whose arithmetic panics where the result is NaN.
-- Nothing is assumed of them here.
use rtlola.Common.{ℕ, Bool, Ordering, Outcome}
use rtlola.Common.Int.{ℤ}

pub record FloatOps (F : Type 0) : Type 0 where
  -- `NotNan<f64>`
  pub add : F → F → Outcome F
  pub sub : F → F → Outcome F
  pub mul : F → F → Outcome F
  pub div : F → F → Outcome F
  pub rem : F → F → Outcome F
  pub neg : F → F
  pub cmp : F → F → Ordering
  pub equal : F → F → Bool
  -- `NotNan::new(f).unwrap()`
  pub not_nan : F → Outcome F
  -- `f64`
  pub raw_add : F → F → F
  pub raw_mul : F → F → F
  pub raw_div : F → F → F
  pub powf : F → F → F
  pub powi : F → ℤ → F
  pub sqrt : F → F
  pub sin : F → F
  pub cos : F → F
  pub atan : F → F
  pub abs : F → F
  pub floor : F → F
  -- `as` casts
  pub of_unsigned : ℕ → F
  pub of_signed : ℤ → F
  pub to_unsigned : F → ℕ
  pub to_signed : F → ℤ
