-- ===== src/Interpreter/Expr/Operators.antt =====
-- The operators and functions of an expression on values, which both evaluators call.
use text.Mathlib.Text.{◌==◌ as str_eq}
use rtlola.Common.{
  ℕ, compare, Ordering, Bool, true, false, not, if◌then◌else◌, Option, none, some, String, Outcome,
  ok, panic, ◌>>=◌,
}
use rtlola.Common.Int.{pos, abs}
use rtlola.Ir.{ArithLogOp, Constant}
use rtlola.Interpreter.Floats.{FloatOps}
use rtlola.Interpreter.Words.{signed_result}
use rtlola.Interpreter.Aggregation.{ord_max, ord_min, compare_ℤ}
use rtlola.Interpreter.Value.{
  Value, Values, bool, unsigned, signed, float, tuple, str, nil, cons, new_float, value_eq,
  value_cmp, value_add, value_sub, value_mul, value_div, value_rem, value_pow, value_shl, value_shr,
  value_neg, value_and, value_or, value_xor, value_not,
}

abbrev is_lt : Ordering → Bool
is_lt Ordering.lt = true
is_lt _ = false

abbrev is_gt : Ordering → Bool
is_gt Ordering.gt = true
is_gt _ = false

module _ {F : Type 0} (fl : FloatOps F) (debug : Bool) where
  unfoldable pub constant : Constant F → Outcome (Value F)
  constant (Constant.bool b) = ok (bool b)
  constant (Constant.uint u) = ok (unsigned u)
  constant (Constant.int i) = ok (signed i)
  constant (Constant.float f) = new_float fl f
  constant (Constant.str s) = ok (str s)

  -- `None` for an operator of two operands
  unfoldable pub unary : ArithLogOp → Option (Value F → Outcome (Value F))
  unary ArithLogOp.not = some value_not
  unary ArithLogOp.bit_not = some value_not
  unary ArithLogOp.neg = some (value_neg fl debug)
  unary _ = none

  -- `&&` and `||` are not among these, since they are lazy.
  unfoldable pub binary : ArithLogOp → Value F → Value F → Outcome (Value F)
  binary ArithLogOp.add a b = value_add fl debug a b
  binary ArithLogOp.sub a b = value_sub fl debug a b
  binary ArithLogOp.mul a b = value_mul fl debug a b
  binary ArithLogOp.div a b = value_div fl debug a b
  binary ArithLogOp.rem a b = value_rem fl debug a b
  binary ArithLogOp.pow a b = value_pow fl debug a b
  binary ArithLogOp.eq a b = ok (bool (value_eq fl a b))
  binary ArithLogOp.ne a b = ok (bool (not (value_eq fl a b)))
  binary ArithLogOp.lt a b = do o ← value_cmp fl a b; ok (bool (is_lt o))
  binary ArithLogOp.le a b = do o ← value_cmp fl a b; ok (bool (not (is_gt o)))
  binary ArithLogOp.ge a b = do o ← value_cmp fl a b; ok (bool (not (is_lt o)))
  binary ArithLogOp.gt a b = do o ← value_cmp fl a b; ok (bool (is_gt o))
  binary ArithLogOp.bit_and a b = value_and a b
  binary ArithLogOp.bit_or a b = value_or a b
  binary ArithLogOp.bit_xor a b = value_xor a b
  binary ArithLogOp.shl a b = value_shl fl debug a b
  binary ArithLogOp.shr a b = value_shr fl debug a b
  binary _ a b = panic

  -- the functions of one argument
  unfoldable pub float_function : (F → F) → Value F → Outcome (Value F)
  float_function f (float x) = new_float fl (f x)
  float_function f _ = panic

  unfoldable pub absolute : Value F → Outcome (Value F)
  absolute (float f) = new_float fl (fl.abs f)
  absolute (signed i) = do z ← signed_result debug (pos (abs i)); ok (signed z)
  absolute _ = panic

  unfoldable pub minimum : Value F → Value F → Outcome (Value F)
  minimum (float a) (float b) = ok (float (ord_min (fl.cmp a b) a b))
  minimum (signed a) (signed b) = ok (signed (ord_min (compare_ℤ a b) a b))
  minimum (unsigned a) (unsigned b) = ok (unsigned (ord_min (compare a b) a b))
  minimum _ _ = panic

  unfoldable pub maximum : Value F → Value F → Outcome (Value F)
  maximum (float a) (float b) = ok (float (ord_max (fl.cmp a b) a b))
  maximum (signed a) (signed b) = ok (signed (ord_max (compare_ℤ a b) a b))
  maximum (unsigned a) (unsigned b) = ok (unsigned (ord_max (compare a b) a b))
  maximum _ _ = panic

  unfoldable pub named_unary : String → Option (Value F → Outcome (Value F))
  named_unary name =
      if str_eq name "sqrt"
      then some (float_function fl.sqrt)
      else if str_eq name "sin"
      then some (float_function fl.sin)
      else if str_eq name "cos"
      then some (float_function fl.cos)
      else if str_eq name "arctan"
      then some (float_function fl.atan)
      else if str_eq name "abs"
      then some absolute
      else none

  unfoldable pub named_binary : String → Option (Value F → Value F → Outcome (Value F))
  named_binary name =
      if str_eq name "min" then some minimum else if str_eq name "max" then some maximum else none

-- `entries[num].clone()`
unfoldable pub tuple_element : {F : Type 0} → Values F → ℕ → Outcome (Value F)
tuple_element nil num = panic
tuple_element (cons v vs) ℕ.zero = ok v
tuple_element (cons v vs) (ℕ.suc num) = tuple_element vs num

unfoldable pub tuple_access : {F : Type 0} → Value F → ℕ → Outcome (Value F)
unfolding tuple_element
tuple_access (tuple entries) num = tuple_element entries num
tuple_access _ num = panic

abbrev pub is_absent : {F : Type 0} → Value F → Bool
is_absent Value.none = true
is_absent _ = false
