-- ===== src/Interpreter/Value/Ops.antt =====
-- The operators of interpreter/src/storage/value.rs. `debug` says whether overflows are checked.
use Prim.Native.Nat.{bit_and, bit_or, bit_xor}
use Prim.Native.String.{compare as compare_str}
use text.Mathlib.Text.{◌==◌ as str_eq}
use rtlola.Common.{
  ℕ, ◌+◌, ◌-◌, ◌*◌, ◌/◌, ◌%◌, ◌^◌, compare, Ordering, Bool, true, false, not, ◌&&◌, ◌||◌, List, [],
  ◌∷◌, ltb, ◌==◌, if◌then◌else◌, Outcome, ok, panic, ◌>>=◌,
}
use rtlola.Common.Int.{pos, negsuc, pos_part, neg_part, neg, ◌+ℤ◌, ◌-ℤ◌, ◌*ℤ◌, eqb_ℤ}
use rtlola.Interpreter.Words.{
  unsigned_result, sub_u64, div_u64, rem_u64, shift_distance, to_bits, of_bits, signed_result,
  div_i64, rem_i64, pow_ℤ, shr_ℤ, not_ℤ,
}
use rtlola.Interpreter.Floats.{FloatOps}
use rtlola.Interpreter.Value.Data.{
  Value, Values, bool, unsigned, signed, float, tuple, str, bytes, nil, cons,
}

abbrev bytes_eq : List ℕ → List ℕ → Bool
bytes_eq [] [] = true
bytes_eq (a ∷ as') (b ∷ bs) = (a == b) && bytes_eq as' bs
bytes_eq _ _ = false

abbrev bool_eq : Bool → Bool → Bool
bool_eq true b = b
bool_eq false b = not b

module _ {F : Type 0} where
  unfoldable pub is_bool : Value F → Bool
  is_bool (bool _) = true
  is_bool _ = false

  unfoldable pub get_bool : Value F → Outcome Bool
  get_bool (bool b) = ok b
  get_bool _ = panic

module _ {F : Type 0} (fl : FloatOps F) where
  -- `Value::new_float`
  unfoldable pub new_float : F → Outcome (Value F)
  new_float f = do g ← fl.not_nan f; ok (float g)

  -- the derived `PartialEq`
  unfoldable mutual
    pub value_eq : Value F → Value F → Bool
    value_eq Value.none Value.none = true
    value_eq (bool a) (bool b) = bool_eq a b
    value_eq (unsigned a) (unsigned b) = a == b
    value_eq (signed a) (signed b) = eqb_ℤ a b
    value_eq (float a) (float b) = fl.equal a b
    value_eq (tuple a) (tuple b) = values_eq a b
    value_eq (str a) (str b) = str_eq a b
    value_eq (bytes a) (bytes b) = bytes_eq a b
    value_eq _ _ = false

    pub values_eq : Values F → Values F → Bool
    values_eq nil nil = true
    values_eq (cons a as') (cons b bs) = value_eq a b && values_eq as' bs
    values_eq _ _ = false

  -- `Ord::cmp`
  unfoldable pub value_cmp : Value F → Value F → Outcome Ordering
  value_cmp (unsigned a) (unsigned b) = ok (compare a b)
  value_cmp (signed a) (signed b) = ok (compare (pos_part a + neg_part b) (pos_part b + neg_part a))
  value_cmp (float a) (float b) = ok (fl.cmp a b)
  value_cmp (str a) (str b) = ok (compare_str a b)
  value_cmp _ _ = panic

module _ {F : Type 0} (fl : FloatOps F) (debug : Bool) where
  unfoldable pub value_add : Value F → Value F → Outcome (Value F)
  value_add (unsigned a) (unsigned b) = do n ← unsigned_result debug (a + b); ok (unsigned n)
  value_add (signed a) (signed b) = do z ← signed_result debug (a +ℤ b); ok (signed z)
  value_add (float a) (float b) = do f ← fl.add a b; ok (float f)
  value_add _ _ = panic

  unfoldable pub value_sub : Value F → Value F → Outcome (Value F)
  value_sub (unsigned a) (unsigned b) = do n ← sub_u64 debug a b; ok (unsigned n)
  value_sub (signed a) (signed b) = do z ← signed_result debug (a -ℤ b); ok (signed z)
  value_sub (float a) (float b) = do f ← fl.sub a b; ok (float f)
  value_sub _ _ = panic

  unfoldable pub value_mul : Value F → Value F → Outcome (Value F)
  value_mul (unsigned a) (unsigned b) = do n ← unsigned_result debug (a * b); ok (unsigned n)
  value_mul (signed a) (signed b) = do z ← signed_result debug (a *ℤ b); ok (signed z)
  value_mul (float a) (float b) = do f ← fl.mul a b; ok (float f)
  value_mul _ _ = panic

  unfoldable pub value_div : Value F → Value F → Outcome (Value F)
  value_div (unsigned a) (unsigned b) = do n ← div_u64 a b; ok (unsigned n)
  value_div (signed a) (signed b) = do z ← div_i64 a b; ok (signed z)
  value_div (float a) (float b) = do f ← fl.div a b; ok (float f)
  value_div _ _ = panic

  unfoldable pub value_rem : Value F → Value F → Outcome (Value F)
  value_rem (unsigned a) (unsigned b) = do n ← rem_u64 a b; ok (unsigned n)
  value_rem (signed a) (signed b) = do z ← rem_i64 a b; ok (signed z)
  value_rem (float a) (float b) = do f ← fl.rem a b; ok (float f)
  value_rem _ _ = panic

  -- The exponent is cast by `as u32` or `as i32`.
  unfoldable pub value_pow : Value F → Value F → Outcome (Value F)
  value_pow (unsigned a) (unsigned b) = do
    n ← unsigned_result debug (a ^ (b % 2 ^ 32))
    ok (unsigned n)
  value_pow (signed a) (signed b) = do
    z ← signed_result debug (pow_ℤ a (to_bits b % 2 ^ 32))
    ok (signed z)
  value_pow (float a) (float b) = new_float fl (fl.powf a b)
  value_pow (float a) (signed b) =
      let low = to_bits b % 2 ^ 32 in
      new_float fl (fl.powi a (if ltb low (2 ^ 31) then pos low else negsuc (2 ^ 32 - 1 - low)))
  value_pow _ _ = panic

  unfoldable pub value_shl : Value F → Value F → Outcome (Value F)
  value_shl (unsigned a) (unsigned b) = do
    d ← shift_distance debug b
    ok (unsigned (a * 2 ^ d % 2 ^ 64))
  value_shl (signed a) (unsigned b) = do
    d ← shift_distance debug b
    ok (signed (of_bits (to_bits a * 2 ^ d % 2 ^ 64)))
  value_shl _ _ = panic

  unfoldable pub value_shr : Value F → Value F → Outcome (Value F)
  value_shr (unsigned a) (unsigned b) = do d ← shift_distance debug b; ok (unsigned (a / 2 ^ d))
  value_shr (signed a) (unsigned b) = do d ← shift_distance debug b; ok (signed (shr_ℤ a d))
  value_shr _ _ = panic

  unfoldable pub value_neg : Value F → Outcome (Value F)
  value_neg (signed a) = do z ← signed_result debug (neg a); ok (signed z)
  value_neg (float a) = ok (float (fl.neg a))
  value_neg _ = panic

module _ {F : Type 0} where
  unfoldable pub value_and : Value F → Value F → Outcome (Value F)
  value_and (bool a) (bool b) = ok (bool (a && b))
  value_and (unsigned a) (unsigned b) = ok (unsigned (bit_and a b))
  value_and (signed a) (signed b) = ok (signed (of_bits (bit_and (to_bits a) (to_bits b))))
  value_and _ _ = panic

  unfoldable pub value_or : Value F → Value F → Outcome (Value F)
  value_or (bool a) (bool b) = ok (bool (a || b))
  value_or (unsigned a) (unsigned b) = ok (unsigned (bit_or a b))
  value_or (signed a) (signed b) = ok (signed (of_bits (bit_or (to_bits a) (to_bits b))))
  value_or _ _ = panic

  unfoldable pub value_xor : Value F → Value F → Outcome (Value F)
  value_xor (unsigned a) (unsigned b) = ok (unsigned (bit_xor a b))
  value_xor (signed a) (signed b) = ok (signed (of_bits (bit_xor (to_bits a) (to_bits b))))
  value_xor _ _ = panic

  unfoldable pub value_not : Value F → Outcome (Value F)
  value_not (bool b) = ok (bool (not b))
  value_not (unsigned n) = ok (unsigned (2 ^ 64 - 1 - n))
  value_not (signed z) = ok (signed (not_ℤ z))
  value_not _ = panic
