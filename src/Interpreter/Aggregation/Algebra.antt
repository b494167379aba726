-- ===== src/Interpreter/Aggregation/Algebra.antt =====
-- The aggregations of interpreter/src/storage/window_aggregations.rs as algebra: what each holds, and its laws.
use native.Mathlib.Nat.{add_assoc}
use rtlola.Common.{
  ℕ, ◌+◌, ◌%◌, ◌^◌, ◌≡◌, refl, ap, ap₂, Bool, true, false, ◌&&◌, ◌||◌, ltb, Option, none, some, ok,
  arith, max, min,
}
use rtlola.Interpreter.Words.{unsigned_result}
use rtlola.Interpreter.Floats.{FloatOps}
use rtlola.Interpreter.Value.{Value, bool, unsigned}
use rtlola.Interpreter.Aggregation.{Generic, generic_value, bool_value, AvgIv}

-- the larger, and the smaller, of what is there
abbrev pub later_max : Option ℕ → Option ℕ → Option ℕ
later_max none b = b
later_max (some a) none = some a
later_max (some a) (some b) = some (max a b)

abbrev pub later_min : Option ℕ → Option ℕ → Option ℕ
later_min none b = b
later_min (some a) none = some a
later_min (some a) (some b) = some (min a b)

-- sums and counts of what is there
abbrev pub add_pairs : Option (ℕ × ℕ) → Option (ℕ × ℕ) → Option (ℕ × ℕ)
add_pairs none b = b
add_pairs (some a) none = some a
add_pairs (some (s, n)) (some (t, m)) = some (s + t, n + m)

pub later_max_assoc : (a b c : Option ℕ) → later_max (later_max a b) c ≡ later_max a (later_max b c)
later_max_assoc a b c = ground arith

pub later_max-none : (a : Option ℕ) → later_max a none ≡ a
later_max-none a = ground arith

pub later_min_assoc : (a b c : Option ℕ) → later_min (later_min a b) c ≡ later_min a (later_min b c)
later_min_assoc a b c = ground arith

pub later_min-none : (a : Option ℕ) → later_min a none ≡ a
later_min-none a = ground arith

pub add_pairs_assoc :
    (a b c : Option (ℕ × ℕ)) → add_pairs (add_pairs a b) c ≡ add_pairs a (add_pairs b c)
add_pairs_assoc none b c = refl
add_pairs_assoc (some a) none c = refl
add_pairs_assoc (some a) (some b) none = refl
add_pairs_assoc (some (s, n)) (some (t, m)) (some (u, k)) =
    ap₂ (λ x y. some (x, y)) (add_assoc s t u) (add_assoc n m k)

pub add_pairs-none : (a : Option (ℕ × ℕ)) → add_pairs a none ≡ a
add_pairs-none none = refl
add_pairs-none (some a) = refl

pub and_assoc : (a b c : Bool) → (a && b && c) ≡ (a && (b && c))
and_assoc a b c = ground arith

pub and-true : (a : Bool) → (a && true) ≡ a
and-true a = ground arith

pub or_assoc : (a b c : Bool) → (a || b || c) ≡ (a || (b || c))
or_assoc a b c = ground arith

pub or-false : (a : Bool) → (a || false) ≡ a
or-false a = ground arith

module _ {F : Type 0} where
  abbrev pub is_unsigned : Value F → Bool
  is_unsigned (unsigned n) = true
  is_unsigned _ = false

  abbrev pub is_boolean : Value F → Bool
  is_boolean (bool b) = true
  is_boolean _ = false

  abbrev pub truth : Value F → Bool
  truth (bool b) = b
  truth _ = false

  abbrev pub number : Value F → ℕ
  number (unsigned n) = n
  number _ = 0

  abbrev pub extremum : Option ℕ → Value F
  extremum none = Value.none
  extremum (some n) = unsigned n

  pub bool_value-truth :
      (fl : FloatOps F) (debug : Bool) (v : Value F)
      → is_boolean v ≡ true
      → bool_value fl debug v ≡ ok (truth v)
  unfolding bool_value
  bool_value-truth fl debug (bool b) h = refl
  bool_value-truth fl debug _ h = cc

  pub extremum-number : (v : Value F) → is_unsigned v ≡ true → v ≡ extremum (some (number v))
  extremum-number (unsigned n) h = refl
  extremum-number _ h = cc

  -- an unsigned value of 64 bits
  abbrev pub is_word : Value F → Bool
  is_word (unsigned n) = ltb n (2 ^ 64)
  is_word _ = false

  abbrev pub word : ℕ → Value F
  word n = unsigned (n % 2 ^ 64)

  abbrev pub average_of : Option (ℕ × ℕ) → AvgIv F
  average_of none = record { sum = Value.none; num = 0 }
  average_of (some (s, n)) = record { sum = word s; num = n % 2 ^ 64 }

  pub word-number : (v : Value F) → is_word v ≡ true → v ≡ word (number v)
  word-number (unsigned n) h = ap unsigned (ground arith)
  word-number _ h = cc

pub unsigned_result_release :
    (a b : ℕ) → unsigned_result false (a % 2 ^ 64 + b % 2 ^ 64) ≡ ok ((a + b) % 2 ^ 64)
unfolding unsigned_result
unsigned_result_release a b = ground arith

pub generic_value-is_word :
    {F : Type 0} (fl : FloatOps F) (debug : Bool) (v : Value F)
    → is_word v ≡ true
    → generic_value fl debug Generic.window_unsigned v ≡ ok (word (number v))
unfolding generic_value
generic_value-is_word fl debug (unsigned n) h = ground arith
generic_value-is_word fl debug _ h = cc
