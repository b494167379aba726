-- ===== src/Interpreter/Aggregation/Monoids.antt =====
-- The aggregations of interpreter/src/storage/window_aggregations.rs as monoids.
use native.Mathlib.Nat.{add_assoc, add-zero}
use rtlola.Common.{
  ℕ, ◌+◌, ◌%◌, ◌^◌, ◌≡◌, refl, ap, ◌∙◌, Bool, true, false, ◌&&◌, ◌||◌, Option, none, some, ok,
  ◌>>=◌, arith,
}
use rtlola.Interpreter.Words.{unsigned_result}
use rtlola.Interpreter.Floats.{FloatOps}
use rtlola.Interpreter.Value.{Value, unsigned, value_add}
use rtlola.Interpreter.Window.Spec.{Aggregates}
use rtlola.Interpreter.Aggregation.{
  Generic, generic_value, sum_iv, count_iv, conj_iv, disj_iv, max_iv, max_add, min_iv, min_add,
  avg_iv, avg_add,
}
use rtlola.Interpreter.Aggregation.Algebra.{
  later_max, later_min, add_pairs, later_max_assoc, later_max-none, later_min_assoc, later_min-none,
  add_pairs_assoc, add_pairs-none, and_assoc, and-true, or_assoc, or-false, is_unsigned, is_boolean,
  truth, number, extremum, bool_value-truth, extremum-number, is_word, word, average_of,
  unsigned_result_release, generic_value-is_word,
}

module _ {F : Type 0} (fl : FloatOps F) where
  -- `&&` over Booleans
  abbrev pub conjunction : (debug : Bool) → Aggregates (conj_iv fl debug) Bool
  conjunction debug = record {
    empty = true;
    plus = ◌&&◌;
    item = truth;
    accepts = is_boolean;
    represent = λ b. b;
    plus_assoc = λ a b c. and_assoc a b c;
    plus-empty = λ a. and-true a;
    default-represent = λ ts. refl;
    add-represent = λ a b. refl;
    from_value-represent = λ v ts. bool_value-truth fl debug v;
  }

  abbrev pub disjunction : (debug : Bool) → Aggregates (disj_iv fl debug) Bool
  disjunction debug = record {
    empty = false;
    plus = ◌||◌;
    item = truth;
    accepts = is_boolean;
    represent = λ b. b;
    plus_assoc = λ a b c. or_assoc a b c;
    plus-empty = λ a. or-false a;
    default-represent = λ ts. refl;
    add-represent = λ a b. refl;
    from_value-represent = λ v ts. bool_value-truth fl debug v;
  }

  pub max_add-extremum :
      (debug : Bool) (a b : Option ℕ)
      → max_add fl debug (extremum a) (extremum b) ≡ ok (extremum (later_max a b))
  unfolding max_add
  max_add-extremum debug a b = ground arith

  pub min_add-extremum :
      (debug : Bool) (a b : Option ℕ)
      → min_add fl debug (extremum a) (extremum b) ≡ ok (extremum (later_min a b))
  unfolding min_add
  min_add-extremum debug a b = ground arith

  abbrev pub maximum : (debug : Bool) → Aggregates (max_iv fl debug) (Option ℕ)
  maximum debug = record {
    empty = none;
    plus = later_max;
    item = λ v. some (number v);
    accepts = is_unsigned;
    represent = extremum;
    plus_assoc = later_max_assoc;
    plus-empty = later_max-none;
    default-represent = λ ts. refl;
    add-represent = max_add-extremum debug;
    from_value-represent = λ v ts h. ap ok (extremum-number v h);
  }

  abbrev pub minimum : (debug : Bool) → Aggregates (min_iv fl debug) (Option ℕ)
  minimum debug = record {
    empty = none;
    plus = later_min;
    item = λ v. some (number v);
    accepts = is_unsigned;
    represent = extremum;
    plus_assoc = later_min_assoc;
    plus-empty = later_min-none;
    default-represent = λ ts. refl;
    add-represent = min_add-extremum debug;
    from_value-represent = λ v ts h. ap ok (extremum-number v h);
  }

  -- In a release build the count of the items, modulo 2^64.
  abbrev pub count : Aggregates (count_iv fl false) ℕ
  count = record {
    empty = 0;
    plus = ◌+◌;
    item = λ v. 1;
    accepts = λ v. true;
    represent = λ n. n % 2 ^ 64;
    plus_assoc = add_assoc;
    plus-empty = add-zero;
    default-represent = λ ts. refl;
    add-represent = unsigned_result_release;
    from_value-represent = λ v ts h. refl;
  }

  pub sum_default : generic_value fl false Generic.window_unsigned (unsigned 0) ≡ ok (unsigned 0)
  unfolding generic_value
  sum_default = refl

  pub value_add-word : (a b : ℕ) → value_add fl false (word a) (word b) ≡ ok (word (a + b))
  unfolding value_add
  value_add-word a b = ap (λ o. o >>= λ n. ok (unsigned n)) (unsigned_result_release a b)

  pub sum_add-word :
      (a b : ℕ)
      → (value_add fl false (word a) (word b) >>= generic_value fl false Generic.window_unsigned)
        ≡ ok (word (a + b))
  unfolding generic_value
  sum_add-word a b =
      ap (λ o. o >>= generic_value fl false Generic.window_unsigned) (value_add-word a b)

  -- In a release build the sum of the words, modulo 2^64.
  abbrev pub sum : Aggregates (sum_iv fl false Generic.window_unsigned) ℕ
  sum = record {
    empty = 0;
    plus = ◌+◌;
    item = number;
    accepts = is_word;
    represent = word;
    plus_assoc = add_assoc;
    plus-empty = add-zero;
    default-represent = λ ts.
        ap (λ o. o >>= generic_value fl false Generic.window_unsigned) sum_default ∙ sum_default;
    add-represent = sum_add-word;
    from_value-represent = λ v ts. generic_value-is_word fl false v;
  }

  pub avg_add-average_of :
      (a b : Option (ℕ × ℕ))
      → avg_add fl false (average_of a).sum (average_of b).sum (average_of a) (average_of b)
        ≡ ok (average_of (add_pairs a b))
  unfolding avg_add
  avg_add-average_of none none = refl
  avg_add-average_of none (some (t, m)) = refl
  avg_add-average_of (some (s, n)) none = refl
  avg_add-average_of (some (s, n)) (some (t, m)) =
      ap
        (λ o. o >>= λ sum. unsigned_result false (n % 2 ^ 64 + m % 2 ^ 64) >>= λ num.
          ok (record { sum = sum; num = num }))
        (value_add-word s t)
      ∙ ap (λ o. o >>= λ num. ok (record { sum = word (s + t); num = num }))
          (unsigned_result_release n m)

  pub avg_from-is_word :
      (v : Value F)
      → is_word v ≡ true
      → (generic_value fl false Generic.window_unsigned v >>= λ sum.
          ok (record { sum = sum; num = 1 }))
        ≡ ok (average_of (some (number v, 1)))
  avg_from-is_word v h =
      ap (λ o. o >>= λ sum. ok (record { sum = sum; num = 1 })) (generic_value-is_word fl false v h)

  -- In a release build the sum and the count of the words, modulo 2^64.
  abbrev pub average : Aggregates (avg_iv fl false Generic.window_unsigned) (Option (ℕ × ℕ))
  average = record {
    empty = none;
    plus = add_pairs;
    item = λ v. some (number v, 1);
    accepts = is_word;
    represent = average_of;
    plus_assoc = add_pairs_assoc;
    plus-empty = add_pairs-none;
    default-represent = λ ts. refl;
    add-represent = avg_add-average_of;
    from_value-represent = λ v ts. avg_from-is_word v;
  }
