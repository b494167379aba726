-- ===== src/Interpreter/Aggregation.antt =====
-- interpreter/src/storage/window_aggregations.rs: the values in the buckets of a window.
pub mod Algebra
pub mod Monoids
use rtlola.Common.{
  ℕ, ◌+◌, ◌-◌, ◌*◌, ◌/◌, ◌%◌, ◌^◌, compare, Ordering, Bool, true, false, ◌&&◌, ◌||◌, ltb, leb,
  if◌then◌else◌, Outcome, ok, panic, ◌>>=◌, ◌>>◌, assert,
}
use rtlola.Common.Int.{ℤ, pos, pos_part, neg_part}
use rtlola.Interpreter.Words.{unsigned_result, div_u64, div_i64, of_bits}
use rtlola.Interpreter.Floats.{FloatOps}
use rtlola.Interpreter.Value.{Value, bool, unsigned, signed, float, new_float, value_add}
use rtlola.Interpreter.Window.{WindowIv}

-- The types that implement `WindowGeneric` (window.rs): they have no values, and stand for a
-- conversion.
pub data Generic : Type 0 where
  window_signed window_bool window_unsigned window_float : Generic

-- `Ord::max` and `Ord::min`: of equal values, `max` returns the second and `min` the first.
abbrev pub ord_max {ℓ} : {A : Type ℓ} → Ordering → A → A → A
ord_max Ordering.gt a b = a
ord_max _ a b = b

abbrev pub ord_min {ℓ} : {A : Type ℓ} → Ordering → A → A → A
ord_min Ordering.gt a b = b
ord_min _ a b = a

abbrev pub compare_ℤ : ℤ → ℤ → Ordering
compare_ℤ a b = compare (pos_part a + neg_part b) (pos_part b + neg_part a)

pub record AvgIv (F : Type 0) : Type 0 where
  pub sum : Value F
  pub num : ℕ

pub record IntegralIv (F : Type 0) : Type 0 where
  pub volume : F
  pub end_value : F
  pub end_time : ℕ
  pub start_value : F
  pub start_time : ℕ
  pub valid : Bool

module _ {F : Type 0} (fl : FloatOps F) (debug : Bool) where
  -- `WindowGeneric::from_value`; `as i64` keeps the bits.
  unfoldable pub generic_value : Generic → Value F → Outcome (Value F)
  generic_value Generic.window_signed (signed z) = ok (signed z)
  generic_value Generic.window_signed (unsigned n) = ok (signed (of_bits n))
  generic_value Generic.window_signed _ = panic
  generic_value Generic.window_bool (bool true) = ok (unsigned 1)
  generic_value Generic.window_bool (bool false) = ok (unsigned 0)
  generic_value Generic.window_bool _ = panic
  generic_value Generic.window_unsigned (unsigned n) = ok (unsigned n)
  generic_value Generic.window_unsigned _ = panic
  generic_value Generic.window_float (signed z) = new_float fl (fl.of_signed z)
  generic_value Generic.window_float (unsigned n) = new_float fl (fl.of_unsigned n)
  generic_value Generic.window_float (float f) = new_float fl f
  generic_value Generic.window_float _ = panic

  -- `SumIV`, which holds a value
  abbrev pub sum_iv : Generic → WindowIv (Value F) (Value F)
  sum_iv g = record {
    default = λ ts. generic_value g (unsigned 0) >>= generic_value g;
    from_value = λ v ts. generic_value g v;
    add = λ a b. value_add fl debug a b >>= generic_value g;
    into_value = λ v. ok v;
  }

  -- `CountIV`
  abbrev pub count_iv : WindowIv (Value F) ℕ
  count_iv = record {
    default = λ ts. ok 0;
    from_value = λ v ts. ok 1;
    add = λ a b. unsigned_result debug (a + b);
    into_value = λ n. ok (unsigned n);
  }

  unfoldable pub bool_value : Value F → Outcome Bool
  bool_value (bool b) = ok b
  bool_value _ = panic

  -- `ConjIV`
  abbrev pub conj_iv : WindowIv (Value F) Bool
  conj_iv = record {
    default = λ ts. ok true;
    from_value = λ v ts. bool_value v;
    add = λ a b. ok (a && b);
    into_value = λ b. ok (bool b);
  }

  -- `DisjIV`
  abbrev pub disj_iv : WindowIv (Value F) Bool
  disj_iv = record {
    default = λ ts. ok false;
    from_value = λ v ts. bool_value v;
    add = λ a b. ok (a || b);
    into_value = λ b. ok (bool b);
  }

  abbrev pub no_avg : AvgIv F
  no_avg = record { sum = Value.none; num = 0 }

  abbrev add_both : AvgIv F → AvgIv F → Outcome (AvgIv F)
  add_both a b = do
    sum ← value_add fl debug a.sum b.sum
    num ← unsigned_result debug (a.num + b.num)
    ok (record { sum = sum; num = num })

  unfoldable pub avg_add : Value F → Value F → AvgIv F → AvgIv F → Outcome (AvgIv F)
  avg_add Value.none Value.none a b = ok no_avg
  avg_add _ Value.none a b = ok a
  avg_add Value.none _ a b = ok b
  avg_add _ _ a b = add_both a b

  unfoldable pub avg_into : Value F → ℕ → Outcome (Value F)
  avg_into Value.none num = ok Value.none
  avg_into (unsigned u) num = do q ← div_u64 u num; ok (unsigned q)
  avg_into (signed z) num = do q ← div_i64 z (of_bits num); ok (signed q)
  avg_into (float f) num = do q ← fl.div f (fl.of_unsigned num); ok (float q)
  avg_into _ num = panic

  -- `AvgIV`
  abbrev pub avg_iv : Generic → WindowIv (Value F) (AvgIv F)
  avg_iv g = record {
    default = λ ts. ok no_avg;
    from_value = λ v ts. (do sum ← generic_value g v; ok (record { sum = sum; num = 1 }));
    add = λ a b. avg_add a.sum b.sum a b;
    into_value = λ a. avg_into a.sum a.num;
  }

  unfoldable pub max_add : Value F → Value F → Outcome (Value F)
  max_add Value.none b = ok b
  max_add a Value.none = ok a
  max_add (unsigned a) (unsigned b) = ok (unsigned (ord_max (compare a b) a b))
  max_add (signed a) (signed b) = ok (signed (ord_max (compare_ℤ a b) a b))
  max_add (float a) (float b) = ok (float (ord_max (fl.cmp a b) a b))
  max_add _ _ = panic

  unfoldable pub min_add : Value F → Value F → Outcome (Value F)
  min_add Value.none b = ok b
  min_add a Value.none = ok a
  min_add (unsigned a) (unsigned b) = ok (unsigned (ord_min (compare a b) a b))
  min_add (signed a) (signed b) = ok (signed (ord_min (compare_ℤ a b) a b))
  min_add (float a) (float b) = ok (float (ord_min (fl.cmp a b) a b))
  min_add _ _ = panic

  -- `MaxIV` and `MinIV`, which hold a value and convert nothing
  abbrev pub max_iv : WindowIv (Value F) (Value F)
  max_iv = record {
    default = λ ts. ok Value.none;
    from_value = λ v ts. ok v;
    add = max_add;
    into_value = λ v. ok v;
  }

  abbrev pub min_iv : WindowIv (Value F) (Value F)
  min_iv = record {
    default = λ ts. ok Value.none;
    from_value = λ v ts. ok v;
    add = min_add;
    into_value = λ v. ok v;
  }

  -- the seconds between two samples, as the code computes them: the nanoseconds are divided by 10^8
  unfoldable pub time_diff_secs : ℕ → F
  time_diff_secs t =
      fl.raw_add (fl.of_unsigned (t / 1_000_000_000))
        (fl.raw_div (fl.of_unsigned (t % 1_000_000_000)) (fl.of_unsigned 100_000_000))

  unfoldable pub integral_add : Bool → Bool → IntegralIv F → IntegralIv F → Outcome (IntegralIv F)
  unfolding time_diff_secs
  integral_add false false a b = ok a
  integral_add false true a b = ok b
  integral_add true false a b = ok a
  integral_add true true a b =
      let diff = time_diff_secs (b.start_time - a.end_time) in
      let value_sum = fl.raw_add b.start_value a.end_value in
      let additional = fl.raw_div (fl.raw_mul value_sum diff) (fl.of_unsigned 2) in
      do
        assert (leb a.end_time b.start_time)
        ok (record {
          volume = fl.raw_add (fl.raw_add a.volume b.volume) additional;
          end_value = b.end_value;
          end_time = b.end_time;
          start_value = a.start_value;
          start_time = a.start_time;
          valid = true;
        })

  unfoldable pub float_value : Value F → Outcome F
  float_value (signed z) = ok (fl.of_signed z)
  float_value (unsigned n) = ok (fl.of_unsigned n)
  float_value (float f) = ok f
  float_value _ = panic

  -- `IntegralIV`
  abbrev pub integral_iv : WindowIv (Value F) (IntegralIv F)
  integral_iv =
      let zero_value = fl.of_unsigned 0 in
      record {
        default = λ ts. ok (record {
          volume = zero_value;
          end_value = zero_value;
          end_time = ts;
          start_value = zero_value;
          start_time = ts;
          valid = false;
        });
        from_value = λ v ts. float_value v >>= λ f. ok (record {
          volume = zero_value;
          end_value = f;
          end_time = ts;
          start_value = f;
          start_time = ts;
          valid = true;
        });
        add = λ a b. integral_add a.valid b.valid a b;
        into_value = λ a. new_float fl a.volume;
      }
