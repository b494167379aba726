-- ===== src/Interpreter/Window.antt =====
-- interpreter/src/storage/window.rs, `WindowInstance`: a sliding window of `size` buckets over an
-- aggregation. Times and durations are numbers of nanoseconds.
pub mod Index
pub mod Time
pub mod Spec
mod Buckets
pub mod Refine
use rtlola.Common.{
  ℕ, zero, suc, ◌+◌, ◌-◌, ◌*◌, ◌/◌, ◌%◌, ◌<◌, ◌≤◌, compare, Ordering, ltb, leb, if◌then◌else◌, Bool,
  ◌&&◌, List, [], ◌∷◌, length, set, get_elem?, drop_last, replicate, Outcome, ok, panic, ◌>>=◌,
  ◌>>◌, assert, expect,
}
use rtlola.Interpreter.Floats.{FloatOps}
use rtlola.Interpreter.Value.{Value}

-- `const SIZE`
abbrev pub size : ℕ
size = 64

-- `trait WindowIV`, with `From<(Value, Time)>`, `Add` and `Into<Value>`
pub record WindowIv (V IV : Type 0) : Type 0 where
  pub default : ℕ → Outcome IV
  pub from_value : V → ℕ → Outcome IV
  pub add : IV → IV → Outcome IV
  pub into_value : IV → Outcome V

-- `struct BIx`
pub record BIx : Type 0 where
  pub period : ℕ
  pub ix : ℕ

-- `BIx::buckets_since`
unfoldable pub buckets_since : BIx → BIx → ℕ → Outcome ℕ
buckets_since self other num_buckets = elim (compare self.period other.period) [
  | Ordering.lt ↦ panic
  | Ordering.gt ↦
      let period_diff = self.period - other.period in
      elim (compare self.ix other.ix) [
        | Ordering.eq ↦ ok (period_diff * num_buckets)
        | Ordering.lt ↦ ok ((period_diff - 1) * num_buckets + (num_buckets - other.ix + self.ix))
        | Ordering.gt ↦ ok (period_diff * num_buckets + (self.ix - other.ix))
      ]
  | Ordering.eq ↦ elim (compare self.ix other.ix) [
    | Ordering.eq ↦ ok 0
    | Ordering.lt ↦ panic
    | Ordering.gt ↦ ok (self.ix - other.ix)
  ]
]

-- A duration in seconds, as `quickfix_duration_div` computes it.
unfoldable pub seconds : {F : Type 0} → FloatOps F → ℕ → F
seconds fl t =
    fl.raw_add (fl.of_unsigned (t / 1_000_000_000))
      (fl.raw_div (fl.of_unsigned (t % 1_000_000_000)) (fl.of_unsigned 1_000_000_000))

-- `quickfix_duration_div`
unfoldable pub quickfix_duration_div : {F : Type 0} → FloatOps F → ℕ → ℕ → F
unfolding seconds
quickfix_duration_div fl a b = fl.raw_div (seconds fl a) (seconds fl b)

pub record WindowInstance (IV : Type 0) : Type 0 where
  pub buckets : List IV
  pub time_per_bucket : ℕ
  pub start_time : ℕ
  pub last_bucket_ix : BIx
  pub wait : Bool
  pub wait_duration : ℕ

module _ {F : Type 0} (fl : FloatOps F) {IV : Type 0} (iv : WindowIv (Value F) IV) where
  unfoldable pub new : ℕ → Bool → ℕ → Outcome (WindowInstance IV)
  new dur wait ts = do
    initial ← iv.default ts
    ok (record {
      buckets = replicate size initial;
      time_per_bucket = dur / size;
      start_time = ts;
      last_bucket_ix = record { period = 0; ix = 0 };
      wait = wait;
      wait_duration = dur;
    })

  -- the bucket that time `ts` falls into, counted from the start
  unfoldable pub overall_ix : WindowInstance IV → ℕ → ℕ
  overall_ix w ts =
      fl.to_unsigned (fl.floor (quickfix_duration_div fl (ts - w.start_time) w.time_per_bucket))

  unfoldable pub get_current_bucket : WindowInstance IV → ℕ → Outcome BIx
  get_current_bucket w ts = do
    assert (leb w.start_time ts)
    ok (record {
      period = overall_ix w ts / length w.buckets;
      ix = overall_ix w ts % length w.buckets;
    })

  -- `invalidate_n` on the buckets
  unfoldable pub invalidate_n : ℕ → ℕ → List IV → Outcome (List IV)
  invalidate_n zero ts buckets = ok buckets
  invalidate_n (suc n) ts buckets = do
    fresh ← iv.default ts
    invalidate_n n ts (fresh ∷ drop_last buckets)

  unfoldable pub update_buckets : WindowInstance IV → ℕ → Outcome (WindowInstance IV)
  update_buckets w ts = do
    curr ← get_current_bucket w ts
    diff ← buckets_since curr w.last_bucket_ix (length w.buckets)
    buckets ← invalidate_n diff ts w.buckets
    ok (record w { buckets = buckets; last_bucket_ix = curr })

  unfoldable pub accept_value : WindowInstance IV → Value F → ℕ → Outcome (WindowInstance IV)
  accept_value w v ts = do
    w' ← update_buckets w ts
    b ← expect (get_elem? w'.buckets 0)
    item ← iv.from_value v ts
    sum ← iv.add b item
    ok (record w' { buckets = set w'.buckets 0 sum })

  -- `buckets.iter().rev().fold(initial, …)`
  unfoldable pub fold_rev : IV → List IV → Outcome IV
  fold_rev initial [] = ok initial
  fold_rev initial (b ∷ bs) = do acc ← fold_rev initial bs; iv.add acc b

  unfoldable pub get_value : WindowInstance IV → ℕ → Outcome (Value F)
  get_value w ts =
      if w.wait && ltb ts w.wait_duration
      then ok Value.none
      else do initial ← iv.default ts; total ← fold_rev initial w.buckets; iv.into_value total
