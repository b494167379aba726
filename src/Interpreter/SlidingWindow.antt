-- ===== src/Interpreter/SlidingWindow.antt =====
-- interpreter/src/storage/window.rs, `enum SlidingWindow`: a window of any aggregation.
pub mod Refusals
use rtlola.Common.{ℕ, Bool, Outcome, ok, panic, ◌>>=◌}
use rtlola.Ir.{Ty, WindowOperation}
use rtlola.Interpreter.Floats.{FloatOps}
use rtlola.Interpreter.Value.{Value}
use rtlola.Interpreter.Window
use rtlola.Interpreter.Window.{WindowInstance, WindowIv}
use rtlola.Interpreter.Aggregation.{
  Generic, window_signed, window_bool, window_unsigned, window_float, sum_iv, count_iv, conj_iv,
  disj_iv, avg_iv, AvgIv, max_iv, min_iv, integral_iv, IntegralIv,
}

-- The payload of `MinIV<G>`, `MaxIV<G>` and `SumIV<G>` is a value, whatever the marker `G` is.
pub data SlidingWindow (F : Type 0) : Type 0 where
  count : WindowInstance ℕ → SlidingWindow F
  min_unsigned min_signed min_float : WindowInstance (Value F) → SlidingWindow F
  max_unsigned max_signed max_float : WindowInstance (Value F) → SlidingWindow F
  sum_unsigned sum_signed sum_float sum_bool : WindowInstance (Value F) → SlidingWindow F
  avg_unsigned avg_signed avg_float : WindowInstance (AvgIv F) → SlidingWindow F
  integral : WindowInstance (IntegralIv F) → SlidingWindow F
  conjunction : WindowInstance Bool → SlidingWindow F
  disjunction : WindowInstance Bool → SlidingWindow F

module _ {F : Type 0} (fl : FloatOps F) (debug : Bool) where
  abbrev wrap :
      {IV : Type 0}
      → WindowIv (Value F) IV
      → (WindowInstance IV → SlidingWindow F)
      → ℕ
      → Bool
      → ℕ
      → Outcome (SlidingWindow F)
  wrap iv c dur wait ts = do w ← Window.new fl iv dur wait ts; ok (c w)

  unfoldable pub new : ℕ → Bool → WindowOperation → ℕ → Ty → Outcome (SlidingWindow F)
  new dur wait WindowOperation.count ts ty =
      wrap (count_iv fl debug) SlidingWindow.count dur wait ts
  new dur wait WindowOperation.integral ts ty =
      wrap (integral_iv fl debug) SlidingWindow.integral dur wait ts
  new dur wait WindowOperation.min ts (Ty.uint _) =
      wrap (min_iv fl debug) SlidingWindow.min_unsigned dur wait ts
  new dur wait WindowOperation.min ts (Ty.int _) =
      wrap (min_iv fl debug) SlidingWindow.min_signed dur wait ts
  new dur wait WindowOperation.min ts (Ty.float _) =
      wrap (min_iv fl debug) SlidingWindow.min_float dur wait ts
  new dur wait WindowOperation.max ts (Ty.uint _) =
      wrap (max_iv fl debug) SlidingWindow.max_unsigned dur wait ts
  new dur wait WindowOperation.max ts (Ty.int _) =
      wrap (max_iv fl debug) SlidingWindow.max_signed dur wait ts
  new dur wait WindowOperation.max ts (Ty.float _) =
      wrap (max_iv fl debug) SlidingWindow.max_float dur wait ts
  new dur wait WindowOperation.sum ts (Ty.uint _) =
      wrap (sum_iv fl debug window_unsigned) SlidingWindow.sum_unsigned dur wait ts
  new dur wait WindowOperation.sum ts (Ty.int _) =
      wrap (sum_iv fl debug window_signed) SlidingWindow.sum_signed dur wait ts
  new dur wait WindowOperation.sum ts (Ty.float _) =
      wrap (sum_iv fl debug window_float) SlidingWindow.sum_float dur wait ts
  new dur wait WindowOperation.sum ts Ty.bool =
      wrap (sum_iv fl debug window_bool) SlidingWindow.sum_bool dur wait ts
  new dur wait WindowOperation.average ts (Ty.uint _) =
      wrap (avg_iv fl debug window_unsigned) SlidingWindow.avg_unsigned dur wait ts
  new dur wait WindowOperation.average ts (Ty.int _) =
      wrap (avg_iv fl debug window_signed) SlidingWindow.avg_signed dur wait ts
  new dur wait WindowOperation.average ts (Ty.float _) =
      wrap (avg_iv fl debug window_float) SlidingWindow.avg_float dur wait ts
  new dur wait WindowOperation.conjunction ts Ty.bool =
      wrap (conj_iv fl debug) SlidingWindow.conjunction dur wait ts
  new dur wait WindowOperation.disjunction ts Ty.bool =
      wrap (disj_iv fl debug) SlidingWindow.disjunction dur wait ts
  new dur wait op ts (Ty.option t) = new dur wait op ts t
  new dur wait _ ts _ = panic

  unfoldable pub update : SlidingWindow F → ℕ → Outcome (SlidingWindow F)
  update (SlidingWindow.count w) ts = do
    w' ← Window.update_buckets fl (count_iv fl debug) w ts
    ok (SlidingWindow.count w')
  update (SlidingWindow.min_unsigned w) ts = do
    w' ← Window.update_buckets fl (min_iv fl debug) w ts
    ok (SlidingWindow.min_unsigned w')
  update (SlidingWindow.min_signed w) ts = do
    w' ← Window.update_buckets fl (min_iv fl debug) w ts
    ok (SlidingWindow.min_signed w')
  update (SlidingWindow.min_float w) ts = do
    w' ← Window.update_buckets fl (min_iv fl debug) w ts
    ok (SlidingWindow.min_float w')
  update (SlidingWindow.max_unsigned w) ts = do
    w' ← Window.update_buckets fl (max_iv fl debug) w ts
    ok (SlidingWindow.max_unsigned w')
  update (SlidingWindow.max_signed w) ts = do
    w' ← Window.update_buckets fl (max_iv fl debug) w ts
    ok (SlidingWindow.max_signed w')
  update (SlidingWindow.max_float w) ts = do
    w' ← Window.update_buckets fl (max_iv fl debug) w ts
    ok (SlidingWindow.max_float w')
  update (SlidingWindow.sum_unsigned w) ts = do
    w' ← Window.update_buckets fl (sum_iv fl debug window_unsigned) w ts
    ok (SlidingWindow.sum_unsigned w')
  update (SlidingWindow.sum_signed w) ts = do
    w' ← Window.update_buckets fl (sum_iv fl debug window_signed) w ts
    ok (SlidingWindow.sum_signed w')
  update (SlidingWindow.sum_float w) ts = do
    w' ← Window.update_buckets fl (sum_iv fl debug window_float) w ts
    ok (SlidingWindow.sum_float w')
  update (SlidingWindow.sum_bool w) ts = do
    w' ← Window.update_buckets fl (sum_iv fl debug window_bool) w ts
    ok (SlidingWindow.sum_bool w')
  update (SlidingWindow.avg_unsigned w) ts = do
    w' ← Window.update_buckets fl (avg_iv fl debug window_unsigned) w ts
    ok (SlidingWindow.avg_unsigned w')
  update (SlidingWindow.avg_signed w) ts = do
    w' ← Window.update_buckets fl (avg_iv fl debug window_signed) w ts
    ok (SlidingWindow.avg_signed w')
  update (SlidingWindow.avg_float w) ts = do
    w' ← Window.update_buckets fl (avg_iv fl debug window_float) w ts
    ok (SlidingWindow.avg_float w')
  update (SlidingWindow.integral w) ts = do
    w' ← Window.update_buckets fl (integral_iv fl debug) w ts
    ok (SlidingWindow.integral w')
  update (SlidingWindow.conjunction w) ts = do
    w' ← Window.update_buckets fl (conj_iv fl debug) w ts
    ok (SlidingWindow.conjunction w')
  update (SlidingWindow.disjunction w) ts = do
    w' ← Window.update_buckets fl (disj_iv fl debug) w ts
    ok (SlidingWindow.disjunction w')

  unfoldable pub get_value : SlidingWindow F → ℕ → Outcome (Value F)
  get_value (SlidingWindow.count w) ts = Window.get_value fl (count_iv fl debug) w ts
  get_value (SlidingWindow.min_unsigned w) ts = Window.get_value fl (min_iv fl debug) w ts
  get_value (SlidingWindow.min_signed w) ts = Window.get_value fl (min_iv fl debug) w ts
  get_value (SlidingWindow.min_float w) ts = Window.get_value fl (min_iv fl debug) w ts
  get_value (SlidingWindow.max_unsigned w) ts = Window.get_value fl (max_iv fl debug) w ts
  get_value (SlidingWindow.max_signed w) ts = Window.get_value fl (max_iv fl debug) w ts
  get_value (SlidingWindow.max_float w) ts = Window.get_value fl (max_iv fl debug) w ts
  get_value (SlidingWindow.sum_unsigned w) ts =
      Window.get_value fl (sum_iv fl debug window_unsigned) w ts
  get_value (SlidingWindow.sum_signed w) ts =
      Window.get_value fl (sum_iv fl debug window_signed) w ts
  get_value (SlidingWindow.sum_float w) ts = Window.get_value fl (sum_iv fl debug window_float) w ts
  get_value (SlidingWindow.sum_bool w) ts = Window.get_value fl (sum_iv fl debug window_bool) w ts
  get_value (SlidingWindow.avg_unsigned w) ts =
      Window.get_value fl (avg_iv fl debug window_unsigned) w ts
  get_value (SlidingWindow.avg_signed w) ts =
      Window.get_value fl (avg_iv fl debug window_signed) w ts
  get_value (SlidingWindow.avg_float w) ts = Window.get_value fl (avg_iv fl debug window_float) w ts
  get_value (SlidingWindow.integral w) ts = Window.get_value fl (integral_iv fl debug) w ts
  get_value (SlidingWindow.conjunction w) ts = Window.get_value fl (conj_iv fl debug) w ts
  get_value (SlidingWindow.disjunction w) ts = Window.get_value fl (disj_iv fl debug) w ts

  unfoldable pub accept_value : SlidingWindow F → Value F → ℕ → Outcome (SlidingWindow F)
  accept_value (SlidingWindow.count w) v ts = do
    w' ← Window.accept_value fl (count_iv fl debug) w v ts
    ok (SlidingWindow.count w')
  accept_value (SlidingWindow.min_unsigned w) v ts = do
    w' ← Window.accept_value fl (min_iv fl debug) w v ts
    ok (SlidingWindow.min_unsigned w')
  accept_value (SlidingWindow.min_signed w) v ts = do
    w' ← Window.accept_value fl (min_iv fl debug) w v ts
    ok (SlidingWindow.min_signed w')
  accept_value (SlidingWindow.min_float w) v ts = do
    w' ← Window.accept_value fl (min_iv fl debug) w v ts
    ok (SlidingWindow.min_float w')
  accept_value (SlidingWindow.max_unsigned w) v ts = do
    w' ← Window.accept_value fl (max_iv fl debug) w v ts
    ok (SlidingWindow.max_unsigned w')
  accept_value (SlidingWindow.max_signed w) v ts = do
    w' ← Window.accept_value fl (max_iv fl debug) w v ts
    ok (SlidingWindow.max_signed w')
  accept_value (SlidingWindow.max_float w) v ts = do
    w' ← Window.accept_value fl (max_iv fl debug) w v ts
    ok (SlidingWindow.max_float w')
  accept_value (SlidingWindow.sum_unsigned w) v ts = do
    w' ← Window.accept_value fl (sum_iv fl debug window_unsigned) w v ts
    ok (SlidingWindow.sum_unsigned w')
  accept_value (SlidingWindow.sum_signed w) v ts = do
    w' ← Window.accept_value fl (sum_iv fl debug window_signed) w v ts
    ok (SlidingWindow.sum_signed w')
  accept_value (SlidingWindow.sum_float w) v ts = do
    w' ← Window.accept_value fl (sum_iv fl debug window_float) w v ts
    ok (SlidingWindow.sum_float w')
  accept_value (SlidingWindow.sum_bool w) v ts = do
    w' ← Window.accept_value fl (sum_iv fl debug window_bool) w v ts
    ok (SlidingWindow.sum_bool w')
  accept_value (SlidingWindow.avg_unsigned w) v ts = do
    w' ← Window.accept_value fl (avg_iv fl debug window_unsigned) w v ts
    ok (SlidingWindow.avg_unsigned w')
  accept_value (SlidingWindow.avg_signed w) v ts = do
    w' ← Window.accept_value fl (avg_iv fl debug window_signed) w v ts
    ok (SlidingWindow.avg_signed w')
  accept_value (SlidingWindow.avg_float w) v ts = do
    w' ← Window.accept_value fl (avg_iv fl debug window_float) w v ts
    ok (SlidingWindow.avg_float w')
  accept_value (SlidingWindow.integral w) v ts = do
    w' ← Window.accept_value fl (integral_iv fl debug) w v ts
    ok (SlidingWindow.integral w')
  accept_value (SlidingWindow.conjunction w) v ts = do
    w' ← Window.accept_value fl (conj_iv fl debug) w v ts
    ok (SlidingWindow.conjunction w')
  accept_value (SlidingWindow.disjunction w) v ts = do
    w' ← Window.accept_value fl (disj_iv fl debug) w v ts
    ok (SlidingWindow.disjunction w')
