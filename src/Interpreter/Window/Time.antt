-- ===== src/Interpreter/Window/Time.antt =====
-- The bucket of a time, which interpreter/src/storage/window.rs computes with floats, grows with
-- the time if the float operations round monotonely.
use rtlola.Common.{ℕ, ◌+◌, ◌-◌, ◌/◌, ◌%◌, ◌≤◌, ◌<◌, ◌≡◌, subst, sym, arith}
use native.Mathlib.Decide.{dec_lt}
use rtlola.Interpreter.Floats.{FloatOps}
use rtlola.Interpreter.Window.{seconds, quickfix_duration_div}

abbrev pub billion : ℕ
billion = 1_000_000_000

-- IEEE 754 arithmetic on non-negative numbers is monotone. `at_most` is the order of the floats.
pub record RoundsMonotonely {F : Type 0} (fl : FloatOps F) : Type 1 where
  pub at_most : F → F → Type 0
  pub at_most_refl : (a : F) → at_most a a
  pub at_most_trans : (a b c : F) → at_most a b → at_most b c → at_most a c
  pub of_unsigned_mono : (a b : ℕ) → a ≤ b → at_most (fl.of_unsigned a) (fl.of_unsigned b)
  pub raw_add_mono :
      (a b c d : F)
      → at_most (fl.of_unsigned 0) a
      → at_most (fl.of_unsigned 0) c
      → at_most a b
      → at_most c d
      → at_most (fl.raw_add a c) (fl.raw_add b d)
  -- the next full second is not below the last one plus 1
  pub raw_add-one :
      (n : ℕ) → at_most (fl.raw_add (fl.of_unsigned n) (fl.of_unsigned 1)) (fl.of_unsigned (n + 1))
  pub raw_add-zero :
      (n : ℕ) (a : F)
      → at_most (fl.of_unsigned 0) a
      → at_most (fl.of_unsigned n) (fl.raw_add (fl.of_unsigned n) a)
  -- the fraction of a second
  pub fraction_mono :
      (a b : ℕ)
      → a ≤ b
      → at_most
          (fl.raw_div (fl.of_unsigned a) (fl.of_unsigned billion))
          (fl.raw_div (fl.of_unsigned b) (fl.of_unsigned billion))
  pub fraction_bounds :
      (a : ℕ)
      → a < billion
      → at_most (fl.of_unsigned 0) (fl.raw_div (fl.of_unsigned a) (fl.of_unsigned billion))
        × at_most (fl.raw_div (fl.of_unsigned a) (fl.of_unsigned billion)) (fl.of_unsigned 1)
  -- division by a positive duration
  pub raw_div_mono :
      (a b : F) (t : ℕ)
      → 0 < t
      → at_most a b
      → at_most (fl.raw_div a (seconds fl t)) (fl.raw_div b (seconds fl t))
  -- `x.floor() as usize`
  pub floor_mono :
      (a b : F) → at_most a b → fl.to_unsigned (fl.floor a) ≤ fl.to_unsigned (fl.floor b)

module _ {F : Type 0} {fl : FloatOps F} (r : RoundsMonotonely fl) where
  open r use {at_most, at_most_trans}

  abbrev fraction : ℕ → F
  fraction n = fl.raw_div (fl.of_unsigned n) (fl.of_unsigned billion)

  fraction_nonneg : (n : ℕ) → at_most (fl.of_unsigned 0) (fraction (n % billion))
  fraction_nonneg n = (r.fraction_bounds (n % billion) (omega arith)).0

  -- within one second
  seconds_same :
      (q a b : ℕ)
      → a ≤ b
      → a < billion
      → at_most
          (fl.raw_add (fl.of_unsigned q) (fraction a))
          (fl.raw_add (fl.of_unsigned q) (fraction b))
  seconds_same q a b h small =
      r.raw_add_mono (fl.of_unsigned q) (fl.of_unsigned q) (fraction a) (fraction b)
        (r.of_unsigned_mono 0 q (omega arith)) (r.fraction_bounds a small).0 (r.at_most_refl _)
        (r.fraction_mono a b h)

  -- into a later second
  seconds_later :
      (p q a b : ℕ)
      → p < q
      → a < billion
      → b < billion
      → at_most
          (fl.raw_add (fl.of_unsigned p) (fraction a))
          (fl.raw_add (fl.of_unsigned q) (fraction b))
  seconds_later p q a b h small_a small_b =
      at_most_trans _ _ _
        (r.raw_add_mono (fl.of_unsigned p) (fl.of_unsigned p) (fraction a) (fl.of_unsigned 1)
          (r.of_unsigned_mono 0 p (omega arith)) (r.fraction_bounds a small_a).0 (r.at_most_refl _)
          (r.fraction_bounds a small_a).1)
        (at_most_trans _ _ _ (r.raw_add-one p) (
          at_most_trans _ _ _ (r.of_unsigned_mono (p + 1) q (omega arith))
            (r.raw_add-zero q (fraction b) (r.fraction_bounds b small_b).0)))

  seconds_mono : (a b : ℕ) → a ≤ b → at_most (seconds fl a) (seconds fl b)
  unfolding seconds
  seconds_mono a b h = elim (dec_lt (a / billion) (b / billion)) [
    | yes later ↦
        seconds_later (a / billion) (b / billion) (a % billion) (b % billion) later (omega arith)
          (omega arith)
    | no same ↦
        let e : b / billion ≡ a / billion = omega arith in
        subst (λ q. at_most (seconds fl a) (fl.raw_add (fl.of_unsigned q) (fraction (b % billion))))
          (sym e)
          (seconds_same (a / billion) (a % billion) (b % billion) (omega arith) (omega arith))
  ]

  pub bucket_of_mono :
      (start width : ℕ)
      → 0 < width
      → (a b : ℕ) → a ≤ b
      → fl.to_unsigned (fl.floor (quickfix_duration_div fl (a - start) width))
        ≤ fl.to_unsigned (fl.floor (quickfix_duration_div fl (b - start) width))
  unfolding quickfix_duration_div
  bucket_of_mono start width h a b k =
      r.floor_mono _ _
        (r.raw_div_mono _ _ width h (seconds_mono (a - start) (b - start) (omega arith)))
