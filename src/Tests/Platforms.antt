-- ===== src/Tests/Platforms.antt =====
-- A platform to run examples on: fixed-point numbers of nanos in place of floats, lists in place of
-- bit sets, and equality of texts in place of regular expressions.
use text.Mathlib.Text.{◌==◌ as str_eq}
use native.Mathlib.Nat.{le-div_iff_mul-le, div-mul-le_self, div-zero, le_refl, le_trans}
use rtlola.Common.{
  ℕ, zero, suc, ◌+◌, ◌-◌, ◌*◌, ◌/◌, ◌%◌, ◌≤◌, compare, Bool, true, false, ◌&&◌, ◌||◌, ◌==◌, ==_iff,
  List, [], ◌∷◌, ok, ◌≡◌, refl, ap, arith, and_parts, and_intro, Bool-cases, inl, inr, subst,
}
use rtlola.Common.Int.{pos, pos_part}
use rtlola.Interpreter.Floats.{FloatOps}
use rtlola.Interpreter.BitSet.{BitSets}
use rtlola.Interpreter.Window.Time.{RoundsMonotonely, billion}
use rtlola.Interpreter.Window.{seconds}
use rtlola.Interpreter.Expr.Context.{Platform, Regexes}

abbrev pub fixed : FloatOps ℕ
fixed = record {
  add = λ a b. ok (a + b);
  sub = λ a b. ok (a - b);
  mul = λ a b. ok (a * b / billion);
  div = λ a b. ok (a * billion / b);
  rem = λ a b. ok (a % b);
  neg = λ a. a;
  cmp = compare;
  equal = ◌==◌;
  not_nan = ok;
  raw_add = ◌+◌;
  raw_mul = λ a b. a * b / billion;
  raw_div = λ a b. a * billion / b;
  powf = λ a b. a;
  powi = λ a n. a;
  sqrt = λ a. a;
  sin = λ a. a;
  cos = λ a. a;
  atan = λ a. a;
  abs = λ a. a;
  floor = λ a. a / billion * billion;
  of_unsigned = λ n. n * billion;
  of_signed = λ z. pos_part z * billion;
  to_unsigned = λ a. a / billion;
  to_signed = λ a. pos (a / billion);
}

pub div_mono : (a b d : ℕ) → a ≤ b → a / d ≤ b / d
div_mono a b zero h = omega (arith, div-zero a, div-zero b)
div_mono a b (suc d) h =
    (le-div_iff_mul-le (omega arith)).1 (le_trans (div-mul-le_self a (suc d)) h)

pub fixed-RoundsMonotonely : RoundsMonotonely fixed
fixed-RoundsMonotonely = record {
  at_most = ◌≤◌;
  at_most_refl = le_refl;
  at_most_trans = λ a b c h k. le_trans h k;
  of_unsigned_mono = λ a b h. omega arith;
  raw_add_mono = λ a b c d h k l m. omega arith;
  raw_add-one = λ n. omega arith;
  raw_add-zero = λ n a h. omega arith;
  fraction_mono = λ a b h. omega arith;
  fraction_bounds = λ a h. (omega arith, omega arith);
  raw_div_mono = λ a b t h k. div_mono (a * billion) (b * billion) (seconds fixed t) (omega arith);
  floor_mono = λ a b h. omega arith;
}

abbrev pub member : List ℕ → ℕ → Bool
member [] j = false
member (i ∷ s) j = i == j || member s j

abbrev pub subset : List ℕ → List ℕ → Bool
subset [] t = true
subset (i ∷ s) t = member t i && subset s t

pub subset-member :
    (s t : List ℕ) → subset s t ≡ true → (j : ℕ) → member s j ≡ true → member t j ≡ true
subset-member [] t h j k = cc
subset-member (i ∷ s) t h j k =
    let (first, rest) = and_parts (member t i) (subset s t) h in
    elim (Bool-cases (i == j)) [
      | inl same ↦ subst (λ n. member t n ≡ true) ((==_iff i j).0 same) first
      | inr other ↦ subset-member s t rest j (subst (λ b. (b || member s j) ≡ true) other k)
    ]

pub member-subset :
    (s t : List ℕ) → ((j : ℕ) → member s j ≡ true → member t j ≡ true) → subset s t ≡ true
member-subset [] t h = refl
member-subset (i ∷ s) t h =
    and_intro (member t i) (subset s t) (h i (ap (λ b. b || member s i) ((==_iff i i).1 refl)))
      (member-subset s t λ j k. h j (later (i == j) (member s j) k))
  where
    later : (a b : Bool) → b ≡ true → (a || b) ≡ true
    later true b k = refl
    later false b k = k

abbrev pub lists : BitSets
lists = record {
  BitSet = List ℕ;
  empty = [];
  insert = ◌∷◌;
  contains = member;
  is_subset = subset;
  elements = λ s. s;
  contains-empty = λ j. refl;
  contains-insert = λ i j s. refl;
  is_subset_iff = λ a b. (subset-member a b, member-subset a b);
}

abbrev pub equality : Regexes
equality = record { is_valid = λ re. true; is_match = str_eq; is_match_bytes = λ re b. false }

abbrev pub platform : Platform ℕ
platform = record { floats = fixed; bit_sets = lists; regexes = equality; debug = true }
