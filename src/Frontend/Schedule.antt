-- ===== src/Frontend/Schedule.antt =====
-- frontend/src/ir/schedule.rs: when the periodic streams are due. Periods are rational numbers of
-- nanoseconds, as numerator and denominator.
pub mod Periodicity
pub mod Deadlines
pub mod Sorting
use rtlola.Common.{
  ℕ, zero, suc, ◌+◌, ◌-◌, ◌*◌, ◌/◌, ◌==◌, leb, Bool, true, false, if◌then◌else◌, Option, none, some,
  List, [], ◌∷◌, ◌++◌, map, length, get_elem?, set, replicate, Outcome, ok, panic, ◌>>=◌, ◌>>◌,
  assert, expect, not,
}
use rtlola.Ir.{out_ix}
use rtlola.Ir.Program.{RtLolaIr, TimeDrivenStream}

pub record Deadline : Type 0 where
  pub pause : ℕ
  pub due : List ℕ

pub record Schedule : Type 0 where
  pub hyper_period : ℕ
  pub deadlines : List Deadline

-- The crate num: `gcd` and `lcm` of integers, and `Rational64::new`, which reduces a fraction.
pub record Integers : Type 0 where
  pub gcd : ℕ → ℕ → ℕ
  pub lcm : ℕ → ℕ → ℕ
  pub ratio : ℕ → ℕ → ℕ × ℕ

abbrev pub is_nil {ℓ} : {A : Type ℓ} → List A → Bool
is_nil [] = true
is_nil (x ∷ xs) = false

-- `iter().fold(…)`
abbrev pub fold {ℓ} : {A : Type ℓ} → (A → A → A) → A → List A → A
fold f a [] = a
fold f a (x ∷ xs) = fold f (f a x) xs

module _ (num : Integers) where
  unfoldable pub rational_gcd : ℕ × ℕ → ℕ × ℕ → ℕ × ℕ
  rational_gcd (n, d) (n', d') = num.ratio (num.gcd n n') (num.lcm d d')

  unfoldable pub rational_lcm : ℕ × ℕ → ℕ × ℕ → ℕ × ℕ
  rational_lcm (n, d) (n', d') = num.ratio (num.lcm n n') (num.gcd d d')

  unfoldable pub find_extend_period : List (ℕ × ℕ) → Outcome (ℕ × ℕ)
  find_extend_period [] = panic
  find_extend_period (r ∷ rates) = ok (fold rational_gcd r (r ∷ rates))

  -- a multiple of one nanosecond
  unfoldable pub find_hyper_period : List (ℕ × ℕ) → Outcome (ℕ × ℕ)
  find_hyper_period [] = panic
  find_hyper_period (r ∷ rates) = ok (rational_lcm (fold rational_lcm r (r ∷ rates)) (1, 1))

  -- `a / b`, which has to be an integer
  unfoldable pub quotient : ℕ × ℕ → ℕ × ℕ → Outcome ℕ
  quotient (n, d) (n', d') = let (q, r) = num.ratio (n * d') (d * n') in do assert (r == 1); ok q

  -- Streams enter the step in which they are due for the first time.
  unfoldable pub place_streams :
      ℕ × ℕ → List TimeDrivenStream → List (List ℕ) → Outcome (List (List ℕ))
  place_streams gcd [] steps = ok steps
  place_streams gcd (s ∷ streams) steps = do
    ix ← quotient s.period gcd
    assert (leb 1 ix)
    reference ← out_ix s.reference
    step ← expect (get_elem? steps (ix - 1))
    place_streams gcd streams (set steps (ix - 1) (step ++ (reference ∷ [])))

  -- `none` is the error for frequencies that are too incompatible.
  unfoldable pub build_extend_steps :
      {F : Type 0} → RtLolaIr F → ℕ × ℕ → ℕ × ℕ → Outcome (Option (List (List ℕ)))
  build_extend_steps ir gcd hyper_period = do
    num_steps ← quotient hyper_period gcd
    if leb 10_000_000 num_steps
        then ok none
        else do steps ← place_streams gcd ir.time_driven (replicate num_steps []); ok (some steps)

-- The inner loop: the cells `k * (ix + 1) - 1`, `(k + 1) * (ix + 1) - 1`, … get the streams, as far as
-- there are cells. The first argument is fuel.
unfoldable pub extend_while : ℕ → ℕ → ℕ → List ℕ → List (List ℕ) → List (List ℕ)
extend_while zero k ix streams res = res
extend_while (suc fuel) k ix streams res = elim (get_elem? res (k * suc ix - 1)) [
  | none ↦ res
  | some target ↦
      extend_while fuel (suc k) ix streams (set res (k * suc ix - 1) (target ++ streams))
]

unfoldable pub apply_from : ℕ → List (List ℕ) → List (List ℕ) → List (List ℕ)
apply_from ix [] res = res
apply_from ix (streams ∷ steps) res =
    apply_from (suc ix) steps
      (if is_nil streams then res else extend_while (length res) 1 ix streams res)

abbrev pub no_streams : List ℕ → List ℕ
no_streams step = []

unfoldable pub apply_periodicity : List (List ℕ) → List (List ℕ)
apply_periodicity steps = apply_from 0 steps (map no_streams steps)

-- The loop of `condense_deadlines`, with the number of empty steps before this one. It ends with an
-- assertion that the last step was not empty.
unfoldable pub condense_from : ℕ × ℕ → ℕ → List (List ℕ) → Outcome (List Deadline)
condense_from gcd empty_counter [] = do assert (empty_counter == 0); ok []
condense_from gcd empty_counter ([] ∷ steps) = condense_from gcd (suc empty_counter) steps
condense_from (n, d) empty_counter ((s ∷ due) ∷ steps) = do
  deadlines ← condense_from (n, d) 0 steps
  ok (record { pause = n * suc empty_counter / d; due = s ∷ due } ∷ deadlines)

unfoldable pub condense_deadlines : ℕ × ℕ → List (List ℕ) → Outcome (List Deadline)
condense_deadlines gcd steps = condense_from gcd 0 steps

-- `sort_by_key`, which is stable, on streams with their layers as keys
unfoldable pub insert_by_layer : ℕ × ℕ → List (ℕ × ℕ) → List (ℕ × ℕ)
insert_by_layer s [] = s ∷ []
insert_by_layer s (t ∷ rest) =
    let inserted = insert_by_layer s rest in if leb (s.0) (t.0) then s ∷ t ∷ rest else t ∷ inserted

unfoldable pub sort_by_layer : List (ℕ × ℕ) → List (ℕ × ℕ)
sort_by_layer [] = []
sort_by_layer (s ∷ rest) = insert_by_layer s (sort_by_layer rest)

module _ {F : Type 0} (ir : RtLolaIr F) where
  -- the streams with their evaluation layers
  unfoldable pub keyed : List ℕ → Outcome (List (ℕ × ℕ))
  keyed [] = ok []
  keyed (s ∷ due) = do
    o ← expect (get_elem? ir.outputs s)
    rest ← keyed due
    ok ((o.layer, s) ∷ rest)

  unfoldable pub sort_deadlines : List Deadline → Outcome (List Deadline)
  sort_deadlines [] = ok []
  sort_deadlines (d ∷ deadlines) = do
    streams ← keyed d.due
    rest ← sort_deadlines deadlines
    ok (record d { due = map (λ (s : ℕ × ℕ). s.1) (sort_by_layer streams) } ∷ rest)

  abbrev pub periods : List TimeDrivenStream → List (ℕ × ℕ)
  periods streams = map (λ (s : TimeDrivenStream). s.period) streams

  -- the deadlines of the extend steps, if there are not too many
  abbrev pub deadlines_of : ℕ × ℕ → ℕ × ℕ → Option (List (List ℕ)) → Outcome (Option Schedule)
  deadlines_of gcd hyper_period none = ok none
  deadlines_of gcd (n, d) (some steps) = do
    condensed ← condense_deadlines gcd (apply_periodicity steps)
    deadlines ← sort_deadlines condensed
    ok (some (record { hyper_period = n / d; deadlines = deadlines }))

  -- `Schedule::from`
  unfoldable pub schedule_from : Integers → Outcome (Option Schedule)
  schedule_from num = do
    gcd ← find_extend_period num (periods ir.time_driven)
    hyper_period ← find_hyper_period num (periods ir.time_driven)
    steps ← build_extend_steps num ir gcd hyper_period
    deadlines_of gcd hyper_period steps
