-- ===== src/Interpreter/Window/Spec.antt =====
-- What a sliding window promises: it shows the sum of the values that were accepted in the current
-- bucket and the `size - 1` buckets before it, oldest first, in a monoid that the aggregation
-- represents.
use rtlola.Common.{ℕ, ◌+◌, ◌≤◌, ◌≡◌, leb, ltb, if◌then◌else◌, Bool, true, ◌&&◌, List, [], ◌∷◌, ok}
use rtlola.Interpreter.Window.{WindowIv, size}

-- The monoid `M` behind an aggregation, and the values that it takes.
pub record Aggregates {V IV : Type 0} (iv : WindowIv V IV) (M : Type 0) : Type 0 where
  pub empty : M
  pub plus : M → M → M
  pub item : V → M
  pub accepts : V → Bool
  pub represent : M → IV
  pub plus_assoc : (a b c : M) → plus (plus a b) c ≡ plus a (plus b c)
  pub plus-empty : (a : M) → plus a empty ≡ a
  pub default-represent : (ts : ℕ) → iv.default ts ≡ ok (represent empty)
  pub add-represent : (a b : M) → iv.add (represent a) (represent b) ≡ ok (represent (plus a b))
  pub from_value-represent :
      (v : V) (ts : ℕ) → accepts v ≡ true → iv.from_value v ts ≡ ok (represent (item v))

-- What the evaluator does to a window, with the time of it.
pub data Op (V : Type 0) : Type 0 where
  accept : V → ℕ → Op V
  update : ℕ → Op V

module _ {V : Type 0} where
  abbrev pub time_of : Op V → ℕ
  time_of (accept v ts) = ts
  time_of (update ts) = ts

  -- Times never go back, from `now` on.
  abbrev pub IsMonotone : ℕ → List (Op V) → Type 0
  IsMonotone now [] = Unit
  IsMonotone now (op ∷ ops) = (now ≤ time_of op) × IsMonotone (time_of op) ops

  abbrev pub end_time : ℕ → List (Op V) → ℕ
  end_time now [] = now
  end_time now (op ∷ ops) = end_time (time_of op) ops

  abbrev pub AllAccepted : (V → Bool) → List (Op V) → Type 0
  AllAccepted accepts [] = Unit
  AllAccepted accepts (accept v ts ∷ ops) = (accepts v ≡ true) × AllAccepted accepts ops
  AllAccepted accepts (update ts ∷ ops) = AllAccepted accepts ops

module _ {V IV M : Type 0} {iv : WindowIv V IV} (g : Aggregates iv M) where
  -- The accepted items, newest first, each with the number of its bucket.
  abbrev pub Log : Type 0
  Log = List (ℕ × M)

  abbrev pub log_after : (ℕ → ℕ) → Log → List (Op V) → Log
  log_after bucket_of log [] = log
  log_after bucket_of log (accept v ts ∷ ops) =
      log_after bucket_of ((bucket_of ts, g.item v) ∷ log) ops
  log_after bucket_of log (update ts ∷ ops) = log_after bucket_of log ops

  -- The sum of the items in the `n` buckets that end `i` buckets before `current`.
  abbrev pub sum_between : ℕ → ℕ → ℕ → Log → M
  sum_between current i n [] = g.empty
  sum_between current i n ((s, m) ∷ log) =
      if leb (s + i) current && ltb current (s + i + n)
      then g.plus (sum_between current i n log) m
      else sum_between current i n log

  abbrev pub in_window : ℕ → Log → M
  in_window current log = sum_between current 0 size log
