-- ===== src/Interpreter/Window/Buckets.antt =====
-- The buckets that a window has to hold, and how ageing, accepting and folding act on them.
use rtlola.Common.{
  ℕ, zero, suc, ◌+◌, ◌≤◌, ◌<◌, ◌≡◌, refl, sym, ap, ap₂, ◌∙◌, List, [], ◌∷◌, length, set, drop_last,
  replicate, ok, ◌>>=◌, arith,
}
use rtlola.Interpreter.Floats.{FloatOps}
use rtlola.Interpreter.Value.{Value}
use rtlola.Interpreter.Window.{WindowIv, invalidate_n, fold_rev}
use rtlola.Interpreter.Window.Spec.{Aggregates, Log, sum_between}

module _ {F : Type 0} (fl : FloatOps F) {IV M : Type 0} {iv : WindowIv (Value F) IV}
    (g : Aggregates iv M) where
  open g use {empty, plus, represent}

  -- No item lies in a bucket after bucket `b`.
  abbrev pub IsBelow : ℕ → Log g → Type 0
  IsBelow b [] = Unit
  IsBelow b ((s, m) ∷ log) = (s ≤ b) × IsBelow b log

  -- The newest items come first.
  abbrev pub IsSorted : Log g → Type 0
  IsSorted [] = Unit
  IsSorted ((s, m) ∷ log) = IsBelow s log × IsSorted log

  pub IsBelow-mono : (a b : ℕ) (log : Log g) → a ≤ b → IsBelow a log → IsBelow b log
  IsBelow-mono a b [] h k = tt
  IsBelow-mono a b ((s, m) ∷ log) h k = (omega arith, IsBelow-mono a b log h k.1)

  -- `n` buckets from the one `i` before bucket `c` on, newest first
  abbrev pub buckets_of : ℕ → ℕ → ℕ → Log g → List IV
  buckets_of i zero c log = []
  buckets_of i (suc n) c log = represent (sum_between g c i 1 log) ∷ buckets_of (suc i) n c log

  pub length-buckets_of : (i n c : ℕ) (log : Log g) → length (buckets_of i n c log) ≡ n
  length-buckets_of i zero c log = refl
  length-buckets_of i (suc n) c log = ap suc (length-buckets_of (suc i) n c log)

  sum_between-suc :
      (c i n : ℕ) (log : Log g) → sum_between g (suc c) (suc i) n log ≡ sum_between g c i n log
  sum_between-suc c i n [] = refl
  sum_between-suc c i n ((s, m) ∷ log) = ground (arith, sum_between-suc c i n log)

  sum_between-zero : (c i : ℕ) (log : Log g) → sum_between g c i 0 log ≡ empty
  sum_between-zero c i [] = refl
  sum_between-zero c i ((s, m) ∷ log) = ground (arith, sum_between-zero c i log)

  -- A bucket after all the items is empty.
  sum_between_above :
      (b c i : ℕ) (log : Log g) → IsBelow b log → b + i < c → sum_between g c i 1 log ≡ empty
  sum_between_above b c i [] h k = refl
  sum_between_above b c i ((s, m) ∷ log) h k = ground (arith, sum_between_above b c i log h.1 k)

  buckets_of-suc :
      (i n c : ℕ) (log : Log g) → buckets_of (suc i) n (suc c) log ≡ buckets_of i n c log
  buckets_of-suc i zero c log = refl
  buckets_of-suc i (suc n) c log =
      ap₂ (λ m bs. represent m ∷ bs) (sum_between-suc c i 1 log) (buckets_of-suc (suc i) n c log)

  drop_last-buckets_of :
      (i n c : ℕ) (log : Log g) → drop_last (buckets_of i (suc n) c log) ≡ buckets_of i n c log
  drop_last-buckets_of i zero c log = refl
  drop_last-buckets_of i (suc n) c log =
      ap (λ bs. represent (sum_between g c i 1 log) ∷ bs) (drop_last-buckets_of (suc i) n c log)

  pub replicate-buckets_of : (i n c : ℕ) → replicate n (represent empty) ≡ buckets_of i n c []
  replicate-buckets_of i zero c = refl
  replicate-buckets_of i (suc n) c =
      ap (λ bs. represent empty ∷ bs) (replicate-buckets_of (suc i) n c)

  -- One step of ageing moves the current bucket on by one.
  age-buckets_of :
      (n c : ℕ) (log : Log g)
      → IsBelow c log
      → represent empty ∷ drop_last (buckets_of 0 (suc n) c log) ≡ buckets_of 0 (suc n) (suc c) log
  age-buckets_of n c log h =
      ap₂ (λ m bs. represent m ∷ bs) (sym (sum_between_above c (suc c) 0 log h (omega arith)))
        (drop_last-buckets_of 0 n c log ∙ sym (buckets_of-suc 0 n c log))

  pub invalidate_n-buckets_of :
      (d ts n c : ℕ) (log : Log g)
      → IsBelow c log
      → invalidate_n fl iv d ts (buckets_of 0 (suc n) c log) ≡ ok (buckets_of 0 (suc n) (c + d) log)
  unfolding invalidate_n
  invalidate_n-buckets_of zero ts n c log h =
      ap (λ k. ok (buckets_of 0 (suc n) k log)) (omega arith)
  invalidate_n-buckets_of (suc d) ts n c log h =
      ap
        (λ o.
          o >>= λ fresh. invalidate_n fl iv d ts (fresh ∷ drop_last (buckets_of 0 (suc n) c log)))
        (g.default-represent ts)
      ∙ ap (invalidate_n fl iv d ts) (age-buckets_of n c log h)
      ∙ invalidate_n-buckets_of d ts n (suc c) log (IsBelow-mono c (suc c) log (omega arith) h)
      ∙ ap (λ k. ok (buckets_of 0 (suc n) k log)) (omega arith)

  -- An item of the current bucket changes the buckets before it in nothing.
  buckets_of_older :
      (i n c : ℕ) (m : M) (log : Log g)
      → buckets_of (suc i) n c ((c, m) ∷ log) ≡ buckets_of (suc i) n c log
  buckets_of_older i zero c m log = refl
  buckets_of_older i (suc n) c m log =
      ap₂ (λ x bs. represent x ∷ bs) (ground arith) (buckets_of_older (suc i) n c m log)

  pub set-buckets_of :
      (n c : ℕ) (m : M) (log : Log g)
      → set (buckets_of 0 (suc n) c log) 0 (represent (plus (sum_between g c 0 1 log) m))
        ≡ buckets_of 0 (suc n) c ((c, m) ∷ log)
  set-buckets_of n c m log =
      ap₂ (λ x bs. represent x ∷ bs) (ground arith) (sym (buckets_of_older 0 n c m log))

  -- The newest of `suc n` buckets is added last.
  sum_between_split :
      (c i n : ℕ) (log : Log g)
      → IsSorted log
      → sum_between g c i (suc n) log
        ≡ plus (sum_between g c (suc i) n log) (sum_between g c i 1 log)
  sum_between_split c i n [] h = sym (g.plus-empty empty)
  sum_between_split c i n ((s, m) ∷ log) h = ground (
    arith,
    sum_between_split c i n log h.1,
    sum_between_above s c i log h.0,
    g.plus_assoc (sum_between g c (suc i) n log) (sum_between g c i 1 log) m,
    g.plus-empty (sum_between g c (suc i) n log),
    g.plus-empty (plus (sum_between g c (suc i) n log) m),
  )

  pub fold_rev-buckets_of :
      (i n c : ℕ) (log : Log g)
      → IsSorted log
      → fold_rev fl iv (represent empty) (buckets_of i n c log)
        ≡ ok (represent (sum_between g c i n log))
  unfolding fold_rev
  fold_rev-buckets_of i zero c log h = ap (λ m. ok (represent m)) (sym (sum_between-zero c i log))
  fold_rev-buckets_of i (suc n) c log h =
      ap (λ o. o >>= λ acc. iv.add acc (represent (sum_between g c i 1 log)))
        (fold_rev-buckets_of (suc i) n c log h)
      ∙ g.add-represent (sum_between g c (suc i) n log) (sum_between g c i 1 log)
      ∙ ap (λ m. ok (represent m)) (sym (sum_between_split c i n log h))
