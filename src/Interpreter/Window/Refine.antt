-- ===== src/Interpreter/Window/Refine.antt =====
-- A sliding window shows the sum of the values accepted within its buckets.
use rtlola.Common.{
  ℕ, ◌-◌, ◌/◌, ◌%◌, ◌≤◌, ◌≡◌, refl, ap, ◌∙◌, ltb, le→leb, if◌then◌else◌, Bool, true, ◌&&◌, List, [],
  ◌∷◌, Outcome, ok, ◌>>=◌, ◌>>◌, assert, expect, get_elem?, set, replicate, arith,
}
use native.Mathlib.Nat.{div-add-mod', mod-lt, le_trans, le_refl}
use Prim.Native.Nat.{zero-le}
use rtlola.Interpreter.Floats.{FloatOps}
use rtlola.Interpreter.Value.{Value}
use rtlola.Interpreter.Window.{
  WindowIv, WindowInstance, BIx, size, new, overall_ix, quickfix_duration_div, get_current_bucket,
  buckets_since, invalidate_n, update_buckets, accept_value, get_value, fold_rev,
}
use rtlola.Interpreter.Window.Index.{buckets_since_lem}
use rtlola.Interpreter.Window.Spec.{
  Aggregates, Op, accept, update, time_of, IsMonotone, end_time, AllAccepted, Log, log_after,
  sum_between, in_window,
}
use rtlola.Interpreter.Window.Time.{RoundsMonotonely, bucket_of_mono}
use rtlola.Interpreter.Window.Buckets.{
  IsBelow, IsSorted, IsBelow-mono, buckets_of, invalidate_n-buckets_of, set-buckets_of,
  fold_rev-buckets_of,
}

start-le-end_time :
    {V : Type 0} (ops : List (Op V)) (now : ℕ) → IsMonotone now ops → now ≤ end_time now ops
start-le-end_time [] now m = le_refl now
start-le-end_time (op ∷ ops) now m = le_trans m.0 (start-le-end_time ops (time_of op) m.1)

abbrev index_of : ℕ → BIx
index_of c = record { period = c / size; ix = c % size }

-- Bucket numbers are quotient and remainder by the number of buckets.
buckets_since-index_of :
    (a b : ℕ) → b ≤ a → buckets_since (index_of a) (index_of b) size ≡ ok (a - b)
buckets_since-index_of a b h =
    buckets_since_lem (index_of a) (index_of b) size (mod-lt a (omega arith))
      (mod-lt b (omega arith))
    ∙ ground (arith, div-add-mod' a size, div-add-mod' b size)

module _ {F : Type 0} (fl : FloatOps F) {IV M : Type 0} {iv : WindowIv (Value F) IV}
    (g : Aggregates iv M) (dur : ℕ) (wait : Bool) (start : ℕ) where
  -- the number of the bucket of a time, by the program's float arithmetic
  abbrev pub bucket_of : ℕ → ℕ
  bucket_of ts = fl.to_unsigned (fl.floor (quickfix_duration_div fl (ts - start) (dur / size)))

  abbrev window_of : ℕ → Log g → WindowInstance IV
  window_of c log = record {
    buckets = buckets_of fl g 0 size c log;
    time_per_bucket = dur / size;
    start_time = start;
    last_bucket_ix = index_of c;
    wait = wait;
    wait_duration = dur;
  }

  new-window_of : new fl iv dur wait start ≡ ok (window_of 0 [])
  unfolding new
  new-window_of =
      ap (λ o. o >>= λ initial. ok (record (window_of 0 []) { buckets = replicate size initial }))
        (g.default-represent start)

  get_current_bucket-window_of :
      (c ts : ℕ) (log : Log g)
      → start ≤ ts
      → get_current_bucket fl iv (window_of c log) ts ≡ ok (index_of (bucket_of ts))
  unfolding get_current_bucket overall_ix
  get_current_bucket-window_of c ts log h =
      ap (λ b. assert b >> ok (index_of (bucket_of ts))) (le→leb start ts h)

  -- Time moves the buckets on, and keeps the items.
  update-window_of :
      (c ts : ℕ) (log : Log g)
      → start ≤ ts
      → c ≤ bucket_of ts
      → IsBelow fl g c log
      → update_buckets fl iv (window_of c log) ts ≡ ok (window_of (bucket_of ts) log)
  unfolding update_buckets
  update-window_of c ts log h k b =
      let w = window_of c log in
      let b' = bucket_of ts in
      let finish = λ (curr : BIx) (buckets : List IV).
        ok (record w { buckets = buckets; last_bucket_ix = curr }) in
      ap
        (λ o. o >>= λ curr. buckets_since curr (index_of c) size >>= λ diff.
          invalidate_n fl iv diff ts w.buckets >>= finish curr)
        (get_current_bucket-window_of c ts log h)
      ∙ ap (λ o. o >>= λ diff. invalidate_n fl iv diff ts w.buckets >>= finish (index_of b'))
          (buckets_since-index_of b' c k)
      ∙ ap (λ o. o >>= finish (index_of b')) (invalidate_n-buckets_of fl g (b' - c) ts 63 c log b)
      ∙ ap (λ n. finish (index_of b') (buckets_of fl g 0 size n log)) (omega arith)

  -- A value is added to the bucket of its time.
  accept-window_of :
      (c ts : ℕ) (v : Value F) (log : Log g)
      → start ≤ ts
      → c ≤ bucket_of ts
      → IsBelow fl g c log
      → g.accepts v ≡ true
      → accept_value fl iv (window_of c log) v ts
        ≡ ok (window_of (bucket_of ts) ((bucket_of ts, g.item v) ∷ log))
  unfolding accept_value
  accept-window_of c ts v log h k b good =
      let b' = bucket_of ts in
      let w' = window_of b' log in
      let old = g.represent (sum_between g b' 0 1 log) in
      let finish = λ (sum : IV). ok (record w' { buckets = set w'.buckets 0 sum }) in
      ap
        (λ o. o >>= λ w. expect (get_elem? w.buckets 0) >>= λ old. iv.from_value v ts >>= λ item.
          iv.add old item >>= λ sum. ok (record w { buckets = set w.buckets 0 sum }))
        (update-window_of c ts log h k b)
      ∙ ap (λ o. o >>= λ item. iv.add old item >>= finish) (g.from_value-represent v ts good)
      ∙ ap (λ o. o >>= finish) (g.add-represent (sum_between g b' 0 1 log) (g.item v))
      ∙ ap (λ bs. ok (record w' { buckets = bs })) (set-buckets_of fl g 63 b' (g.item v) log)

  run : WindowInstance IV → List (Op (Value F)) → Outcome (WindowInstance IV)
  run w [] = ok w
  run w (accept v ts ∷ ops) = do w' ← accept_value fl iv w v ts; run w' ops
  run w (update ts ∷ ops) = do w' ← update_buckets fl iv w ts; run w' ops

  -- What the client of a window does: it creates it, lets it take part in some steps, and reads it
  -- at a time to which it was brought.
  pub observe : List (Op (Value F)) → ℕ → Outcome (Value F)
  observe ops now = do
    w ← new fl iv dur wait start
    w' ← run w ops
    w'' ← update_buckets fl iv w' now
    get_value fl iv w'' now

  abbrev pub log_of : List (Op (Value F)) → Log g
  log_of = log_after g bucket_of []

  -- The state after a run: its last bucket, and that its items lie in order up to there.
  record Ran (c' now' : ℕ) (log' : Log g) (result : Outcome (WindowInstance IV)) : Type 0 where
    returns : result ≡ ok (window_of c' log')
    reached : c' ≤ bucket_of now'
    below : IsBelow fl g c' log'
    sorted : IsSorted fl g log'

  module _ (mono : (a b : ℕ) → a ≤ b → bucket_of a ≤ bucket_of b) where
    run-window_of :
        (ops : List (Op (Value F))) (c now : ℕ) (log : Log g)
        → start ≤ now
        → c ≤ bucket_of now
        → IsBelow fl g c log
        → IsSorted fl g log
        → IsMonotone now ops
        → AllAccepted g.accepts ops
        → (c' : ℕ) × Ran c'
            (end_time now ops)
            (log_after g bucket_of log ops)
            (run (window_of c log) ops)
    unfolding run
    run-window_of [] c now log h k b s m good =
        (c, record { returns = refl; reached = k; below = b; sorted = s })
    run-window_of (accept v ts ∷ ops) c now log h k b s m good =
        let k' : c ≤ bucket_of ts = le_trans k (mono now ts m.0) in
        let b' = IsBelow-mono fl g c (bucket_of ts) log k' b in
        let (c', r) =
          run-window_of ops (bucket_of ts) ts ((bucket_of ts, g.item v) ∷ log) (le_trans h m.0)
            (le_refl _) (le_refl _, b') (b', s) m.1 good.1 in
        (
          c',
          record {
            returns =
                ap (λ o. o >>= λ w. run w ops)
                  (accept-window_of c ts v log (le_trans h m.0) k' b good.0)
                ∙ r.returns;
            reached = r.reached;
            below = r.below;
            sorted = r.sorted;
          },
        )
    run-window_of (update ts ∷ ops) c now log h k b s m good =
        let k' : c ≤ bucket_of ts = le_trans k (mono now ts m.0) in
        let (c', r) =
          run-window_of ops (bucket_of ts) ts log (le_trans h m.0) (le_refl _)
            (IsBelow-mono fl g c (bucket_of ts) log k' b) s m.1 good in
        (
          c',
          record {
            returns =
                ap (λ o. o >>= λ w. run w ops) (update-window_of c ts log (le_trans h m.0) k' b)
                ∙ r.returns;
            reached = r.reached;
            below = r.below;
            sorted = r.sorted;
          },
        )

    get_value-window_of :
        (c ts : ℕ) (log : Log g)
        → IsSorted fl g log
        → get_value fl iv (window_of c log) ts ≡ (
            if wait && ltb ts dur
            then ok Value.none
            else iv.into_value (g.represent (in_window g c log)))
    unfolding get_value
    get_value-window_of c ts log s =
        ap (λ o. if wait && ltb ts dur then ok Value.none else o)
          (ap
              (λ o. o >>= λ initial.
                fold_rev fl iv initial (buckets_of fl g 0 size c log) >>= iv.into_value)
              (g.default-represent ts)
            ∙ ap (λ o. o >>= iv.into_value) (fold_rev-buckets_of fl g 0 size c log s))

    observe_mono :
        (ops : List (Op (Value F))) (now : ℕ)
        → IsMonotone start ops
        → end_time start ops ≤ now
        → AllAccepted g.accepts ops
        → observe ops now ≡ (
            if wait && ltb now dur
            then ok Value.none
            else iv.into_value (g.represent (in_window g (bucket_of now) (log_of ops))))
    unfolding observe
    observe_mono ops now m e good =
        let (c, r) = run-window_of ops 0 start [] (le_refl _) zero-le tt tt m good in
        let from = start-le-end_time ops start m in
        ap
          (λ o. o >>= λ w.
            run w ops >>= λ w'. update_buckets fl iv w' now >>= λ w''. get_value fl iv w'' now)
          new-window_of
        ∙ ap (λ o. o >>= λ w'. update_buckets fl iv w' now >>= λ w''. get_value fl iv w'' now)
            r.returns
        ∙ ap (λ o. o >>= λ w''. get_value fl iv w'' now)
            (update-window_of c now (log_of ops) (le_trans from e) (le_trans r.reached (mono _ _ e))
              r.below)
        ∙ get_value-window_of (bucket_of now) now (log_of ops) r.sorted

  -- A window of at least `size` nanoseconds, whose aggregation represents a monoid and whose float
  -- arithmetic rounds monotonely, goes through any values that the aggregation accepts and any
  -- updates, at times that never go back from the window's start on. Read at `now`, not before the
  -- last step, it shows the aggregate of the values whose bucket is the bucket of `now` or one of
  -- the `size - 1` before it, in the order of arrival; or no value, if the window waits and `now` is
  -- before its duration. No step panics.
  pub observe-eq-in_window :
      RoundsMonotonely fl
      → size ≤ dur
      → (ops : List (Op (Value F))) (now : ℕ) → IsMonotone start ops
      → end_time start ops ≤ now
      → AllAccepted g.accepts ops
      → observe ops now ≡ (
          if wait && ltb now dur
          then ok Value.none
          else iv.into_value (g.represent (in_window g (bucket_of now) (log_of ops))))
  observe-eq-in_window r long = observe_mono (bucket_of_mono r start (dur / size) (omega arith))
