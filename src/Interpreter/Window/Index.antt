-- ===== src/Interpreter/Window/Index.antt =====
-- The index arithmetic of interpreter/src/storage/window.rs.
use rtlola.Common.{ℕ, ◌+◌, ◌-◌, ◌*◌, ◌<◌, ◌≡◌, leb, if◌then◌else◌, ok, panic, arith, ap}
use rtlola.Interpreter.Window.{BIx, buckets_since}

-- The number of buckets before this one.
abbrev pub overall : BIx → ℕ → ℕ
overall b n = b.period * n + b.ix

mul_gap :
    (p q n : ℕ)
    → q < p
    → (p * n ≡ q * n + (p - q - 1) * n + n) × ((p - q) * n ≡ (p - q - 1) * n + n)
mul_gap p q n h =
    let e : p ≡ q + (p - q - 1) + 1 = omega arith in
    let f : p - q ≡ p - q - 1 + 1 = omega arith in
    (omega (arith, ap (λ (t : ℕ). t * n) e), omega (arith, ap (λ (t : ℕ). t * n) f))

-- For two buckets with indices below the number of buckets in a period, `buckets_since` returns the
-- difference of their overall numbers; if the other bucket is the later one, it panics.
pub buckets_since_lem :
    (a b : BIx) (n : ℕ)
    → a.ix < n
    → b.ix < n
    → buckets_since a b n
      ≡ (if leb (overall b n) (overall a n) then ok (overall a n - overall b n) else panic)
unfolding buckets_since
buckets_since_lem a b n ha hb =
    ground (arith, mul_gap a.period b.period n, mul_gap b.period a.period n)
