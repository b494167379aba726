-- ===== src/Interpreter/Store.antt =====
-- interpreter/src/storage/stores.rs, `InstanceStore`: the remembered values of one stream.
pub mod History
use rtlola.Common.{
  ℕ, ◌-◌, ◌^◌, ◌==◌, if◌then◌else◌, Bool, Option, List, [], ◌∷◌, length, get_elem?, drop_last,
  Outcome, ok, panic, ◌>>=◌, ◌>>◌, assert,
}
use rtlola.Ir.{MemorizationBound}
use rtlola.Common.Int.{ℤ, pos, abs, leb_ℤ, eqb_ℤ}

-- `buffer` is the `VecDeque`, front first.
pub record InstanceStore (V : Type 0) : Type 0 where
  pub buffer : List V
  pub bound : MemorizationBound

-- `i16::abs(offset) as usize`. Of -32768 a debug build panics, and a release build keeps the
-- negative number, which the cast takes to 2^64 - 32768.
unfoldable pub abs_i16 : Bool → ℤ → Outcome ℕ
abs_i16 debug offset =
    if abs offset == 2 ^ 15
    then (if debug then panic else ok (2 ^ 64 - 2 ^ 15))
    else ok (abs offset)

module _ {V : Type 0} where
  unfoldable pub new : MemorizationBound → InstanceStore V
  new bound = record { buffer = []; bound = bound }

  unfoldable pub get_value : Bool → InstanceStore V → ℤ → Outcome (Option V)
  unfolding abs_i16
  get_value debug store offset = do
    assert (leb_ℤ offset (pos 0))
    if eqb_ℤ offset (pos 0)
        then ok (get_elem? store.buffer 0)
        else do ix ← abs_i16 debug offset; ok (get_elem? store.buffer ix)

  -- A full buffer gives up its oldest value.
  unfoldable pub evict : MemorizationBound → List V → List V
  evict MemorizationBound.unbounded buffer = buffer
  evict (MemorizationBound.bounded limit) buffer =
      if length buffer == limit then drop_last buffer else buffer

  unfoldable pub push_value : InstanceStore V → V → InstanceStore V
  unfolding evict
  push_value store v = record store { buffer = v ∷ evict store.bound store.buffer }
