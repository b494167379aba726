-- ===== src/Interpreter/Expr/Context.antt =====
-- `EvaluationContext` and `ExpressionEvaluator` of interpreter/src/evaluator.rs, and their lookups.
use rtlola.Common.{
  ℕ, ◌-◌, ◌%◌, ◌^◌, Bool, not, ◌||◌, if◌then◌else◌, ltb, Option, none, some, String, List, Outcome,
  ok, panic, ◌>>=◌, ◌>>◌, assert,
}
use rtlola.Common.Int.{ℤ, pos, negsuc, neg, eqb_ℤ, ◌+ℤ◌}
use rtlola.Ir.{StreamReference, in_ref, out_ref, StreamAccessKind, Offset}
use rtlola.Interpreter.Floats.{FloatOps}
use rtlola.Interpreter.Value.{Value}
use rtlola.Interpreter.Store
use rtlola.Interpreter.Store.{InstanceStore}
use rtlola.Interpreter.BitSet.{BitSets}
use rtlola.Interpreter.SlidingWindow
use rtlola.Interpreter.GlobalStore.{GlobalStore, get_in_instance, get_out_instance, get_window}

-- The crate regex: which patterns compile, and what they match, in texts and in bytes.
pub record Regexes : Type 0 where
  pub is_valid : String → Bool
  pub is_match : String → String → Bool
  pub is_match_bytes : String → List ℕ → Bool

-- What the evaluators run on: the floats, the bit sets, the regular expressions and the build.
pub record Platform (F : Type 0) : Type 1 where
  pub floats : FloatOps F
  pub bit_sets : BitSets
  pub regexes : Regexes
  pub debug : Bool

pub record Context {F : Type 0} (p : Platform F) : Type 0 where
  pub ts : ℕ
  pub global_store : GlobalStore F
  pub fresh_inputs : p.bit_sets.BitSet
  pub fresh_outputs : p.bit_sets.BitSet

module _ {F : Type 0} (p : Platform F) where
  abbrev pub or_none : Option (Value F) → Value F
  or_none none = Value.none
  or_none (some v) = v

  unfoldable pub instance_of : Context p → StreamReference → Outcome (InstanceStore (Value F))
  instance_of ctx (in_ref ix) = get_in_instance ctx.global_store ix
  instance_of ctx (out_ref ix) = get_out_instance ctx.global_store ix

  unfoldable pub is_fresh : Context p → StreamReference → Bool
  is_fresh ctx (in_ref ix) = p.bit_sets.contains ctx.fresh_inputs ix
  is_fresh ctx (out_ref ix) = p.bit_sets.contains ctx.fresh_outputs ix

  unfoldable pub lookup_latest : Context p → StreamReference → Outcome (Value F)
  lookup_latest ctx stream_ref = do
    inst ← instance_of ctx stream_ref
    v ← Store.get_value p.debug inst (pos 0)
    ok (or_none v)

  -- `debug_assert!` counts in a debug build only.
  unfoldable pub lookup_latest_check : Context p → StreamReference → Outcome (Value F)
  lookup_latest_check ctx stream_ref = do
    assert (not p.debug || is_fresh ctx stream_ref)
    lookup_latest ctx stream_ref

  -- `offset + 1` in 16 bits
  unfoldable pub next_offset : ℤ → Outcome ℤ
  next_offset offset =
      if eqb_ℤ offset (pos (2 ^ 15 - 1))
      then (if p.debug then panic else ok (negsuc (2 ^ 15 - 1)))
      else ok (offset +ℤ pos 1)

  unfoldable pub lookup_with_offset : Context p → StreamReference → ℤ → Outcome (Value F)
  lookup_with_offset ctx stream_ref offset = do
    inst ← instance_of ctx stream_ref
    at ← if is_fresh ctx stream_ref then ok offset else next_offset offset
    v ← Store.get_value p.debug inst at
    ok (or_none v)

  unfoldable pub lookup_window : Context p → ℕ → Outcome (Value F)
  lookup_window ctx window_ref = do
    w ← get_window ctx.global_store window_ref
    SlidingWindow.get_value p.floats p.debug w ctx.ts

  unfoldable pub access : Context p → StreamReference → StreamAccessKind → Outcome (Value F)
  access ctx stream_ref StreamAccessKind.sync = lookup_latest_check ctx stream_ref
  access ctx stream_ref StreamAccessKind.hold = lookup_latest ctx stream_ref
  access ctx stream_ref StreamAccessKind.optional =
      if is_fresh ctx stream_ref then lookup_latest ctx stream_ref else ok Value.none

  -- `-(u as i16)`: the cast keeps 16 bits, and to negate -32768 is an overflow.
  unfoldable pub past_offset : ℕ → Outcome ℤ
  past_offset u =
      let low = u % 2 ^ 16 in
      if ltb low (2 ^ 15)
      then ok (neg (pos low))
      else if ltb (2 ^ 15) low
      then ok (pos (2 ^ 16 - low))
      else if p.debug
      then panic
      else ok (negsuc (2 ^ 15 - 1))

  -- Only discrete offsets into the past are implemented.
  unfoldable pub offset_of : Offset → Outcome ℤ
  offset_of (Offset.past_discrete_offset u) = past_offset u
  offset_of _ = panic
