-- ===== src/Interpreter/Condition.antt =====
-- `ActivationCondition` of interpreter/src/evaluator.rs.
pub mod FastPath
use rtlola.Common.{
  ℕ, zero, suc, Bool, ◌==◌, if◌then◌else◌, List, [], ◌∷◌, length, Outcome, ok, panic, ◌>>=◌, ◌>>◌,
  assert, not,
}
use rtlola.Ir.{StreamReference, in_ix}
use rtlola.Frontend.Activation.{Activation, Activations, nil, cons}
use rtlola.Interpreter.BitSet.{BitSets}

abbrev pub count_all : Activations StreamReference → ℕ
count_all nil = zero
count_all (cons a rest) = suc (count_all rest)

abbrev pub is_empty : Activations StreamReference → Bool
is_empty nil = Bool.true
is_empty (cons a rest) = Bool.false

-- the indices of the streams directly in the conjunction
unfoldable pub stream_ixs : Activations StreamReference → Outcome (List ℕ)
stream_ixs nil = ok []
stream_ixs (cons (Activation.stream var) rest) = do
  ix ← in_ix var
  ixs ← stream_ixs rest
  ok (ix ∷ ixs)
stream_ixs (cons _ rest) = stream_ixs rest

-- `S` is the type of bit sets.
pub data ActivationCondition (S : Type 0) : Type 0 where
  time_driven : ActivationCondition S
  true : ActivationCondition S
  conjunction : S → ActivationCondition S
  general : Activation StreamReference → ActivationCondition S

module _ (b : BitSets) where
  open b use {BitSet, empty, insert, contains, is_subset}

  abbrev pub insert_all : List ℕ → BitSet → BitSet
  insert_all [] s = s
  insert_all (ix ∷ ixs) s = insert_all ixs (insert ix s)

  -- the bit set if every part of the conjunction is a stream
  abbrev pub from_ixs : Activations StreamReference → List ℕ → Outcome (ActivationCondition BitSet)
  from_ixs vec ixs =
      if count_all vec == length ixs
      then ok (ActivationCondition.conjunction (insert_all ixs empty))
      else ok (ActivationCondition.general (Activation.conjunction vec))

  unfoldable pub new : Activation StreamReference → Outcome (ActivationCondition BitSet)
  new Activation.true = ok ActivationCondition.true
  new (Activation.conjunction vec) = do
    assert (not (is_empty vec))
    ixs ← stream_ixs vec
    from_ixs vec ixs
  new ac = ok (ActivationCondition.general ac)

  -- `eval_`: `all` and `any` stop at the first answer.
  unfoldable mutual
    pub eval_general : Activation StreamReference → BitSet → Outcome Bool
    eval_general (Activation.stream var) inputs = do ix ← in_ix var; ok (contains inputs ix)
    eval_general (Activation.conjunction vec) inputs = eval_all vec inputs
    eval_general (Activation.disjunction vec) inputs = eval_any vec inputs
    eval_general Activation.true inputs = panic

    pub eval_all : Activations StreamReference → BitSet → Outcome Bool
    eval_all nil inputs = ok Bool.true
    eval_all (cons ac rest) inputs = do
      this ← eval_general ac inputs
      if this then eval_all rest inputs else ok Bool.false

    pub eval_any : Activations StreamReference → BitSet → Outcome Bool
    eval_any nil inputs = ok Bool.false
    eval_any (cons ac rest) inputs = do
      this ← eval_general ac inputs
      if this then ok Bool.true else eval_any rest inputs

  unfoldable pub eval : ActivationCondition BitSet → BitSet → Outcome Bool
  eval ActivationCondition.true inputs = ok Bool.true
  eval (ActivationCondition.conjunction bs) inputs = ok (is_subset bs inputs)
  eval (ActivationCondition.general ac) inputs = eval_general ac inputs
  eval ActivationCondition.time_driven inputs = panic
