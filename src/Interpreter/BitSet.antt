-- ===== src/Interpreter/BitSet.antt =====
-- The crate bit-set, which interpreter/src/evaluator.rs uses for sets of stream indices: a type of
-- sets, the operations that are called, and what their documentation says of them.
use rtlola.Common.{ℕ, Bool, true, false, ◌||◌, ◌==◌, ◌≡◌, ◌↔◌, List}

pub record BitSets : Type 1 where
  pub BitSet : Type 0
  -- `with_capacity`, and what `clear` leaves
  pub empty : BitSet
  pub insert : ℕ → BitSet → BitSet
  pub contains : BitSet → ℕ → Bool
  pub is_subset : BitSet → BitSet → Bool
  -- `iter`
  pub elements : BitSet → List ℕ
  pub contains-empty : (j : ℕ) → contains empty j ≡ false
  pub contains-insert : (i j : ℕ) (s : BitSet) → contains (insert i s) j ≡ (i == j || contains s j)
  pub is_subset_iff :
      (a b : BitSet)
      → (is_subset a b ≡ true) ↔ ((j : ℕ) → contains a j ≡ true → contains b j ≡ true)
