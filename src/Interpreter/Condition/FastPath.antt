-- ===== src/Interpreter/Condition/FastPath.antt =====
-- The bit set of a conjunctive condition gives the same answers as the condition.
use rtlola.Common.{
  ℕ, ◌≤◌, Bool, true, false, ◌&&◌, ◌||◌, ◌==◌, ==_iff, if◌then◌else◌, List, [], ◌∷◌, length, ok,
  ◌>>=◌, ◌>>◌, assert, not, ◌≡◌, refl, sym, ap, ◌∙◌, arith, all, inl, inr, Bool-cases, Bool_ext,
  and_parts, and_intro,
}
use rtlola.Ir.{StreamReference, in_ref, out_ref, in_ix}
use rtlola.Frontend.Activation.{
  Activation, Activations, conjunction, disjunction, stream, nil, cons,
}
use rtlola.Frontend.Activation.Meaning.{holds, all_hold, any_holds}
use rtlola.Interpreter.BitSet.{BitSets}
use rtlola.Interpreter.Condition.{
  stream_ixs, count_all, is_empty, insert_all, from_ixs, new, eval, eval_general, eval_all,
  eval_any,
}

-- The conditions that the frontend builds: over inputs, without `True` inside.
abbrev pub is_input : StreamReference → Bool
is_input (in_ref _) = true
is_input (out_ref _) = false

unfoldable mutual
  pub over_inputs : Activation StreamReference → Bool
  over_inputs (conjunction c) = all_over_inputs c
  over_inputs (disjunction d) = all_over_inputs d
  over_inputs (stream v) = is_input v
  over_inputs Activation.true = false

  pub all_over_inputs : Activations StreamReference → Bool
  all_over_inputs nil = true
  all_over_inputs (cons a rest) = over_inputs a && all_over_inputs rest

-- What `ActivationCondition::new` and `eval` can work with.
abbrev pub is_well_formed : Activation StreamReference → Bool
is_well_formed Activation.true = true
is_well_formed (conjunction c) = not (is_empty c) && all_over_inputs c
is_well_formed ac = over_inputs ac

if_ok_and : (x y : Bool) → (if x then ok y else ok false) ≡ ok (x && y)
if_ok_and x y = ground arith

if_ok_or : (x y : Bool) → (if x then ok true else ok y) ≡ ok (x || y)
if_ok_or x y = ground arith

module _ (b : BitSets) (inputs : b.BitSet) where
  -- the streams that are fresh
  abbrev pub is_fresh : StreamReference → Bool
  is_fresh (in_ref ix) = b.contains inputs ix
  is_fresh (out_ref ix) = false

  mutual
    unfolding eval_general holds over_inputs in_ix

    eval_general_lem :
        (ac : Activation StreamReference)
        → over_inputs ac ≡ true
        → eval_general b ac inputs ≡ ok (holds is_fresh ac)
    eval_general_lem (conjunction c) h = eval_all_lem c h
    eval_general_lem (disjunction d) h = eval_any_lem d h
    eval_general_lem (stream (in_ref ix)) h = refl
    eval_general_lem (stream (out_ref ix)) h = cc
    eval_general_lem Activation.true h = cc

    eval_all_lem :
        (c : Activations StreamReference)
        → all_over_inputs c ≡ true
        → eval_all b c inputs ≡ ok (all_hold is_fresh c)
    eval_all_lem nil h = refl
    eval_all_lem (cons a rest) h =
        let (this, others) = and_parts (over_inputs a) (all_over_inputs rest) h in
        rw (eval_general_lem a this, eval_all_lem rest others)
          (if_ok_and (holds is_fresh a) (all_hold is_fresh rest))

    eval_any_lem :
        (d : Activations StreamReference)
        → all_over_inputs d ≡ true
        → eval_any b d inputs ≡ ok (any_holds is_fresh d)
    eval_any_lem nil h = refl
    eval_any_lem (cons a rest) h =
        let (this, others) = and_parts (over_inputs a) (all_over_inputs rest) h in
        rw (eval_general_lem a this, eval_any_lem rest others)
          (if_ok_or (holds is_fresh a) (any_holds is_fresh rest))

abbrev member : ℕ → List ℕ → Bool
member j [] = false
member j (ix ∷ ixs) = ix == j || member j ixs

abbrev input_ixs : Activations StreamReference → List ℕ
input_ixs nil = []
input_ixs (cons (stream (in_ref ix)) rest) = ix ∷ input_ixs rest
input_ixs (cons _ rest) = input_ixs rest

module _ (p : ℕ → Bool) where
  all_of_member : (ixs : List ℕ) → ((j : ℕ) → member j ixs ≡ true → p j ≡ true) → all p ixs ≡ true
  all_of_member [] h = refl
  all_of_member (ix ∷ ixs) h =
      and_intro (p ix) (all p ixs) (h ix (ground arith))
        (all_of_member ixs (λ j m. h j (ground arith)))

  of_all-member : (ixs : List ℕ) (j : ℕ) → all p ixs ≡ true → member j ixs ≡ true → p j ≡ true
  of_all-member [] j h m = cc
  of_all-member (ix ∷ ixs) j h m =
      let (first, rest) = and_parts (p ix) (all p ixs) h in
      elim (Bool-cases (ix == j)) [
        | inl same ↦ ap p (sym ((==_iff ix j).0 same)) ∙ first
        | inr other ↦ of_all-member ixs j rest (rw other at m)
      ]

module _ (b : BitSets) where
  contains-insert_all :
      (ixs : List ℕ) (s : b.BitSet) (j : ℕ)
      → b.contains (insert_all b ixs s) j ≡ (member j ixs || b.contains s j)
  contains-insert_all [] s j = refl
  contains-insert_all (ix ∷ ixs) s j =
      contains-insert_all ixs (b.insert ix s) j
      ∙ ap (λ x. member j ixs || x) (b.contains-insert ix j s)
      ∙ ground arith

  is_subset-insert_all :
      (ixs : List ℕ) (inputs : b.BitSet)
      → b.is_subset (insert_all b ixs b.empty) inputs ≡ all (b.contains inputs) ixs
  is_subset-insert_all ixs inputs =
      Bool_ext _ _
        (λ sub. all_of_member (b.contains inputs) ixs λ j m.
          (b.is_subset_iff _ inputs).0 sub j
            (contains-insert_all ixs b.empty j ∙ ap (λ x. x || b.contains b.empty j) m))
        (λ every. (b.is_subset_iff _ inputs).1 λ j c.
          of_all-member (b.contains inputs) ixs j every (
            or-false (member j ixs) (b.contains b.empty j) (b.contains-empty j)
              (sym (contains-insert_all ixs b.empty j) ∙ c)))
    where
      or-false : (x y : Bool) → y ≡ false → (x || y) ≡ true → x ≡ true
      or-false x y h k = ground arith

stream_ixs-input_ixs :
    (c : Activations StreamReference) → all_over_inputs c ≡ true → stream_ixs c ≡ ok (input_ixs c)
unfolding stream_ixs over_inputs in_ix
stream_ixs-input_ixs nil h = refl
stream_ixs-input_ixs (cons (stream (in_ref ix)) rest) h =
    ap (λ o. o >>= λ ixs. ok (ix ∷ ixs)) (stream_ixs-input_ixs rest h)
stream_ixs-input_ixs (cons (stream (out_ref ix)) rest) h = cc
stream_ixs-input_ixs (cons Activation.true rest) h = cc
stream_ixs-input_ixs (cons (conjunction c) rest) h =
    stream_ixs-input_ixs rest (and_parts (all_over_inputs c) (all_over_inputs rest) h).1
stream_ixs-input_ixs (cons (disjunction d) rest) h =
    stream_ixs-input_ixs rest (and_parts (all_over_inputs d) (all_over_inputs rest) h).1

length-input_ixs-le : (c : Activations StreamReference) → length (input_ixs c) ≤ count_all c
length-input_ixs-le nil = omega arith
length-input_ixs-le (cons (stream (in_ref ix)) rest) = omega (arith, length-input_ixs-le rest)
length-input_ixs-le (cons (stream (out_ref ix)) rest) = omega (arith, length-input_ixs-le rest)
length-input_ixs-le (cons Activation.true rest) = omega (arith, length-input_ixs-le rest)
length-input_ixs-le (cons (conjunction c) rest) = omega (arith, length-input_ixs-le rest)
length-input_ixs-le (cons (disjunction d) rest) = omega (arith, length-input_ixs-le rest)

module _ (b : BitSets) (inputs : b.BitSet) where
  all_hold-input_ixs :
      (c : Activations StreamReference)
      → count_all c ≡ length (input_ixs c)
      → all_hold (is_fresh b inputs) c ≡ all (b.contains inputs) (input_ixs c)
  unfolding holds
  all_hold-input_ixs nil h = refl
  all_hold-input_ixs (cons (stream (in_ref ix)) rest) h =
      ap (λ x. b.contains inputs ix && x) (all_hold-input_ixs rest (omega arith))
  all_hold-input_ixs (cons (stream (out_ref ix)) rest) h =
      absurd (omega (arith, length-input_ixs-le rest))
  all_hold-input_ixs (cons Activation.true rest) h =
      absurd (omega (arith, length-input_ixs-le rest))
  all_hold-input_ixs (cons (conjunction c) rest) h =
      absurd (omega (arith, length-input_ixs-le rest))
  all_hold-input_ixs (cons (disjunction d) rest) h =
      absurd (omega (arith, length-input_ixs-le rest))

  eval-from_ixs :
      (c : Activations StreamReference)
      → all_over_inputs c ≡ true
      → (from_ixs b c (input_ixs c) >>= λ k. eval b k inputs) ≡ ok (all_hold (is_fresh b inputs) c)
  unfolding eval eval_general
  eval-from_ixs c plain = elim (Bool-cases (count_all c == length (input_ixs c))) [
    | inl fast ↦ rw fast (
        ap ok (
          is_subset-insert_all b (input_ixs c) inputs
          ∙ sym (all_hold-input_ixs c ((==_iff _ _).0 fast))))
    | inr slow ↦ rw slow (eval_all_lem b inputs c plain)
  ]

  eval-conjunction :
      (c : Activations StreamReference)
      → (not (is_empty c) && all_over_inputs c) ≡ true
      → (new b (conjunction c) >>= λ k. eval b k inputs) ≡ ok (all_hold (is_fresh b inputs) c)
  unfolding new
  eval-conjunction c h =
      let (some_stream, plain) = and_parts (not (is_empty c)) (all_over_inputs c) h in
      ap (λ x. assert x >> (stream_ixs c >>= from_ixs b c) >>= λ k. eval b k inputs) some_stream
      ∙ ap (λ o. o >>= from_ixs b c >>= λ k. eval b k inputs) (stream_ixs-input_ixs c plain)
      ∙ eval-from_ixs c plain

  -- A well-formed condition is compiled without a panic, and the compiled form answers, without a
  -- panic, whether the condition holds of the fresh inputs.
  pub eval-new :
      (ac : Activation StreamReference)
      → is_well_formed ac ≡ true
      → (new b ac >>= λ c. eval b c inputs) ≡ ok (holds (is_fresh b inputs) ac)
  unfolding new eval holds
  eval-new Activation.true h = refl
  eval-new (conjunction c) h = eval-conjunction c h
  eval-new (disjunction d) h = eval_general_lem b inputs (disjunction d) h
  eval-new (stream v) h = eval_general_lem b inputs (stream v) h
