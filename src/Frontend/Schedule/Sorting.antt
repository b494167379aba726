-- ===== src/Frontend/Schedule/Sorting.antt =====
-- frontend/src/ir/schedule.rs, `sort_deadlines`: the streams of a deadline in evaluation order.
use rtlola.Common.{
  ℕ, ◌≤◌, ◌==◌, leb, Bool, true, false, ◌&&◌, if◌then◌else◌, Option, none, some, Option-cases, List,
  [], ◌∷◌, map, get_elem?, ok, ◌≡◌, refl, sym, ap, ap₂, ◌∙◌, arith, Bool-cases, inl, inr, and_parts,
}
use rtlola.Ir.Program.{RtLolaIr, OutputStream}
use rtlola.Frontend.Schedule.{Deadline, insert_by_layer, sort_by_layer, keyed, sort_deadlines}

-- Are the layers of all streams at least `l`?
abbrev pub from_layer : ℕ → List (ℕ × ℕ) → Bool
from_layer l [] = true
from_layer l ((k, r) ∷ rest) = leb l k && from_layer l rest

unfoldable pub is_sorted : List (ℕ × ℕ) → Bool
is_sorted [] = true
is_sorted ((l, r) ∷ rest) = from_layer l rest && is_sorted rest

-- The streams with the layer `l`, in their order.
unfoldable pub streams_at : ℕ → List (ℕ × ℕ) → List ℕ
streams_at l [] = []
streams_at l ((k, r) ∷ rest) = let later = streams_at l rest in if l == k then r ∷ later else later

from_layer-insert_by_layer :
    (l k r : ℕ) (xs : List (ℕ × ℕ))
    → l ≤ k
    → from_layer l xs ≡ true
    → from_layer l (insert_by_layer (k, r) xs) ≡ true
unfolding insert_by_layer
from_layer-insert_by_layer l k r [] le h = ground arith
from_layer-insert_by_layer l k r ((j, q) ∷ xs) le h =
    ground (arith, from_layer-insert_by_layer l k r xs)

from_layer_mono :
    (l k : ℕ) (xs : List (ℕ × ℕ)) → l ≤ k → from_layer k xs ≡ true → from_layer l xs ≡ true
from_layer_mono l k [] le h = refl
from_layer_mono l k ((j, q) ∷ xs) le h = ground (arith, from_layer_mono l k xs)

insert_by_layer-is_sorted :
    (k r : ℕ) (xs : List (ℕ × ℕ))
    → is_sorted xs ≡ true
    → is_sorted (insert_by_layer (k, r) xs) ≡ true
unfolding insert_by_layer is_sorted
insert_by_layer-is_sorted k r [] h = refl
insert_by_layer-is_sorted k r ((j, q) ∷ xs) h = ground (
  arith,
  insert_by_layer-is_sorted k r xs,
  from_layer-insert_by_layer j k r xs,
  from_layer_mono k j xs,
)

-- The stream goes before those of its own layer, and after none of it.
streams_at-insert_by_layer :
    (l k r : ℕ) (xs : List (ℕ × ℕ))
    → streams_at l (insert_by_layer (k, r) xs) ≡ streams_at l ((k, r) ∷ xs)
unfolding insert_by_layer streams_at
streams_at-insert_by_layer l k r [] = refl
streams_at-insert_by_layer l k r ((j, q) ∷ xs) = ground (arith, streams_at-insert_by_layer l k r xs)

sort_by_layer-is_sorted : (xs : List (ℕ × ℕ)) → is_sorted (sort_by_layer xs) ≡ true
unfolding sort_by_layer is_sorted
sort_by_layer-is_sorted [] = refl
sort_by_layer-is_sorted ((k, r) ∷ xs) =
    insert_by_layer-is_sorted k r (sort_by_layer xs) (sort_by_layer-is_sorted xs)

streams_at-sort_by_layer :
    (l : ℕ) (xs : List (ℕ × ℕ)) → streams_at l (sort_by_layer xs) ≡ streams_at l xs
unfolding sort_by_layer streams_at
streams_at-sort_by_layer l [] = refl
streams_at-sort_by_layer l ((k, r) ∷ xs) =
    streams_at-insert_by_layer l k r (sort_by_layer xs)
    ∙ ap (λ (rs : List ℕ). if l == k then r ∷ rs else rs) (streams_at-sort_by_layer l xs)

module _ {F : Type 0} (ir : RtLolaIr F) where
  -- the evaluation layer of an output
  abbrev pub layer_of : ℕ → ℕ
  layer_of s = elim (get_elem? ir.outputs s) [ none ↦ 0 | some o ↦ o.layer ]

  -- Are they outputs of the specification?
  unfoldable pub are_outputs : List ℕ → Bool
  are_outputs [] = true
  are_outputs (s ∷ due) =
      (elim (get_elem? ir.outputs s) [ none ↦ false | some o ↦ true ]) && are_outputs due

  unfoldable pub all_outputs : List Deadline → Bool
  all_outputs [] = true
  all_outputs (d ∷ deadlines) = are_outputs d.due && all_outputs deadlines

  -- Is none of the streams of an earlier evaluation layer than `l`?
  unfoldable pub is_after : ℕ → List ℕ → Bool
  is_after l [] = true
  is_after l (s ∷ due) = leb l (layer_of s) && is_after l due

  -- Is no stream before one of an earlier evaluation layer?
  unfoldable pub follows_layers : List ℕ → Bool
  follows_layers [] = true
  follows_layers (s ∷ due) = is_after (layer_of s) due && follows_layers due

  -- The streams of the evaluation layer `l`, in their order.
  unfoldable pub of_layer : ℕ → List ℕ → List ℕ
  of_layer l [] = []
  of_layer l (s ∷ due) = let later = of_layer l due in if l == layer_of s then s ∷ later else later

  -- The keys are the evaluation layers.
  abbrev Keyed : List (ℕ × ℕ) → Type 0
  Keyed [] = Unit
  Keyed ((k, s) ∷ rest) = (k ≡ layer_of s) × Keyed rest

  abbrev streams : List (ℕ × ℕ) → List ℕ
  streams xs = map (λ (s : ℕ × ℕ). s.1) xs

  insert_by_layer-Keyed :
      (k s : ℕ) (xs : List (ℕ × ℕ)) → k ≡ layer_of s → Keyed xs → Keyed (insert_by_layer (k, s) xs)
  unfolding insert_by_layer
  insert_by_layer-Keyed k s [] h keys = (h, tt)
  insert_by_layer-Keyed k s ((j, q) ∷ xs) h (e, keys) = elim (Bool-cases (leb k j)) [
    | inl first ↦ rw first (h, (e, keys))
    | inr after ↦ rw after (e, insert_by_layer-Keyed k s xs h keys)
  ]

  sort_by_layer-Keyed : (xs : List (ℕ × ℕ)) → Keyed xs → Keyed (sort_by_layer xs)
  unfolding sort_by_layer
  sort_by_layer-Keyed [] keys = tt
  sort_by_layer-Keyed ((k, s) ∷ xs) (e, keys) =
      insert_by_layer-Keyed k s (sort_by_layer xs) e (sort_by_layer-Keyed xs keys)

  from_layer-is_after :
      (l : ℕ) (xs : List (ℕ × ℕ)) → Keyed xs → is_after l (streams xs) ≡ from_layer l xs
  unfolding is_after
  from_layer-is_after l [] keys = refl
  from_layer-is_after l ((k, s) ∷ xs) (e, keys) =
      ap₂ (λ (a b : Bool). a && b) (ap (leb l) (sym e)) (from_layer-is_after l xs keys)

  is_sorted-follows_layers :
      (xs : List (ℕ × ℕ)) → Keyed xs → follows_layers (streams xs) ≡ is_sorted xs
  unfolding follows_layers is_sorted
  is_sorted-follows_layers [] keys = refl
  is_sorted-follows_layers ((k, s) ∷ xs) (e, keys) =
      ap₂ (λ (a b : Bool). a && b)
        (from_layer-is_after (layer_of s) xs keys ∙ ap (λ l. from_layer l xs) (sym e))
        (is_sorted-follows_layers xs keys)

  of_layer-streams :
      (l : ℕ) (xs : List (ℕ × ℕ)) → Keyed xs → of_layer l (streams xs) ≡ streams_at l xs
  unfolding of_layer streams_at
  of_layer-streams l [] keys = refl
  of_layer-streams l ((k, s) ∷ xs) (e, keys) =
      ap₂ (λ (b : Bool) (rs : List ℕ). if b then s ∷ rs else rs) (ap (λ j. l == j) (sym e))
        (of_layer-streams l xs keys)

  keyed-Keyed :
      (due : List ℕ)
      → are_outputs due ≡ true
      → (xs : List (ℕ × ℕ)) × (keyed ir due ≡ ok xs) × (streams xs ≡ due) × Keyed xs
  unfolding keyed are_outputs
  keyed-Keyed [] h = ([], refl, refl, tt)
  keyed-Keyed (s ∷ due) h = elim (Option-cases (get_elem? ir.outputs s)) [
    | inl missing ↦
        let clash : false ≡ true =
          sym
            (ap (λ (o : Option (OutputStream F)). elim o [ none ↦ false | some o' ↦ true ]) missing)
          ∙ (and_parts _ (are_outputs due) h).0 in
        cc
    | inr (o, found) ↦
        let (xs, ran, same, each) = keyed-Keyed due ((and_parts _ (are_outputs due) h).1) in
        (
          (o.layer, s) ∷ xs,
          rw (found, ran) refl,
          ap (λ rest. s ∷ rest) same,
          (
            sym (
                ap (λ (x : Option (OutputStream F)). elim x [ none ↦ 0 | some o' ↦ o'.layer ])
                  found),
            each,
          ),
        )
  ]

  -- What sorting does to the deadlines, one by one.
  abbrev pub Sorted : List Deadline → List Deadline → Type 0
  Sorted [] [] = Unit
  Sorted (d ∷ deadlines) (d' ∷ deadlines') =
      (d'.pause ≡ d.pause)
      × (follows_layers d'.due ≡ true)
      × ((l : ℕ) → of_layer l d'.due ≡ of_layer l d.due)
      × Sorted deadlines deadlines'
  Sorted _ _ = ⊥

  -- If the streams of all deadlines are outputs of the specification, then sorting the deadlines
  -- returns as many deadlines with the same pauses. In each of them no stream is before one of an
  -- earlier evaluation layer, and the streams of each evaluation layer are those that were there, as
  -- often and in the same order.
  pub sort_deadlines-Sorted :
      (deadlines : List Deadline)
      → all_outputs deadlines ≡ true
      → (sorted : List Deadline) × (sort_deadlines ir deadlines ≡ ok sorted)
        × Sorted deadlines sorted
  unfolding sort_deadlines all_outputs
  sort_deadlines-Sorted [] h = ([], refl, tt)
  sort_deadlines-Sorted (d ∷ deadlines) h =
      let (here, others) = and_parts (are_outputs d.due) (all_outputs deadlines) h in
      let (xs, ran, same, each) = keyed-Keyed d.due here in
      let (rest, ran', sorted) = sort_deadlines-Sorted deadlines others in
      let each' = sort_by_layer-Keyed xs each in
      (
        record d { due = streams (sort_by_layer xs) } ∷ rest,
        rw (ran, ran') refl,
        (
          refl,
          is_sorted-follows_layers (sort_by_layer xs) each' ∙ sort_by_layer-is_sorted xs,
          λ l.
              of_layer-streams l (sort_by_layer xs) each'
              ∙ streams_at-sort_by_layer l xs
              ∙ sym (of_layer-streams l xs each)
              ∙ ap (of_layer l) same,
          sorted,
        ),
      )
