-- ===== src/Ir/Layers/Order.antt =====
-- frontend/src/ir.rs, `get_event_driven_layers`: the layers respect the evaluation order, and no
-- stream is lost.
use mathlib.Core.List.{Memᴰ}
use mathlib.Core.List.Memᴰ.{head, tail, cases_cons}
use rtlola.Common.{
  ℕ, zero, suc, ◌+◌, ◌≤◌, ◌<◌, ◌==◌, ==_iff, ==_false→ne, if-true, if-false, Bool-cases, some, List,
  [], ◌∷◌, get_elem?, ◌≡◌, refl, sym, ap, ap₂, subst, inl, inr, arith,
}
use rtlola.Ir.Layers.{max_layer, in_layer, add_layer, layers_from, layers_of}

in_layer-Mem : (i r : ℕ) (xs : List (ℕ × ℕ)) → Memᴰ r (in_layer i xs) → Memᴰ (i, r) xs
unfolding in_layer
in_layer-Mem i r [] h = elim h [ ]
in_layer-Mem i r ((l, q) ∷ xs) h = elim (Bool-cases (l == i)) [
  | inl here ↦
      elim (cases_cons
        (subst (Memᴰ r) (if-true (l == i) (q ∷ in_layer i xs) (in_layer i xs) here) h)) [
          | inl e ↦ head (ap₂ (λ a b. (a, b)) (sym ((==_iff l i).0 here)) e)
          | inr later ↦ tail (in_layer-Mem i r xs later)
        ]
  | inr elsewhere ↦ tail (
      in_layer-Mem i r xs
        (subst (Memᴰ r) (if-false (l == i) (q ∷ in_layer i xs) (in_layer i xs) elsewhere) h))
]

Mem-in_layer : (i r : ℕ) (xs : List (ℕ × ℕ)) → Memᴰ (i, r) xs → Memᴰ r (in_layer i xs)
unfolding in_layer
Mem-in_layer i r [] h = elim h [ ]
Mem-in_layer i r ((l, q) ∷ xs) h = elim (cases_cons h) [
  | inl e ↦
      subst (Memᴰ r)
        (sym (
          if-true (l == i) (q ∷ in_layer i xs) (in_layer i xs)
            ((==_iff l i).1 (sym (ap (λ x. x.0) e)))))
        (head (ap (λ x. x.1) e))
  | inr later ↦ elim (Bool-cases (l == i)) [
    | inl here ↦
        subst (Memᴰ r) (sym (if-true (l == i) (q ∷ in_layer i xs) (in_layer i xs) here))
          (tail (Mem-in_layer i r xs later))
    | inr elsewhere ↦
        subst (Memᴰ r) (sym (if-false (l == i) (q ∷ in_layer i xs) (in_layer i xs) elsewhere))
          (Mem-in_layer i r xs later)
  ]
]

-- Each layer is that of a number in the range.
layers_from-in_layer :
    (n i : ℕ) (xs : List (ℕ × ℕ)) (a : ℕ) (A : List ℕ)
    → get_elem? (layers_from n i xs) a ≡ some A
    → (l : ℕ) × (A ≡ in_layer l xs) × (i ≤ l)
unfolding layers_from
layers_from-in_layer zero i xs a A h = cc
layers_from-in_layer (suc n) i xs a A h =
    add (in_layer i xs) a h refl (λ b found.
      let (l, e, le) = layers_from-in_layer n (suc i) xs b A found in (l, e, omega arith))
  where
    add :
        (here : List ℕ) (a : ℕ)
        → get_elem? (add_layer here (layers_from n (suc i) xs)) a ≡ some A
        → here ≡ in_layer i xs
        → ((b : ℕ)
            → get_elem? (layers_from n (suc i) xs) b ≡ some A
            → (l : ℕ) × (A ≡ in_layer l xs) × (i ≤ l))
        → (l : ℕ) × (A ≡ in_layer l xs) × (i ≤ l)
    add [] a found e rec = rec a found
    add (r ∷ rs) zero found e rec = (i, cc, omega arith)
    add (r ∷ rs) (suc a) found e rec = rec a found

-- Of two layers, the earlier is that of the smaller number.
layers_from-increasing :
    (n i : ℕ) (xs : List (ℕ × ℕ)) (a b : ℕ) (A B : List ℕ)
    → get_elem? (layers_from n i xs) a ≡ some A
    → get_elem? (layers_from n i xs) b ≡ some B
    → a < b
    → (l k : ℕ) × (A ≡ in_layer l xs) × (B ≡ in_layer k xs) × (l < k)
unfolding layers_from
layers_from-increasing zero i xs a b A B h k lt = cc
layers_from-increasing (suc n) i xs a b A B h k lt =
    add (in_layer i xs) a b h k refl lt
      (λ a' b' h' k' lt'. layers_from-increasing n (suc i) xs a' b' A B h' k' lt')
  where
    add :
        (here : List ℕ) (a b : ℕ)
        → get_elem? (add_layer here (layers_from n (suc i) xs)) a ≡ some A
        → get_elem? (add_layer here (layers_from n (suc i) xs)) b ≡ some B
        → here ≡ in_layer i xs
        → a < b
        → ((a b : ℕ)
            → get_elem? (layers_from n (suc i) xs) a ≡ some A
            → get_elem? (layers_from n (suc i) xs) b ≡ some B
            → a < b
            → (l k : ℕ) × (A ≡ in_layer l xs) × (B ≡ in_layer k xs) × (l < k))
        → (l k : ℕ) × (A ≡ in_layer l xs) × (B ≡ in_layer k xs) × (l < k)
    add [] a b h k e lt rec = rec a b h k lt
    add (r ∷ rs) zero (suc b) h k e lt rec =
        let (j, e', le) = layers_from-in_layer n (suc i) xs b B k in (i, j, cc, e', omega arith)
    add (r ∷ rs) (suc a) (suc b) h k e lt rec = rec a b h k (omega arith)
    add (r ∷ rs) a zero h k e lt rec = let no : ⊥ = omega arith in elim no [ ]

layers_from_complete :
    (n i : ℕ) (xs : List (ℕ × ℕ)) (l r : ℕ)
    → i ≤ l
    → l < i + n
    → Memᴰ r (in_layer l xs)
    → (a : ℕ) × (A : List ℕ) × (get_elem? (layers_from n i xs) a ≡ some A) × Memᴰ r A
unfolding layers_from
layers_from_complete zero i xs l r le lt h = let no : ⊥ = omega arith in elim no [ ]
layers_from_complete (suc n) i xs l r le lt h = elim (Bool-cases (l == i)) [
  | inl here ↦ first (in_layer i xs) (subst (λ j. Memᴰ r (in_layer j xs)) ((==_iff l i).0 here) h)
  | inr elsewhere ↦
      let ne = ==_false→ne l i elsewhere in
      let (a, A, found, m) = layers_from_complete n (suc i) xs l r (omega arith) (omega arith) h in
      later (in_layer i xs) a A found m
]
  where
    first :
        (here : List ℕ)
        → Memᴰ r here
        → (a : ℕ) × (A : List ℕ) × (get_elem? (add_layer here (layers_from n (suc i) xs)) a
            ≡ some A)
          × Memᴰ r A
    first [] m = elim m [ ]
    first (q ∷ qs) m = (0, q ∷ qs, refl, m)

    later :
        (here : List ℕ) (a : ℕ) (A : List ℕ)
        → get_elem? (layers_from n (suc i) xs) a ≡ some A
        → Memᴰ r A
        → (a : ℕ) × (A : List ℕ) × (get_elem? (add_layer here (layers_from n (suc i) xs)) a
            ≡ some A)
          × Memᴰ r A
    later [] a A found m = (a, A, found, m)
    later (q ∷ qs) a A found m = (suc a, A, found, m)

-- The layer of each stream is at most the greatest.
Mem-max_layer : (l r : ℕ) (xs : List (ℕ × ℕ)) → Memᴰ (l, r) xs → l ≤ max_layer xs
unfolding max_layer
Mem-max_layer l r [] h = elim h [ ]
Mem-max_layer l r ((k, q) ∷ xs) h = elim (cases_cons h) [
  | inl e ↦ let same = ap (λ x. x.0) e in omega arith
  | inr later ↦ let le = Mem-max_layer l r xs later in omega arith
]

-- If a stream is in one of the layers and a stream in a later one, the first has an evaluation layer
-- that is smaller than one of the second.
pub layers_of-in_order :
    (xs : List (ℕ × ℕ)) (a b : ℕ) (A B : List ℕ) (r s : ℕ)
    → get_elem? (layers_of xs) a ≡ some A
    → get_elem? (layers_of xs) b ≡ some B
    → a < b
    → Memᴰ r A
    → Memᴰ s B
    → (l k : ℕ) × Memᴰ (l, r) xs × Memᴰ (k, s) xs × (l < k)
layers_of-in_order [] a b A B r s h k lt m n = cc
layers_of-in_order (x ∷ xs) a b A B r s h k lt m n =
    let (i, j, e, e', before) =
      layers_from-increasing (suc (max_layer (x ∷ xs))) 0 (x ∷ xs) a b A B h k lt in
    (
      i,
      j,
      in_layer-Mem i r (x ∷ xs) (subst (Memᴰ r) e m),
      in_layer-Mem j s (x ∷ xs) (subst (Memᴰ s) e' n),
      before,
    )

-- Every stream with an evaluation layer is in one of the layers.
pub layers_of_complete :
    (xs : List (ℕ × ℕ)) (l r : ℕ)
    → Memᴰ (l, r) xs
    → (a : ℕ) × (A : List ℕ) × (get_elem? (layers_of xs) a ≡ some A) × Memᴰ r A
layers_of_complete [] l r h = elim h [ ]
layers_of_complete (x ∷ xs) l r h =
    let le = Mem-max_layer l r (x ∷ xs) h in
    layers_from_complete (suc (max_layer (x ∷ xs))) 0 (x ∷ xs) l r (omega arith) (omega arith)
      (Mem-in_layer l r (x ∷ xs) h)
