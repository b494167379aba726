-- ===== src/Tests/Matrices.antt =====
-- Graphs of steps as matrices, with what petgraph documents of its graphs.
use rtlola.Common.{
  ℕ, zero, suc, ◌-◌, ◌==◌, ==_iff, ltb, Bool, true, false, ◌&&◌, ◌||◌, if◌then◌else◌, some, none,
  List, [], ◌∷◌, ◌≡◌, refl, sym, ap, ◌∙◌, ◌↔◌, ◌<◌, ◌⊎◌, inl, inr, arith, Bool-cases,
}
use rtlola.Common.Sets.{◌∈◌}
use rtlola.Frontend.Graph.{ComputeStep}
use rtlola.Frontend.Graph.Petgraph.{Petgraph, IsPetgraph, range, place_before}

pub record Matrix : Type 0 where
  pub count : ℕ
  pub step : ℕ → ComputeStep
  pub edge : ℕ → ℕ → Bool

-- The numbers below `n` that pass the test, from the greatest on.
abbrev pub select : (ℕ → Bool) → ℕ → List ℕ
select p zero = []
select p (suc n) = if p n then n ∷ select p n else select p n

mem-select : (p : ℕ → Bool) (n k : ℕ) → (k ∈ select p n) ↔ ((k < n) × (p k ≡ true))
mem-select p zero k = (λ m. absurd m, λ m. absurd (omega (arith, m.0)))
mem-select p (suc n) k = elim (Bool-cases (p n)) [
  | inl holds ↦ rw holds (
    λ m. elim m [
      | inl here ↦ (omega arith, ap p here ∙ holds)
      | inr there ↦ let (lt, h) = (mem-select p n k).0 there in (omega arith, h)
    ],
    λ (lt, h). elim (Bool-cases (k == n)) [
      | inl here ↦ inl ((==_iff k n).0 here)
      | inr other ↦ inr ((mem-select p n k).1 (ground arith, h))
    ],
  )
  | inr fails ↦ rw fails (
    λ m. let (lt, h) = (mem-select p n k).0 m in (omega arith, h),
    λ (lt, h). elim (Bool-cases (k == n)) [
      | inl here ↦ let clash = sym h ∙ ap p ((==_iff k n).0 here) ∙ fails in cc
      | inr other ↦ (mem-select p n k).1 (ground arith, h)
    ],
  )
]

abbrev pub matrix_neighbors : Matrix → ℕ → List ℕ
matrix_neighbors g j = select (λ k. ltb j g.count && g.edge j k) g.count

abbrev pub matrices : Petgraph
matrices = record {
  ComputationGraph = Matrix;
  empty = record { count = 0; step = ComputeStep.invoke; edge = λ j k. false };
  add_node = λ g s. (
    record {
      count = suc g.count;
      step = λ j. if j == g.count then s else g.step j;
      edge = λ j k. (ltb j g.count && ltb k g.count) && g.edge j k;
    },
    g.count,
  );
  add_edge = λ g a b. record g { edge = λ j k. g.edge j k || (j == a && k == b) };
  node_count = λ g. g.count;
  node_indices = λ g. range 0 g.count;
  node_weight = λ g j. if ltb j g.count then some (g.step j) else none;
  neighbors = matrix_neighbors;
  remove_node = λ g i. record {
    count = g.count - 1;
    step = λ j. g.step (place_before g.count i j);
    edge = λ j k. g.edge (place_before g.count i j) (place_before g.count i k);
  };
}

pub neighbor_iff :
    (g : Matrix) (j k : ℕ)
    → (k ∈ matrix_neighbors g j) ↔ ((k < g.count) × (j < g.count) × (g.edge j k ≡ true))
neighbor_iff g j k = ground (arith, mem-select (λ x. ltb j g.count && g.edge j x) g.count k)

iff_via : {A B C D : Type 0} → (A ↔ B) → (C ↔ D) → (B ↔ D) → (A ↔ C)
iff_via ab cd bd = (λ a. cd.1 (bd.0 (ab.0 a)), λ c. ab.1 (bd.1 (cd.0 c)))

or_iff : {A B C : Type 0} → (A ↔ B) → ((A ⊎ C) ↔ (B ⊎ C))
or_iff ab = (
  λ h. elim h [ inl a ↦ inl (ab.0 a) | inr c ↦ inr c ],
  λ h. elim h [ inl b ↦ inl (ab.1 b) | inr c ↦ inr c ],
)

after_node :
    (g : Matrix) (j k : ℕ)
    → ((k < suc g.count)
        × (j < suc g.count)
        × (((ltb j g.count && ltb k g.count) && g.edge j k) ≡ true))
      ↔ ((k < g.count) × (j < g.count) × (g.edge j k ≡ true))
after_node g j k = ground arith

after_edge :
    (g : Matrix) (a b j k : ℕ)
    → a < g.count
    → b < g.count
    → ((k < g.count) × (j < g.count) × ((g.edge j k || (j == a && k == b)) ≡ true))
      ↔ ((k < g.count) × (j < g.count) × (g.edge j k ≡ true) ⊎ (j ≡ a) × (k ≡ b))
after_edge g a b j k ha hb = ground arith

after_removal :
    (g : Matrix) (i j k : ℕ)
    → i < g.count
    → j < g.count - 1
    → k < g.count - 1
    → ((k < g.count - 1)
        × (j < g.count - 1)
        × (g.edge (place_before g.count i j) (place_before g.count i k) ≡ true))
      ↔ ((place_before g.count i k < g.count)
          × (place_before g.count i j < g.count)
          × (g.edge (place_before g.count i j) (place_before g.count i k) ≡ true))
after_removal g i j k hi hj hk = ground arith

pub matrices-IsPetgraph : IsPetgraph matrices
matrices-IsPetgraph = record {
  indices_lem = λ g. refl;
  weight_some = λ g j h. (g.step j, ground arith);
  weight_lt = λ g j s e. ground arith;
  count-empty = refl;
  index-add_node = λ g s. refl;
  weight-add_node = λ g s j. ground arith;
  neighbors-add_node = λ g s j k.
      iff_via (neighbor_iff (matrices.add_node g s).0 j k) (neighbor_iff g j k) (after_node g j k);
  weight-add_edge = λ g a b j ha hb. refl;
  neighbors-add_edge = λ g a b j k ha hb.
      iff_via (neighbor_iff (matrices.add_edge g a b) j k) (or_iff (neighbor_iff g j k))
        (after_edge g a b j k ha hb);
  neighbor_lt = λ g j k m. let h = (neighbor_iff g j k).0 m in (h.1, h.0);
  count-remove = λ g i h. refl;
  weight-remove = λ g i j hi hj. ground arith;
  neighbors-remove = λ g i j k hi hj hk.
      iff_via (neighbor_iff (matrices.remove_node g i) j k)
        (neighbor_iff g (place_before g.count i j) (place_before g.count i k))
        (after_removal g i j k hi hj hk);
}
