-- ===== src/Frontend/Graph/ComputationGraph/Needed.antt =====
-- frontend/src/analysis/graph_based_analysis/evaluation_order.rs: what a step of a stream needs of
-- another stream, stated by when the values exist, and that the edge of a dependency is exactly that.
use rtlola.Common.{
  ℕ, zero, suc, ◌==◌, ==_iff, some, Option, ◌≡◌, refl, sym, ap, ◌∙◌, some-injective, ◌↔◌,
  Bool-cases, inl, inr, if-true, if-false, ==_false→ne,
}
use rtlola.Common.Int.{ℤ, pos, negsuc}
use rtlola.Frontend.Graph.{
  ComputeStep, TimeOffset, Offset, Location, StreamDependency, access, invoke_by_name, Span,
}
use rtlola.Frontend.Graph.ComputationGraph.{Part, part_of, computation_edge}
use rtlola.Frontend.Graph.ComputationGraph.Streams.{step_of}

-- The step in which a stream reads what its template accesses at a location.
abbrev pub reading_step : Location → ℕ → ComputeStep
reading_step Location.invoke id = ComputeStep.invoke id
reading_step Location.extend id = ComputeStep.extend id
reading_step Location.terminate id = ComputeStep.terminate id
reading_step Location.expression id = ComputeStep.evaluate id

-- For the dependency `d` of the stream `source` on the stream `target`, the step `v` needs the step
-- `w`. The instances of a stream that invokes by name come from the value of the target. A value of
-- the same time is there once the target is evaluated; one from before `n + 1` values is there once
-- it is known whether the target gets a new value, that is when it is extended. A value held over a
-- real-time interval up to now, and a window over another stream, are read in the expression and take
-- in the value of now. A window of a stream over itself ends before its new value, and nothing is
-- needed for values of the future.
pub data NeedsStep (d : StreamDependency) (source target : ℕ) (v w : ComputeStep) : Type 0 where
  invokes :
      (span : Span)
      → d ≡ invoke_by_name span
      → v ≡ ComputeStep.invoke source
      → w ≡ ComputeStep.evaluate target
      → NeedsStep d source target v w
  reads_now :
      (location : Location) (span : Span)
      → d ≡ access location (Offset.discrete (pos 0)) span
      → v ≡ reading_step location source
      → w ≡ ComputeStep.evaluate target
      → NeedsStep d source target v w
  reads_past :
      (location : Location) (n : ℕ) (span : Span)
      → d ≡ access location (Offset.discrete (negsuc n)) span
      → v ≡ reading_step location source
      → w ≡ ComputeStep.extend target
      → NeedsStep d source target v w
  reads_up_to_now :
      (location : Location) (duration : ℤ × ℕ) (span : Span)
      → d ≡ access location (Offset.time (TimeOffset.up_to_now duration)) span
      → v ≡ ComputeStep.evaluate source
      → w ≡ ComputeStep.evaluate target
      → NeedsStep d source target v w
  reads_window :
      (location : Location) (span : Span)
      → d ≡ access location Offset.sliding_window span
      → ¬ (source ≡ target)
      → v ≡ ComputeStep.evaluate source
      → w ≡ ComputeStep.evaluate target
      → NeedsStep d source target v w

-- the edge that the code adds
abbrev pub Linked : StreamDependency → ℕ → ℕ → ComputeStep → ComputeStep → Type 0
Linked d source target v w =
    (p q : Part) × (computation_edge d source target ≡ some (p, q))
    × (v ≡ step_of p source)
    × (w ≡ step_of q target)

part_of_lem :
    (location : Location) (id : ℕ) → step_of (part_of location) id ≡ reading_step location id
unfolding part_of
part_of_lem Location.invoke id = refl
part_of_lem Location.extend id = refl
part_of_lem Location.terminate id = refl
part_of_lem Location.expression id = refl

-- the ends of an edge whose parts are known
pub ends_of :
    (o : Option (Part × Part)) (a b p q : Part) (source target : ℕ) (v w : ComputeStep)
    → o ≡ some (p, q)
    → o ≡ some (a, b)
    → v ≡ step_of p source
    → w ≡ step_of q target
    → (v ≡ step_of a source) × (w ≡ step_of b target)
ends_of o a b p q source target v w h k ev ew =
    let same : (p, q) ≡ (a, b) = some-injective (sym h ∙ k) in
    (
      ev ∙ ap (λ (x : Part × Part). step_of x.0 source) same,
      ew ∙ ap (λ (x : Part × Part). step_of x.1 target) same,
    )

NeedsStep-of :
    (d : StreamDependency) (source target : ℕ) (v w : ComputeStep)
    → Linked d source target v w
    → NeedsStep d source target v w
unfolding computation_edge
NeedsStep-of (invoke_by_name span) source target v w (p, q, edge, ev, ew) =
    let (hv, hw) = ends_of _ Part.invoke Part.evaluate p q source target v w edge refl ev ew in
    invokes span refl hv hw
NeedsStep-of (access l (Offset.discrete (pos zero)) span) source target v w (p, q, edge, ev, ew) =
    let (hv, hw) = ends_of _ (part_of l) Part.evaluate p q source target v w edge refl ev ew in
    reads_now l span refl (hv ∙ part_of_lem l source) hw
NeedsStep-of (access l (Offset.discrete (negsuc n)) span) source target v w (p, q, edge, ev, ew) =
    let (hv, hw) = ends_of _ (part_of l) Part.extend p q source target v w edge refl ev ew in
    reads_past l n span refl (hv ∙ part_of_lem l source) hw
NeedsStep-of (access l (Offset.discrete (pos (suc n))) span) source target v w
      (p, q, edge, ev, ew) =
    cc
NeedsStep-of (access l (Offset.time (TimeOffset.up_to_now t)) span) source target v w
      (p, q, edge, ev, ew) =
    let (hv, hw) = ends_of _ Part.evaluate Part.evaluate p q source target v w edge refl ev ew in
    reads_up_to_now l t span refl hv hw
NeedsStep-of (access l (Offset.time (TimeOffset.future t)) span) source target v w
      (p, q, edge, ev, ew) =
    cc
NeedsStep-of (access l Offset.sliding_window span) source target v w (p, q, edge, ev, ew) =
    elim (Bool-cases (source == target)) [
      | inl same ↦ let clash = sym (if-true (source == target) _ _ same) ∙ edge in cc
      | inr other ↦
          let (hv, hw) =
            ends_of _ Part.evaluate Part.evaluate p q source target v w edge
              (if-false (source == target) _ _ other) ev ew in
          reads_window l span refl (==_false→ne source target other) hv hw
    ]

Linked-of :
    (d : StreamDependency) (source target : ℕ) (v w : ComputeStep)
    → NeedsStep d source target v w
    → Linked d source target v w
unfolding computation_edge
Linked-of d source target v w (invokes span e ev ew) =
    (Part.invoke, Part.evaluate, ap (λ x. computation_edge x source target) e, ev, ew)
Linked-of d source target v w (reads_now l span e ev ew) = (
  part_of l,
  Part.evaluate,
  ap (λ x. computation_edge x source target) e,
  ev ∙ sym (part_of_lem l source),
  ew,
)
Linked-of d source target v w (reads_past l n span e ev ew) = (
  part_of l,
  Part.extend,
  ap (λ x. computation_edge x source target) e,
  ev ∙ sym (part_of_lem l source),
  ew,
)
Linked-of d source target v w (reads_up_to_now l t span e ev ew) =
    (Part.evaluate, Part.evaluate, ap (λ x. computation_edge x source target) e, ev, ew)
Linked-of d source target v w (reads_window l span e other ev ew) = (
  Part.evaluate,
  Part.evaluate,
  ap (λ x. computation_edge x source target) e ∙ elim (Bool-cases (source == target)) [
    | inl same ↦ absurd (other ((==_iff source target).0 same))
    | inr differ ↦ if-false (source == target) _ _ differ
  ],
  ev,
  ew,
)

-- The edge that the code adds for a dependency links exactly the steps of which one needs the other.
pub computation_edge-NeedsStep :
    (d : StreamDependency) (source target : ℕ) (v w : ComputeStep)
    → Linked d source target v w ↔ NeedsStep d source target v w
computation_edge-NeedsStep d source target v w =
    (NeedsStep-of d source target v w, Linked-of d source target v w)
