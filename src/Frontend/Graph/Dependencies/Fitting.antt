-- ===== src/Frontend/Graph/Dependencies/Fitting.antt =====
-- frontend/src/analysis/graph_based_analysis/dependency_graph.rs: expressions on which the analysis
-- does not panic.
use rtlola.Common.{
  ℕ, zero, suc, Bool, true, false, ◌&&◌, and_parts, Option, none, some, List, [], ◌++◌, Outcome, ok,
  ◌>>=◌, expect, ◌≡◌, refl, ◌⊎◌, inl, inr, Returns, Returns-bind,
}
use rtlola.Common.Int.{pos}
use rtlola.Common.Sets.{◌∈◌, lookup, mem-append}
use rtlola.Frontend.Ast.{Expression, expr_node, ExpressionKind, Expressions}
use rtlola.Frontend.Naming.{Declaration}
use rtlola.Frontend.Naming.Specs.{codes}
use rtlola.Frontend.Graph.{Span, Offset, Location}
use rtlola.Frontend.Graph.Dependencies.{
  Crates, parse_usize, stream_id_of, add_access, add_ident, add_direct, add_edges_for_expression,
}
use rtlola.Frontend.Graph.Dependencies.Reads.{Manner, now, Read, direct, IsStream, offset_of}

-- Offsets and windows stand on identifiers, and a field of a tuple is one of its components. The
-- checks after parsing demand the first, and that a field is a number.
abbrev pub is_ident : Expression → Bool
is_ident (expr_node (ExpressionKind.ident _) _ _) = true
is_ident _ = false

unfoldable mutual
  pub is_shaped : Expression → Bool
  is_shaped (expr_node kind id span) = is_shaped_kind kind

  pub is_shaped_kind : ExpressionKind → Bool
  is_shaped_kind (ExpressionKind.tuple es) = are_shaped es
  is_shaped_kind (ExpressionKind.function _ _ es) = are_shaped es
  is_shaped_kind ExpressionKind.missing_expression = true
  is_shaped_kind (ExpressionKind.lit _) = true
  is_shaped_kind (ExpressionKind.default a b) = is_shaped a && is_shaped b
  is_shaped_kind (ExpressionKind.parenthesized_expression _ e _) = is_shaped e
  is_shaped_kind (ExpressionKind.unary _ e) = is_shaped e
  is_shaped_kind (ExpressionKind.stream_access e _) = is_shaped e
  is_shaped_kind (ExpressionKind.ite c a b) = is_shaped c && (is_shaped a && is_shaped b)
  is_shaped_kind (ExpressionKind.binary _ a b) = is_shaped a && is_shaped b
  is_shaped_kind (ExpressionKind.ident _) = true
  is_shaped_kind (ExpressionKind.offset e _) = is_ident e
  is_shaped_kind (ExpressionKind.sliding_window_aggregation e _ _ _) = is_ident e
  is_shaped_kind (ExpressionKind.field e ident) = elim (parse_usize (codes ident.name)) [
    | none ↦ false
    | some num ↦ is_shaped_field e num
  ]
  is_shaped_kind (ExpressionKind.method e _ _ es) = is_shaped e && are_shaped es

  pub is_shaped_field : Expression → ℕ → Bool
  is_shaped_field (expr_node (ExpressionKind.tuple es) id span) num = is_shaped_nth es num
  is_shaped_field (expr_node kind id span) num = is_shaped_kind kind

  pub is_shaped_nth : Expressions → ℕ → Bool
  is_shaped_nth Expressions.nil num = false
  is_shaped_nth (Expressions.cons e es) zero = is_shaped e
  is_shaped_nth (Expressions.cons e es) (suc num) = is_shaped_nth es num

  pub are_shaped : Expressions → Bool
  are_shaped Expressions.nil = true
  are_shaped (Expressions.cons e es) = is_shaped e && are_shaped es

-- A name that is no stream, and is no output with parameters either.
abbrev pub is_silent : Declaration → Bool
is_silent (Declaration.const _) = true
is_silent (Declaration.type_decl _) = true
is_silent (Declaration.param _) = true
is_silent (Declaration.func _) = true
is_silent _ = false

abbrev pub Anything {ℓ} : {A : Type ℓ} → A → Type 0
Anything a = Unit {0}

module _ (c : Crates) (naming_table : List (ℕ × Declaration)) (mapping : List (ℕ × ℕ))
    (current_node : ℕ) (location : Location) where
  open c use {G}

  -- The name stands for a stream that has a node, and the time of an offset can be computed.
  abbrev pub FindsStream : Read → Type 0
  FindsStream r =
      (stream_id : ℕ) × (target : ℕ) × (offset : Offset) × IsStream (lookup naming_table r.id)
        stream_id
      × (lookup mapping stream_id ≡ some target)
      × (offset_of c r.manner ≡ ok offset)

  -- Or its value now is asked for, and it is a constant, a parameter, a function or a type.
  abbrev pub Finds : Read → Type 0
  Finds r =
      FindsStream r
      ⊎ ((r.manner ≡ now)
          × ((d : Declaration) × (lookup naming_table r.id ≡ some d) × (is_silent d ≡ true)))

  -- Every name in the list is found.
  abbrev pub AllFound : List Read → Type 0
  AllFound rs = (r : Read) → r ∈ rs → Finds r

  abbrev go : Expression → G → Outcome G
  go = add_edges_for_expression c naming_table mapping current_node location

  add_access-Returns :
      (offset : Offset) (span : Span) (s t : ℕ) (g : G)
      → lookup mapping s ≡ some t
      → Returns Anything (add_access c naming_table mapping current_node location offset span s g)
  unfolding add_access
  add_access-Returns offset span s t g h = rw (h, add_access) (_, refl, tt)

  silent-Returns :
      (span : Span) (d : Declaration) (g : G)
      → is_silent d ≡ true
      → Returns Anything (add_ident c naming_table mapping current_node location span (some d) g)
  unfolding add_ident
  silent-Returns span (Declaration.const x) g h = (g, refl, tt)
  silent-Returns span (Declaration.type_decl x) g h = (g, refl, tt)
  silent-Returns span (Declaration.param x) g h = (g, refl, tt)
  silent-Returns span (Declaration.func x) g h = (g, refl, tt)
  silent-Returns span (Declaration.in_decl x) g h = cc
  silent-Returns span (Declaration.out x) g h = cc
  silent-Returns span (Declaration.param_out x) g h = cc

  pub add_ident-Returns :
      (r : Read) (g : G)
      → Finds r
      → Returns Anything (
          add_ident c naming_table mapping current_node location r.span
            (lookup naming_table r.id)
            g)
  unfolding add_ident
  add_ident-Returns r g (inl (s, t, o, inl (i, e, p), found, ho)) =
      rw (e, add_ident) (add_access-Returns (Offset.discrete (pos 0)) r.span i.id t g (rw p found))
  add_ident-Returns r g (inl (s, t, o, inr (i, e, p), found, ho)) =
      rw (e, add_ident) (add_access-Returns (Offset.discrete (pos 0)) r.span i.id t g (rw p found))
  add_ident-Returns r g (inr (_, (d, e, h))) = rw e (silent-Returns r.span d g h)

  stream_id_of-Returns :
      (d : Option Declaration) (s : ℕ) → IsStream d s → Returns (λ q. q ≡ s) (stream_id_of d)
  unfolding stream_id_of
  stream_id_of-Returns d s (inl (i, e, p)) = rw e (i.id, refl, p)
  stream_id_of-Returns d s (inr (o, e, p)) = rw e (o.id, refl, p)

  add_direct-Returns :
      (kind : ExpressionKind) (id : ℕ) (span : Span) (manner : Manner) (g : G)
      → ¬ (manner ≡ now)
      → is_ident (expr_node kind id span) ≡ true
      → AllFound (direct (expr_node kind id span) manner)
      → Returns Anything (
          add_direct c naming_table mapping current_node location
            (expr_node kind id span)
            (offset_of c manner)
            g)
  unfolding add_direct
  add_direct-Returns (ExpressionKind.ident x) id span manner g later h all =
      elim (all _ (inl refl)) [
        | inr (is_now, rest) ↦ absurd (later is_now)
        | inl (s, t, o, st, found, ho) ↦
            Returns-bind _ _ (stream_id_of-Returns (lookup naming_table id) s st) λ q e.
              Returns-bind {P = Anything} _ _ (o, ho, tt)
                λ o' _. add_access-Returns o' span q t g (rw e found)
      ]
  add_direct-Returns _ id span manner g later h all = cc

  pub below-Returns :
      (e : Expression) (manner : Manner) (g : G)
      → ¬ (manner ≡ now)
      → is_ident e ≡ true
      → AllFound (direct e manner)
      → Returns Anything
          (add_direct c naming_table mapping current_node location e (offset_of c manner) g)
  below-Returns (expr_node kind id span) manner g later h all =
      add_direct-Returns kind id span manner g later h all

  -- two parts, one after the other
  pub both :
      (rs ss : List Read) (a b : Bool) (m : Outcome G) (f : G → Outcome G)
      → (a && b) ≡ true
      → AllFound (rs ++ ss)
      → (a ≡ true → AllFound rs → Returns Anything m)
      → (b ≡ true → AllFound ss → (g : G) → Returns Anything (f g))
      → Returns Anything (m >>= f)
  both rs ss a b m f h all p q =
      let (ha, hb) = and_parts a b h in
      Returns-bind {P = Anything} m f (p ha (λ r x. all r ((mem-append r rs ss).1 (inl x))))
        λ g _. q hb (λ r x. all r ((mem-append r rs ss).1 (inr x))) g

  pub by_number :
      (o : Option ℕ) (rs : ℕ → List Read) (p : ℕ → Bool) (f : ℕ → G → Outcome G) (g : G)
      → elim o [ none ↦ false | some n ↦ p n ] ≡ true
      → AllFound (elim o [ none ↦ [] | some n ↦ rs n ])
      → ((n : ℕ) → p n ≡ true → AllFound (rs n) → Returns Anything (f n g))
      → Returns Anything (expect o >>= λ n. f n g)
  by_number none rs p f g h all k = cc
  by_number (some n) rs p f g h all k = k n h all
