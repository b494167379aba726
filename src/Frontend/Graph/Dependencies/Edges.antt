-- ===== src/Frontend/Graph/Dependencies/Edges.antt =====
-- frontend/src/analysis/graph_based_analysis/dependency_graph.rs: the edges that one access to a
-- stream calls for.
use rtlola.Common.{
  ℕ, Bool, true, false, Option, none, some, Option-cases, some-injective, List, [], ◌∷◌, ◌++◌,
  Outcome, ok, ◌>>=◌, expect, ◌≡◌, refl, sym, ap, subst, ◌∙◌, inl, inr, Post, Post-bind, Post-ok,
}
use rtlola.Common.Int.{pos}
use rtlola.Common.Sets.{lookup, mem-append}
use rtlola.Frontend.Ast.{Expression, expr_node, ExpressionKind}
use rtlola.Frontend.Naming.{Declaration}
use rtlola.Frontend.Graph.{Span, Offset, Location, access, StreamDependency, EdgeReference}
use rtlola.Frontend.Graph.Dependencies.{
  Crates, AddsEdges, edge_between, stream_id_of, add_access, add_ident, add_direct,
}
use rtlola.Frontend.Graph.Dependencies.Reads.{
  Manner, Read, direct, IsStream, offset_of, CallsFor, Adds,
}

-- A declaration is at most one stream.
IsStream-unique : (d : Option Declaration) (s t : ℕ) → IsStream d s → IsStream d t → s ≡ t
IsStream-unique d s t (inl (i, e, p)) (inl (j, f, q)) = cc
IsStream-unique d s t (inl (i, e, p)) (inr (j, f, q)) = cc
IsStream-unique d s t (inr (i, e, p)) (inl (j, f, q)) = cc
IsStream-unique d s t (inr (i, e, p)) (inr (j, f, q)) = cc

abbrev is_stream : Declaration → Bool
is_stream (Declaration.in_decl _) = true
is_stream (Declaration.out _) = true
is_stream _ = false

stream_id_of-IsStream : (d : Option Declaration) → Post (IsStream d) (stream_id_of d)
unfolding stream_id_of
stream_id_of-IsStream none = λ s e. cc
stream_id_of-IsStream (some (Declaration.out o)) = Post-ok (IsStream _) _ (inr (o, refl, refl))
stream_id_of-IsStream (some (Declaration.in_decl i)) = Post-ok (IsStream _) _ (inl (i, refl, refl))
stream_id_of-IsStream (some _) = λ s e. cc

module _ (c : Crates) (law : AddsEdges c) (naming_table : List (ℕ × Declaration))
    (mapping : List (ℕ × ℕ)) (current_node : ℕ) (location : Location) where
  open c use {G, edges}

  abbrev Added : List Read → G → G → Type 0
  Added rs g g' = Adds c naming_table mapping current_node location rs g g'

  abbrev Called : Read → EdgeReference StreamDependency → Type 0
  Called r e = CallsFor c naming_table mapping current_node location r e

  -- an identifier that calls for nothing
  Added-silent :
      (r : Read) (g : G) → ((s : ℕ) → ¬ IsStream (lookup naming_table r.id) s) → Added (r ∷ []) g g
  Added-silent r g silent e = (
    (λ h. inl h),
    (λ h. elim h [
      | inl old ↦ old
      | inr (q, inr never, rest) ↦ absurd never
      | inr (q, inl same, (s, t, o, st, found, ho, edge)) ↦
          absurd (silent s (subst (λ r. IsStream (lookup naming_table r.id) s) same st))
    ]),
  )

  pub Added-nil : (g : G) → Added [] g g
  Added-nil g e =
      ((λ h. inl h), (λ h. elim h [ inl old ↦ old | inr (r, never, rest) ↦ absurd never ]))

  Added-append :
      (rs ss : List Read) (g h k : G) → Added rs g h → Added ss h k → Added (rs ++ ss) g k
  Added-append rs ss g h k a b e = (
    (λ m. elim ((b e).0 m) [
      | inr (r, mem, call) ↦ inr (r, (mem-append r rs ss).1 (inr mem), call)
      | inl mid ↦ elim ((a e).0 mid) [
        | inl old ↦ inl old
        | inr (r, mem, call) ↦ inr (r, (mem-append r rs ss).1 (inl mem), call)
      ]
    ]),
    (λ m. elim m [
      | inl old ↦ (b e).1 (inl ((a e).1 (inl old)))
      | inr (r, mem, call) ↦ elim ((mem-append r rs ss).0 mem) [
        | inl first ↦ (b e).1 (inl ((a e).1 (inr (r, first, call))))
        | inr second ↦ (b e).1 (inr (r, second, call))
      ]
    ]),
  )

  unique_edge :
      (r q : Read) (s s' t t' : ℕ) (o o' : Offset) (e : EdgeReference StreamDependency)
      → q ≡ r
      → IsStream (lookup naming_table r.id) s
      → lookup mapping s ≡ some t
      → offset_of c r.manner ≡ ok o
      → IsStream (lookup naming_table q.id) s'
      → lookup mapping s' ≡ some t'
      → offset_of c q.manner ≡ ok o'
      → e ≡ edge_between current_node t' (access location o' q.span)
      → e ≡ edge_between current_node t (access location o r.span)
  unique_edge r q s s' t t' o o' e same st found ho st' found' ho' edge =
      let streams : s' ≡ s =
        IsStream-unique (lookup naming_table r.id) s' s
          (subst (λ r. IsStream (lookup naming_table r.id) s') same st') st in
      let targets : some t' ≡ some t = sym found' ∙ ap (lookup mapping) streams ∙ found in
      let offsets : ok o' ≡ ok o = sym ho' ∙ ap (λ r. offset_of c r.manner) same ∙ ho in
      let spans : q.span ≡ r.span = ap (λ r. r.span) same in edge ∙ cc

  add_access-Added :
      (r : Read) (stream_id : ℕ) (offset : Offset) (g : G)
      → IsStream (lookup naming_table r.id) stream_id
      → offset_of c r.manner ≡ ok offset
      → Post
          (Added (r ∷ []) g)
          (add_access c naming_table mapping current_node location offset r.span stream_id g)
  unfolding add_access
  add_access-Added r stream_id offset g st ho = elim (Option-cases (lookup mapping stream_id)) [
    | inl n ↦ rw (n, add_access) (λ g' e. cc)
    | inr (target, found) ↦
        rw (found, add_access)
          (Post-ok (Added (r ∷ []) g) _ (λ e. (
            (λ m. elim ((law g current_node target (access location offset r.span) e).0 m) [
              | inl old ↦ inl old
              | inr same ↦ inr (r, inl refl, (stream_id, target, offset, st, found, ho, same))
            ]),
            (λ m. (law g current_node target (access location offset r.span) e).1 (elim m [
              | inl old ↦ inl old
              | inr (q, inr never, rest) ↦ absurd never
              | inr (q, inl same, (s', t', o', st', found', ho', edge)) ↦ inr (
                  unique_edge r q stream_id s' target t' offset o' e same st found ho st' found' ho'
                    edge)
            ])),
          )))
  ]

  -- a declaration that is no stream
  not-IsStream :
      (r : Read) (d : Declaration)
      → lookup naming_table r.id ≡ some d
      → is_stream d ≡ false
      → (s : ℕ) → ¬ IsStream (lookup naming_table r.id) s
  not-IsStream r d e no_stream s (inl (i, f, p)) =
      let yes_stream : is_stream d ≡ true =
        subst (λ d. is_stream d ≡ true) (sym (some-injective (sym e ∙ f))) refl in
      cc
  not-IsStream r d e no_stream s (inr (o, f, p)) =
      let yes_stream : is_stream d ≡ true =
        subst (λ d. is_stream d ≡ true) (sym (some-injective (sym e ∙ f))) refl in
      cc

  skip :
      (r : Read) (d : Declaration) (g : G)
      → lookup naming_table r.id ≡ some d
      → is_stream d ≡ false
      → Post (Added (r ∷ []) g) (ok g)
  skip r d g e no_stream =
      Post-ok (Added (r ∷ []) g) g (Added-silent r g (not-IsStream r d e no_stream))

  pub add_ident-Added :
      (r : Read) (d : Option Declaration) (g : G)
      → lookup naming_table r.id ≡ d
      → offset_of c r.manner ≡ ok (Offset.discrete (pos 0))
      → Post (Added (r ∷ []) g) (add_ident c naming_table mapping current_node location r.span d g)
  unfolding add_ident
  add_ident-Added r none g e h = λ g' x. cc
  add_ident-Added r (some (Declaration.in_decl i)) g e h =
      add_access-Added r i.id (Offset.discrete (pos 0)) g (inl (i, e, refl)) h
  add_ident-Added r (some (Declaration.out o)) g e h =
      add_access-Added r o.id (Offset.discrete (pos 0)) g (inr (o, e, refl)) h
  add_ident-Added r (some (Declaration.const x)) g e h = skip r (Declaration.const x) g e refl
  add_ident-Added r (some (Declaration.type_decl x)) g e h =
      skip r (Declaration.type_decl x) g e refl
  add_ident-Added r (some (Declaration.param x)) g e h = skip r (Declaration.param x) g e refl
  add_ident-Added r (some (Declaration.func x)) g e h = skip r (Declaration.func x) g e refl
  add_ident-Added r (some (Declaration.param_out x)) g e h = λ g' x. cc

  -- an access at an offset or through a window, by the node of the identifier
  direct_access-Added :
      (r : Read) (g : G)
      → Post (Added (r ∷ []) g) (
          stream_id_of (lookup naming_table r.id) >>= λ stream_id.
          offset_of c r.manner >>= λ offset.
          add_access c naming_table mapping current_node location offset r.span stream_id g)
  direct_access-Added r g =
      Post-bind _ _ (stream_id_of-IsStream (lookup naming_table r.id)) λ stream_id st.
        Post-bind {P = λ offset. offset_of c r.manner ≡ ok offset} (offset_of c r.manner) _
          (λ offset e. e) λ offset ho. add_access-Added r stream_id offset g st ho

  add_direct-Added :
      (kind : ExpressionKind) (id : ℕ) (span : Span) (manner : Manner) (g : G)
      → Post (Added (direct (expr_node kind id span) manner) g) (
          add_direct c naming_table mapping current_node location
            (expr_node kind id span)
            (offset_of c manner)
            g)
  unfolding add_direct
  add_direct-Added (ExpressionKind.ident x) id span manner g =
      direct_access-Added (record { id = id; span = span; manner = manner }) g
  add_direct-Added _ id span manner g = λ g' x. cc

  pub add_below-Added :
      (expr : Expression) (manner : Manner) (g : G)
      → Post
          (Added (direct expr manner) g)
          (add_direct c naming_table mapping current_node location expr (offset_of c manner) g)
  add_below-Added (expr_node kind id span) manner g = add_direct-Added kind id span manner g

  pub chain :
      (rs ss : List Read) (g : G) (m : Outcome G) (f : G → Outcome G)
      → Post (Added rs g) m
      → ((h : G) → Post (Added ss h) (f h))
      → Post (Added (rs ++ ss) g) (m >>= f)
  chain rs ss g m f p q = Post-bind m f p λ h a k e. Added-append rs ss g h k a (q h k e)

  -- a number that may not be one
  pub by_number :
      (o : Option ℕ) (rs : ℕ → List Read) (f : ℕ → G → Outcome G) (g : G)
      → ((n : ℕ) → Post (Added (rs n) g) (f n g))
      → Post (Added (elim o [ none ↦ [] | some n ↦ rs n ]) g) (expect o >>= λ n. f n g)
  by_number none rs f g h = λ g' x. cc
  by_number (some n) rs f g h = h n
