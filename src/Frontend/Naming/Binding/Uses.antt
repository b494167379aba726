-- ===== src/Frontend/Naming/Binding/Uses.antt =====
-- frontend/src/analysis/naming.rs: the analysis of an expression goes through the names of it.
use rtlola.Common.{
  ℕ, ◌≡◌, refl, sym, ap, ◌∙◌, Option, none, some, Option-cases, inl, inr, List, [], ◌∷◌, ◌++◌, map,
  String, Outcome, ok, ◌>>=◌, >>=-step, >>-step, Returns,
}
use rtlola.Common.Sets.{◌∈◌, IsDistinct, lookup}
use rtlola.Frontend.Ast.{
  Ident, FunctionName, Ty, type_node, TypeKind, Tys, Expression, expr_node, ExpressionKind,
  Expressions,
}
use rtlola.Frontend.Graph.{Span}
use rtlola.Frontend.Stdlib.{to_string}
use rtlola.Frontend.Naming.{Declaration, get_decl_for}
use rtlola.Frontend.Naming.Expressions.{
  Log, Env, check_simple, check_type, check_types, check_ident, check_param_out, check_function,
  check_expression, check_kind, check_expressions,
}
use rtlola.Frontend.Naming.Returns.{is_user-is_type, IsWell}
use rtlola.Frontend.Naming.Binding.{
  Use, type_use, ident_use, function_use, use_id, callable, first_of, resolve, uses_ty, uses_tys,
  uses, uses_kind, uses_all, note_as, note_all, complaints, note_all-append, note_all-reported,
  lookup-note_all,
}

module _ (env : Env) (well : IsWell env) where
  -- Two parts that go through their names do so together.
  chain :
      (us vs : List Use) {m : Outcome Log} {f : Log → Outcome Log} (log : Log)
      → m ≡ ok (note_all env log us)
      → ((l : Log) → f l ≡ ok (note_all env l vs))
      → (m >>= f) ≡ ok (note_all env log (us ++ vs))
  chain us vs log h k =
      >>=-step _ _ h ∙ k (note_all env log us) ∙ ap ok (sym (note_all-append env log us vs))

  check_simple-note :
      (name : String) (id : ℕ) (span : Span) (log : Log)
      → check_simple env name id span log ≡ ok (note_all env log (type_use name id span ∷ []))
  unfolding check_simple
  check_simple-note name id span log =
      elim (Option-cases (get_decl_for env.type_declarations name)) [
        | inl e ↦ rw (e, check_simple) refl
        | inr (d, e) ↦ rw (e, check_simple) (>>-step _ _ (well.1 name d e))
      ]

  check_ident-note :
      (id : ℕ) (ident : Ident) (log : Log)
      → check_ident env id ident log ≡ ok (note_all env log (ident_use id ident ∷ []))
  unfolding check_ident
  check_ident-note id ident log = elim (Option-cases (get_decl_for env.declarations ident.name)) [
    | inl e ↦ rw (e, check_ident) refl
    | inr (d, e) ↦ rw (e, check_ident) (>>-step _ _ (is_user-is_type d (well.0 ident.name d e)))
  ]

  check_param_out-note :
      (id : ℕ) (name : FunctionName) (o : Option Declaration) (log : Log)
      → check_param_out env id name o log
        ≡ note_as log (function_use id name) (first_of none (callable o))
  unfolding check_param_out
  check_param_out-note id name none log = refl
  check_param_out-note id name (some (Declaration.param_out d)) log = refl
  check_param_out-note id name (some (Declaration.const d)) log = refl
  check_param_out-note id name (some (Declaration.in_decl d)) log = refl
  check_param_out-note id name (some (Declaration.out d)) log = refl
  check_param_out-note id name (some (Declaration.type_decl d)) log = refl
  check_param_out-note id name (some (Declaration.param d)) log = refl
  check_param_out-note id name (some (Declaration.func d)) log = refl

  check_function-note :
      (id : ℕ) (name : FunctionName) (log : Log)
      → check_function env id name log ≡ ok (note_all env log (function_use id name ∷ []))
  unfolding check_function
  check_function-note id name log =
      elim (Option-cases (get_decl_for env.fun_declarations (to_string name))) [
        | inl e ↦
            rw (e, check_function)
              (ap ok
                (check_param_out-note id name (get_decl_for env.declarations name.name.name) log))
        | inr (d, e) ↦ rw (e, check_function) (>>-step _ _ (well.2 (to_string name) d e))
      ]

  mutual
    unfolding check_type uses_ty

    check_type-note :
        (ty : Ty) (log : Log) → check_type env ty log ≡ ok (note_all env log (uses_ty ty))
    check_type-note (type_node (TypeKind.simple name) id span) log =
        check_simple-note name id span log
    check_type-note (type_node (TypeKind.tuple tys) id span) log = check_types-note tys log
    check_type-note (type_node (TypeKind.optional ty) id span) log = check_type-note ty log
    check_type-note (type_node TypeKind.inferred id span) log = refl

    check_types-note :
        (tys : Tys) (log : Log) → check_types env tys log ≡ ok (note_all env log (uses_tys tys))
    check_types-note Tys.nil log = refl
    check_types-note (Tys.cons ty tys) log =
        chain (uses_ty ty) (uses_tys tys) log (check_type-note ty log) (check_types-note tys)

  mutual
    unfolding check_expression uses

    check_expression-note :
        (e : Expression) (log : Log) → check_expression env e log ≡ ok (note_all env log (uses e))
    check_expression-note (expr_node kind id span) log = check_kind-note kind id log

    check_kind-note :
        (kind : ExpressionKind) (id : ℕ) (log : Log)
        → check_kind env kind id log ≡ ok (note_all env log (uses_kind kind id))
    check_kind-note (ExpressionKind.ident name) id log = check_ident-note id name log
    check_kind-note (ExpressionKind.stream_access e _) id log = check_expression-note e log
    check_kind-note (ExpressionKind.offset e _) id log = check_expression-note e log
    check_kind-note (ExpressionKind.sliding_window_aggregation e d _ _) id log =
        chain (uses e) (uses d) log (check_expression-note e log) (check_expression-note d)
    check_kind-note (ExpressionKind.binary _ a b) id log =
        chain (uses a) (uses b) log (check_expression-note a log) (check_expression-note b)
    check_kind-note (ExpressionKind.lit _) id log = refl
    check_kind-note ExpressionKind.missing_expression id log = refl
    check_kind-note (ExpressionKind.ite c a b) id log =
        chain (uses c) (uses a ++ uses b) log (check_expression-note c log)
          λ l. chain (uses a) (uses b) l (check_expression-note a l) (check_expression-note b)
    check_kind-note (ExpressionKind.parenthesized_expression _ e _) id log =
        check_expression-note e log
    check_kind-note (ExpressionKind.unary _ e) id log = check_expression-note e log
    check_kind-note (ExpressionKind.field e _) id log = check_expression-note e log
    check_kind-note (ExpressionKind.tuple es) id log = check_expressions-note es log
    check_kind-note (ExpressionKind.function name tys es) id log =
        chain (function_use id name ∷ []) (uses_tys tys ++ uses_all es) log
          (check_function-note id name log)
          λ l.
            chain (uses_tys tys) (uses_all es) l (check_types-note tys l)
              (check_expressions-note es)
    check_kind-note (ExpressionKind.default a b) id log =
        chain (uses a) (uses b) log (check_expression-note a log) (check_expression-note b)
    check_kind-note (ExpressionKind.method e _ tys es) id log =
        chain (uses e) (uses_tys tys ++ uses_all es) log (check_expression-note e log) λ l.
          chain (uses_tys tys) (uses_all es) l (check_types-note tys l) (check_expressions-note es)

    check_expressions-note :
        (es : Expressions) (log : Log)
        → check_expressions env es log ≡ ok (note_all env log (uses_all es))
    check_expressions-note Expressions.nil log = refl
    check_expressions-note (Expressions.cons e es) log =
        chain (uses e) (uses_all es) log (check_expression-note e log) (check_expressions-note es)

-- The log after an expression: a complaint for each name that stands for nothing, in the order of
-- the text, and each occurrence bound to what the name stands for.
abbrev pub IsBound : Env → Log → Expression → Log → Type 0
IsBound env log e log' =
    (log'.reported ≡ log.reported ++ complaints env (uses e))
    × ((u : Use)
        → u ∈ uses e
        → lookup log'.result (use_id u) ≡ first_of (resolve env u) (lookup log.result (use_id u)))

-- Let the declared values, types and functions be kept apart, and let the nodes of an expression
-- have different identifiers. Then its analysis returns; it reports the names that stand for
-- nothing, in the order of the text, and nothing else; and in the table every occurrence of a name
-- is bound to what the name stands for in the innermost scope, or as before where it stands for
-- nothing.
pub check_expression-Binds :
    (env : Env) (e : Expression) (log : Log)
    → IsWell env
    → IsDistinct (map use_id (uses e))
    → Returns (IsBound env log e) (check_expression env e log)
check_expression-Binds env e log well d = (
  note_all env log (uses e),
  check_expression-note env well e log,
  (note_all-reported env log (uses e), λ u m. lookup-note_all env log (uses e) u d m),
)
