-- ===== src/Frontend/Naming/Closing.antt =====
-- frontend/src/analysis/naming.rs: the scopes that the analysis opens for parameters, outputs and
-- triggers are closed again, and no assertion fails on the way.
use rtlola.Common.{
  ◌≡◌, refl, sym, subst, true, Option, none, some, Option-cases, inl, inr, List, [], ◌∷◌, String,
  Returns, Returns-ok, Returns-bind, Returns-assert,
}
use rtlola.Frontend.Ast.{Parameter, Expression, TemplateSpec, InvokeSpec, ExtendSpec, TerminateSpec}
use rtlola.Frontend.Graph.{Span}
use rtlola.Frontend.Naming.{
  Declaration, Scope, find, ScopedDecl, get_span, get_name, is_type, is_function, get_decl_for,
  get_decl_in_current_scope_for, add_scoped,
}
use rtlola.Frontend.Naming.Scoping.{Only, Only-store, get_decl_for-find}
use rtlola.Frontend.Naming.Expressions.{Log, Env}
use rtlola.Frontend.Naming.Returns.{
  Anything, is_user, is_user-is_type, check_type-Returns, check_expression-Returns,
}
use rtlola.Frontend.Naming.Specs.{
  with_declarations, add_param, add_decl_for, check_param, check_params, check_template,
  check_optional, check_invoke, check_extend, check_terminate,
}

is_user-get_name : (d : Declaration) → is_user d ≡ true → (name : String) × (get_name d ≡ some name)
unfolding get_name
is_user-get_name (Declaration.const c) h = (_, refl)
is_user-get_name (Declaration.in_decl c) h = (_, refl)
is_user-get_name (Declaration.out c) h = (_, refl)
is_user-get_name (Declaration.param_out c) h = (_, refl)
is_user-get_name (Declaration.type_decl _) h = cc
is_user-get_name (Declaration.param c) h = (_, refl)
is_user-get_name (Declaration.func _) h = cc

is_user-get_span : (d : Declaration) → is_user d ≡ true → (span : Span) × (get_span d ≡ some span)
unfolding get_span
is_user-get_span (Declaration.const c) h = (_, refl)
is_user-get_span (Declaration.in_decl c) h = (_, refl)
is_user-get_span (Declaration.out c) h = (_, refl)
is_user-get_span (Declaration.param_out c) h = (_, refl)
is_user-get_span (Declaration.type_decl _) h = cc
is_user-get_span (Declaration.param c) h = (_, refl)
is_user-get_span (Declaration.func _) h = cc

-- One scope is open inside `outer`.
abbrev pub IsOpen : ScopedDecl → ScopedDecl → Type 0
IsOpen outer d = (scope : Scope) × (d ≡ scope ∷ outer) × Only is_user d

abbrev pub Opens : ScopedDecl → ScopedDecl × Log → Type 0
Opens outer s = IsOpen outer s.0

abbrev pub Chosen {ℓ} : {A : Type ℓ} → A → Type 0
Chosen a = Unit {0}

pub add_decl_for-Returns :
    (scope : Scope) (outer : ScopedDecl) (log : Log) (decl : Declaration)
    → Only is_user (scope ∷ outer)
    → is_user decl ≡ true
    → Returns (Opens outer) (add_decl_for (scope ∷ outer, log) decl)
unfolding add_decl_for get_decl_in_current_scope_for add_scoped
add_decl_for-Returns scope outer log decl h u =
    let (name, en) = is_user-get_name decl u in
    let (span, es) = is_user-get_span decl u in
    Returns-assert _ _ (is_user-is_type decl u) (
      rw (en, es)
        (elim (Option-cases (find scope name)) [
          | inl e ↦
              rw e
                (Returns-ok (Opens outer) _ (_, refl, Only-store is_user scope outer name decl h u))
          | inr (d, e) ↦ rw e (Returns-ok (Opens outer) _ (scope, refl, h))
        ]))

module _ (env : Env) (ht : Only is_type env.type_declarations)
    (hf : Only is_function env.fun_declarations) where
  add_param-Returns :
      (scope : Scope) (outer : ScopedDecl) (p : Parameter) (log : Log)
      → Only is_user (scope ∷ outer)
      → Returns (Opens outer) (add_param (scope ∷ outer) p log)
  unfolding add_param get_decl_in_current_scope_for
  add_param-Returns scope outer p log h =
      elim (Option-cases (get_decl_for (scope ∷ outer) p.name.name)) [
        | inl e ↦
            rw (e, add_param) (add_decl_for-Returns scope outer log (Declaration.param p) h refl)
        | inr (d, e) ↦
            rw (e, add_param)
              (Returns-assert _ _ (is_user-is_type d (h p.name.name d e))
                (elim (Option-cases (find scope p.name.name)) [
                  | inl e' ↦ rw e' (Returns-ok (Opens outer) _ (scope, refl, h))
                  | inr (d', e') ↦
                      let found = get_decl_for-find scope outer p.name.name d' e' in
                      let (span, es) = is_user-get_span d' (h p.name.name d' found) in
                      rw (e', es) (Returns-ok (Opens outer) _ (scope, refl, h))
                ]))
      ]

  check_param-Returns :
      (d outer : ScopedDecl) (p : Parameter) (log : Log)
      → IsOpen outer d
      → Returns (Opens outer) (check_param (with_declarations env d) p log)
  unfolding check_param
  check_param-Returns d outer p log (scope, e, h) =
      Returns-bind _ _
        (subst (λ d. Returns (Opens outer) (add_param d p log)) (sym e)
          (add_param-Returns scope outer p log (subst (Only is_user) e h)))
        λ (d1, log1) (scope1, e1, h1).
          Returns-bind _ _ (check_type-Returns (with_declarations env d1) (h1, ht, hf) p.ty log1)
            λ log2 _. Returns-ok (Opens outer) _ (scope1, e1, h1)

  pub check_params-Returns :
      (d outer : ScopedDecl) (ps : List Parameter) (log : Log)
      → IsOpen outer d
      → Returns (Opens outer) (check_params (with_declarations env d) ps log)
  unfolding check_params
  check_params-Returns d outer [] log h = Returns-ok (Opens outer) _ h
  check_params-Returns d outer (p ∷ ps) log h =
      Returns-bind _ _ (check_param-Returns d outer p log h)
        λ (d1, log1) h1. check_params-Returns d1 outer ps log1 h1

  -- an optional part of an output
  pub check_optional-Returns :
      (d : ScopedDecl) (expr : Option Expression) (log : Log)
      → Only is_user d
      → Returns Anything (check_optional (with_declarations env d) expr log)
  unfolding check_optional
  check_optional-Returns d none log h = Returns-ok Anything _ tt
  check_optional-Returns d (some expr) log h =
      check_expression-Returns (with_declarations env d) (h, ht, hf) expr log

  check_invoke-Returns :
      (d : ScopedDecl) (invoke : Option InvokeSpec) (log : Log)
      → Only is_user d
      → Returns Anything (check_invoke (with_declarations env d) invoke log)
  unfolding check_invoke
  check_invoke-Returns d none log h = Returns-ok Anything _ tt
  check_invoke-Returns d (some invoke) log h =
      Returns-bind _ _
        (check_expression-Returns (with_declarations env d) (h, ht, hf) invoke.target log)
        λ l _. check_optional-Returns d invoke.condition l h

  check_extend-Returns :
      (d : ScopedDecl) (extend : Option ExtendSpec) (log : Log)
      → Only is_user d
      → Returns Anything (check_extend (with_declarations env d) extend log)
  unfolding check_extend
  check_extend-Returns d none log h = Returns-ok Anything _ tt
  check_extend-Returns d (some extend) log h =
      check_expression-Returns (with_declarations env d) (h, ht, hf) extend.target log

  check_terminate-Returns :
      (d : ScopedDecl) (terminate : Option TerminateSpec) (log : Log)
      → Only is_user d
      → Returns Anything (check_terminate (with_declarations env d) terminate log)
  unfolding check_terminate
  check_terminate-Returns d none log h = Returns-ok Anything _ tt
  check_terminate-Returns d (some terminate) log h =
      check_expression-Returns (with_declarations env d) (h, ht, hf) terminate.target log

  pub check_template-Returns :
      (d : ScopedDecl) (template : Option TemplateSpec) (log : Log)
      → Only is_user d
      → Returns Anything (check_template (with_declarations env d) template log)
  unfolding check_template
  check_template-Returns d none log h = Returns-ok Anything _ tt
  check_template-Returns d (some t) log h =
      Returns-bind _ _ (check_invoke-Returns d t.inv log h) λ l1 _.
        Returns-bind _ _ (check_extend-Returns d t.ext l1 h)
          λ l2 _. check_terminate-Returns d t.ter l2 h
