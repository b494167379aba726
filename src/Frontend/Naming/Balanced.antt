-- ===== src/Frontend/Naming/Balanced.antt =====
-- frontend/src/analysis/naming.rs: the analysis of outputs and triggers leaves the declarations as
-- they were.
use rtlola.Common.{
  ◌≡◌, refl, sym, subst, Option-cases, inl, inr, List, [], ◌∷◌, String, Returns, Returns-ok,
  Returns-bind,
}
use rtlola.Frontend.Ast.{Output, Trigger}
use rtlola.Frontend.Naming.{
  Declaration, Scope, ScopedDecl, is_type, is_function, get_decl_in_current_scope_for, add_scoped,
  push, pop,
}
use rtlola.Frontend.Naming.Scoping.{Only, Only-push, Only-store}
use rtlola.Frontend.Naming.Expressions.{Log, Env}
use rtlola.Frontend.Naming.Returns.{is_user, check_expression-Returns}
use rtlola.Frontend.Naming.Closing.{
  IsOpen, Opens, Chosen, check_params-Returns, check_template-Returns, check_optional-Returns,
}
use rtlola.Frontend.Naming.Specs.{
  with_declarations, check_inside, check_output, check_outputs, find_trigger, check_trigger_name,
  check_triggers,
}

-- The declarations are those of before.
abbrev pub Restores : ScopedDecl → ScopedDecl × Log → Type 0
Restores d s = s.0 ≡ d

-- `self` is added to the scope of an output.
self-Returns :
    (outer d : ScopedDecl) (output : Output)
    → IsOpen outer d
    → Returns (IsOpen outer) (add_scoped d "self" (Declaration.out output))
unfolding add_scoped
self-Returns outer d output (scope, e, h) = rw e (
    Returns-ok (IsOpen outer) _ (
      _,
      refl,
      Only-store is_user scope outer "self" (Declaration.out output) (subst (Only is_user) e h)
          refl,
    ))

-- Closing the scope gives what was there before.
pub pop-Returns :
    (scope s : Scope) (outer d : ScopedDecl)
    → d ≡ scope ∷ s ∷ outer
    → Returns (λ d'. d' ≡ s ∷ outer) (pop d)
unfolding pop
pop-Returns scope s outer d e = rw e (Returns-ok (λ d'. d' ≡ s ∷ outer) _ refl)

module _ (env : Env) (ht : Only is_type env.type_declarations)
    (hf : Only is_function env.fun_declarations) where
  check_inside-Returns :
      (d outer : ScopedDecl) (output : Output) (log : Log)
      → IsOpen outer d
      → Returns (Opens outer) (check_inside (with_declarations env d) output log)
  unfolding check_inside
  check_inside-Returns d outer output log o =
      Returns-bind _ _ (check_params-Returns env ht hf d outer output.params log o)
        λ (d1, log1) (s1, e1, h1).
          Returns-bind _ _ (check_template-Returns env ht hf d1 output.template_spec log1 h1)
            λ log2 _.
              Returns-bind _ _ (check_optional-Returns env ht hf d1 output.extend.expr log2 h1)
                λ log3 _.
                  Returns-bind _ _ (check_optional-Returns env ht hf d1 output.termination log3 h1)
                    λ log4 _.
                      Returns-bind _ _ (self-Returns outer d1 output (s1, e1, h1))
                        λ d2 (s2, e2, h2).
                          Returns-bind _ _
                            (check_expression-Returns (with_declarations env d2) (h2, ht, hf)
                              output.expression log4)
                            λ log5 _. Returns-ok (Opens outer) _ (s2, e2, h2)

  -- Let the declared values, types and functions be kept apart. Then the analysis of an output
  -- returns, and the declarations after it are those of before: the scope that it opens for
  -- parameters and `self` is closed again.
  pub check_output-Returns :
      (s : Scope) (outer : ScopedDecl) (output : Output) (log : Log)
      → Only is_user (s ∷ outer)
      → Returns (Restores (s ∷ outer)) (check_output (with_declarations env (s ∷ outer)) output log)
  unfolding check_output push
  check_output-Returns s outer output log h =
      Returns-bind _ _
        (check_inside-Returns (push (s ∷ outer)) (s ∷ outer) output log
          ([], refl, Only-push is_user (s ∷ outer) h))
        λ (inner, log') (scope, e, _).
          Returns-bind _ _ (pop-Returns scope s outer inner e)
            λ d e'. Returns-ok (Restores (s ∷ outer)) (d, log') e'

  pub check_outputs-Returns :
      (s : Scope) (outer d : ScopedDecl) (outputs : List Output) (log : Log)
      → Only is_user (s ∷ outer)
      → d ≡ s ∷ outer
      → Returns (Restores (s ∷ outer)) (check_outputs (with_declarations env d) outputs log)
  unfolding check_outputs
  check_outputs-Returns s outer d [] log h e = Returns-ok (Restores (s ∷ outer)) _ e
  check_outputs-Returns s outer d (output ∷ outputs) log h e =
      Returns-bind _ _ (rw e (check_output-Returns s outer output log h))
        λ (d1, log1) e1. check_outputs-Returns s outer d1 outputs log1 h e1

  check_trigger_name-Returns :
      (s : Scope) (outer d : ScopedDecl) (names : List (String × Trigger)) (trigger : Trigger)
      (log : Log)
      → d ≡ s ∷ outer
      → Returns Chosen (check_trigger_name d names trigger log)
  unfolding check_trigger_name get_decl_in_current_scope_for
  check_trigger_name-Returns s outer d names trigger log e = elim (Option-cases trigger.name) [
    | inl n ↦ rw (n, check_trigger_name) (Returns-ok Chosen _ tt)
    | inr (ident, n) ↦
        rw (n, e, check_trigger_name)
          (elim (Option-cases (find_trigger names ident.name)) [
            | inl f ↦ rw f (Returns-ok Chosen _ tt)
            | inr (t, f) ↦ rw f (Returns-ok Chosen _ tt)
          ])
  ]

  pub check_triggers-Returns :
      (s : Scope) (outer d : ScopedDecl) (names : List (String × Trigger)) (triggers : List Trigger)
      (log : Log)
      → Only is_user (s ∷ outer)
      → d ≡ s ∷ outer
      → Returns (Restores (s ∷ outer)) (check_triggers (with_declarations env d) names triggers log)
  unfolding check_triggers push
  check_triggers-Returns s outer d names [] log h e = Returns-ok (Restores (s ∷ outer)) _ e
  check_triggers-Returns s outer d names (t ∷ ts) log h e =
      Returns-bind _ _ (check_trigger_name-Returns s outer d names t log e) λ (names', log1) _.
        Returns-bind _ _
          (check_expression-Returns (with_declarations env (push d))
            (Only-push is_user d (subst (Only is_user) (sym e) h), ht, hf) t.expression log1)
          λ log2 _.
            Returns-bind _ _ (pop-Returns [] s outer (push d) (rw e refl))
              λ d' e'. check_triggers-Returns s outer d' names' ts log2 h e'
