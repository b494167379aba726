-- ===== src/Frontend/Naming/Shadowing.antt =====
-- frontend/src/analysis/naming.rs: parameters and the declarations around them.
use rtlola.Common.{
  ◌≡◌, arith, none, some, Option-cases, inl, inr, List, [], ◌∷◌, String, ok, assert, expect, Post,
  Post-any, Post-bind, Post-ok,
}
use text.Mathlib.TextEquality.{eq_iff}
use rtlola.Frontend.Ast.{Parameter}
use rtlola.Frontend.Naming.{
  Declaration, ScopedDecl, is_type, get_name, get_span, get_decl_for, get_decl_in_current_scope_for,
  add_scoped, push,
}
use rtlola.Frontend.Naming.Scoping.{get_decl_for-store}
use rtlola.Frontend.Naming.Expressions.{Log, Env, check_type}
use rtlola.Frontend.Naming.Specs.{
  with_declarations, add_decl_for, add_param, check_param, check_params,
}

-- In the scopes `name` stands for `d`.
abbrev pub StandsFor : String → Declaration → ScopedDecl → Type 0
StandsFor name d scopes = get_decl_for scopes name ≡ some d

abbrev pub Keeps : String → Declaration → ScopedDecl × Log → Type 0
Keeps name d s = StandsFor name d s.0

-- a new name leaves the others
add_scoped-StandsFor :
    (scopes : ScopedDecl) (name k : String) (d e : Declaration)
    → StandsFor name d scopes
    → get_decl_for scopes k ≡ none
    → Post (StandsFor name d) (add_scoped scopes k e)
unfolding add_scoped
add_scoped-StandsFor [] name k d e h n = λ s eq. cc
add_scoped-StandsFor (scope ∷ scopes) name k d e h n =
    Post-ok (StandsFor name d) _
      (ground (arith, get_decl_for-store scope scopes k name e, eq_iff k name, h, n))

add_param-Keeps :
    (scopes : ScopedDecl) (p : Parameter) (log : Log) (name : String) (d : Declaration)
    → StandsFor name d scopes
    → Post (Keeps name d) (add_param scopes p log)
unfolding add_param add_decl_for is_type get_name get_span
add_param-Keeps scopes p log name d h = elim (Option-cases (get_decl_for scopes p.name.name)) [
  | inl e ↦
      rw (e, add_param)
        (Post-any (get_decl_in_current_scope_for scopes p.name.name) _ λ found.
          elim (Option-cases found) [
            | inr (previous, f) ↦ rw f (Post-ok (Keeps name d) _ h)
            | inl f ↦ rw f (
                Post-bind _ _
                  (add_scoped-StandsFor scopes name p.name.name d (Declaration.param p) h e)
                  λ scopes' h'. Post-ok (Keeps name d) _ h')
          ])
  | inr (d', e) ↦
      rw (e, add_param)
        (Post-any (assert _) _ λ _.
          Post-any (get_decl_in_current_scope_for scopes p.name.name) _ λ found.
            elim (Option-cases found) [
              | inl f ↦ rw f (Post-ok (Keeps name d) _ h)
              | inr (previous, f) ↦
                  rw f (Post-any (expect (get_span previous)) _ λ span. Post-ok (Keeps name d) _ h)
            ])
]

Keeps-all :
    (env : Env) (scopes : ScopedDecl) (ps : List Parameter) (log : Log) (name : String)
    (d : Declaration)
    → StandsFor name d scopes
    → Post (Keeps name d) (check_params (with_declarations env scopes) ps log)
unfolding check_params check_param
Keeps-all env scopes [] log name d h = Post-ok (Keeps name d) _ h
Keeps-all env scopes (p ∷ ps) log name d h =
    Post-bind (check_param (with_declarations env scopes) p log) _
      (Post-bind _ _ (add_param-Keeps scopes p log name d h) λ (s, log') h'.
        Post-any (check_type (with_declarations env s) p.ty log') _
          λ log''. Post-ok (Keeps name d) (s, log'') h')
      λ (s, log') h'. Keeps-all env s ps log' name d h'

-- The parameters of a stream do not hide what is declared outside: a name that stands for a
-- declaration there stands for the same one after the parameters are checked, also where one of
-- them has this name.
pub check_params-StandsFor :
    (env : Env) (ps : List Parameter) (log log' : Log) (scopes : ScopedDecl) (name : String)
    (d : Declaration)
    → StandsFor name d env.declarations
    → check_params (with_declarations env (push env.declarations)) ps log ≡ ok (scopes, log')
    → StandsFor name d scopes
unfolding push get_decl_for
check_params-StandsFor env ps log log' scopes name d h e =
    Keeps-all env (push env.declarations) ps log name d h (scopes, log') e
