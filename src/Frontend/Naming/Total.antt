-- ===== src/Frontend/Naming/Total.antt =====
-- frontend/src/analysis/naming.rs: the analysis returns for every specification.
use rtlola.Common.{
  ◌≡◌, refl, sym, subst, Bool, true, Bool-cases, Option, none, some, inl, inr, List, [], ◌∷◌,
  String, ok, Returns, Returns-ok, Returns-bind,
}
use text.Mathlib.Text.{◌==◌}
use rtlola.Frontend.Ast.{Import, Constant, Input, Output, RtLolaAst, Ty}
use rtlola.Frontend.Stdlib.{FuncDecl, to_string}
use rtlola.Frontend.ValueTy.{ValueTy}
use rtlola.Frontend.ValueTy.Primitive.{TypeConfig, primitive_types}
use rtlola.Frontend.Naming.{
  Declaration, Scope, ScopedDecl, is_type, is_function, new, push, get_decl_for, add_scoped,
  add_fun_decl,
}
use rtlola.Frontend.Naming.Scoping.{Only, Only-push, Only-store}
use rtlola.Frontend.Naming.Expressions.{Log, Env}
use rtlola.Frontend.Naming.Returns.{Anything, is_user, check_type-Returns}
use rtlola.Frontend.Naming.Closing.{Opens, Chosen, add_decl_for-Returns, check_params-Returns}
use rtlola.Frontend.Naming.Balanced.{pop-Returns, check_outputs-Returns, check_triggers-Returns}
use rtlola.Frontend.Naming.Specs.{with_declarations, add_decl_for}
use rtlola.Frontend.Naming.Check.{
  add_funs, import_implicit_module, import_math_module, import_regex_module, import_one, import_all,
  add_types, with_functions, new_analysis, check_type_of, declare_constants, declare_input,
  declare_inputs, output_declaration, declare_outputs, check_streams, check,
}

-- There is one scope, and its declarations pass the test.
abbrev pub IsGlobal : (Declaration → Bool) → ScopedDecl → Type 0
IsGlobal p d = (scope : Scope) × (d ≡ scope ∷ []) × Only p d

IsGlobal-new : (p : Declaration → Bool) → IsGlobal p new
unfolding new get_decl_for
IsGlobal-new p = ([], refl, λ name d e. cc)

add_scoped-Returns :
    (p : Declaration → Bool) (d : ScopedDecl) (name : String) (decl : Declaration)
    → IsGlobal p d
    → p decl ≡ true
    → Returns (IsGlobal p) (add_scoped d name decl)
unfolding add_scoped
add_scoped-Returns p d name decl (scope, e, h) q =
    rw e
      (Returns-ok (IsGlobal p) _ (_, refl, Only-store p scope [] name decl (subst (Only p) e h) q))

add_funs-Returns :
    (d : ScopedDecl) (funs : List FuncDecl)
    → IsGlobal is_function d
    → Returns (IsGlobal is_function) (add_funs d funs)
unfolding add_funs add_fun_decl is_function
add_funs-Returns d [] h = Returns-ok (IsGlobal is_function) d h
add_funs-Returns d (fun ∷ funs) h =
    Returns-bind _ _
      (add_scoped-Returns is_function d (to_string fun.name) (Declaration.func fun) h refl)
      λ d' h'. add_funs-Returns d' funs h'

abbrev pub Imports : ScopedDecl × Log → Type 0
Imports s = IsGlobal is_function s.0

import_one-Returns :
    (import : Import) (d : ScopedDecl) (log : Log)
    → IsGlobal is_function d
    → Returns Imports (import_one import d log)
unfolding import_one import_math_module import_regex_module
import_one-Returns import d log h = elim (Bool-cases (import.name.name == "math")) [
  | inl e ↦
      rw e (Returns-bind _ _ (add_funs-Returns d _ h) λ d' h'. Returns-ok Imports (d', log) h')
  | inr e ↦ rw e (elim (Bool-cases (import.name.name == "regex")) [
    | inl f ↦
        rw f (Returns-bind _ _ (add_funs-Returns d _ h) λ d' h'. Returns-ok Imports (d', log) h')
    | inr f ↦ rw f (Returns-ok Imports _ h)
  ])
]

import_all-Returns :
    (imports : List Import) (d : ScopedDecl) (log : Log)
    → IsGlobal is_function d
    → Returns Imports (import_all imports d log)
unfolding import_all
import_all-Returns [] d log h = Returns-ok Imports _ h
import_all-Returns (i ∷ is) d log h =
    Returns-bind _ _ (import_one-Returns i d log h)
      λ (d', log') h'. import_all-Returns is d' log' h'

add_types-Returns :
    (d : ScopedDecl) (tys : List (String × ValueTy))
    → IsGlobal is_type d
    → Returns (IsGlobal is_type) (add_types d tys)
unfolding add_types is_type
add_types-Returns d [] h = Returns-ok (IsGlobal is_type) d h
add_types-Returns d ((name, ty) ∷ tys) h =
    Returns-bind _ _ (add_scoped-Returns is_type d name (Declaration.type_decl ty) h refl)
      λ d' h'. add_types-Returns d' tys h'

module _ (env : Env) (ht : Only is_type env.type_declarations)
    (hf : Only is_function env.fun_declarations) where
  -- a declaration at the top, and the type that stands with it
  declare-Returns :
      (d : ScopedDecl) (log : Log) (decl : Declaration)
      → IsGlobal is_user d
      → is_user decl ≡ true
      → Returns (Opens []) (add_decl_for (d, log) decl)
  declare-Returns d log decl (scope, e, h) u =
      rw e (add_decl_for-Returns scope [] log decl (subst (Only is_user) e h) u)

  check_type_of-Returns :
      (d : ScopedDecl) (ty : Option Ty) (log : Log)
      → Only is_user d
      → Returns Anything (check_type_of (with_declarations env d) ty log)
  unfolding check_type_of
  check_type_of-Returns d none log h = Returns-ok Anything _ tt
  check_type_of-Returns d (some ty) log h =
      check_type-Returns (with_declarations env d) (h, ht, hf) ty log

  declare_constants-Returns :
      (d : ScopedDecl) (cs : List Constant) (log : Log)
      → IsGlobal is_user d
      → Returns (Opens []) (declare_constants (with_declarations env d) cs log)
  unfolding declare_constants
  declare_constants-Returns d [] log h = Returns-ok (Opens []) _ h
  declare_constants-Returns d (c ∷ cs) log h =
      Returns-bind _ _ (declare-Returns d log (Declaration.const c) h refl) λ (d1, log1) h1.
        Returns-bind _ _ (check_type_of-Returns d1 c.ty log1 h1.2)
          λ log2 _. declare_constants-Returns d1 cs log2 h1

  declare_input-Returns :
      (d : ScopedDecl) (input : Input) (log : Log)
      → IsGlobal is_user d
      → Returns (Opens []) (declare_input (with_declarations env d) input log)
  unfolding declare_input push
  declare_input-Returns d input log h =
      Returns-bind _ _ (declare-Returns d log (Declaration.in_decl input) h refl)
        λ (d1, log1) (s1, e1, h1).
          Returns-bind _ _
            (check_type-Returns (with_declarations env d1) (h1, ht, hf) input.ty log1)
            λ log2 _.
              Returns-bind _ _
                (check_params-Returns env ht hf (push d1) d1 input.params log2
                  ([], refl, Only-push is_user d1 h1))
                λ (d3, log3) (s3, e3, _).
                  Returns-bind _ _ (pop-Returns s3 s1 [] d3 (subst (λ d. d3 ≡ s3 ∷ d) e1 e3))
                    λ d4 e4.
                      Returns-ok (Opens []) (d4, log3)
                        (s1, e4, subst (Only is_user) (sym e4) (subst (Only is_user) e1 h1))

  declare_inputs-Returns :
      (d : ScopedDecl) (inputs : List Input) (log : Log)
      → IsGlobal is_user d
      → Returns (Opens []) (declare_inputs (with_declarations env d) inputs log)
  unfolding declare_inputs
  declare_inputs-Returns d [] log h = Returns-ok (Opens []) _ h
  declare_inputs-Returns d (i ∷ is) log h =
      Returns-bind _ _ (declare_input-Returns d i log h)
        λ (d1, log1) h1. declare_inputs-Returns d1 is log1 h1

  declare_outputs-Returns :
      (d : ScopedDecl) (outputs : List Output) (log : Log)
      → IsGlobal is_user d
      → Returns (Opens []) (declare_outputs (with_declarations env d) outputs log)
  unfolding declare_outputs output_declaration
  declare_outputs-Returns d [] log h = Returns-ok (Opens []) _ h
  declare_outputs-Returns d (o ∷ os) log h =
      Returns-bind _ _
        (declare-Returns d log (output_declaration o) h
          (elim o.params
            as (λ ps.
              is_user (elim ps [ [] ↦ Declaration.out o | _ ∷ _ ↦ Declaration.param_out o ])
              ≡ true) [ [] ↦ refl | _ ∷ _ ↦ refl ]))
        λ (d1, log1) h1.
          Returns-bind _ _ (check_type-Returns (with_declarations env d1) (h1.2, ht, hf) o.ty log1)
            λ log2 _. declare_outputs-Returns d1 os log2 h1

  check_streams-Returns :
      (d : ScopedDecl) (spec : RtLolaAst) (log : Log)
      → IsGlobal is_user d
      → Returns Chosen (check_streams (with_declarations env d) spec log)
  unfolding check_streams
  check_streams-Returns d spec log h =
      Returns-bind _ _ (declare_constants-Returns d spec.constants log h) λ (d1, log1) h1.
        Returns-bind _ _ (declare_inputs-Returns d1 spec.inputs log1 h1) λ (d2, log2) h2.
          Returns-bind _ _ (declare_outputs-Returns d2 spec.outputs log2 h2)
            λ (d3, log3) (s, e, h3).
              let only = subst (Only is_user) e h3 in
              Returns-bind _ _ (check_outputs-Returns env ht hf s [] d3 spec.outputs log3 only e)
                λ (d4, log4) e4.
                  let (s', e', _) =
                    check_triggers-Returns env ht hf s [] d4 [] spec.trigger log4 only e4 in
                  (s', e', tt)

abbrev pub IsReady : Env × Log → Type 0
IsReady s =
    IsGlobal is_user s.0.declarations
    × Only is_type s.0.type_declarations
    × IsGlobal is_function s.0.fun_declarations

new_analysis-Returns : (config : TypeConfig) → Returns IsReady (new_analysis config)
unfolding new_analysis
new_analysis-Returns config =
    Returns-bind _ _ (add_types-Returns new (primitive_types config) (IsGlobal-new is_type))
      λ types h.
        Returns-ok IsReady _
          (IsGlobal-new is_user, Only-push is_type types h.2, IsGlobal-new is_function)

check-total : (config : TypeConfig) (spec : RtLolaAst) → Returns Anything (check config spec)
unfolding check import_implicit_module
check-total config spec = Returns-bind _ _ (new_analysis-Returns config) λ (env, log) (hd, ht, hf).
    Returns-bind _ _ (add_funs-Returns env.fun_declarations _ hf) λ funs hf1.
      Returns-bind _ _ (import_all-Returns spec.imports funs log hf1) λ (funs', log1) hf2.
        Returns-bind _ _
          (check_streams-Returns (with_functions env funs') ht hf2.2 env.declarations spec log1 hd)
          λ (_, log2) _. Returns-ok Anything log2 tt

-- The analysis of names returns for every specification: no assertion in it fails.
pub check-Returns :
    (config : TypeConfig) (spec : RtLolaAst) → (log : Log) × (check config spec ≡ ok log)
check-Returns config spec = let (log, e, _) = check-total config spec in (log, e)
