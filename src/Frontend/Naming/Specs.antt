-- ===== src/Frontend/Naming/Specs.antt =====
-- `NamingAnalysis` of frontend/src/analysis/naming.rs: the analysis of a whole specification. What
-- the analysis keeps is its declarations and its log. Names are ASCII text, as in the grammar.
use Prim.Native.Char.{code}
use Prim.Native.String.{String as Text}
use rtlola.Common.{
  ℕ, ◌+◌, leb, ◌==◌, Bool, true, false, ◌&&◌, not, if◌then◌else◌, Option, none, some, List, [], ◌∷◌,
  ◌++◌, map, any, String, Outcome, ok, ◌>>=◌, ◌>>◌, assert, expect,
}
use text.Mathlib.Text.{◌==◌ as str_eq}
use rtlola.Frontend.Ast.{
  Ident, Output, Parameter, Trigger, Expression, TemplateSpec, InvokeSpec, ExtendSpec,
  TerminateSpec,
}
use rtlola.Frontend.Graph.{Span}
use rtlola.Frontend.Naming.{
  Declaration, ScopedDecl, get_span, get_name, is_type, push, pop, get_decl_for,
  get_decl_in_current_scope_for, add_scoped,
}
use rtlola.Frontend.Naming.Expressions.{Report, Log, Env, report, check_type, check_expression}

abbrev pub keywords : List String
keywords =
    "input" ∷ "output" ∷ "trigger" ∷ "import" ∷ "type" ∷ "self" ∷ "include" ∷ "invoke" ∷ "inv"
    ∷ "extend" ∷ "ext" ∷ "terminate" ∷ "ter" ∷ "unless" ∷ "if" ∷ "then" ∷ "else" ∷ "and" ∷ "or"
    ∷ "not" ∷ "forall" ∷ "exists" ∷ "any" ∷ "true" ∷ "false" ∷ "error" ∷ []

-- the characters of a text, and `to_lowercase` on ASCII text
abbrev pub codes : String → List ℕ
codes Text.[] = []
codes (Text.◌∷◌ c s) = code c ∷ codes s

unfoldable pub to_lowercase : ℕ → ℕ
to_lowercase c = if leb b'A' c && leb c b'Z' then c + 32 else c

unfoldable pub same_codes : List ℕ → List ℕ → Bool
same_codes [] [] = true
same_codes (c ∷ cs) (d ∷ ds) = c == d && same_codes cs ds
same_codes _ _ = false

unfoldable pub is_keyword : String → Bool
is_keyword name = any (λ k. same_codes (map to_lowercase (codes name)) (codes k)) keywords

abbrev pub with_declarations : Env → ScopedDecl → Env
with_declarations env declarations = record {
  declarations = declarations;
  type_declarations = env.type_declarations;
  fun_declarations = env.fun_declarations;
}

unfoldable pub check_keyword : String → Span → Log → Log
check_keyword name span log =
    if is_keyword name then report log (Report.reserved_keyword name span) else log

-- `NamingAnalysis::add_decl_for`
unfoldable pub add_decl_for : ScopedDecl × Log → Declaration → Outcome (ScopedDecl × Log)
add_decl_for (declarations, log) decl = do
  assert (not (is_type decl))
  name ← expect (get_name decl)
  span ← expect (get_span decl)
  found ← get_decl_in_current_scope_for declarations name
  let log' = check_keyword name span log
  elim found [
    | some previous ↦
        ok (declarations, report log' (Report.defined_multiple_times name span (get_span previous)))
    | none ↦ do declarations' ← add_scoped declarations name decl; ok (declarations', log')
  ]

-- The first half of `check_param`, which checks the name.
unfoldable pub add_param : ScopedDecl → Parameter → Log → Outcome (ScopedDecl × Log)
add_param declarations p log = elim (get_decl_for declarations p.name.name) [
  | none ↦ add_decl_for (declarations, log) (Declaration.param p)
  | some decl ↦ do
    assert (not (is_type decl))
    found ← get_decl_in_current_scope_for declarations p.name.name
    elim found [
      | none ↦ ok (declarations, log)
      | some previous ↦ do
        span ← expect (get_span previous)
        ok (declarations, report log (Report.parameter_used_twice p.name.name p.name.span span))
    ]
]

unfoldable pub check_param : Env → Parameter → Log → Outcome (ScopedDecl × Log)
check_param env p log = do
  (declarations, log') ← add_param env.declarations p log
  log'' ← check_type (with_declarations env declarations) p.ty log'
  ok (declarations, log'')

unfoldable pub check_params : Env → List Parameter → Log → Outcome (ScopedDecl × Log)
check_params env [] log = ok (env.declarations, log)
check_params env (p ∷ ps) log = do
  (declarations, log') ← check_param env p log
  check_params (with_declarations env declarations) ps log'

unfoldable pub check_optional : Env → Option Expression → Log → Outcome Log
check_optional env none log = ok log
check_optional env (some expr) log = check_expression env expr log

unfoldable pub check_invoke : Env → Option InvokeSpec → Log → Outcome Log
check_invoke env none log = ok log
check_invoke env (some invoke) log = do
  log' ← check_expression env invoke.target log
  check_optional env invoke.condition log'

unfoldable pub check_extend : Env → Option ExtendSpec → Log → Outcome Log
check_extend env none log = ok log
check_extend env (some extend) log = check_expression env extend.target log

unfoldable pub check_terminate : Env → Option TerminateSpec → Log → Outcome Log
check_terminate env none log = ok log
check_terminate env (some terminate) log = check_expression env terminate.target log

unfoldable pub check_template : Env → Option TemplateSpec → Log → Outcome Log
check_template env none log = ok log
check_template env (some template) log = do
  log1 ← check_invoke env template.inv log
  log2 ← check_extend env template.ext log1
  check_terminate env template.ter log2

-- what `check_outputs` does of one output between `push` and `pop`
unfoldable pub check_inside : Env → Output → Log → Outcome (ScopedDecl × Log)
check_inside env output log = do
  (d1, log1) ← check_params env output.params log
  let env1 = with_declarations env d1
  log2 ← check_template env1 output.template_spec log1
  log3 ← check_optional env1 output.extend.expr log2
  log4 ← check_optional env1 output.termination log3
  d2 ← add_scoped d1 "self" (Declaration.out output)
  log5 ← check_expression (with_declarations env d2) output.expression log4
  ok (d2, log5)

-- one round of `check_outputs`
unfoldable pub check_output : Env → Output → Log → Outcome (ScopedDecl × Log)
check_output env output log = do
  (inner, log') ← check_inside (with_declarations env (push env.declarations)) output log
  outer ← pop inner
  ok (outer, log')

unfoldable pub check_outputs : Env → List Output → Log → Outcome (ScopedDecl × Log)
check_outputs env [] log = ok (env.declarations, log)
check_outputs env (output ∷ outputs) log = do
  (declarations, log') ← check_output env output log
  check_outputs (with_declarations env declarations) outputs log'

-- the first earlier trigger of a name
abbrev pub find_trigger : List (String × Trigger) → String → Option Trigger
find_trigger [] name = none
find_trigger ((other, t) ∷ names) name =
    if str_eq name other then some t else find_trigger names name

unfoldable pub report_declared : Ident → Option Declaration → Log → Log
report_declared ident none log = log
report_declared ident (some decl) log =
    report log (Report.defined_multiple_times ident.name ident.span (get_span decl))

unfoldable pub check_trigger_name :
    ScopedDecl → List (String × Trigger) → Trigger → Log → Outcome (List (String × Trigger) × Log)
check_trigger_name declarations names trigger log = elim trigger.name [
  | none ↦ ok (names, log)
  | some ident ↦ do
    found ← get_decl_in_current_scope_for declarations ident.name
    let log' = report_declared ident found log
    elim (find_trigger names ident.name) [
      | none ↦ ok (names ++ ((ident.name, trigger) ∷ []), log')
      | some previous ↦ ok (
        names,
        report log' (Report.trigger_defined_multiple_times ident.name ident.span previous.span),
      )
    ]
]

unfoldable pub check_triggers :
    Env → List (String × Trigger) → List Trigger → Log → Outcome (ScopedDecl × Log)
check_triggers env names [] log = ok (env.declarations, log)
check_triggers env names (trigger ∷ triggers) log = do
  (names', log1) ← check_trigger_name env.declarations names trigger log
  let inner = push env.declarations
  log2 ← check_expression (with_declarations env inner) trigger.expression log1
  declarations ← pop inner
  check_triggers (with_declarations env declarations) names' triggers log2
