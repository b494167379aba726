-- ===== src/Frontend/Naming/Check.antt =====
-- `NamingAnalysis::new` and `NamingAnalysis::check` of frontend/src/analysis/naming.rs, and the
-- imports of frontend/src/stdlib.rs.
use rtlola.Common.{if◌then◌else◌, Option, none, some, List, [], ◌∷◌, String, Outcome, ok, ◌>>=◌}
use text.Mathlib.Text.{◌==◌}
use rtlola.Frontend.Ast.{Import, Constant, Input, Output, RtLolaAst, Ty}
use rtlola.Frontend.Stdlib.{
  fun_cast, fun_sqrt, fun_cos, fun_sin, fun_abs, fun_arctan, fun_min, fun_max, matches_string_regex,
  FuncDecl,
}
use rtlola.Frontend.ValueTy.{ValueTy}
use rtlola.Frontend.ValueTy.Primitive.{TypeConfig, primitive_types}
use rtlola.Frontend.Naming.{Declaration, ScopedDecl, new, push, pop, add_scoped, add_fun_decl}
use rtlola.Frontend.Naming.Expressions.{Report, Log, Env, report, check_type}
use rtlola.Frontend.Naming.Specs.{
  with_declarations, add_decl_for, check_params, check_outputs, check_triggers,
}

unfoldable pub add_funs : ScopedDecl → List FuncDecl → Outcome ScopedDecl
add_funs scopes [] = ok scopes
add_funs scopes (fun ∷ funs) = do scopes' ← add_fun_decl scopes fun; add_funs scopes' funs

unfoldable pub import_implicit_module : ScopedDecl → Outcome ScopedDecl
import_implicit_module scopes = add_funs scopes (fun_cast ∷ [])

unfoldable pub import_math_module : ScopedDecl → Outcome ScopedDecl
import_math_module scopes =
    add_funs scopes (fun_sqrt ∷ fun_cos ∷ fun_sin ∷ fun_abs ∷ fun_arctan ∷ fun_min ∷ fun_max ∷ [])

unfoldable pub import_regex_module : ScopedDecl → Outcome ScopedDecl
import_regex_module scopes = add_funs scopes (matches_string_regex ∷ [])

unfoldable pub import_one : Import → ScopedDecl → Log → Outcome (ScopedDecl × Log)
import_one import scopes log =
    if import.name.name == "math"
    then (do scopes' ← import_math_module scopes; ok (scopes', log))
    else if import.name.name == "regex"
    then (do scopes' ← import_regex_module scopes; ok (scopes', log))
    else ok (scopes, report log (Report.unresolved_import import.name.name import.name.span))

unfoldable pub import_all : List Import → ScopedDecl → Log → Outcome (ScopedDecl × Log)
import_all [] scopes log = ok (scopes, log)
import_all (import ∷ imports) scopes log = do
  (scopes', log') ← import_one import scopes log
  import_all imports scopes' log'

unfoldable pub add_types : ScopedDecl → List (String × ValueTy) → Outcome ScopedDecl
add_types scopes [] = ok scopes
add_types scopes ((name, ty) ∷ tys) = do
  scopes' ← add_scoped scopes name (Declaration.type_decl ty)
  add_types scopes' tys

abbrev pub with_functions : Env → ScopedDecl → Env
with_functions env fun_declarations = record {
  declarations = env.declarations;
  type_declarations = env.type_declarations;
  fun_declarations = fun_declarations;
}

-- `NamingAnalysis::new`
unfoldable pub new_analysis : TypeConfig → Outcome (Env × Log)
new_analysis config = do
  types ← add_types new (primitive_types config)
  ok (
    record { declarations = new; type_declarations = push types; fun_declarations = new },
    record { result = []; reported = [] },
  )

unfoldable pub check_type_of : Env → Option Ty → Log → Outcome Log
check_type_of env none log = ok log
check_type_of env (some ty) log = check_type env ty log

-- the loops over the constants, the inputs and the outputs
unfoldable pub declare_constants : Env → List Constant → Log → Outcome (ScopedDecl × Log)
declare_constants env [] log = ok (env.declarations, log)
declare_constants env (constant ∷ constants) log = do
  (declarations, log1) ← add_decl_for (env.declarations, log) (Declaration.const constant)
  let env1 = with_declarations env declarations
  log2 ← check_type_of env1 constant.ty log1
  declare_constants env1 constants log2

unfoldable pub declare_input : Env → Input → Log → Outcome (ScopedDecl × Log)
declare_input env input log = do
  (declarations, log1) ← add_decl_for (env.declarations, log) (Declaration.in_decl input)
  let env1 = with_declarations env declarations
  log2 ← check_type env1 input.ty log1
  (inner, log3) ← check_params (with_declarations env (push declarations)) input.params log2
  outer ← pop inner
  ok (outer, log3)

unfoldable pub declare_inputs : Env → List Input → Log → Outcome (ScopedDecl × Log)
declare_inputs env [] log = ok (env.declarations, log)
declare_inputs env (input ∷ inputs) log = do
  (declarations, log') ← declare_input env input log
  declare_inputs (with_declarations env declarations) inputs log'

unfoldable pub output_declaration : Output → Declaration
output_declaration output = elim output.params [
  | [] ↦ Declaration.out output
  | _ ∷ _ ↦ Declaration.param_out output
]

unfoldable pub declare_outputs : Env → List Output → Log → Outcome (ScopedDecl × Log)
declare_outputs env [] log = ok (env.declarations, log)
declare_outputs env (output ∷ outputs) log = do
  (declarations, log1) ← add_decl_for (env.declarations, log) (output_declaration output)
  let env1 = with_declarations env declarations
  log2 ← check_type env1 output.ty log1
  declare_outputs env1 outputs log2

-- What `check` does after the imports.
unfoldable pub check_streams : Env → RtLolaAst → Log → Outcome (ScopedDecl × Log)
check_streams env spec log = do
  (d1, log1) ← declare_constants env spec.constants log
  (d2, log2) ← declare_inputs (with_declarations env d1) spec.inputs log1
  (d3, log3) ← declare_outputs (with_declarations env d2) spec.outputs log2
  (d4, log4) ← check_outputs (with_declarations env d3) spec.outputs log3
  check_triggers (with_declarations env d4) [] spec.trigger log4

-- The log of the analysis of a specification: the table that it returns, and what it reports.
unfoldable pub check : TypeConfig → RtLolaAst → Outcome Log
check config spec = do
  (env, log) ← new_analysis config
  funs ← import_implicit_module env.fun_declarations
  (funs', log1) ← import_all spec.imports funs log
  (_, log2) ← check_streams (with_functions env funs') spec log1
  ok log2
