-- ===== src/Tests/Names.antt =====
-- A small specification, and the analysis of its names.
use rtlola.Common.{
  ℕ, ◌≡◌, refl, true, false, Bool, none, inl, inr, List, [], ◌∷◌, map, length, arith, String,
  Outcome, ok, Returns,
}
use rtlola.Common.Sets.{IsDistinct, put}
use rtlola.Ir.{IntTy, UIntTy}
use rtlola.Frontend.Ast.{
  Ident, Ty, type_node, TypeKind, Expression, expr_node, ExpressionKind, BinOp, Parameter, Input,
  Output, RtLolaAst,
}
use rtlola.Frontend.Graph.{Span}
use rtlola.Frontend.ValueTy.{ValueTy}
use rtlola.Frontend.ValueTy.Primitive.{TypeConfig, primitive_types}
use rtlola.Frontend.Stdlib.{
  fun_cast, function_name, new_arg_names, print_args, to_string, get_types_for_args_and_ret,
}
use rtlola.Frontend.Stdlib.Closed.{IsDeclared, IsClosedPair, get_types_for_args_and_ret-IsClosed}
use rtlola.Frontend.Naming.{
  Declaration, Scope, new, push, pop, store, is_type, is_function, get_decl_for, get_name, get_span,
  get_decl_in_current_scope_for, add_scoped, add_fun_decl,
}
use rtlola.Frontend.Naming.Scoping.{Only, Only-store}
use rtlola.Frontend.Naming.Expressions.{
  Report, Log, Env, report, bind, check_simple, check_type, check_ident, check_expression,
}
use rtlola.Frontend.Naming.Specs.{
  with_declarations, to_lowercase, same_codes, is_keyword, check_keyword, add_decl_for, add_param,
  check_param, check_params, check_optional, check_template, check_inside, check_output,
  check_outputs, check_triggers,
}
use rtlola.Frontend.Naming.Check.{
  add_funs, import_implicit_module, import_all, add_types, new_analysis, check_type_of,
  declare_constants, declare_input, declare_inputs, output_declaration, declare_outputs,
  check_streams, check,
}
use rtlola.Frontend.Naming.Returns.{is_user}
use rtlola.Frontend.Naming.Balanced.{Restores, check_output-Returns}
use rtlola.Frontend.Naming.Total.{check-Returns}
use rtlola.Frontend.Naming.Shadowing.{StandsFor, check_params-StandsFor}
use rtlola.Frontend.Naming.Binding.{use_id, uses}
use rtlola.Frontend.Naming.Binding.Uses.{IsBound, check_expression-Binds}

abbrev pub here : Span
here = record { start = 0; end = 1 }

abbrev pub named : String → Ident
named name = record { name = name; span = here }

abbrev type_called : String → ℕ → Ty
type_called name id = type_node (TypeKind.simple name) id here

abbrev pub called : String → ℕ → Expression
called name id = expr_node (ExpressionKind.ident (named name)) id here

-- `input a: Int8`
abbrev pub input_a : Input
input_a = record { name = named "a"; ty = type_called "Int8" 1; params = []; id = 2; span = here }

abbrev param_a : Parameter
param_a = record { name = named "a"; ty = type_called "Bool" 3; id = 4; span = here }

-- `a + missing`
abbrev sum_expr : Expression
sum_expr = expr_node (ExpressionKind.binary BinOp.add (called "a" 5) (called "missing" 6)) 7 here

-- `output x (a: Bool): Int8 := a + missing`
abbrev output_x : Output
output_x = record {
  name = named "x";
  ty = type_called "Int8" 8;
  extend = record { expr = none; id = 9; span = here };
  params = param_a ∷ [];
  template_spec = none;
  termination = none;
  expression = sum_expr;
  id = 10;
  span = here;
}

abbrev sample_spec : RtLolaAst
sample_spec = record {
  imports = [];
  constants = [];
  inputs = input_a ∷ [];
  outputs = output_x ∷ [];
  trigger = [];
  type_declarations = [];
}

abbrev all_types : TypeConfig
all_types = record { use_64bit_only = false; type_aliases = true }

abbrev reports_of : Outcome Log → List Report
reports_of (ok log) = log.reported
reports_of _ = []

-- The parameter `a` is not reported; the unknown name is.
reports_sample : reports_of (check all_types sample_spec) ≡ Report.unknown_name "missing" here ∷ []
unfolding check new_analysis add_types primitive_types add_scoped new import_implicit_module
    add_funs add_fun_decl import_all check_streams declare_constants declare_inputs declare_input
    add_decl_for is_type get_name get_span put check_type_of declare_outputs output_declaration bind
    check_expression check_ident check_simple check_type report add_param check_inside check_keyword
    check_optional check_output check_outputs check_param check_params check_template check_triggers
    is_keyword same_codes to_lowercase get_decl_for get_decl_in_current_scope_for is_function pop
    push store fun_cast function_name new_arg_names print_args to_string
reports_sample = refl

check-Returns_example : (log : Log) × (check all_types sample_spec ≡ ok log)
check-Returns_example = check-Returns all_types sample_spec

abbrev scope_a : Scope
scope_a = ("a", Declaration.in_decl input_a) ∷ []

abbrev empty_log : Log
empty_log = record { result = []; reported = [] }

abbrev env_a : Env
env_a = record { declarations = scope_a ∷ []; type_declarations = []; fun_declarations = [] }

scope_a-Only : Only is_user (scope_a ∷ [])
unfolding store get_decl_for
scope_a-Only = Only-store is_user [] [] "a" (Declaration.in_decl input_a) (λ name d e. cc) refl

nothing-Only : (p : Declaration → Bool) → Only p []
unfolding get_decl_for
nothing-Only p name d e = cc

IsDistinct-ids : IsDistinct (map use_id (uses sum_expr))
unfolding uses
IsDistinct-ids = (λ m. elim m [ inl e ↦ omega (arith, e) | inr n ↦ absurd n ], (λ m. absurd m, tt))

check_expression-Binds_example :
    Returns (IsBound env_a empty_log sum_expr) (check_expression env_a sum_expr empty_log)
check_expression-Binds_example =
    check_expression-Binds env_a sum_expr empty_log
      (scope_a-Only, nothing-Only is_type, nothing-Only is_function) IsDistinct-ids

check_output-Returns_example :
    Returns
      (Restores (scope_a ∷ []))
      (check_output (with_declarations env_a (scope_a ∷ [])) output_x empty_log)
check_output-Returns_example =
    check_output-Returns env_a (nothing-Only is_type) (nothing-Only is_function) scope_a [] output_x
      empty_log scope_a-Only

abbrev log_a : Log
log_a = record { result = []; reported = Report.unknown_type "Bool" here ∷ [] }

a-StandsFor : StandsFor "a" (Declaration.in_decl input_a) env_a.declarations
unfolding get_decl_for
a-StandsFor = refl

checks_a :
    check_params (with_declarations env_a (push env_a.declarations)) (param_a ∷ []) empty_log
    ≡ ok (push (scope_a ∷ []), log_a)
unfolding check_params check_param add_param get_decl_for push is_type get_decl_in_current_scope_for
    check_type check_simple report
checks_a = refl

check_params-StandsFor_example : StandsFor "a" (Declaration.in_decl input_a) (push (scope_a ∷ []))
check_params-StandsFor_example =
    check_params-StandsFor env_a (param_a ∷ []) empty_log log_a (push (scope_a ∷ [])) "a"
      (Declaration.in_decl input_a) a-StandsFor checks_a

cast-IsDeclared : IsDeclared fun_cast
cast-IsDeclared = inr (inr (inr (inr (inr (inr (inr (inr (inr (inr (inr (inl refl)))))))))))

cast_arity :
    length (ValueTy.int IntTy.i64 ∷ ValueTy.uint UIntTy.u64 ∷ []) ≡ length fun_cast.generics
unfolding fun_cast
cast_arity = refl

get_types_for_args_and_ret-IsClosed_example :
    Returns IsClosedPair
      (get_types_for_args_and_ret fun_cast (ValueTy.int IntTy.i64 ∷ ValueTy.uint UIntTy.u64 ∷ []))
get_types_for_args_and_ret-IsClosed_example =
    get_types_for_args_and_ret-IsClosed fun_cast
      (ValueTy.int IntTy.i64 ∷ ValueTy.uint UIntTy.u64 ∷ []) cast-IsDeclared cast_arity refl
