-- ===== src/Frontend/Naming/Expressions.antt =====
-- `check_type`, `check_ident`, `check_function` and `check_expression` of
-- frontend/src/analysis/naming.rs. They read the declarations, and write the table of results and
-- the reports, which stand here with what their messages say.
use rtlola.Common.{
  ℕ, Option, none, some, List, [], ◌∷◌, ◌++◌, String, Outcome, ok, ◌>>=◌, ◌>>◌, assert, not,
}
use rtlola.Common.Sets.{put}
use rtlola.Frontend.Ast.{
  Ident, FunctionName, Ty, type_node, TypeKind, Tys, Expression, expr_node, ExpressionKind,
  Expressions,
}
use rtlola.Frontend.Graph.{Span}
use rtlola.Frontend.Stdlib.{to_string}
use rtlola.Frontend.Naming.{Declaration, ScopedDecl, is_type, is_function, get_decl_for}

pub data Report : Type 0 where
  reserved_keyword : String → Span → Report
  defined_multiple_times : String → Span → Option Span → Report
  unknown_type : String → Span → Report
  parameter_used_twice : String → Span → Span → Report
  unresolved_import : String → Span → Report
  trigger_defined_multiple_times : String → Span → Span → Report
  unknown_name : String → Span → Report
  unknown_function : String → Span → Report

pub record Log : Type 0 where
  pub result : List (ℕ × Declaration)
  pub reported : List Report

pub record Env : Type 0 where
  pub declarations : ScopedDecl
  pub type_declarations : ScopedDecl
  pub fun_declarations : ScopedDecl

unfoldable pub report : Log → Report → Log
report log r = record { result = log.result; reported = log.reported ++ (r ∷ []) }

unfoldable pub bind : Log → ℕ → Declaration → Log
bind log id decl = record { result = put log.result id decl; reported = log.reported }

module _ (env : Env) where
  unfoldable pub check_simple : String → ℕ → Span → Log → Outcome Log
  check_simple name id span log = elim (get_decl_for env.type_declarations name) [
    | some decl ↦ assert (is_type decl) >> ok (bind log id decl)
    | none ↦ ok (report log (Report.unknown_type name span))
  ]

  unfoldable mutual
    pub check_type : Ty → Log → Outcome Log
    check_type (type_node (TypeKind.simple name) id span) log = check_simple name id span log
    check_type (type_node (TypeKind.tuple elements) id span) log = check_types elements log
    check_type (type_node (TypeKind.optional ty) id span) log = check_type ty log
    check_type (type_node TypeKind.inferred id span) log = ok log

    pub check_types : Tys → Log → Outcome Log
    check_types Tys.nil log = ok log
    check_types (Tys.cons ty tys) log = do log' ← check_type ty log; check_types tys log'

  unfoldable pub check_ident : ℕ → Ident → Log → Outcome Log
  check_ident id ident log = elim (get_decl_for env.declarations ident.name) [
    | some decl ↦ assert (not (is_type decl)) >> ok (bind log id decl)
    | none ↦ ok (report log (Report.unknown_name ident.name ident.span))
  ]

  -- what is done where no function has the name
  unfoldable pub check_param_out : ℕ → FunctionName → Option Declaration → Log → Log
  check_param_out id name (some (Declaration.param_out output)) log =
      bind log id (Declaration.param_out output)
  check_param_out id name _ log =
      report log (Report.unknown_function (to_string name) name.name.span)

  unfoldable pub check_function : ℕ → FunctionName → Log → Outcome Log
  check_function id name log = elim (get_decl_for env.fun_declarations (to_string name)) [
    | some decl ↦ assert (is_function decl) >> ok (bind log id decl)
    | none ↦ ok (check_param_out id name (get_decl_for env.declarations name.name.name) log)
  ]

  unfoldable mutual
    pub check_expression : Expression → Log → Outcome Log
    check_expression (expr_node kind id span) log = check_kind kind id log

    pub check_kind : ExpressionKind → ℕ → Log → Outcome Log
    check_kind (ExpressionKind.ident name) id log = check_ident id name log
    check_kind (ExpressionKind.stream_access expr _) id log = check_expression expr log
    check_kind (ExpressionKind.offset expr _) id log = check_expression expr log
    check_kind (ExpressionKind.sliding_window_aggregation expr duration _ _) id log = do
      log1 ← check_expression expr log
      check_expression duration log1
    check_kind (ExpressionKind.binary _ left right) id log = do
      log1 ← check_expression left log
      check_expression right log1
    check_kind (ExpressionKind.lit _) id log = ok log
    check_kind ExpressionKind.missing_expression id log = ok log
    check_kind (ExpressionKind.ite condition if_case else_case) id log = do
      log1 ← check_expression condition log
      log2 ← check_expression if_case log1
      check_expression else_case log2
    check_kind (ExpressionKind.parenthesized_expression _ expr _) id log = check_expression expr log
    check_kind (ExpressionKind.unary _ expr) id log = check_expression expr log
    check_kind (ExpressionKind.field expr _) id log = check_expression expr log
    check_kind (ExpressionKind.tuple exprs) id log = check_expressions exprs log
    check_kind (ExpressionKind.function name types exprs) id log = do
      log1 ← check_function id name log
      log2 ← check_types types log1
      check_expressions exprs log2
    check_kind (ExpressionKind.default accessed default) id log = do
      log1 ← check_expression accessed log
      check_expression default log1
    check_kind (ExpressionKind.method expr _ types args) id log = do
      log1 ← check_expression expr log
      log2 ← check_types types log1
      check_expressions args log2

    pub check_expressions : Expressions → Log → Outcome Log
    check_expressions Expressions.nil log = ok log
    check_expressions (Expressions.cons expr exprs) log = do
      log1 ← check_expression expr log
      check_expressions exprs log1
