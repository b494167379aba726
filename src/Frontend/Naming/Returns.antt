-- ===== src/Frontend/Naming/Returns.antt =====
-- frontend/src/analysis/naming.rs: none of the assertions of the analysis of expressions and
-- parameters fails, and scopes are closed again.
use rtlola.Common.{
  ℕ, ◌≡◌, refl, Bool, true, false, not, Option-cases, inl, inr, String, Returns, Returns-ok,
  Returns-bind, Returns-assert,
}
use rtlola.Frontend.Ast.{
  Ident, FunctionName, Ty, type_node, TypeKind, Tys, Expression, expr_node, ExpressionKind,
  Expressions,
}
use rtlola.Frontend.Graph.{Span}
use rtlola.Frontend.Stdlib.{to_string}
use rtlola.Frontend.Naming.{Declaration, is_type, is_function, get_decl_for}
use rtlola.Frontend.Naming.Scoping.{Only}
use rtlola.Frontend.Naming.Expressions.{
  Log, Env, check_simple, check_type, check_types, check_ident, check_function, check_expression,
  check_kind, check_expressions,
}

abbrev pub Anything : Log → Type 0
Anything log = Unit {0}

-- A declaration of the specification, which has a name and a place.
abbrev pub is_user : Declaration → Bool
is_user (Declaration.type_decl _) = false
is_user (Declaration.func _) = false
is_user _ = true

pub is_user-is_type : (d : Declaration) → is_user d ≡ true → not (is_type d) ≡ true
unfolding is_type
is_user-is_type (Declaration.const _) h = refl
is_user-is_type (Declaration.in_decl _) h = refl
is_user-is_type (Declaration.out _) h = refl
is_user-is_type (Declaration.param_out _) h = refl
is_user-is_type (Declaration.type_decl _) h = cc
is_user-is_type (Declaration.param _) h = refl
is_user-is_type (Declaration.func _) h = cc

abbrev pub IsWell : Env → Type 0
IsWell env =
    Only is_user env.declarations
    × Only is_type env.type_declarations
    × Only is_function env.fun_declarations

module _ (env : Env) (well : IsWell env) where
  check_simple-Returns :
      (name : String) (id : ℕ) (span : Span) (log : Log)
      → Returns Anything (check_simple env name id span log)
  unfolding check_simple
  check_simple-Returns name id span log =
      elim (Option-cases (get_decl_for env.type_declarations name)) [
        | inl e ↦ rw (e, check_simple) (Returns-ok Anything _ tt)
        | inr (d, e) ↦
            rw (e, check_simple) (Returns-assert _ _ (well.1 name d e) (Returns-ok Anything _ tt))
      ]

  check_ident-Returns :
      (id : ℕ) (ident : Ident) (log : Log) → Returns Anything (check_ident env id ident log)
  unfolding check_ident
  check_ident-Returns id ident log =
      elim (Option-cases (get_decl_for env.declarations ident.name)) [
        | inl e ↦ rw (e, check_ident) (Returns-ok Anything _ tt)
        | inr (d, e) ↦
            rw (e, check_ident)
              (Returns-assert _ _ (is_user-is_type d (well.0 ident.name d e))
                (Returns-ok Anything _ tt))
      ]

  check_function-Returns :
      (id : ℕ) (name : FunctionName) (log : Log) → Returns Anything (check_function env id name log)
  unfolding check_function
  check_function-Returns id name log =
      elim (Option-cases (get_decl_for env.fun_declarations (to_string name))) [
        | inl e ↦ rw (e, check_function) (Returns-ok Anything _ tt)
        | inr (d, e) ↦
            rw (e, check_function)
              (Returns-assert _ _ (well.2 (to_string name) d e) (Returns-ok Anything _ tt))
      ]

  mutual
    unfolding check_type

    pub check_type-Returns : (ty : Ty) (log : Log) → Returns Anything (check_type env ty log)
    check_type-Returns (type_node (TypeKind.simple name) id span) log =
        check_simple-Returns name id span log
    check_type-Returns (type_node (TypeKind.tuple tys) id span) log = check_types-Returns tys log
    check_type-Returns (type_node (TypeKind.optional ty) id span) log = check_type-Returns ty log
    check_type-Returns (type_node TypeKind.inferred id span) log = Returns-ok Anything _ tt

    pub check_types-Returns : (tys : Tys) (log : Log) → Returns Anything (check_types env tys log)
    check_types-Returns Tys.nil log = Returns-ok Anything _ tt
    check_types-Returns (Tys.cons ty tys) log =
        Returns-bind _ _ (check_type-Returns ty log) λ l _. check_types-Returns tys l

  mutual
    unfolding check_expression

    pub check_expression-Returns :
        (expr : Expression) (log : Log) → Returns Anything (check_expression env expr log)
    check_expression-Returns (expr_node kind id span) log = check_kind-Returns kind id log

    check_kind-Returns :
        (kind : ExpressionKind) (id : ℕ) (log : Log) → Returns Anything (check_kind env kind id log)
    check_kind-Returns (ExpressionKind.ident name) id log = check_ident-Returns id name log
    check_kind-Returns (ExpressionKind.stream_access e _) id log = check_expression-Returns e log
    check_kind-Returns (ExpressionKind.offset e _) id log = check_expression-Returns e log
    check_kind-Returns (ExpressionKind.sliding_window_aggregation e d _ _) id log =
        Returns-bind _ _ (check_expression-Returns e log) λ l _. check_expression-Returns d l
    check_kind-Returns (ExpressionKind.binary _ a b) id log =
        Returns-bind _ _ (check_expression-Returns a log) λ l _. check_expression-Returns b l
    check_kind-Returns (ExpressionKind.lit _) id log = Returns-ok Anything _ tt
    check_kind-Returns ExpressionKind.missing_expression id log = Returns-ok Anything _ tt
    check_kind-Returns (ExpressionKind.ite c a b) id log =
        Returns-bind _ _ (check_expression-Returns c log) λ l _.
          Returns-bind _ _ (check_expression-Returns a l) λ l' _. check_expression-Returns b l'
    check_kind-Returns (ExpressionKind.parenthesized_expression _ e _) id log =
        check_expression-Returns e log
    check_kind-Returns (ExpressionKind.unary _ e) id log = check_expression-Returns e log
    check_kind-Returns (ExpressionKind.field e _) id log = check_expression-Returns e log
    check_kind-Returns (ExpressionKind.tuple es) id log = check_expressions-Returns es log
    check_kind-Returns (ExpressionKind.function name tys es) id log =
        Returns-bind _ _ (check_function-Returns id name log) λ l _.
          Returns-bind _ _ (check_types-Returns tys l) λ l' _. check_expressions-Returns es l'
    check_kind-Returns (ExpressionKind.default a b) id log =
        Returns-bind _ _ (check_expression-Returns a log) λ l _. check_expression-Returns b l
    check_kind-Returns (ExpressionKind.method e _ tys es) id log =
        Returns-bind _ _ (check_expression-Returns e log) λ l _.
          Returns-bind _ _ (check_types-Returns tys l) λ l' _. check_expressions-Returns es l'

    check_expressions-Returns :
        (es : Expressions) (log : Log) → Returns Anything (check_expressions env es log)
    check_expressions-Returns Expressions.nil log = Returns-ok Anything _ tt
    check_expressions-Returns (Expressions.cons e es) log =
        Returns-bind _ _ (check_expression-Returns e log) λ l _. check_expressions-Returns es l
